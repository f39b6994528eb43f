-- ===== src/Handlers/Access/Guarded.antt =====
-- Which requests the internal handlers let write.
use gottem_link.Base.{
  Str, true, false, [], ◌∷◌, ◌++◌, codes, eqb, eqb_iff, Unicode, is_empty, length, drop, has_prefix,
  trim_prefix, ◌≡◌, ◌⊎◌, inl, inr, refl, ap, ◌∙◌, arith, Bool-cases,
}
use gottem_link.Base.Url.{Net}
use gottem_link.Db.Sql.{Sqlite, Env}
use gottem_link.Db.Store.{Store}
use gottem_link.Handlers.Access.{
  InternalRequest, InternalCodec, request_is_loopback, access_token_matches, turned_away,
  internal_access_handler, internal_miss_handler,
}

has_prefix-drop : (s p : Str) → has_prefix s p ≡ true → s ≡ p ++ drop (length p) s
unfolding has_prefix
has_prefix-drop s [] h = refl
has_prefix-drop [] (c ∷ p) h = cc
has_prefix-drop (x ∷ s) (c ∷ p) h = ground (arith, h, has_prefix-drop s p)

-- A POST from a loopback address with the token, as it is or after `Bearer `.
pub record Inside (net : Net) (codec : InternalCodec) (token : Str) (r : InternalRequest)
    : Type 0 where
  pub token_set : is_empty token ≡ false
  pub posted : r.method ≡ codes "POST"
  pub loopback : request_is_loopback net codec r ≡ true
  pub carried : (r.authorization ≡ codes "Bearer " ++ token) ⊎ (r.authorization ≡ token)

trimmed-eq :
    (header p token : Str) → trim_prefix header p ≡ token → (header ≡ p ++ token) ⊎ (header ≡ token)
unfolding trim_prefix
trimmed-eq header p token h = elim (Bool-cases (has_prefix header p)) [
  | inl e ↦ inl (has_prefix-drop header p e ∙ ap (λ rest. p ++ rest) (rw (trim_prefix, e) at h))
  | inr e ↦ inr (rw (trim_prefix, e) at h)
]

carries_token :
    (r : InternalRequest) (token : Str)
    → access_token_matches r token ≡ true
    → (r.authorization ≡ codes "Bearer " ++ token) ⊎ (r.authorization ≡ token)
unfolding access_token_matches
carries_token r token h =
    let same : eqb (trim_prefix r.authorization (codes "Bearer ")) token ≡ true =
      ground (arith, h) in
    trimmed-eq r.authorization (codes "Bearer ") token
      ((eqb_iff (trim_prefix r.authorization (codes "Bearer ")) token).0 same)

module _ (net : Net) (codec : InternalCodec) (token : Str) (r : InternalRequest) where
  turned_away-Inside : turned_away net codec token r ≡ false → Inside net codec token r
  unfolding turned_away
  turned_away-Inside h = record {
    token_set = ground (arith, h);
    posted = (eqb_iff r.method (codes "POST")).0 (ground (arith, h));
    loopback = ground (arith, h);
    carried = carries_token r token (ground (arith, h));
  }

  -- A request from elsewhere, with another method or without the token writes nothing: an internal
  -- handler that changes the store has a POST from a loopback address that carries the token.
  pub writes-Inside :
      (uni : Unicode) (q : Sqlite) (env : Env) (s : Store)
      → Inside net codec token r
        ⊎ (((internal_access_handler net codec q env token r s).1 ≡ s)
            × ((internal_miss_handler uni net codec q env token r s).1 ≡ s))
  unfolding internal_access_handler internal_miss_handler
  writes-Inside uni q env s = elim (Bool-cases (turned_away net codec token r)) [
    | inl e ↦ inr (rw (internal_access_handler, e) refl, rw (internal_miss_handler, e) refl)
    | inr e ↦ inl (turned_away-Inside e)
  ]
