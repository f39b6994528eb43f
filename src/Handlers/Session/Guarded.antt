-- ===== src/Handlers/Session/Guarded.antt =====
-- Which requests the check of sessions and bearer tokens of handlers/session.go lets through.
use gottem_link.Base.{
  ℕ, Str, true, false, [], ◌∷◌, ◌++◌, codes, eqb, eqb_iff, equal_fold, is_empty, cut, Unicode, ◌≡◌,
  ◌⊎◌, inl, inr, refl, sym, subst, ap, arith, Bool-cases, Option-cases, if◌then◌else◌,
}
use gottem_link.Base.Decimal.{no_byte}
use gottem_link.Base.Splits.{cut_two, cut_joined}
use gottem_link.Handlers.Auth.{
  Crypto, Checked, challenged, unauthorized, forbidden, Next, serve, authorized,
}
use gottem_link.Handlers.Session.{
  SessionAuth, Request, has_valid_bearer, has_valid_session, is_unsafe_method,
  browser_or_bearer_auth,
}
use gottem_link.Handlers.Session.Login.{expected_origin_eqb}

-- The methods that change nothing.
pub data IsReading : Str → Type 0 where
  by_get : IsReading (codes "GET")
  by_head : IsReading (codes "HEAD")
  by_options : IsReading (codes "OPTIONS")

-- A header with the scheme Bearer and, after the first space, a text with the hash of the token.
pub record BearsToken (uni : Unicode) (c : Crypto) (hash header : Str) : Type 0 where
  pub scheme : Str
  pub supplied : Str
  pub written : header ≡ scheme ++ (b' ' ∷ supplied)
  pub first_space : no_byte b' ' scheme ≡ true
  pub is_bearer : equal_fold uni scheme (codes "Bearer") ≡ true
  pub supplied_set : is_empty supplied ≡ false
  pub same_hash : hash ≡ c.sha256 supplied

-- What a request must have: the token in the header Authorization, or without the header a valid
-- cookie, and then for a method that may change something the page's own origin.
pub data IsOpened (uni : Unicode) (c : Crypto) (auth : SessionAuth) (now : ℕ) (r : Request)
    : Type 0 where
  by_token :
      is_empty r.authorization ≡ false
      → BearsToken uni c auth.management_token_hash r.authorization
      → IsOpened uni c auth now r
  by_cookie :
      r.authorization ≡ []
      → has_valid_session c auth now r.cookie ≡ true
      → IsReading r.method ⊎ (r.origin ≡ auth.origin)
      → IsOpened uni c auth now r

-- The answers that a check gives itself.
pub data IsRefusal {ℓ} {A : Type ℓ} : Checked A → Type ℓ where
  by_challenge : IsRefusal challenged
  as_unauthorized : IsRefusal unauthorized
  as_forbidden : IsRefusal forbidden

reading-safe : (method : Str) → IsReading method → is_unsafe_method method ≡ false
unfolding is_unsafe_method eqb
reading-safe _ by_get = refl
reading-safe _ by_head = refl
reading-safe _ by_options = refl

safe-IsReading : (method : Str) → is_unsafe_method method ≡ false → IsReading method
unfolding is_unsafe_method
safe-IsReading method h = elim (Bool-cases (eqb method (codes "GET"))) [
  | inl e ↦ subst IsReading (sym ((eqb_iff method _).0 e)) by_get
  | inr no_get ↦ elim (Bool-cases (eqb method (codes "HEAD"))) [
    | inl e ↦ subst IsReading (sym ((eqb_iff method _).0 e)) by_head
    | inr no_head ↦
        subst IsReading
          (sym ((eqb_iff method (codes "OPTIONS")).0 (ground (arith, h, no_get, no_head))))
          by_options
  ]
]

is_empty_lem : (s : Str) → is_empty s ≡ true → s ≡ []
is_empty_lem [] h = refl
is_empty_lem (c ∷ s) h = cc

module _ (uni : Unicode) (c : Crypto) (auth : SessionAuth) (r : Request) where
  bearer_back :
      has_valid_bearer uni c auth r ≡ true
      → BearsToken uni c auth.management_token_hash r.authorization
  unfolding has_valid_bearer authorized
  bearer_back h = elim (Option-cases (cut b' ' r.authorization)) [
    | inl e ↦ cc (rw (has_valid_bearer, e) at h)
    | inr ((scheme, supplied), e) ↦
        let (written, first_space) = cut_joined b' ' r.authorization scheme supplied e in
        let passed = rw (has_valid_bearer, e) at h in
        record {
          scheme = scheme;
          supplied = supplied;
          written = written;
          first_space = first_space;
          is_bearer = ground (arith, passed);
          supplied_set = ground (arith, passed);
          same_hash =
              (eqb_iff auth.management_token_hash (c.sha256 supplied)).0 (ground (arith, passed));
        }
  ]

  bearer_forth :
      BearsToken uni c auth.management_token_hash r.authorization
      → has_valid_bearer uni c auth r ≡ true
  unfolding has_valid_bearer authorized
  bearer_forth h =
      rw
        (
          h.written,
          cut_two b' ' h.scheme h.supplied h.first_space,
          h.is_bearer,
          h.supplied_set,
          (eqb_iff auth.management_token_hash (c.sha256 h.supplied)).1 h.same_hash,
        )
        refl

module _ {ℓ κ} {A : Type ℓ} {S : Type κ} (uni : Unicode) (c : Crypto) (next : Next A S)
    (s : S) where
  abbrev pub IsDecided : SessionAuth → ℕ → Request → Checked A × S → Type (ℓ ⊔ κ)
  IsDecided auth t q r =
      (IsOpened uni c auth t q × (r ≡ serve next s))
      ⊎ ((IsOpened uni c auth t q → ⊥)
          × ((answer : Checked A) × IsRefusal answer × (r ≡ (answer, s))))

  refused :
      {auth : SessionAuth} {t : ℕ} {q : Request} {answer : Checked A}
      → (IsOpened uni c auth t q → ⊥)
      → IsRefusal answer
      → IsDecided auth t q (answer, s)
  refused {answer} closed refusal = inr (closed, (answer, refusal, refl))

  module _ (auth : SessionAuth) (t : ℕ) (q : Request) where
    with_header :
        is_empty q.authorization ≡ false
        → IsDecided auth t q
            (if has_valid_bearer uni c auth q then serve next s else (challenged, s))
    with_header set_ = elim (Bool-cases (has_valid_bearer uni c auth q)) [
      | inl e ↦ rw e (inl (by_token set_ (bearer_back uni c auth q e), refl))
      | inr e ↦ rw e (refused (no_token e) by_challenge)
    ]
      where
        no_token : has_valid_bearer uni c auth q ≡ false → IsOpened uni c auth t q → ⊥
        no_token e (by_token _ bears) = cc (bearer_forth uni c auth q bears, e)
        no_token e (by_cookie bare _ _) = cc (ap is_empty bare, set_)

    no_cookie :
        is_empty q.authorization ≡ true
        → has_valid_session c auth t q.cookie ≡ false
        → IsOpened uni c auth t q
        → ⊥
    no_cookie bare e (by_token set_ _) = cc (bare, set_)
    no_cookie bare e (by_cookie _ valid _) = cc (e, valid)

    foreign :
        is_empty q.authorization ≡ true
        → is_unsafe_method q.method ≡ true
        → eqb q.origin auth.origin ≡ false
        → IsOpened uni c auth t q
        → ⊥
    foreign bare unsafe other (by_token set_ _) = cc (bare, set_)
    foreign bare unsafe other (by_cookie _ _ (inl reading)) =
        cc (reading-safe q.method reading, unsafe)
    foreign bare unsafe other (by_cookie _ _ (inr same)) =
        cc ((eqb_iff q.origin auth.origin).1 same, other)

    -- The check of sessions and bearer tokens serves a request exactly where its header Authorization
    -- carries the token, or where it has no such header, its cookie is valid, and its method is GET,
    -- HEAD or OPTIONS or its origin is the page's own. It answers every other request itself, and
    -- nothing changes.
    pub browser_or_bearer_decides :
        IsDecided auth t q (browser_or_bearer_auth uni c auth t q next s)
    unfolding browser_or_bearer_auth
    browser_or_bearer_decides = elim (Bool-cases (is_empty q.authorization)) [
      | inr set_ ↦ rw (browser_or_bearer_auth, set_) (with_header set_)
      | inl bare ↦ elim (Bool-cases (has_valid_session c auth t q.cookie)) [
        | inr e ↦ rw (browser_or_bearer_auth, bare, e) (refused (no_cookie bare e) as_unauthorized)
        | inl valid ↦ elim (Bool-cases (is_unsafe_method q.method)) [
          | inr safe ↦
              rw (browser_or_bearer_auth, bare, valid, safe)
                (inl (
                  by_cookie (is_empty_lem q.authorization bare) valid
                      (inl (safe-IsReading q.method safe)),
                  refl,
                ))
          | inl unsafe ↦ elim (Bool-cases (eqb q.origin auth.origin)) [
            | inl own ↦
                rw (browser_or_bearer_auth, bare, valid, unsafe, expected_origin_eqb auth q, own)
                  (inl (
                    by_cookie (is_empty_lem q.authorization bare) valid
                        (inr ((eqb_iff q.origin auth.origin).0 own)),
                    refl,
                  ))
            | inr other ↦
                rw (browser_or_bearer_auth, bare, valid, unsafe, expected_origin_eqb auth q, other)
                  (refused (foreign bare unsafe other) as_forbidden)
          ]
        ]
      ]
    ]
