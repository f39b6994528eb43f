-- ===== src/Handlers/Auth/Bearer.antt =====
-- Which headers the check of bearer tokens accepts.
use mathlib.Core.List.{Memᴰ}
use gottem_link.Base.{
  Str, Bool, true, false, not, ◌||◌, Option, none, some, List, [], ◌∷◌, if◌then◌else◌, codes, eqb,
  eqb_iff, equal_fold, Unicode, is_empty, any, cut, ◌++◌, ◌≡◌, ◌⊎◌, inl, inr, refl, arith,
  Bool-cases, Option-cases,
}
use gottem_link.Base.Decimal.{no_byte}
use gottem_link.Base.Splits.{cut_two, cut_joined}
use gottem_link.Handlers.Auth.{
  Crypto, Next, serve, challenged, expected, authorized, bearer_auth_any,
}

-- A header with the scheme Bearer, in any case, and after the first space a text that has the hash
-- of a token that is set.
pub record Bears (uni : Unicode) (c : Crypto) (tokens : List Str) (header : Str) : Type 0 where
  pub scheme : Str
  pub supplied : Str
  pub token : Str
  pub written : header ≡ scheme ++ (b' ' ∷ supplied)
  pub first_space : no_byte b' ' scheme ≡ true
  pub is_bearer : equal_fold uni scheme (codes "Bearer") ≡ true
  pub supplied_set : is_empty supplied ≡ false
  pub known : Memᴰ token tokens
  pub token_set : is_empty token ≡ false
  pub same_hash : c.sha256 token ≡ c.sha256 supplied

module _ (c : Crypto) (supplied : Str) where
  any-expected :
      (tokens : List Str)
      → any (λ hash. eqb hash (c.sha256 supplied)) (expected c tokens) ≡ true
      → (token : Str) × Memᴰ token tokens
        × (is_empty token ≡ false)
        × (c.sha256 token ≡ c.sha256 supplied)
  unfolding expected
  any-expected [] h = cc
  any-expected (token ∷ tokens) h = elim (Bool-cases (is_empty token)) [
    | inl e ↦
        let (found, known, set_, same) = any-expected tokens (rw (expected, e) at h) in
        (found, Memᴰ.tail known, set_, same)
    | inr e ↦ elim (Bool-cases (eqb (c.sha256 token) (c.sha256 supplied))) [
      | inl g ↦ (token, Memᴰ.head refl, e, (eqb_iff (c.sha256 token) (c.sha256 supplied)).0 g)
      | inr g ↦
          let (found, known, set_, same) = any-expected tokens (rw (expected, e, g) at h) in
          (found, Memᴰ.tail known, set_, same)
    ]
  ]

  expected-any :
      (token : Str) (tokens : List Str)
      → Memᴰ token tokens
      → is_empty token ≡ false
      → c.sha256 token ≡ c.sha256 supplied
      → any (λ hash. eqb hash (c.sha256 supplied)) (expected c tokens) ≡ true
  unfolding expected
  expected-any token [] h e g = elim h [ ]
  expected-any token (other ∷ tokens) (Memᴰ.head same) e g =
      rw (← same, e, (eqb_iff (c.sha256 token) (c.sha256 supplied)).1 g)
  expected-any token (other ∷ tokens) (Memᴰ.tail h) e g = elim (Bool-cases (is_empty other)) [
    | inl f ↦ rw f (expected-any token tokens h e g)
    | inr f ↦ rw f (ground (arith, expected-any token tokens h e g))
  ]

any-is_empty {ℓ} : {A : Type ℓ} (p : A → Bool) (xs : List A) → any p xs ≡ true → is_empty xs ≡ false
any-is_empty p [] h = cc
any-is_empty p (x ∷ xs) h = refl

module _ (uni : Unicode) (c : Crypto) (tokens : List Str) where
  borne :
      (header : Str)
      → Bears uni c tokens header
      → authorized uni c (expected c tokens) (cut b' ' header) ≡ true
  unfolding authorized
  borne header h =
      rw (h.written, cut_two b' ' h.scheme h.supplied h.first_space, h.is_bearer, h.supplied_set)
        (expected-any c h.supplied h.token tokens h.known h.token_set h.same_hash)

  authorized-some :
      (header scheme supplied : Str)
      → cut b' ' header ≡ some (scheme, supplied)
      → authorized uni c (expected c tokens) (some (scheme, supplied)) ≡ true
      → Bears uni c tokens header
  unfolding authorized
  authorized-some header scheme supplied split_at h =
      let (written, first_space) = cut_joined b' ' header scheme supplied split_at in
      let passed : any (λ hash. eqb hash (c.sha256 supplied)) (expected c tokens) ≡ true =
        ground (arith, h) in
      let (token, known, token_set, same_hash) = any-expected c supplied tokens passed in
      record {
        scheme = scheme;
        supplied = supplied;
        token = token;
        written = written;
        first_space = first_space;
        is_bearer = ground (arith, h);
        supplied_set = ground (arith, h);
        known = known;
        token_set = token_set;
        same_hash = same_hash;
      }

  authorized_borne :
      (header : Str)
      → authorized uni c (expected c tokens) (cut b' ' header) ≡ true
      → Bears uni c tokens header
  unfolding authorized
  authorized_borne header h = elim (Option-cases (cut b' ' header)) [
    | inl e ↦ cc (rw (authorized, e) at h)
    | inr ((scheme, supplied), e) ↦ authorized-some header scheme supplied e (rw e at h)
  ]

  authorized-expected :
      (o : Option (Str × Str))
      → authorized uni c (expected c tokens) o ≡ true
      → is_empty (expected c tokens) ≡ false
  unfolding authorized
  authorized-expected none h = cc
  authorized-expected (some (scheme, supplied)) h =
      any-is_empty (λ hash. eqb hash (c.sha256 supplied)) (expected c tokens) (ground (arith, h))

  -- The check of bearer tokens serves a request exactly where its header has the scheme Bearer and a
  -- text with the hash of a token that is set; otherwise it answers with a challenge, and nothing
  -- changes.
  pub bearer_decides {ℓ κ} :
      {A : Type ℓ} {S : Type κ} (header : Str) (next : Next A S) (s : S)
      → (Bears uni c tokens header × (bearer_auth_any uni c tokens header next s ≡ serve next s))
        ⊎ ((Bears uni c tokens header → ⊥)
            × (bearer_auth_any uni c tokens header next s ≡ (challenged, s)))
  unfolding bearer_auth_any
  bearer_decides header next s =
      elim (Bool-cases (authorized uni c (expected c tokens) (cut b' ' header))) [
        | inl e ↦ inl (
          authorized_borne header e,
          rw (bearer_auth_any, authorized-expected (cut b' ' header) e, e) refl,
        )
        | inr e ↦ inr (λ h. cc (borne header h, e), refused (is_empty (expected c tokens)) e)
      ]
    where
      refused :
          (unset : Bool) {passed : Bool}
          → passed ≡ false
          → (if unset || not passed then (challenged, s) else serve next s) ≡ (challenged, s)
      refused unset h = ground (arith, h)
