-- ===== src/Handlers/Session/Login.antt =====
-- Who is signed in, and what a session opens.
use gottem_link.Base.{
  ℕ, ◌+◌, ◌≤◌, Str, Bool, false, not, ◌&&◌, Option, none, some, [], eqb, eqb_iff, eqb_refl,
  length-eqb, ltb, is_empty, ◌≡◌, ◌∙◌, ◌↔◌, inl, inr, refl, sym, ap, arith, Unicode, codes,
  if◌then◌else◌, Bool-cases,
}
use gottem_link.Base.Decimal.{max_int64}
use gottem_link.Handlers.Auth.{Crypto, CryptoLaws, Checked, unauthorized, forbidden, Next, serve}
use gottem_link.Handlers.Response.{decode_bounded}
use gottem_link.Handlers.Session.{
  SessionAuth, Request, Cookie, TokenCodec, signed_in, max_session_body, new_session_auth,
  session_lifetime, set_session_cookie, has_valid_session, has_expected_origin, is_unsafe_method,
  sign_in, session_handler, browser_or_bearer_auth,
}
use gottem_link.Handlers.Session.Valid.{own_cookie}

-- A request to sign in with a text that has the token's hash, from the page's own origin.
pub record SignsIn (c : Crypto) (json : TokenCodec) (auth : SessionAuth) (r : Request)
    : Type 0 where
  pub posted : r.method ≡ codes "POST"
  pub own_origin : r.origin ≡ auth.origin
  pub token : Str
  pub token_sent : decode_bounded max_session_body json.at_end json.decode_token r.body ≡ some token
  pub token_set : is_empty token ≡ false
  pub same_hash : auth.management_token_hash ≡ c.sha256 token

-- The test on the lengths adds nothing.
pub expected_origin_eqb :
    (auth : SessionAuth) (r : Request) → has_expected_origin auth r ≡ eqb r.origin auth.origin
unfolding has_expected_origin
expected_origin_eqb auth r = ground (arith, length-eqb r.origin auth.origin)

signed_in-injective : {k l : Cookie} → signed_in k ≡ signed_in l → k ≡ l
signed_in-injective h = cc

module _ (c : Crypto) (json : TokenCodec) (auth : SessionAuth) (now : ℕ) where
  sign_in_signed :
      (o : Option Str) (k : Cookie)
      → sign_in c auth now o ≡ signed_in k
      → (token : Str) × (o ≡ some token)
        × (is_empty token ≡ false)
        × (auth.management_token_hash ≡ c.sha256 token)
        × (k ≡ set_session_cookie c auth now)
  unfolding sign_in
  sign_in_signed none k h = cc
  sign_in_signed (some token) k h = elim (Bool-cases (is_empty token)) [
    | inl e ↦ cc (rw (sign_in, e) at h)
    | inr e ↦ elim (Bool-cases (eqb auth.management_token_hash (c.sha256 token))) [
      | inl g ↦ (
        token,
        refl,
        e,
        (eqb_iff auth.management_token_hash (c.sha256 token)).0 g,
        signed_in-injective (sym (rw (sign_in, e, g) at h)),
      )
      | inr g ↦ cc (rw (sign_in, e, g) at h)
    ]
  ]

  sign_in_complete :
      (token : Str)
      → is_empty token ≡ false
      → auth.management_token_hash ≡ c.sha256 token
      → sign_in c auth now (some token) ≡ signed_in (set_session_cookie c auth now)
  unfolding sign_in
  sign_in_complete token e h = rw (e, h, eqb_refl (c.sha256 token))

  signed_in_back :
      (r : Request) (k : Cookie)
      → session_handler c json auth now r ≡ signed_in k
      → SignsIn c json auth r × (k ≡ set_session_cookie c auth now)
  unfolding session_handler
  signed_in_back r k h = elim (Bool-cases (eqb r.method (codes "GET"))) [
    | inl e ↦ cc (rw (session_handler, e) at h)
    | inr e ↦ elim (Bool-cases (eqb r.method (codes "POST"))) [
      | inl p ↦ elim (Bool-cases (has_expected_origin auth r)) [
        | inl o ↦
            let (token, sent, set_, same, cookie) =
              sign_in_signed (decode_bounded max_session_body json.at_end json.decode_token r.body)
                k (rw (session_handler, e, p, o) at h) in
            (
              record {
                posted = (eqb_iff r.method (codes "POST")).0 p;
                own_origin =
                    (eqb_iff r.origin auth.origin).0 (sym (expected_origin_eqb auth r) ∙ o);
                token = token;
                token_sent = sent;
                token_set = set_;
                same_hash = same;
              },
              cookie,
            )
        | inr o ↦ cc (rw (session_handler, e, p, o) at h)
      ]
      | inr p ↦ elim (Bool-cases (eqb r.method (codes "DELETE"))) [
        | inl d ↦ elim (Bool-cases (has_expected_origin auth r)) [
          | inl o ↦ cc (rw (session_handler, e, p, d, o) at h)
          | inr o ↦ cc (rw (session_handler, e, p, d, o) at h)
        ]
        | inr d ↦ cc (rw (session_handler, e, p, d) at h)
      ]
    ]
  ]

  signed_in_forth :
      (r : Request)
      → SignsIn c json auth r
      → session_handler c json auth now r ≡ signed_in (set_session_cookie c auth now)
  unfolding session_handler eqb
  signed_in_forth r h =
      rw (h.posted, expected_origin_eqb auth r, h.own_origin, eqb_refl auth.origin, h.token_sent)
        (sign_in_complete h.token h.token_set h.same_hash)

  -- The handler of sessions sets a cookie exactly for a POST from the page's own origin with one
  -- JSON object of at most 8 KiB whose token is not empty and has the hash of the management token;
  -- the cookie is then the one of this time.
  pub signed_in_iff :
      (r : Request) (k : Cookie)
      → (session_handler c json auth now r ≡ signed_in k)
        ↔ (SignsIn c json auth r × (k ≡ set_session_cookie c auth now))
  signed_in_iff r k = (signed_in_back r k, λ (h, e). signed_in_forth r h ∙ ap signed_in (sym e))

-- What a request without the header Authorization meets.
abbrev pub by_session {ℓ κ} :
    {A : Type ℓ} {S : Type κ} → SessionAuth → Bool → Request → Next A S → S → Checked A × S
by_session auth valid q next s =
    if not valid
    then (unauthorized, s)
    else if is_unsafe_method q.method && not (eqb q.origin auth.origin)
    then (forbidden, s)
    else serve next s

module _ {ℓ κ} {A : Type ℓ} {S : Type κ} (uni : Unicode) (c : Crypto) (next : Next A S)
    (s : S) where
  without_authorization :
      (auth : SessionAuth) (t : ℕ) (q : Request)
      → q.authorization ≡ []
      → browser_or_bearer_auth uni c auth t q next s
        ≡ by_session auth (has_valid_session c auth t q.cookie) q next s
  unfolding browser_or_bearer_auth
  without_authorization auth t q h = rw (h, expected_origin_eqb auth q)

  -- The cookie of a sign-in opens the handlers behind the check for eight hours and no longer: to
  -- a request that sends it, and no header Authorization, the handler answers before the cookie's
  -- end, but for an unsafe method from another origin, and from the end on nothing is served.
  pub sign_in_opens :
      CryptoLaws c
      → (json : TokenCodec) (token secret origin : Str) (secure : Bool) (now t : ℕ) (r q : Request)
        (k : Cookie)
      → let auth = new_session_auth c token secret origin secure in
        now + session_lifetime ≤ max_int64
        → session_handler c json auth now r ≡ signed_in k
        → q.authorization ≡ []
        → q.cookie ≡ some k.value
        → browser_or_bearer_auth uni c auth t q next s
          ≡ by_session auth (ltb t (now + session_lifetime)) q next s
  sign_in_opens laws json token secret origin secure now t r q k bound signed bare sent =
      let auth = new_session_auth c token secret origin secure in
      without_authorization auth t q bare
      ∙ rw (sent, (signed_in_back c json auth now r k signed).1)
          (ap (λ valid. by_session auth valid q next s)
            (own_cookie c laws token secret origin secure t now bound))
