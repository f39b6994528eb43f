-- ===== src/Examples/Sessions.antt =====
-- Examples for handlers/auth.go and handlers/session.go.

use gottem_link.Base.{
  ℕ, zero, suc, ◌+◌, ◌-◌, Str, true, false, Option, none, some, [], ◌∷◌, map, codes, eqb, length,
  ◌≡◌, ◌⊎◌, refl, ap, ap₂, arith,
}
use gottem_link.Base.Decimal.{no_byte}
use gottem_link.Examples.{ascii}
use gottem_link.Handlers.Auth.{Crypto, CryptoLaws, Next, served, challenged, bearer_auth_any}
use gottem_link.Handlers.Auth.Bearer.{Bears, bearer_decides}
use gottem_link.Handlers.Response.{decode_bounded}
use gottem_link.Handlers.Session.{
  SessionAuth, Request, TokenCodec, new_session_auth, set_session_cookie, has_valid_session,
  has_expected_origin, is_unsafe_method, sign_in, session_handler, browser_or_bearer_auth,
}
use gottem_link.Handlers.Session.Valid.{session_decides}
use gottem_link.Handlers.Session.Login.{sign_in_opens}
use gottem_link.Handlers.Session.Guarded.{IsDecided, browser_or_bearer_decides}

abbrev repeat : ℕ → ℕ → Str
repeat zero c = []
repeat (suc n) c = c ∷ repeat n c

-- An alphabet above the dot.
abbrev raise : Str → Str
raise = map (λ c. c + 47)

abbrev lower_back : Str → Str
lower_back = map (λ c. c - 47)

abbrev crypto : Crypto
crypto = record {
  sha256 = λ s. s;
  hmac = λ secret message. repeat 32 (length secret);
  base64_encode = raise;
  base64_decode = λ s. some (lower_back s);
  hex_encode = raise;
  hex_decode = λ s. some (lower_back s);
}

raised_back : (s : Str) → ◌≡◌ {A = Option Str} (some (lower_back (raise s))) (some s)
raised_back s = ap some (back s)
  where
    back : (s : Str) → lower_back (raise s) ≡ s
    back [] = refl
    back (c ∷ s) = ap₂ (λ (d : ℕ) (t : Str). d ∷ t) (omega arith) (back s)

raised_no_dot : (s : Str) → no_byte b'.' (raise s) ≡ true
raised_no_dot [] = refl
raised_no_dot (c ∷ s) = ground (arith, raised_no_dot s)

crypto_laws : CryptoLaws crypto
crypto_laws = record {
  hmac_size = λ secret message. refl;
  base64_back = raised_back;
  hex_back = raised_back;
  base64_no_dot = raised_no_dot;
  hex_no_dot = raised_no_dot;
}

-- The body is the token.
abbrev json : TokenCodec
json = record { decode_token = λ s. some (s, []); at_end = λ s. true }

abbrev manage : Str
manage = codes "manage"

abbrev secret : Str
secret = codes "a secret"

abbrev origin : Str
origin = codes "https://gottem.link"

abbrev auth : SessionAuth
auth = new_session_auth crypto manage secret origin true

abbrev count : Next Str ℕ
count n = (codes "counted", suc n)

abbrev request : Str → Str → Option Str → Str → Request
request method origin cookie body = record {
  method = method;
  authorization = [];
  origin = origin;
  cookie = cookie;
  body = body;
}

-- A server with another secret.
abbrev rotated : SessionAuth
rotated = new_session_auth crypto manage (codes "another secret") origin true

session_decides_example :
    has_valid_session crypto rotated 200 (some (set_session_cookie crypto auth 100).value) ≡ false
unfolding new_session_auth eqb
session_decides_example = session_decides crypto crypto_laws auth rotated 200 100 (omega arith) refl

sign_in_opens_example :
    browser_or_bearer_auth ascii crypto auth 200
      (request (codes "GET") [] (some (set_session_cookie crypto auth 100).value) [])
      count
      6
    ≡ (served (codes "counted"), 7)
unfolding session_handler new_session_auth is_unsafe_method eqb has_expected_origin sign_in
    decode_bounded
sign_in_opens_example =
    sign_in_opens ascii crypto count 6 crypto_laws json manage secret origin true 100 200
      (request (codes "POST") origin none manage)
      (request (codes "GET") [] (some (set_session_cookie crypto auth 100).value) [])
      (set_session_cookie crypto auth 100) (omega arith) refl refl refl

browser_or_bearer_decides_example :
    IsDecided ascii crypto count 6 auth 200
      (request
        (codes "PUT")
        (codes "https://elsewhere")
        (some (set_session_cookie crypto auth 100).value)
        [])
      (browser_or_bearer_auth ascii crypto auth 200
        (request
          (codes "PUT")
          (codes "https://elsewhere")
          (some (set_session_cookie crypto auth 100).value)
          [])
        count
        6)
browser_or_bearer_decides_example = browser_or_bearer_decides ascii crypto count 6 auth 200 (
    request (codes "PUT") (codes "https://elsewhere")
      (some (set_session_cookie crypto auth 100).value) [])

abbrev header : Str
header = codes "bearer backup"

bearer_decides_example :
    (Bears ascii crypto (manage ∷ codes "backup" ∷ []) header
      × (bearer_auth_any ascii crypto (manage ∷ codes "backup" ∷ []) header count 6
          ≡ (served (codes "counted"), 7)))
    ⊎ ((Bears ascii crypto (manage ∷ codes "backup" ∷ []) header → ⊥)
        × (bearer_auth_any ascii crypto (manage ∷ codes "backup" ∷ []) header count 6
            ≡ (challenged, 6)))
bearer_decides_example = bearer_decides ascii crypto (manage ∷ codes "backup" ∷ []) header count 6
