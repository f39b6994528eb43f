-- ===== src/Handlers/Session.antt =====
-- handlers/session.go: sessions of the administration page.
pub mod Valid
pub mod Login
pub mod Guarded
use gottem_link.Base.{
  ℕ, zero, suc, ◌+◌, ◌-◌, Str, Bool, true, false, not, ◌&&◌, ◌||◌, Option, none, some, List, [],
  ◌∷◌, ◌++◌, if◌then◌else◌, codes, eqb, Unicode, is_empty, length, leb, ltb, ◌==◌, split, cut,
}
use gottem_link.Base.Int.{ℤ, pos, negsuc}
use gottem_link.Base.Decimal.{parse_int, format_int}
use gottem_link.Handlers.Response.{decode_bounded}
use gottem_link.Handlers.Auth.{
  Crypto, Checked, challenged, unauthorized, forbidden, Next, serve, authorized,
}

-- Eight hours, in seconds.
abbrev pub session_lifetime : ℕ
session_lifetime = 28800

-- 8 << 10
abbrev pub max_session_body : ℕ
max_session_body = 8192

pub record SessionAuth : Type 0 where
  pub management_token_hash : Str
  pub token_fingerprint : Str
  pub secret : Str
  pub origin : Str
  pub secure_cookies : Bool

unfoldable pub new_session_auth : Crypto → Str → Str → Str → Bool → SessionAuth
new_session_auth c management_token session_secret origin secure_cookies = record {
  management_token_hash = c.sha256 management_token;
  token_fingerprint =
      c.hmac session_secret (codes "management-token-fingerprint" ++ (0 ∷ management_token));
  secret = session_secret;
  origin = origin;
  secure_cookies = secure_cookies;
}

-- What the handlers read of a request; a header that is missing is empty, and a cookie is the value
-- under the name of the session's cookie.
pub record Request : Type 0 where
  pub method : Str
  pub authorization : Str
  pub origin : Str
  pub cookie : Option Str
  pub body : Str

-- The attributes of a cookie that depend on the configuration or on the time. Every cookie has the
-- name gottem_session, the path / and the attributes HttpOnly and SameSite=Strict.
pub record Cookie : Type 0 where
  pub value : Str
  pub expires : ℕ
  pub max_age : ℤ
  pub secure : Bool

-- encoding/json on the body of a sign-in: a value from the front of a text, `token` being empty
-- where the field is missing, and whether only space is left.
pub record TokenCodec : Type 0 where
  pub decode_token : Str → Option (Str × Str)
  pub at_end : Str → Bool

-- 200 with the state of the session, 204 with a cookie, or an error.
pub data SessionReply : Type 0 where
  authenticated : Bool → SessionReply
  signed_in : Cookie → SessionReply
  signed_out : Cookie → SessionReply
  refused : ℕ → Str → SessionReply
  not_allowed : Str → SessionReply

unfoldable pub has_valid_bearer : Unicode → Crypto → SessionAuth → Request → Bool
unfolding authorized
has_valid_bearer uni c auth r =
    authorized uni c (auth.management_token_hash ∷ []) (cut b' ' r.authorization)

unfoldable pub has_expected_origin : SessionAuth → Request → Bool
has_expected_origin auth r = length r.origin == length auth.origin && eqb r.origin auth.origin

unfoldable pub is_unsafe_method : Str → Bool
is_unsafe_method method =
    not (eqb method (codes "GET"))
    && (not (eqb method (codes "HEAD")) && not (eqb method (codes "OPTIONS")))

-- `strconv.FormatInt(expires.Unix(), 10) + "." + hex.EncodeToString(fingerprint)`
unfoldable pub session_payload : Crypto → SessionAuth → ℕ → Str
session_payload c auth expires = format_int expires ++ (b'.' ∷ c.hex_encode auth.token_fingerprint)

unfoldable pub session_value : Crypto → SessionAuth → Str → Str
session_value c auth payload =
    c.base64_encode payload ++ (b'.' ∷ c.base64_encode (c.hmac auth.secret payload))

unfoldable pub set_session_cookie : Crypto → SessionAuth → ℕ → Cookie
unfolding session_payload session_value
set_session_cookie c auth now = record {
  value = session_value c auth (session_payload c auth (now + session_lifetime));
  expires = now + session_lifetime;
  max_age = pos session_lifetime;
  secure = auth.secure_cookies;
}

unfoldable pub clear_session_cookie : SessionAuth → Cookie
clear_session_cookie auth = record {
  value = [];
  expires = 1;
  max_age = negsuc 0;
  secure = auth.secure_cookies;
}

-- `auth.now().Unix() >= expires`
abbrev pub is_over : ℕ → ℤ → Bool
is_over now (pos expires) = leb expires now
is_over now (negsuc n) = true

-- The last field of a payload.
abbrev pub has_fingerprint : SessionAuth → Option Str → Bool
has_fingerprint auth none = false
has_fingerprint auth (some fingerprint) =
    length fingerprint == 32 && eqb fingerprint auth.token_fingerprint

abbrev pub is_current : ℕ → Option ℤ → Bool
is_current now none = false
is_current now (some expires) = not (is_over now expires)

-- The fields of a payload whose signature was checked.
unfoldable pub valid_fields : Crypto → SessionAuth → ℕ → List Str → Bool
valid_fields c auth now (expires ∷ fingerprint ∷ []) =
    is_current now (parse_int expires) && has_fingerprint auth (c.hex_decode fingerprint)
valid_fields c auth now parts = false

unfoldable pub valid_signed : Crypto → SessionAuth → ℕ → Option Str → Option Str → Bool
unfolding valid_fields
valid_signed c auth now none signature = false
valid_signed c auth now (some payload) none = false
valid_signed c auth now (some payload) (some signature) =
    eqb signature (c.hmac auth.secret payload) && valid_fields c auth now (split b'.' payload)

unfoldable pub valid_parts : Crypto → SessionAuth → ℕ → List Str → Bool
unfolding valid_signed
valid_parts c auth now (payload ∷ signature ∷ []) =
    valid_signed c auth now (c.base64_decode payload) (c.base64_decode signature)
valid_parts c auth now parts = false

unfoldable pub has_valid_session : Crypto → SessionAuth → ℕ → Option Str → Bool
unfolding valid_parts
has_valid_session c auth now none = false
has_valid_session c auth now (some cookie) = valid_parts c auth now (split b'.' cookie)

-- The token of a sign-in that is no JSON, or too long, or has something behind it, is `none`.
unfoldable pub sign_in : Crypto → SessionAuth → ℕ → Option Str → SessionReply
unfolding set_session_cookie
sign_in c auth now none = refused 400 (codes "invalid request")
sign_in c auth now (some token) =
    if is_empty token
    then refused 400 (codes "invalid request")
    else if eqb auth.management_token_hash (c.sha256 token)
    then signed_in (set_session_cookie c auth now)
    else refused 401 (codes "unauthorized")

unfoldable pub session_handler : Crypto → TokenCodec → SessionAuth → ℕ → Request → SessionReply
unfolding has_valid_session has_expected_origin clear_session_cookie sign_in
session_handler c json auth now r =
    if eqb r.method (codes "GET")
    then authenticated (has_valid_session c auth now r.cookie)
    else if eqb r.method (codes "POST")
    then if has_expected_origin auth r
      then sign_in c auth now (decode_bounded max_session_body json.at_end json.decode_token r.body)
      else refused 403 (codes "forbidden")
    else if eqb r.method (codes "DELETE")
    then if has_expected_origin auth r
      then signed_out (clear_session_cookie auth)
      else refused 403 (codes "forbidden")
    else not_allowed (codes "GET, POST, DELETE")

unfoldable pub browser_or_bearer_auth {ℓ κ} :
    {A : Type ℓ} {S : Type κ}
    → Unicode
    → Crypto
    → SessionAuth
    → ℕ
    → Request
    → Next A S
    → S
    → Checked A × S
unfolding has_valid_bearer has_valid_session has_expected_origin is_unsafe_method
browser_or_bearer_auth uni c auth now r next s =
    if not (is_empty r.authorization)
    then if has_valid_bearer uni c auth r then serve next s else (challenged, s)
    else if not (has_valid_session c auth now r.cookie)
    then (unauthorized, s)
    else if is_unsafe_method r.method && not (has_expected_origin auth r)
    then (forbidden, s)
    else serve next s
