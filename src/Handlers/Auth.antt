-- ===== src/Handlers/Auth.antt =====
-- handlers/auth.go: the check of bearer tokens; and what authentication uses of the packages crypto
-- and encoding.
pub mod Bearer
use gottem_link.Base.{
  ℕ, Str, Bool, true, false, not, ◌&&◌, ◌||◌, Option, none, some, List, [], ◌∷◌, if◌then◌else◌,
  codes, eqb, equal_fold, Unicode, is_empty, length, any, keep, map, cut, ◌++◌, ◌≡◌,
}
use gottem_link.Base.Decimal.{no_byte}

-- Hashes and codings of bytes.
pub record Crypto : Type 0 where
  pub sha256 : Str → Str
  -- hmac.New with SHA-256 and the secret, the message written, and its sum
  pub hmac : Str → Str → Str
  -- base64.RawURLEncoding
  pub base64_encode : Str → Str
  pub base64_decode : Str → Option Str
  pub hex_encode : Str → Str
  pub hex_decode : Str → Option Str

-- A sum has 32 bytes, what is encoded is decoded, and neither alphabet has a dot.
pub record CryptoLaws (c : Crypto) : Type 0 where
  pub hmac_size : (secret message : Str) → length (c.hmac secret message) ≡ 32
  pub base64_back : (s : Str) → c.base64_decode (c.base64_encode s) ≡ some s
  pub hex_back : (s : Str) → c.hex_decode (c.hex_encode s) ≡ some s
  pub base64_no_dot : (s : Str) → no_byte b'.' (c.base64_encode s) ≡ true
  pub hex_no_dot : (s : Str) → no_byte b'.' (c.hex_encode s) ≡ true

-- What a check in front of a handler answers itself, with the header WWW-Authenticate or without it,
-- or what the handler answers.
pub data Checked {ℓ} (A : Type ℓ) : Type ℓ where
  challenged : Checked A
  unauthorized : Checked A
  forbidden : Checked A
  served : A → Checked A

-- A handler that the check stands before, on the state that it changes.
abbrev pub Next {ℓ κ} : Type ℓ → Type κ → Type (ℓ ⊔ κ)
Next A S = S → A × S

abbrev pub serve {ℓ κ} : {A : Type ℓ} {S : Type κ} → Next A S → S → Checked A × S
serve next s = let (a, s') = next s in (served a, s')

-- `expected` of BearerAuthAny: the hashes of the tokens that are set.
unfoldable pub expected : Crypto → List Str → List Str
expected c tokens = map c.sha256 (keep (λ token. not (is_empty token)) tokens)

-- The header after strings.Cut: the scheme is Bearer and the token's hash is an expected one.
unfoldable pub authorized : Unicode → Crypto → List Str → Option (Str × Str) → Bool
authorized uni c hashes none = false
authorized uni c hashes (some (scheme, supplied)) =
    equal_fold uni scheme (codes "Bearer")
    && (not (is_empty supplied) && any (λ hash. eqb hash (c.sha256 supplied)) hashes)

unfoldable pub bearer_auth_any {ℓ κ} :
    {A : Type ℓ} {S : Type κ} → Unicode → Crypto → List Str → Str → Next A S → S → Checked A × S
unfolding expected authorized
bearer_auth_any uni c tokens authorization next s =
    if is_empty (expected c tokens)
      || not (authorized uni c (expected c tokens) (cut b' ' authorization))
    then (challenged, s)
    else serve next s

unfoldable pub bearer_auth {ℓ κ} :
    {A : Type ℓ} {S : Type κ} → Unicode → Crypto → Str → Str → Next A S → S → Checked A × S
unfolding bearer_auth_any
bearer_auth uni c token = bearer_auth_any uni c (token ∷ [])
