-- ===== src/Backup/Decode.antt =====
-- `Decode` and `MarshalJSON` of backup/backup.go.
pub mod RoundTrip
use gottem_link.Base.{
  ℕ, Str, Bool, true, false, not, ◌&&◌, Option, none, some, List, [], ◌∷◌, map, if◌then◌else◌,
  Result, ok, err, codes, eqb, length, leb, ltb, ◌==◌,
}
use gottem_link.Base.Int.{ℤ, pos, negsuc}
use gottem_link.Backup
use gottem_link.Backup.{Redirect, Envelope, Issue, validate, version, lifecycle_version}
use gottem_link.Backup.Json.{Token, has_unique_fields}

abbrev pub legacy_version : ℕ
legacy_version = 1

-- 1 << 20
abbrev pub max_bytes : ℕ
max_bytes = 1048576

-- The redirects on the wire: `none` for a field that is missing. An optional text is the JSON that
-- stands there.
pub record WireRedirectV1 : Type 0 where
  pub slug : Str
  pub url : Str
  pub disabled : Option Bool

pub record WireRedirectV2 : Type 0 where
  pub slug : Str
  pub url : Str
  pub disabled : Option Bool
  pub expires_at : Option Str
  pub destination_updated_at : Option Str

pub record WireRedirectV3 : Type 0 where
  pub slug : Str
  pub url : Str
  pub disabled : Option Bool
  pub expires_at : Option Str
  pub destination_updated_at : Option Str
  pub click_count : Option ℤ
  pub last_accessed_at : Option Str

-- Package encoding/json: the tokens of a decoder, json.Unmarshal of the version and of a text, and
-- strict decoders that read a value from the front and leave the rest.
pub record BackupJson : Type 0 where
  pub tokens : Str → List Token
  pub version_field : Str → Option ℤ
  pub decode_v1 : Str → Option (Option (List WireRedirectV1) × Str)
  pub decode_v2 : Str → Option (Option (List WireRedirectV2) × Str)
  pub decode_v3 : Str → Option (Option (List WireRedirectV3) × Str)
  pub at_end : Str → Bool
  pub unquote : Str → Option Str

pub data DecodeError : Type 0 where
  read_import too_large invalid_json : DecodeError
  invalid_redirects : List Issue → DecodeError
  unsupported_version : ℤ → DecodeError

-- decodeStrict, and the test that the redirects are there.
unfoldable pub decode_strict {ℓ} :
    {A : Type ℓ} → (Str → Bool) → (Str → Option (Option A × Str)) → Str → Option A
decode_strict at_end decode payload = elim (decode payload) [
  | none ↦ none
  | some (wire, rest) ↦ if at_end rest then wire else none
]

abbrev pub unquoted : Option Str → Option (Option Str)
unquoted none = none
unquoted (some s) = some (some s)

-- `none` for a missing field and for what is neither null nor a string.
unfoldable pub optional_text : BackupJson → Option Str → Option (Option Str)
optional_text json none = none
optional_text json (some json_text) =
    if eqb json_text (codes "null") then some none else unquoted (json.unquote json_text)

abbrev pub redirect_v1 : WireRedirectV1 → Option Bool → Option Redirect
redirect_v1 w none = none
redirect_v1 w (some disabled) = some (record {
  slug = w.slug;
  url = w.url;
  disabled = disabled;
  expires_at = none;
  destination_updated_at = [];
  click_count = pos 0;
  last_accessed_at = none;
})

abbrev pub redirect_v2 :
    Str → Str → Option Bool → Option (Option Str) → Option Str → Option Redirect
redirect_v2 slug url (some disabled) (some expires_at) (some updated_at) = some (record {
  slug = slug;
  url = url;
  disabled = disabled;
  expires_at = expires_at;
  destination_updated_at = updated_at;
  click_count = pos 0;
  last_accessed_at = none;
})
redirect_v2 slug url _ _ _ = none

abbrev pub with_usage : Option Redirect → Option ℤ → Option (Option Str) → Option Redirect
with_usage (some r) (some click_count) (some last_accessed_at) =
    some (record r { click_count = click_count; last_accessed_at = last_accessed_at })
with_usage _ _ _ = none

unfoldable pub from_v1 : WireRedirectV1 → Option Redirect
from_v1 w = redirect_v1 w w.disabled

unfoldable pub from_v2 : BackupJson → WireRedirectV2 → Option Redirect
unfolding optional_text
from_v2 json w =
    redirect_v2 w.slug w.url w.disabled (optional_text json w.expires_at) w.destination_updated_at

unfoldable pub from_v3 : BackupJson → WireRedirectV3 → Option Redirect
unfolding optional_text
from_v3 json w =
    with_usage
      (redirect_v2 w.slug w.url w.disabled (optional_text json w.expires_at)
        w.destination_updated_at)
      w.click_count (optional_text json w.last_accessed_at)

abbrev pub cons_redirect : Option Redirect → Option (List Redirect) → Option (List Redirect)
cons_redirect (some r) (some rs) = some (r ∷ rs)
cons_redirect _ _ = none

-- The loop over the redirects on the wire.
unfoldable pub collected {ℓ} :
    {W : Type ℓ} → (W → Option Redirect) → List W → Option (List Redirect)
collected from [] = some []
collected from (w ∷ ws) = cons_redirect (from w) (collected from ws)

abbrev pub collected_wire {ℓ} :
    {W : Type ℓ} → (W → Option Redirect) → Option (List W) → Option (List Redirect)
collected_wire from none = none
collected_wire from (some ws) = collected from ws

abbrev pub or_issues : Envelope → Option (List Issue) → Result DecodeError Envelope
or_issues envelope none = ok envelope
or_issues envelope (some issues) = err (invalid_redirects issues)

-- The envelope of the version's redirects, after its validation.
unfoldable pub checked_envelope :
    (Str → Bool) → ℕ → Option (List Redirect) → Result DecodeError Envelope
checked_envelope readable v none = err invalid_json
checked_envelope readable v (some redirects) =
    let envelope : Envelope = record { version = v; redirects = redirects } in
    or_issues envelope (validate readable envelope)

unfoldable pub decode_version :
    BackupJson → (Str → Bool) → Str → Option ℤ → Result DecodeError Envelope
unfolding checked_envelope collected decode_strict
decode_version json readable payload none = err invalid_json
decode_version json readable payload (some (negsuc n)) = err (unsupported_version (negsuc n))
decode_version json readable payload (some (pos v)) =
    if v == legacy_version
    then checked_envelope readable legacy_version
        (collected_wire from_v1 (decode_strict json.at_end json.decode_v1 payload))
    else if v == lifecycle_version
    then checked_envelope readable lifecycle_version
        (collected_wire (from_v2 json) (decode_strict json.at_end json.decode_v2 payload))
    else if v == version
    then checked_envelope readable version
        (collected_wire (from_v3 json) (decode_strict json.at_end json.decode_v3 payload))
    else err (unsupported_version (pos v))

-- The payload is `none` where it cannot be read; `readable` says whether time.Parse reads a text as RFC
-- 3339. The version in the envelope is the field that both decodings read.
unfoldable pub decode : BackupJson → (Str → Bool) → Option Str → Result DecodeError Envelope
unfolding decode_version
decode json readable none = err read_import
decode json readable (some payload) =
    if ltb max_bytes (length payload)
    then err too_large
    else if not (has_unique_fields (json.tokens payload))
    then err invalid_json
    else decode_version json readable payload (json.version_field payload)

-- json.Marshal on the three structs that MarshalJSON fills.
pub record Marshal : Type 0 where
  pub legacy : ℕ → List (Str × Str × Bool) → Option Str
  pub lifecycle : ℕ → List (Str × Str × Bool × Option Str × Str) → Option Str
  pub current : Envelope → Option Str

unfoldable pub marshal_json : Marshal → Envelope → Option Str
marshal_json m e =
    if e.version == legacy_version
    then m.legacy e.version (map (λ r. (r.slug, r.url, r.disabled)) e.redirects)
    else if e.version == lifecycle_version
    then m.lifecycle e.version
        (map (λ r. (r.slug, r.url, r.disabled, r.expires_at, r.destination_updated_at)) e.redirects)
    else m.current e
