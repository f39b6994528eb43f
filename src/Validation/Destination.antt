-- ===== src/Validation/Destination.antt =====
-- `ValidateDestination` of validation/validation.go and its helpers.
pub mod Hostname
pub mod Port
pub mod Shape
use gottem_link.Base.{
  ℕ, zero, suc, ◌+◌, Str, Bool, true, false, not, ◌&&◌, ◌||◌, Option, none, some, List, [], ◌∷◌,
  Result, ok, err, codes, eqb, has_prefix, Unicode, equal_fold, is_lower, is_upper, is_digit,
  is_empty, length, ltb, leb, ◌==◌, if◌then◌else◌, all, any, split, drop, is_some,
}
use gottem_link.Base.Int.{ℤ, pos, negsuc}
use gottem_link.Base.Decimal.{parse_int}
use gottem_link.Base.Url.{Url, Net}
use gottem_link.Validation.{ValidationError, invalid_destination}

abbrev pub max_destination_bytes : ℕ
max_destination_bytes = 2048

-- strings.LastIndexByte
unfoldable pub last_index_byte : ℕ → Str → Option ℕ
last_index_byte b [] = none
last_index_byte b (c ∷ s) = elim (last_index_byte b s) [
  | some i ↦ some (suc i)
  | none ↦ if c == b then some 0 else none
]

-- The port with the flag that says that it is there.
unfoldable pub explicit_port : Str → Str × Bool
unfolding last_index_byte
explicit_port host =
    if has_prefix host (codes "[")
    then elim (last_index_byte b']' host) [
      | none ↦ ([], false)
      | some closing ↦
          if suc closing == length host then ([], false) else (drop (closing + 2) host, true)
    ]
    else elim (last_index_byte b':' host) [
      | none ↦ ([], false)
      | some colon ↦ (drop (colon + 1) host, true)
    ]

abbrev pub last_byte : ℕ → Str → ℕ
last_byte c [] = c
last_byte c (d ∷ s) = last_byte d s

abbrev pub label_byte : ℕ → Bool
label_byte c = is_lower c || (is_upper c || (is_digit c || c == b'-'))

-- The tests on one label of a host name.
unfoldable pub valid_label : Str → Bool
valid_label [] = false
valid_label (c ∷ s) =
    not (ltb 63 (length (c ∷ s)) || (c == b'-' || last_byte c s == b'-')) && all label_byte (c ∷ s)

unfoldable pub is_dotted_numeric : Str → Bool
is_dotted_numeric hostname =
    any (λ c. c == b'.') hostname && all (λ c. c == b'.' || is_digit c) hostname

unfoldable pub valid_hostname : Net → Str → Bool
unfolding is_dotted_numeric valid_label
valid_hostname net hostname =
    if is_some (net.parse_ip hostname)
    then true
    else if ltb 253 (length hostname) || is_dotted_numeric hostname
    then false
    else all valid_label (split b'.' hostname)

abbrev pub port_in_range : Option ℤ → Bool
port_in_range none = false
port_in_range (some (negsuc n)) = false
port_in_range (some (pos n)) = leb 1 n && leb n 65535

abbrev pub valid_port : Str × Bool → Bool
valid_port (port, explicit) = if explicit then port_in_range (parse_int port) else true

unfoldable pub valid_authority : Net → Url → Bool
unfolding valid_hostname explicit_port
valid_authority net parsed =
    if is_empty parsed.hostname || not (valid_hostname net parsed.hostname)
    then false
    else valid_port (explicit_port parsed.host)

-- The loop over the code points of a text that is valid UTF-8.
unfoldable pub contains_unsafe_character : Unicode → List ℕ → Bool
contains_unsafe_character u =
    any (λ character. u.is_control character || (u.is_space character || u.is_format character))

-- `!utf8.ValidString(destination) || containsUnsafeCharacter(destination)`
unfoldable pub unreadable : Unicode → Option (List ℕ) → Bool
unfolding contains_unsafe_character
unreadable u none = true
unreadable u (some characters) = contains_unsafe_character u characters

unfoldable pub refused_url : Unicode → Net → Option Url → Bool
unfolding valid_authority
refused_url u net none = true
refused_url u net (some parsed) =
    not (equal_fold u parsed.scheme (codes "http"))
      && not (equal_fold u parsed.scheme (codes "https"))
    || (parsed.has_user || not (valid_authority net parsed))

unfoldable pub validate_destination : Unicode → Net → Str → Result ValidationError Str
validate_destination u net destination =
    if is_empty destination
      || (ltb max_destination_bytes (length destination) || unreadable u (u.decode destination))
    then err invalid_destination
    else if refused_url u net (net.parse_url destination)
    then err invalid_destination
    else ok destination
