-- ===== src/Validation/Slug.antt =====
-- `ValidateSlug` of validation/validation.go.
pub mod Words
pub mod Canonical
use gottem_link.Base.{
  ℕ, ◌+◌, ◌-◌, ◌^◌, ◌%◌, Str, Bool, true, false, not, ◌&&◌, ◌||◌, Option, none, some, [], ◌∷◌,
  Result, ok, err, codes, eqb, has_prefix, Unicode, to_lower, is_lower, is_upper, is_digit,
  is_empty, length, ltb, ◌==◌, if◌then◌else◌,
}
use gottem_link.Validation.{ValidationError, invalid_slug, reserved_slug}

abbrev pub max_slug_length : ℕ
max_slug_length = 64

-- `slug[i-1] != '-'` for i > 0
abbrev pub after_dash : Option ℕ → Bool
after_dash none = true
after_dash (some c) = c == b'-'

-- One round of the loop's switch: the byte before the current one, the byte, and what follows it.
canonical_byte : Option ℕ → ℕ → Str → Option ℕ
canonical_byte before c rest =
    if is_lower c || is_digit c
    then some c
    else if is_upper c
    then some ((c + (b'a' - b'A')) % 2 ^ 8)
    else if c == b'-' && not (after_dash before) && not (is_empty rest)
    then some c
    else none

abbrev prepend : Option ℕ → Option Str → Option Str
prepend (some c) (some s) = some (c ∷ s)
prepend none s = none
prepend (some c) none = none

-- The loop over the bytes of the slug.
pub canonical_from : Option ℕ → Str → Option Str
canonical_from before [] = some []
canonical_from before (c ∷ rest) =
    prepend (canonical_byte before c rest) (canonical_from (some c) rest)

pub is_reserved : Str → Bool
is_reserved canonical =
    eqb canonical (codes "api")
    || (eqb canonical (codes "admin") || has_prefix canonical (codes ".well-known"))

abbrev or_invalid : Option Str → Result ValidationError Str
or_invalid none = err invalid_slug
or_invalid (some s) = ok s

unfoldable pub validate_slug : Unicode → Str → Result ValidationError Str
unfolding canonical_byte canonical_from is_reserved
validate_slug u slug =
    if length slug == 0 || ltb max_slug_length (length slug)
    then err invalid_slug
    else if is_reserved (to_lower u slug)
    then err reserved_slug
    else or_invalid (canonical_from none slug)
