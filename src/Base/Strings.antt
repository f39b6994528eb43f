-- ===== src/Base/Strings.antt =====
-- Go strings are sequences of bytes: lists of numbers. The functions are those of the package
-- `strings` that the program calls, on bytes.
use Prim.Native.Char.{code}
use Prim.Native.Nat.{ℕ, ◌+◌, ◌-◌, ◌^◌, ◌%◌}
use Prim.Native.String.{String}
use mathlib.Core.Path.{◌≡◌, refl, ap, ap₂}
use mathlib.Core.Logic.{◌↔◌}
use mathlib.Core.Bool.{Bool, true, false, ◌&&◌, ◌||◌}
use mathlib.Core.List.{List, [], ◌∷◌, map}
use mathlib.Core.Option.{Option, none, some}
use native.Mathlib.Omega.{arith}
use gottem_link.Base.Tests.{◌==◌, leb, ltb, if◌then◌else◌}
use gottem_link.Base.Lists.{all, drop, length}

abbrev pub Str : Type 0
Str = List ℕ

-- The bytes of an ASCII literal.
abbrev pub codes : String → Str
codes String.[] = []
codes (String.◌∷◌ c s) = code c ∷ codes s

unfoldable pub eqb : Str → Str → Bool
eqb [] [] = true
eqb [] (y ∷ ys) = false
eqb (x ∷ xs) [] = false
eqb (x ∷ xs) (y ∷ ys) = x == y && eqb xs ys

pub eqb_iff : (s t : Str) → (eqb s t ≡ true) ↔ (s ≡ t)
unfolding eqb
eqb_iff [] [] = ground arith
eqb_iff [] (y ∷ ys) = ground arith
eqb_iff (x ∷ xs) [] = ground arith
eqb_iff (x ∷ xs) (y ∷ ys) = ground (arith, eqb_iff xs ys)

pub eqb_refl : (s : Str) → eqb s s ≡ true
eqb_refl s = (eqb_iff s s).1 refl

pub length-eqb : (s t : Str) → eqb s t ≡ true → length s ≡ length t
length-eqb s t h = ap length ((eqb_iff s t).0 h)

-- strings.HasPrefix
unfoldable pub has_prefix : Str → Str → Bool
has_prefix s [] = true
has_prefix [] (p ∷ ps) = false
has_prefix (c ∷ s) (p ∷ ps) = c == p && has_prefix s ps

-- strings.TrimPrefix
unfoldable pub trim_prefix : Str → Str → Str
trim_prefix s p = if has_prefix s p then drop (length p) s else s

abbrev pub add_to_head : ℕ → List Str → List Str
add_to_head c [] = (c ∷ []) ∷ []
add_to_head c (w ∷ ws) = (c ∷ w) ∷ ws

-- strings.Split with a separator of one byte.
unfoldable pub split : ℕ → Str → List Str
split sep [] = [] ∷ []
split sep (c ∷ s) = let rest = split sep s in if c == sep then [] ∷ rest else add_to_head c rest

-- strings.Cut with a separator of one byte: the part before the first one and the part after it.
unfoldable pub cut : ℕ → Str → Option (Str × Str)
cut sep [] = none
cut sep (c ∷ s) =
    let rest = cut sep s in
    if c == sep
    then some ([], s)
    else elim rest [ none ↦ none | some (before, after) ↦ some (c ∷ before, after) ]

abbrev pub is_lower : ℕ → Bool
is_lower c = leb b'a' c && leb c b'z'

abbrev pub is_upper : ℕ → Bool
is_upper c = leb b'A' c && leb c b'Z'

abbrev pub is_digit : ℕ → Bool
is_digit c = leb b'0' c && leb c b'9'

-- `character + ('a' - 'A')` on a byte, for the upper-case ASCII letters.
unfoldable pub lower_byte : ℕ → ℕ
lower_byte c = if is_upper c then (c + (b'a' - b'A')) % 2 ^ 8 else c

abbrev pub lower : Str → Str
lower = map lower_byte

abbrev pub is_ascii : Str → Bool
is_ascii = all (λ c. ltb c 128)

-- What the program uses of Go's Unicode tables, on encoded texts and on code points.
pub record Unicode : Type 0 where
  -- strings.ToLower of a text that is not ASCII
  pub map_lower : Str → Str
  -- strings.EqualFold of two texts that are not both ASCII
  pub fold_eq : Str → Str → Bool
  -- the code points of a valid UTF-8 text, `none` for any other text
  pub decode : Str → Option (List ℕ)
  pub is_control : ℕ → Bool
  pub is_space : ℕ → Bool
  pub is_format : ℕ → Bool

-- strings.ToLower
unfoldable pub to_lower : Unicode → Str → Str
to_lower u s = if is_ascii s then lower s else u.map_lower s

-- strings.EqualFold
unfoldable pub equal_fold : Unicode → Str → Str → Bool
equal_fold u s t = if is_ascii s && is_ascii t then eqb (lower s) (lower t) else u.fold_eq s t

abbrev pub is_alnum : ℕ → Bool
is_alnum c = is_lower c || (is_upper c || is_digit c)

pub lower_byte_idem : (c : ℕ) → lower_byte (lower_byte c) ≡ lower_byte c
unfolding lower_byte
lower_byte_idem c = ground arith

pub lower_idem : (s : Str) → lower (lower s) ≡ lower s
lower_idem [] = refl
lower_idem (c ∷ s) = ap₂ (λ (d : ℕ) (t : Str). d ∷ t) (lower_byte_idem c) (lower_idem s)

pub length-lower : (s : Str) → length (lower s) ≡ length s
length-lower [] = refl
length-lower (c ∷ s) = omega (arith, length-lower s)
