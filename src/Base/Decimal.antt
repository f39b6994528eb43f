-- ===== src/Base/Decimal.antt =====
-- Decimal numbers as package `strconv` reads and writes them, on bytes.
use gottem_link.Base.{
  ℕ, zero, suc, ◌+◌, ◌-◌, ◌*◌, ◌^◌, ◌/◌, ◌%◌, ◌≤◌, ◌<◌, Str, Bool, true, false, not, Option, none,
  some, [], ◌∷◌, is_digit, if◌then◌else◌, ◌==◌, ltb, is_empty, all, ◌≡◌, refl, ◌∙◌, ap, arith,
}
use gottem_link.Base.Int.{ℤ, pos, negsuc}

abbrev pub max_int64 : ℕ
max_int64 = 2 ^ 63 - 1

-- The value of a run of digits after those read, `none` at any other byte.
digits_from : ℕ → Str → Option ℕ
digits_from n [] = some n
digits_from n (c ∷ s) =
    let rest = digits_from (n * 10 + (c - b'0')) s in if is_digit c then rest else none

unfoldable pub digits : Str → Option ℕ
unfolding digits_from
digits s = if is_empty s then none else digits_from 0 s

abbrev positive : Option ℕ → Option ℤ
positive none = none
positive (some n) = if ltb max_int64 n then none else some (pos n)

abbrev negative : Option ℕ → Option ℤ
negative none = none
negative (some zero) = some (pos 0)
negative (some (suc n)) = if ltb max_int64 n then none else some (negsuc n)

-- strconv.ParseInt(s, 10, 64), and strconv.Atoi where int has 64 bits.
unfoldable pub parse_int : Str → Option ℤ
unfolding digits
parse_int [] = none
parse_int (c ∷ s) =
    if c == b'-'
    then negative (digits s)
    else if c == b'+'
    then positive (digits s)
    else positive (digits (c ∷ s))

-- The digits of a number in front of those written, on fuel.
unfoldable pub format_digits : ℕ → ℕ → Str → Str
format_digits zero n written = written
format_digits (suc f) n written =
    let rest = format_digits f (n / 10) ((b'0' + n % 10) ∷ written) in
    if ltb n 10 then (b'0' + n) ∷ written else rest

-- strconv.FormatInt(n, 10) of a number that is not negative.
unfoldable pub format_int : ℕ → Str
format_int n = format_digits (suc n) n []

abbrev pub no_byte : ℕ → Str → Bool
no_byte b = all (λ c. not (c == b))

-- The fuel is enough: a number has fewer digits than its value and one.
digits_from-format_digits :
    (f n : ℕ) (written : Str)
    → n < f
    → digits_from 0 (format_digits f n written) ≡ digits_from n written
unfolding digits_from format_digits
digits_from-format_digits zero n written h = elim h [ ]
digits_from-format_digits (suc f) n written h =
    ground (arith, digits_from-format_digits f (n / 10) ((b'0' + n % 10) ∷ written))

-- Bytes that are all digits are read as a number without a sign.
parse_int_of_digits : (s : Str) → all is_digit s ≡ true → parse_int s ≡ positive (digits s)
unfolding parse_int digits
parse_int_of_digits [] h = refl
parse_int_of_digits (c ∷ s) h = ground (arith, h)

all-format_digits :
    (p : ℕ → Bool) (f n : ℕ) (written : Str)
    → ((c : ℕ) → is_digit c ≡ true → p c ≡ true)
    → n < f
    → all p written ≡ true
    → all p (format_digits f n written) ≡ true
unfolding format_digits
all-format_digits p zero n written digit h w = elim h [ ]
all-format_digits p (suc f) n written digit h w = ground (
  arith,
  w,
  digit (b'0' + n),
  digit (b'0' + n % 10),
  all-format_digits p f (n / 10) ((b'0' + n % 10) ∷ written) digit,
)

no_byte_of_digit : (b : ℕ) → is_digit b ≡ false → (c : ℕ) → is_digit c ≡ true → not (c == b) ≡ true
no_byte_of_digit b h c d = ground (arith, h, d)

pub no_byte-format_int : (b n : ℕ) → is_digit b ≡ false → no_byte b (format_int n) ≡ true
unfolding format_int
no_byte-format_int b n h =
    all-format_digits (λ c. not (c == b)) (suc n) n [] (no_byte_of_digit b h) (omega arith) refl

-- A number is printed with at least one digit.
digits-format_int : (n : ℕ) → digits (format_int n) ≡ some n
unfolding digits format_int format_digits
digits-format_int n = ground (arith, digits_from-format_digits (suc n) n [])

-- What is printed is read back.
pub parse_int-format_int : (n : ℕ) → n ≤ max_int64 → parse_int (format_int n) ≡ some (pos n)
unfolding format_int
parse_int-format_int n h =
    parse_int_of_digits (format_int n)
      (all-format_digits is_digit (suc n) n [] (λ c d. d) (omega arith) refl)
    ∙ ap positive (digits-format_int n)
    ∙ ground (arith, h)
