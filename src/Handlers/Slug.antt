-- ===== src/Handlers/Slug.antt =====
-- handlers/slug.go: the generator of random slugs.
pub mod Valid
use gottem_link.Base.{
  ℕ, zero, suc, ◌+◌, ◌*◌, ◌/◌, ◌%◌, ◌^◌, Str, List, [], ◌∷◌, Option, none, some, Result, ok, err,
  codes, take, ◌>>=◌, map,
}

abbrev pub generated_slug_length : ℕ
generated_slug_length = 7

-- The alphabet of `slugEncoding`.
abbrev pub alphabet : Str
alphabet = codes "abcdefghijklmnopqrstuvwxyz234567"

abbrev byte_at : Str → ℕ → ℕ
byte_at [] i = 0
byte_at (c ∷ s) zero = c
byte_at (c ∷ s) (suc i) = byte_at s i

-- Five random bytes, what `io.ReadFull` fills.
pub record Random : Type 0 where
  pub b0 : ℕ
  pub b1 : ℕ
  pub b2 : ℕ
  pub b3 : ℕ
  pub b4 : ℕ

unfoldable pub forty_bits : Random → ℕ
forty_bits r = (((r.b0 * 256 + r.b1) * 256 + r.b2) * 256 + r.b3) * 256 + r.b4

-- Forty bits in groups of five, the highest first: base32 without padding of five bytes.
quintets : Random → List ℕ
quintets r =
    map (λ shift. (forty_bits r / 2 ^ shift) % 32) (35 ∷ 30 ∷ 25 ∷ 20 ∷ 15 ∷ 10 ∷ 5 ∷ 0 ∷ [])

encode_to_string : Random → Str
encode_to_string r = map (byte_at alphabet) (quintets r)

-- The error of a reader that gave fewer than five bytes.
pub data GenerateError : Type 0 where
  read_failed : GenerateError

unfoldable pub generate_slug : Option Random → Result GenerateError Str
unfolding quintets encode_to_string
generate_slug none = err read_failed
generate_slug (some random) = ok (take generated_slug_length (encode_to_string random))
