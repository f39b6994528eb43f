-- ===== src/Handlers/Slug/Valid.antt =====
-- Every generated slug is a valid slug in canonical form.
use gottem_link.Base.{
  ℕ, zero, suc, ◌%◌, ◌/◌, ◌^◌, ◌<◌, Str, ◌≡◌, refl, arith, Bool, true, ◌&&◌, ok, some, Unicode,
  length,
}
use gottem_link.Validation.Slug.{validate_slug}
use gottem_link.Validation.Slug.Canonical.{plain, validate_plain}
use gottem_link.Handlers.Slug.{
  generated_slug_length, alphabet, byte_at, Random, forty_bits, generate_slug,
}

letter : ℕ → Bool
letter index = plain (byte_at alphabet index)

first_letters : ℕ → Bool
first_letters zero = true
first_letters (suc count) = first_letters count && letter count

letter_of : (count index : ℕ) → index < count → first_letters count ≡ true → letter index ≡ true
unfolding first_letters
letter_of zero index bound h = elim bound [ ]
letter_of (suc count) index bound h = ground (arith, letter_of count index)

alphabet-letters : first_letters 32 ≡ true
unfolding first_letters letter
alphabet-letters = refl

alphabet-plain : (x : ℕ) → plain (byte_at alphabet (x % 32)) ≡ true
unfolding letter
alphabet-plain x = letter_of 32 (x % 32) (omega arith) alphabet-letters

-- Whatever five bytes the random source gives, a slug of seven bytes is generated, and validation
-- accepts it unchanged.
pub validate-generate_slug :
    (u : Unicode) (random : Random)
    → (s : Str) × (generate_slug (some random) ≡ ok s)
      × (validate_slug u s ≡ ok s)
      × (length s ≡ generated_slug_length)
unfolding generate_slug
validate-generate_slug u random =
    let bits = forty_bits random in
    (
      _,
      refl,
      validate_plain u _ _
          (
            alphabet-plain (bits / 2 ^ 35),
            (
              alphabet-plain (bits / 2 ^ 30),
              (
                alphabet-plain (bits / 2 ^ 25),
                (
                  alphabet-plain (bits / 2 ^ 20),
                  (
                    alphabet-plain (bits / 2 ^ 15),
                    (alphabet-plain (bits / 2 ^ 10), (alphabet-plain (bits / 2 ^ 5), tt)),
                  ),
                ),
              ),
            ),
          )
          (omega arith) (omega arith),
      refl,
    )
