-- ===== src/Validation/Slug/Canonical.antt =====
-- `ValidateSlug` against a description of slugs by words, and its dependence on letter case.

use gottem_link.Base.{
  ℕ, Str, Bool, true, false, ◌||◌, none, [], ◌∷◌, ◌≡◌, refl, sym, ◌∙◌, arith, split, lower,
  lower_byte, lower_idem, length-lower, is_alnum, is_ascii, is_empty, ◌==◌, if◌then◌else◌,
  Bool-cases, inl, inr, Result, ok, err, Unicode, to_lower, length, ltb, ap, ap₂, is_lower,
  is_digit, All, ◌||◌, Bool, has_prefix, length-eqb, codes, ◌<◌, ◌≤◌,
}
use gottem_link.Validation.{ValidationError, invalid_slug, reserved_slug}
use gottem_link.Validation.Slug.{
  max_slug_length, canonical_from, is_reserved, or_invalid, validate_slug,
}
use gottem_link.Validation.Slug.Words.{
  continues_nil, has_words, continues, has_words-cons, continues-cons, canonical_from_lem,
}

-- The rules for slugs, with no loop: a length, the reserved names, words joined by dashes.
pub slug_reference : Unicode → Str → Result ValidationError Str
slug_reference u s =
    if ltb (length s) 1 || ltb max_slug_length (length s)
    then err invalid_slug
    else if is_reserved (to_lower u s)
    then err reserved_slug
    else if has_words s
    then ok (lower s)
    else err invalid_slug

canonical_from_start :
    (s : Str)
    → is_empty s ≡ false
    → or_invalid (canonical_from none s) ≡ (if has_words s then ok (lower s) else err invalid_slug)
canonical_from_start [] h = cc
canonical_from_start (c ∷ s) h =
    rw canonical_from_lem (elim (Bool-cases (has_words (c ∷ s))) [ inl e ↦ rw e | inr e ↦ rw e ])

-- On every text, `ValidateSlug` gives what the rules say: the same error or the same slug.
pub validate_slug-eq-reference : (u : Unicode) (s : Str) → validate_slug u s ≡ slug_reference u s
unfolding validate_slug slug_reference
validate_slug-eq-reference u [] = refl
validate_slug-eq-reference u (c ∷ s) = rw (canonical_from_start (c ∷ s) refl) (ground arith)

lower_byte-alnum : (c : ℕ) → is_alnum (lower_byte c) ≡ is_alnum c
unfolding lower_byte
lower_byte-alnum c = ground arith

lower_byte-dash : (c : ℕ) → (lower_byte c == b'-') ≡ (c == b'-')
unfolding lower_byte
lower_byte-dash c = ground arith

has_words-lower :
    (s : Str)
    → (has_words (lower s) ≡ has_words s)
      × (continues (split b'-' (lower s)) ≡ continues (split b'-' s))
has_words-lower [] = (refl, refl)
has_words-lower (c ∷ s) =
    let (words, more) = has_words-lower s in
    (
      rw (
        has_words-cons (lower_byte c) (lower s),
        has_words-cons c s,
        lower_byte-alnum,
        lower_byte-dash,
        more,
      ),
      rw (
        continues-cons (lower_byte c) (lower s),
        continues-cons c s,
        lower_byte-alnum,
        lower_byte-dash,
        more,
        words,
      ),
    )

words-is_ascii :
    (s : Str)
    → (has_words s ≡ true → is_ascii s ≡ true)
      × (continues (split b'-' s) ≡ true → is_ascii s ≡ true)
words-is_ascii [] = (λ h. refl, λ h. refl)
words-is_ascii (c ∷ s) =
    let (words, more) = words-is_ascii s in
    (λ h. ground (arith, has_words-cons c s), λ h. ground (arith, continues-cons c s))

to_lower_ascii : (u : Unicode) (s : Str) → is_ascii s ≡ true → to_lower u s ≡ lower s
unfolding to_lower
to_lower_ascii u s h = rw h

-- What acceptance says of a text.
pub record IsSlug (s : Str) : Type 0 where
  pub nonempty : 0 < length s
  pub short : length s ≤ max_slug_length
  pub free : is_reserved (lower s) ≡ false
  pub words : has_words s ≡ true

reference_ok : (u : Unicode) (s c : Str) → slug_reference u s ≡ ok c → IsSlug s × (c ≡ lower s)
unfolding slug_reference
reference_ok u s c e = ground (arith, (words-is_ascii s).0, to_lower_ascii u s)

pub IsSlug-of_ok : (u : Unicode) (s c : Str) → validate_slug u s ≡ ok c → IsSlug s × (c ≡ lower s)
IsSlug-of_ok u s c h = reference_ok u s c (sym (validate_slug-eq-reference u s) ∙ h)

pub ok_of_IsSlug : (u : Unicode) (s : Str) → IsSlug s → validate_slug u s ≡ ok (lower s)
unfolding slug_reference
ok_of_IsSlug u s h =
    rw (validate_slug-eq-reference, slug_reference)
      (ground (arith, (words-is_ascii s).0, to_lower_ascii u s))

-- What the public lookup makes of a text that is accepted is its canonical form.
pub to_lower_canonical : (u : Unicode) (s c : Str) → validate_slug u s ≡ ok c → to_lower u s ≡ c
to_lower_canonical u s c h =
    let (shape, canonical) = IsSlug-of_ok u s c h in
    to_lower_ascii u s ((words-is_ascii s).0 shape.words) ∙ sym canonical

IsSlug-of_lower-eq : (s t : Str) → lower s ≡ lower t → IsSlug s → IsSlug t
IsSlug-of_lower-eq s t e h = record {
  nonempty = omega (arith, ap length e, length-lower s, length-lower t);
  short = omega (arith, ap length e, length-lower s, length-lower t);
  free = rw (← e) h.free;
  words = sym (has_words-lower t).0 ∙ (rw (← e) ((has_words-lower s).0 ∙ h.words));
}

-- Two spellings of an accepted slug that differ in the case of ASCII letters have one canonical
-- form, and the canonical form is accepted as it stands.
pub validate_slug-lower :
    (u : Unicode) (s t c : Str)
    → validate_slug u s ≡ ok c
    → lower t ≡ lower s
    → (validate_slug u t ≡ ok c) × (validate_slug u c ≡ ok c)
validate_slug-lower u s t c h e =
    let (shape, canonical) = IsSlug-of_ok u s c h in
    (
      rw (canonical, ← e) (ok_of_IsSlug u t (IsSlug-of_lower-eq s t (sym e) shape)),
      rw canonical (
          fixed
            (ok_of_IsSlug u (lower s) (IsSlug-of_lower-eq s (lower s) (sym (lower_idem s)) shape))),
    )
  where
    fixed :
        validate_slug u (lower s) ≡ ok (lower (lower s)) → validate_slug u (lower s) ≡ ok (lower s)
    fixed p = p ∙ ap ok (lower_idem s)

-- Lower-case letters and digits alone.
abbrev pub plain : ℕ → Bool
plain c = is_lower c || is_digit c

lower_byte-plain : (c : ℕ) → plain c ≡ true → lower_byte c ≡ c
unfolding lower_byte
lower_byte-plain c h = ground arith

plain_alnum : (c : ℕ) → plain c ≡ true → (is_alnum c ≡ true) × ((c == b'-') ≡ false)
plain_alnum c h = ground arith

pub lower-plain : (s : Str) → All (λ c. plain c ≡ true) s → lower s ≡ s
lower-plain [] h = refl
lower-plain (c ∷ s) (p, h) =
    ap₂ (λ (d : ℕ) (t : Str). d ∷ t) (lower_byte-plain c p) (lower-plain s h)

continues-plain : (s : Str) → All (λ c. plain c ≡ true) s → continues (split b'-' s) ≡ true
continues-plain [] h = continues_nil
continues-plain (c ∷ s) (p, h) =
    rw (continues-cons c s, (plain_alnum c p).0, (plain_alnum c p).1) (continues-plain s h)

free_of_length :
    (c : ℕ) (s : Str) → plain c ≡ true → 5 < length (c ∷ s) → is_reserved (c ∷ s) ≡ false
unfolding is_reserved has_prefix
free_of_length c s p h =
    ground (arith, length-eqb (c ∷ s) (codes "api"), length-eqb (c ∷ s) (codes "admin"))

-- A text of six to 64 lower-case letters and digits is a slug in canonical form.
pub validate_plain :
    (u : Unicode) (c : ℕ) (s : Str)
    → All (λ d. plain d ≡ true) (c ∷ s)
    → 5 < length (c ∷ s)
    → length (c ∷ s) ≤ max_slug_length
    → validate_slug u (c ∷ s) ≡ ok (c ∷ s)
validate_plain u c s h long short = ok_of_IsSlug u (c ∷ s) shape ∙ ap ok (lower-plain (c ∷ s) h)
  where
    shape : IsSlug (c ∷ s)
    shape = record {
      nonempty = omega arith;
      short = short;
      free = rw (lower-plain (c ∷ s) h) (free_of_length c s h.0 long);
      words =
          rw (has_words-cons c s, (plain_alnum c h.0).0, (plain_alnum c h.0).1)
            (continues-plain s h.1);
    }
