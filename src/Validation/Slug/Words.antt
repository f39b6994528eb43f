-- ===== src/Validation/Slug/Words.antt =====
-- The shape of a slug, said without the loop: words of ASCII letters and digits joined by dashes.
use gottem_link.Base.{
  ℕ, Str, Bool, true, false, not, ◌&&◌, Option, none, some, List, [], ◌∷◌, ◌≡◌, refl, arith, split,
  add_to_head, lower, lower_byte, is_alnum, is_empty, all, ◌==◌, if◌then◌else◌, Bool-cases, inl,
  inr,
}
use gottem_link.Validation.Slug.{after_dash, canonical_byte, prepend, canonical_from}

abbrev pub is_word : Str → Bool
is_word w = not (is_empty w) && all is_alnum w

-- The slug splits at its dashes into words.
abbrev pub has_words : Str → Bool
has_words s = all is_word (split b'-' s)

-- What may follow a letter or a digit: the rest of its word, and words.
abbrev pub continues : List Str → Bool
continues [] = true
continues (w ∷ ws) = all is_alnum w && all is_word ws

words-add_to_head :
    (c : ℕ) (ws : List Str) → all is_word (add_to_head c ws) ≡ (is_alnum c && continues ws)
words-add_to_head c [] = ground arith
words-add_to_head c (w ∷ ws) = ground arith

continues-add_to_head :
    (c : ℕ) (ws : List Str) → continues (add_to_head c ws) ≡ (is_alnum c && continues ws)
continues-add_to_head c [] = ground arith
continues-add_to_head c (w ∷ ws) = ground arith

pub has_words-cons :
    (c : ℕ) (s : Str)
    → has_words (c ∷ s) ≡ (if c == b'-' then false else is_alnum c && continues (split b'-' s))
unfolding split
has_words-cons c s = ground (arith, words-add_to_head c (split b'-' s))

pub continues-cons :
    (c : ℕ) (s : Str)
    → continues (split b'-' (c ∷ s))
      ≡ (if c == b'-' then has_words s else is_alnum c && continues (split b'-' s))
unfolding split
continues-cons c s = ground (arith, continues-add_to_head c (split b'-' s))

-- What the loop accepts after a given byte: a word is under way, or one has to begin.
abbrev pub accepted : Option ℕ → Str → Bool
accepted before [] = true
accepted before (c ∷ s) =
    if after_dash before then has_words (c ∷ s) else continues (split b'-' (c ∷ s))

pub continues_nil : continues (split b'-' []) ≡ true
unfolding split
continues_nil = refl

has_words_nil : has_words [] ≡ false
unfolding split
has_words_nil = refl

accepted_after :
    (c : ℕ) (s : Str) → (c == b'-') ≡ false → accepted (some c) s ≡ continues (split b'-' s)
accepted_after c [] h = ground (arith, continues_nil)
accepted_after c (d ∷ s) h = ground arith

-- The two ways in which the loop accepts a byte, and the byte that it writes.
canonical_byte-alnum :
    (before : Option ℕ) (c : ℕ) (rest : Str)
    → is_alnum c ≡ true
    → canonical_byte before c rest ≡ some (lower_byte c)
unfolding canonical_byte lower_byte
canonical_byte-alnum before c rest h = ground arith

canonical_byte-other :
    (before : Option ℕ) (c : ℕ) (rest : Str)
    → is_alnum c ≡ false
    → canonical_byte before c rest ≡ (
        if c == b'-' && not (after_dash before) && not (is_empty rest)
        then some (lower_byte c)
        else none)
unfolding canonical_byte lower_byte
canonical_byte-other before c rest h = ground arith

alnum-ne-dash : (c : ℕ) → is_alnum c ≡ true → (c == b'-') ≡ false
alnum-ne-dash c h = ground arith

prepend_lem :
    (c : ℕ) (b : Bool) (s : Str)
    → prepend (some c) (if b then some s else none) ≡ (if b then some (c ∷ s) else none)
prepend_lem c true s = refl
prepend_lem c false s = refl

accepted-alnum :
    (before : Option ℕ) (c : ℕ) (s : Str)
    → is_alnum c ≡ true
    → accepted before (c ∷ s) ≡ accepted (some c) s
accepted-alnum before c s h =
    rw
      (
        has_words-cons c s,
        continues-cons c s,
        accepted_after c s (alnum-ne-dash c h),
        alnum-ne-dash c h,
        h,
      )
      (elim (Bool-cases (after_dash before)) [ inl e ↦ rw e | inr e ↦ rw e ])

accepted-other :
    (before : Option ℕ) (c : ℕ) (s : Str)
    → is_alnum c ≡ false
    → accepted before (c ∷ s)
      ≡ (c == b'-' && not (after_dash before) && not (is_empty s) && accepted (some c) s)
accepted-other before c [] h =
    ground (arith, has_words-cons c [], continues-cons c [], has_words_nil)
accepted-other before c (d ∷ s) h =
    ground (arith, has_words-cons c (d ∷ s), continues-cons c (d ∷ s))

pub canonical_from_lem :
    (before : Option ℕ) (s : Str)
    → canonical_from before s ≡ (if accepted before s then some (lower s) else none)
unfolding canonical_from
canonical_from_lem before [] = refl
canonical_from_lem before (c ∷ s) = elim (Bool-cases (is_alnum c)) [
  | inl e ↦
      rw
        (
          canonical_byte-alnum before c s e,
          accepted-alnum before c s e,
          canonical_from_lem (some c) s,
        )
        (prepend_lem (lower_byte c) (accepted (some c) s) (lower s))
  | inr e ↦
      rw
        (
          canonical_byte-other before c s e,
          accepted-other before c s e,
          canonical_from_lem (some c) s,
        )
        (combine (c == b'-' && not (after_dash before) && not (is_empty s)) (accepted (some c) s))
]
  where
    combine :
        (a b : Bool)
        → prepend (if a then some (lower_byte c) else none) (if b then some (lower s) else none)
          ≡ (if a && b then some (lower_byte c ∷ lower s) else none)
    combine true true = refl
    combine true false = refl
    combine false b = refl
