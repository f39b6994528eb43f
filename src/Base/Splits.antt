-- ===== src/Base/Splits.antt =====
-- What strings.Split and strings.Cut give on texts that were joined by a separator, and what is taken
-- of joined texts.
use gottem_link.Base.{
  ℕ, zero, suc, ◌≤◌, take, drop, length, eqb, ap, Str, true, some, [], ◌∷◌, ◌++◌, split, cut, ◌==◌,
  ◌≡◌, refl, arith, inl, inr, Bool-cases, Option-cases,
}
use gottem_link.Base.Decimal.{no_byte}

pub split_one : (b : ℕ) (s : Str) → no_byte b s ≡ true → split b s ≡ s ∷ []
unfolding split
split_one b [] h = refl
split_one b (c ∷ s) h = ground (arith, split_one b s)

pub split_two :
    (b : ℕ) (s t : Str)
    → no_byte b s ≡ true
    → no_byte b t ≡ true
    → split b (s ++ (b ∷ t)) ≡ s ∷ t ∷ []
unfolding split
split_two b [] t h k = ground (arith, split_one b t k)
split_two b (c ∷ s) t h k = ground (arith, split_two b s t, k)

pub cut_two : (b : ℕ) (s t : Str) → no_byte b s ≡ true → cut b (s ++ (b ∷ t)) ≡ some (s, t)
unfolding cut
cut_two b [] t h = ground arith
cut_two b (c ∷ s) t h = ground (arith, cut_two b s t)

-- What is cut was joined by the first separator.
pub cut_joined :
    (b : ℕ) (text s t : Str)
    → cut b text ≡ some (s, t)
    → (text ≡ s ++ (b ∷ t)) × (no_byte b s ≡ true)
unfolding cut
cut_joined b [] s t h = cc
cut_joined b (c ∷ text) s t h = elim (Bool-cases (c == b)) [
  | inl e ↦ ground (arith, h, e)
  | inr e ↦ elim (Option-cases (cut b text)) [
    | inl g ↦ ground (arith, h, e, g)
    | inr ((before, after), g) ↦ ground (arith, h, e, g, cut_joined b text before after g)
  ]
]

pub drop_front : (s t : Str) → drop (length s) (s ++ t) ≡ t
drop_front [] t = refl
drop_front (c ∷ s) t = drop_front s t

pub take_front : (s t : Str) → take (length s) (s ++ t) ≡ s
take_front [] t = refl
take_front (c ∷ s) t = ap (λ rest. c ∷ rest) (take_front s t)

pub eqb-append : (s t u : Str) → eqb (s ++ t) (s ++ u) ≡ eqb t u
unfolding eqb
eqb-append [] t u = refl
eqb-append (c ∷ s) t u = ground (arith, eqb-append s t u)

pub take_all : (n : ℕ) (s : Str) → length s ≤ n → take n s ≡ s
take_all zero [] h = refl
take_all zero (c ∷ s) h = elim h [ ]
take_all (suc n) [] h = refl
take_all (suc n) (c ∷ s) h = ap (λ rest. c ∷ rest) (take_all n s (omega arith))
