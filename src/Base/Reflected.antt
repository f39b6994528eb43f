-- ===== src/Base/Reflected.antt =====
-- Tests on all or any elements, as predicates.
use mathlib.Core.List.{Memᴰ}
use gottem_link.Base.{
  Bool, true, false, List, [], ◌∷◌, All, all, any, ◌≡◌, arith, refl, Bool-cases, inl, inr,
}

module _ {ℓ κ} {A : Type ℓ} (P : A → Type κ) (p : A → Bool) where
  pub all-All : ((x : A) → p x ≡ true → P x) → (xs : List A) → all p xs ≡ true → All P xs
  all-All f [] h = tt
  all-All f (x ∷ xs) h = (f x (ground (arith, h)), all-All f xs (ground (arith, h)))

  pub All-all : ((x : A) → P x → p x ≡ true) → (xs : List A) → All P xs → all p xs ≡ true
  All-all f [] h = refl
  All-all f (x ∷ xs) (h, more) = ground (arith, f x h, All-all f xs more)

module _ {ℓ} {A : Type ℓ} (p : A → Bool) where
  -- Some element passes the test exactly where not all others fail it.
  pub any-Mem : (xs : List A) → any p xs ≡ true → (x : A) × Memᴰ x xs × (p x ≡ true)
  any-Mem [] h = cc
  any-Mem (x ∷ xs) h = elim (Bool-cases (p x)) [
    | inl e ↦ (x, Memᴰ.head refl, e)
    | inr e ↦ let (y, found, f) = any-Mem xs (ground (arith, h, e)) in (y, Memᴰ.tail found, f)
  ]

  pub Mem-any : (x : A) (xs : List A) → Memᴰ x xs → p x ≡ true → any p xs ≡ true
  Mem-any x [] h e = elim h [ ]
  Mem-any x (y ∷ xs) (Memᴰ.head same) e = rw (← same, e)
  Mem-any x (y ∷ xs) (Memᴰ.tail h) e = ground (arith, Mem-any x xs h e)

  pub none-All : (xs : List A) → any p xs ≡ false → All (λ x. p x ≡ false) xs
  none-All [] h = tt
  none-All (x ∷ xs) h = (ground (arith, h), none-All xs (ground (arith, h)))

  pub All-none : (xs : List A) → All (λ x. p x ≡ false) xs → any p xs ≡ false
  All-none [] h = refl
  All-none (x ∷ xs) (h, more) = ground (arith, h, All-none xs more)
