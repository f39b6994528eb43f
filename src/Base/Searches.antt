-- ===== src/Base/Searches.antt =====
-- Searches in lists that were filtered or changed.

use mathlib.Core.Path.{◌≡◌, refl, subst}
use mathlib.Core.Option
use mathlib.Core.Bool.{Bool, true, false}
use mathlib.Core.List.{List, [], ◌∷◌}
use mathlib.Core.Option.{Option, none, some}
use native.Mathlib.Omega.{arith}
use mathlib.Core.Logic.{inl, inr}
use gottem_link.Base.Tests.{Bool-cases, is_some}
use gottem_link.Base.Lists.{keep, any, find, update_where, All}

module _ {ℓ κ} {A : Type ℓ} (P : A → Type κ) where
  -- What a search finds is an element that passes the test.
  pub find-All :
      (p : A → Bool) (xs : List A) {x : A} → find p xs ≡ some x → All P xs → P x × (p x ≡ true)
  find-All p [] e h = cc
  find-All p (y ∷ ys) {x = x} e (py, h) = elim (Bool-cases (p y)) [
    | inl passed ↦ subst (λ z. P z × (p z ≡ true)) (ground (arith, e, passed)) (py, passed)
    | inr failed ↦ find-All p ys (rw failed at e) h
  ]

module _ {ℓ} {A : Type ℓ} where
  pub find_congr : (p r : A → Bool) (xs : List A) → ((x : A) → p x ≡ r x) → find p xs ≡ find r xs
  find_congr p r [] h = refl
  find_congr p r (x ∷ xs) h = rw (h x, find_congr p r xs h)

  pub update_where_congr :
      (p r : A → Bool) (f : A → A) (xs : List A)
      → All (λ x. p x ≡ r x) xs
      → update_where p f xs ≡ update_where r f xs
  update_where_congr p r f [] h = refl
  update_where_congr p r f (x ∷ xs) (e, h) = rw (e, update_where_congr p r f xs h)

  pub any_congr : (p r : A → Bool) (xs : List A) → All (λ x. p x ≡ r x) xs → any p xs ≡ any r xs
  any_congr p r [] h = refl
  any_congr p r (x ∷ xs) (e, h) = rw (e, any_congr p r xs h)

  -- A search for what the changed elements pass, and for what they do not pass.
  pub find-update_where_self :
      (p r : A → Bool) (f : A → A) (xs : List A)
      → ((x : A) → p x ≡ r x)
      → ((x : A) → r (f x) ≡ r x)
      → find r (update_where p f xs) ≡ Option.map f (find r xs)
  find-update_where_self p r f [] same fixed = refl
  find-update_where_self p r f (x ∷ xs) same fixed = elim (Bool-cases (r x)) [
    | inl e ↦ rw (same x, e, fixed x, e)
    | inr e ↦ rw (same x, e, e) (find-update_where_self p r f xs same fixed)
  ]

  pub find-update_where_other :
      (p r : A → Bool) (f : A → A) (xs : List A)
      → ((x : A) → r x ≡ true → p x ≡ false)
      → ((x : A) → r (f x) ≡ r x)
      → find r (update_where p f xs) ≡ find r xs
  find-update_where_other p r f [] apart fixed = refl
  find-update_where_other p r f (x ∷ xs) apart fixed = elim (Bool-cases (r x)) [
    | inl e ↦ rw (apart x e, e)
    | inr e ↦ elim (Bool-cases (p x)) [
      | inl g ↦ rw (g, fixed x, e) (find-update_where_other p r f xs apart fixed)
      | inr g ↦ rw (g, e) (find-update_where_other p r f xs apart fixed)
    ]
  ]

  pub find-keep-none :
      (p r : A → Bool) (xs : List A)
      → ((x : A) → p x ≡ true → r x ≡ false)
      → find r (keep p xs) ≡ none
  find-keep-none p r [] h = refl
  find-keep-none p r (x ∷ xs) h = elim (Bool-cases (p x)) [
    | inl e ↦ rw (e, h x e) (find-keep-none p r xs h)
    | inr e ↦ rw e (find-keep-none p r xs h)
  ]

  pub find-keep :
      (p r : A → Bool) (xs : List A)
      → ((x : A) → r x ≡ true → p x ≡ true)
      → find r (keep p xs) ≡ find r xs
  find-keep p r [] h = refl
  find-keep p r (x ∷ xs) h = elim (Bool-cases (r x)) [
    | inl e ↦ rw (h x e, e)
    | inr e ↦ elim (Bool-cases (p x)) [
      | inl g ↦ rw (g, e) (find-keep p r xs h)
      | inr g ↦ rw (g, e) (find-keep p r xs h)
    ]
  ]

  pub any_of_find : (p : A → Bool) (xs : List A) → any p xs ≡ is_some (find p xs)
  any_of_find p [] = refl
  any_of_find p (x ∷ xs) = elim (Bool-cases (p x)) [
    | inl e ↦ rw e
    | inr e ↦ rw e (any_of_find p xs)
  ]

  pub any_none : (p : A → Bool) (xs : List A) → All (λ x. p x ≡ false) xs → any p xs ≡ false
  any_none p [] h = refl
  any_none p (x ∷ xs) (e, h) = rw e (any_none p xs h)
