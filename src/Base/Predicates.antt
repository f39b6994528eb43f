-- ===== src/Base/Predicates.antt =====
-- How filters, changes and sorting keep a predicate of the elements or of their pairs.
use Prim.Native.Nat.{ℕ, zero, suc, ◌+◌}
use mathlib.Core.Path.{◌≡◌, refl}
use mathlib.Core.Bool.{Bool, true, false}
use mathlib.Core.List.{List, [], ◌∷◌, ◌++◌}
use native.Mathlib.Omega.{arith}
use mathlib.Core.Logic.{inl, inr}
use gottem_link.Base.Tests.{Bool-cases}
use gottem_link.Base.Lists.{length, take, drop, keep, update_where, insert_by, sort_by, All, Pairs}

module _ {ℓ κ} {A : Type ℓ} (P : A → Type κ) where
  pub All-keep : (p : A → Bool) (xs : List A) → All P xs → All P (keep p xs)
  All-keep p [] h = tt
  All-keep p (x ∷ xs) (px, h) = elim (Bool-cases (p x)) [
    | inl e ↦ rw e (px, All-keep p xs h)
    | inr e ↦ rw e (All-keep p xs h)
  ]

  pub All-keep_self :
      (p : A → Bool) (xs : List A) → ((x : A) → p x ≡ true → P x) → All P (keep p xs)
  All-keep_self p [] f = tt
  All-keep_self p (x ∷ xs) f = elim (Bool-cases (p x)) [
    | inl e ↦ rw e (f x e, All-keep_self p xs f)
    | inr e ↦ rw e (All-keep_self p xs f)
  ]

  pub All-update_where :
      (p : A → Bool) (f : A → A) (xs : List A)
      → ((x : A) → P x → P (f x))
      → All P xs
      → All P (update_where p f xs)
  All-update_where p f [] g h = tt
  All-update_where p f (x ∷ xs) g (px, h) = elim (Bool-cases (p x)) [
    | inl e ↦ rw e (g x px, All-update_where p f xs g h)
    | inr e ↦ rw e (px, All-update_where p f xs g h)
  ]

  pub All-insert_by :
      (before : A → A → Bool) (x : A) (xs : List A) → P x → All P xs → All P (insert_by before x xs)
  All-insert_by before x [] px h = (px, tt)
  All-insert_by before x (y ∷ ys) px (py, h) = elim (Bool-cases (before y x)) [
    | inl e ↦ rw e (py, All-insert_by before x ys px h)
    | inr e ↦ rw e (px, (py, h))
  ]

  pub All-sort_by : (before : A → A → Bool) (xs : List A) → All P xs → All P (sort_by before xs)
  All-sort_by before [] h = tt
  All-sort_by before (x ∷ xs) (px, h) =
      All-insert_by before x (sort_by before xs) px (All-sort_by before xs h)

  pub All-take : (n : ℕ) (xs : List A) → All P xs → All P (take n xs)
  All-take zero xs h = tt
  All-take (suc n) [] h = tt
  All-take (suc n) (x ∷ xs) (px, h) = (px, All-take n xs h)

  pub All-drop : (n : ℕ) (xs : List A) → All P xs → All P (drop n xs)
  All-drop zero xs h = h
  All-drop (suc n) [] h = tt
  All-drop (suc n) (x ∷ xs) (px, h) = All-drop n xs h

module _ {ℓ κ ι} {A : Type ℓ} (P : A → Type κ) (Q : A → Type ι) where
  pub All-imp : (xs : List A) → ((x : A) → P x → Q x) → All P xs → All Q xs
  All-imp [] f h = tt
  All-imp (x ∷ xs) f (px, h) = (f x px, All-imp xs f h)

module _ {ℓ κ ι ν} {A : Type ℓ} (P : A → Type κ) (Q : A → Type ι) (S : A → Type ν) where
  pub All-both : (xs : List A) → ((x : A) → P x → Q x → S x) → All P xs → All Q xs → All S xs
  All-both [] f h k = tt
  All-both (x ∷ xs) f (px, h) (qx, k) = (f x px qx, All-both xs f h k)

module _ {ℓ κ} {A : Type ℓ} (R : A → A → Type κ) where
  pub Pairs-keep : (p : A → Bool) (xs : List A) → Pairs R xs → Pairs R (keep p xs)
  Pairs-keep p [] h = tt
  Pairs-keep p (x ∷ xs) (rx, h) = elim (Bool-cases (p x)) [
    | inl e ↦ rw e (All-keep (R x) p xs rx, Pairs-keep p xs h)
    | inr e ↦ rw e (Pairs-keep p xs h)
  ]

  -- The relation is kept where both sides are replaced and where one of them is.
  pub Pairs-update_where :
      (p : A → Bool) (f : A → A) (xs : List A)
      → ((x y : A) → R x y → R (f x) y)
      → ((x y : A) → R x y → R x (f y))
      → Pairs R xs
      → Pairs R (update_where p f xs)
  Pairs-update_where p f [] left right h = tt
  Pairs-update_where p f (x ∷ xs) left right (rx, h) = elim (Bool-cases (p x)) [
    | inl e ↦ rw e (
      All-update_where (R (f x)) p f xs (λ y r. right (f x) y r)
          (All-imp (R x) (R (f x)) xs (λ y r. left x y r) rx),
      Pairs-update_where p f xs left right h,
    )
    | inr e ↦ rw e (
      All-update_where (R x) p f xs (λ y r. right x y r) rx,
      Pairs-update_where p f xs left right h,
    )
  ]

  pub Pairs-insert_by :
      (before : A → A → Bool) (x : A) (xs : List A)
      → ((x y : A) → R x y → R y x)
      → All (R x) xs
      → Pairs R xs
      → Pairs R (insert_by before x xs)
  Pairs-insert_by before x [] symm rx h = (tt, tt)
  Pairs-insert_by before x (y ∷ ys) symm (rxy, rx) (ry, h) = elim (Bool-cases (before y x)) [
    | inl e ↦
        rw e
          (All-insert_by (R y) before x ys (symm x y rxy) ry, Pairs-insert_by before x ys symm rx h)
    | inr e ↦ rw e ((rxy, rx), (ry, h))
  ]

  pub Pairs-sort_by :
      (before : A → A → Bool) (xs : List A)
      → ((x y : A) → R x y → R y x)
      → Pairs R xs
      → Pairs R (sort_by before xs)
  Pairs-sort_by before [] symm h = tt
  Pairs-sort_by before (x ∷ xs) symm (rx, h) =
      Pairs-insert_by before x (sort_by before xs) symm (All-sort_by (R x) before xs rx)
        (Pairs-sort_by before xs symm h)

-- Sorting moves elements and drops none.
module _ {ℓ} {A : Type ℓ} (p : A → Bool) (before : A → A → Bool) where
  length-keep-insert_by :
      (x : A) (xs : List A) → length (keep p (insert_by before x xs)) ≡ length (keep p (x ∷ xs))
  length-keep-insert_by x [] = refl
  length-keep-insert_by x (y ∷ ys) = elim (Bool-cases (before y x)) [
    | inl e ↦ rw e (swapped (length-keep-insert_by x ys))
    | inr e ↦ rw e
  ]
    where
      swapped :
          length (keep p (insert_by before x ys)) ≡ length (keep p (x ∷ ys))
          → length (keep p (y ∷ insert_by before x ys)) ≡ length (keep p (x ∷ y ∷ ys))
      swapped h = ground (arith, h)

  pub length-keep-sort_by : (xs : List A) → length (keep p (sort_by before xs)) ≡ length (keep p xs)
  length-keep-sort_by [] = refl
  length-keep-sort_by (x ∷ xs) =
      ground (arith, length-keep-insert_by x (sort_by before xs), length-keep-sort_by xs)

module _ {ℓ κ} {A : Type ℓ} (P : A → Type κ) (before : A → A → Bool) where
  inserted_All : (y : A) (ys : List A) → All P (insert_by before y ys) → P y × All P ys
  inserted_All y [] h = h
  inserted_All y (z ∷ zs) h = elim (Bool-cases (before z y)) [
    | inl e ↦
        let (pz, rest) = (let k : P z × All P (insert_by before y zs) = rw e at h in k) in
        let (py, ps) = inserted_All y zs rest in (py, (pz, ps))
    | inr e ↦ (let k : P y × (P z × All P zs) = rw e at h in k)
  ]

  pub All-sort_by_back : (xs : List A) → All P (sort_by before xs) → All P xs
  All-sort_by_back [] h = tt
  All-sort_by_back (x ∷ xs) h =
      let (px, rest) = inserted_All x (sort_by before xs) h in (px, All-sort_by_back xs rest)

module _ {ℓ} {A : Type ℓ} (p : A → Bool) where
  pub length-keep-append :
      (xs ys : List A) → length (keep p (xs ++ ys)) ≡ length (keep p xs) + length (keep p ys)
  length-keep-append [] ys = omega arith
  length-keep-append (x ∷ xs) ys = ground (arith, length-keep-append xs ys)

  pub length-keep_none : (xs : List A) → All (λ x. p x ≡ false) xs → length (keep p xs) ≡ 0
  length-keep_none [] h = refl
  length-keep_none (x ∷ xs) (e, h) = rw e (length-keep_none xs h)

  pub keep_all : (xs : List A) → All (λ x. p x ≡ true) xs → keep p xs ≡ xs
  keep_all [] h = refl
  keep_all (x ∷ xs) (e, h) = rw (e, keep_all xs h)

-- Insertion sort by a test that agrees with a transitive relation gives a sorted list.
module _ {ℓ κ} {A : Type ℓ} (R : A → A → Type κ) (before : A → A → Bool) where
  pub Pairs-sorted_insert :
      (x : A) (ys : List A)
      → ((a b : A) → before a b ≡ true → R a b)
      → ((a b : A) → before a b ≡ false → R b a)
      → ((a b c : A) → R a b → R b c → R a c)
      → Pairs R ys
      → Pairs R (insert_by before x ys)
  Pairs-sorted_insert x [] below above trans h = (tt, tt)
  Pairs-sorted_insert x (y ∷ ys) below above trans (ry, h) = elim (Bool-cases (before y x)) [
    | inl e ↦ rw e (
      All-insert_by (R y) before x ys (below y x e) ry,
      Pairs-sorted_insert x ys below above trans h,
    )
    | inr e ↦
        rw e
          ((above y x e, All-imp (R y) (R x) ys (λ z r. trans x y z (above y x e) r) ry), (ry, h))
  ]

  pub Pairs-sorted :
      (xs : List A)
      → ((a b : A) → before a b ≡ true → R a b)
      → ((a b : A) → before a b ≡ false → R b a)
      → ((a b c : A) → R a b → R b c → R a c)
      → Pairs R (sort_by before xs)
  Pairs-sorted [] below above trans = tt
  Pairs-sorted (x ∷ xs) below above trans =
      Pairs-sorted_insert x (sort_by before xs) below above trans
        (Pairs-sorted xs below above trans)

-- In a list where `R` relates earlier to later elements, it relates the first `n` to the others.
pub take-drop-related {ℓ κ} :
    {A : Type ℓ} (R : A → A → Type κ) (n : ℕ) (xs : List A)
    → Pairs R xs
    → All (λ a. All (R a) (drop n xs)) (take n xs)
take-drop-related R zero xs h = tt
take-drop-related R (suc n) [] h = tt
take-drop-related R (suc n) (x ∷ xs) (rx, h) = (All-drop (R x) n xs rx, take-drop-related R n xs h)

pub All-append {ℓ κ} :
    {A : Type ℓ} (P : A → Type κ) (xs ys : List A) → All P xs → All P ys → All P (xs ++ ys)
All-append P [] ys h k = k
All-append P (x ∷ xs) ys (px, h) k = (px, All-append P xs ys h k)

pub All_of_all {ℓ κ} : {A : Type ℓ} (P : A → Type κ) (xs : List A) → ((x : A) → P x) → All P xs
All_of_all P [] f = tt
All_of_all P (x ∷ xs) f = (f x, All_of_all P xs f)
