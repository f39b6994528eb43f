-- ===== src/Db/Counted.antt =====
-- What the updates of counts and times in db/redirects.go and db/misses.go come to.
use gottem_link.Base.{
  ℕ, ◌+◌, ◌<◌, ◌≤◌, Str, Option, none, some, ltb, if◌then◌else◌, ◌≡◌, ◌⊎◌, inl, inr, arith,
  Bool-cases, Option-cases,
}
use gottem_link.Db.Sql.{Sqlite, later_day}
use gottem_link.Db.Store.{max_count}

-- A count goes up by one, but for a full one.
pub data CountedUp : ℕ → ℕ → Type 0 where
  one_more : (n : ℕ) → n < max_count → CountedUp n (n + 1)
  full : (n : ℕ) → max_count ≤ n → CountedUp n n

-- The later of a stored time and a new one: the new one where none is stored, where both are the
-- same day, and where one of them is no date.
pub data Latest (q : Sqlite) (value : Str) : Option Str → Str → Type 0 where
  first : Latest q value none value
  newer :
      (stored : Str) (a b : ℕ)
      → q.julianday stored ≡ some a
      → q.julianday value ≡ some b
      → a ≤ b
      → Latest q value (some stored) value
  older :
      (stored : Str) (a b : ℕ)
      → q.julianday stored ≡ some a
      → q.julianday value ≡ some b
      → b < a
      → Latest q value (some stored) stored
  undated :
      (stored : Str)
      → (q.julianday stored ≡ none) ⊎ (q.julianday value ≡ none)
      → Latest q value (some stored) value

-- The earlier of the two.
pub data Earliest (q : Sqlite) (value : Str) : Str → Str → Type 0 where
  kept :
      (stored : Str) (a b : ℕ)
      → q.julianday stored ≡ some a
      → q.julianday value ≡ some b
      → a < b
      → Earliest q value stored stored
  replaced :
      (stored : Str) (a b : ℕ)
      → q.julianday stored ≡ some a
      → q.julianday value ≡ some b
      → b ≤ a
      → Earliest q value stored value
  undated :
      (stored : Str)
      → (q.julianday stored ≡ none) ⊎ (q.julianday value ≡ none)
      → Earliest q value stored value

pub counted-CountedUp : (n : ℕ) → CountedUp n (if ltb n max_count then n + 1 else n)
counted-CountedUp n = elim (Bool-cases (ltb n max_count)) [
  | inl e ↦ rw e (one_more n (ground (arith, e)))
  | inr e ↦ rw e (full n (ground (arith, e)))
]

module _ (q : Sqlite) (value stored : Str) where
  pub later-Latest :
      Latest q value
        (some stored)
        (if later_day (q.julianday stored) (q.julianday value) then stored else value)
  unfolding later_day
  later-Latest = elim (Option-cases (q.julianday stored)) [
    | inl e ↦ rw e (undated stored (inl e))
    | inr (a, e) ↦ elim (Option-cases (q.julianday value)) [
      | inl f ↦ rw (e, f) (undated stored (inr f))
      | inr (b, f) ↦ elim (Bool-cases (ltb b a)) [
        | inl g ↦ rw (e, f, g) (older stored a b e f (ground (arith, g)))
        | inr g ↦ rw (e, f, g) (newer stored a b e f (ground (arith, g)))
      ]
    ]
  ]

  pub later-Earliest :
      Earliest q value stored
        (if later_day (q.julianday value) (q.julianday stored) then stored else value)
  unfolding later_day
  later-Earliest = elim (Option-cases (q.julianday value)) [
    | inl f ↦ rw f (undated stored (inr f))
    | inr (b, f) ↦ elim (Option-cases (q.julianday stored)) [
      | inl e ↦ rw (f, e) (undated stored (inl e))
      | inr (a, e) ↦ elim (Bool-cases (ltb a b)) [
        | inl g ↦ rw (f, e, g) (kept stored a b e f (ground (arith, g)))
        | inr g ↦ rw (f, e, g) (replaced stored a b e f (ground (arith, g)))
      ]
    ]
  ]
