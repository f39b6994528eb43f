-- ===== src/Db/Invariant.antt =====
-- What holds of the store at all times, and how tables keep it.
use gottem_link.Base.{
  ℕ, ◌≤◌, ◌<◌, Str, Bool, true, false, List, [], ◌∷◌, ◌≡◌, ◌≢◌, refl, sym, ◌∙◌, arith, keep,
  update_where, length, All, Pairs, Bool-cases, inl, inr,
}
use gottem_link.Db.Sql.{Sqlite, SqliteLaws}
use gottem_link.Db.Store.{Redirect, SlugMiss, Store, max_count, max_stored_slug_misses, taken}

-- Two rows have different ids, and slugs that the collation tells apart.
abbrev pub Apart : Sqlite → Redirect → Redirect → Type 0
Apart q a b = (q.nocase a.slug b.slug ≡ false) × (a.id ≢ b.id)

abbrev pub ApartMisses : Sqlite → SlugMiss → SlugMiss → Type 0
ApartMisses q a b = q.nocase a.slug b.slug ≡ false

pub record RowIsValid (sequence : ℕ) (r : Redirect) : Type 0 where
  pub positive : 0 < r.id
  pub given : r.id ≤ sequence
  pub counted : r.click_count ≤ max_count

pub record MissIsValid (m : SlugMiss) : Type 0 where
  pub positive : 0 < m.miss_count
  pub counted : m.miss_count ≤ max_count

pub record IsValid (q : Sqlite) (s : Store) : Type 0 where
  pub rows : All (RowIsValid s.sequence) s.redirects
  pub apart : Pairs (Apart q) s.redirects
  pub sequenced : s.sequence ≤ max_count
  pub missed : All MissIsValid s.misses
  pub misses_apart : Pairs (ApartMisses q) s.misses
  -- no slug is stored both as a redirect and as missing
  pub disjoint : All (λ m. taken q m.slug s.redirects ≡ false) s.misses
  pub capped : length s.misses ≤ max_stored_slug_misses

module _ (q : Sqlite) (laws : SqliteLaws q) where
  pub nocase-false_sym : (a b : Str) → q.nocase a b ≡ false → q.nocase b a ≡ false
  nocase-false_sym a b h = elim (Bool-cases (q.nocase b a)) [
    | inl e ↦ cc (h, laws.nocase_sym b a e)
    | inr e ↦ e
  ]

  -- Equal slugs are told apart from the same slugs.
  pub nocase_congr : (a b c : Str) → q.nocase a b ≡ true → q.nocase c a ≡ q.nocase c b
  nocase_congr a b c h = elim (Bool-cases (q.nocase c a)) [
    | inl e ↦ e ∙ sym (laws.nocase_trans c a b e h)
    | inr e ↦ elim (Bool-cases (q.nocase c b)) [
      | inl f ↦ cc (laws.nocase_trans c b a f (laws.nocase_sym a b h))
      | inr f ↦ e ∙ sym f
    ]
  ]

  pub taken_congr :
      (a b : Str) (rows : List Redirect) → q.nocase a b ≡ true → taken q a rows ≡ taken q b rows
  taken_congr a b [] h = refl
  taken_congr a b (r ∷ rows) h = ground (arith, nocase_congr a b r.slug h, taken_congr a b rows h)

module _ (q : Sqlite) where
  -- A slug that is not taken is told apart from every slug of the table.
  pub apart_of_free :
      (slug : Str) (rows : List Redirect)
      → taken q slug rows ≡ false
      → All (λ r. q.nocase r.slug slug ≡ false) rows
  apart_of_free slug [] h = tt
  apart_of_free slug (r ∷ rows) h = (ground (arith, h), apart_of_free slug rows (ground (arith, h)))

  pub taken-keep :
      (slug : Str) (p : Redirect → Bool) (rows : List Redirect)
      → taken q slug rows ≡ false
      → taken q slug (keep p rows) ≡ false
  taken-keep slug p [] h = refl
  taken-keep slug p (r ∷ rows) h = ground (arith, taken-keep slug p rows)

  pub taken-update_where :
      (slug : Str) (p : Redirect → Bool) (f : Redirect → Redirect) (rows : List Redirect)
      → ((r : Redirect) → (f r).slug ≡ r.slug)
      → taken q slug (update_where p f rows) ≡ taken q slug rows
  taken-update_where slug p f [] h = refl
  taken-update_where slug p f (r ∷ rows) h = ground (arith, h r, taken-update_where slug p f rows h)
