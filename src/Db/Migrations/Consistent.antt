-- ===== src/Db/Migrations/Consistent.antt =====
-- The tables that belong to each version, and what one step of a migration makes of them.
use gottem_link.Base.{
  ℕ, suc, ◌<◌, Str, Bool, true, ◌&&◌, Option, none, some, List, [], ◌∷◌, map, all, is_some, ◌≡◌,
  ◌⊎◌, ◌∙◌, inl, inr, refl, sym, subst, ap, ap₂, arith, Bool-cases, Option-cases,
}
use gottem_link.Db.Sql.{Sqlite}
use gottem_link.Db.Store.{SlugMiss, Redirect}
use gottem_link.Db.Schema.{
  Conditions, MigrationError, failed, copy, LegacyRow, RowV1, RowV2, RowV3, Table, absent, legacy,
  v1, v2, v3, v4, Database, Entry, entries, text_or_empty, insertable, rebuild, rows_v1, row_v1,
  with_row, row_v2, row_v3, row_v4, largest,
}
use gottem_link.Db.Migrations.{
  current_schema_version, in_transaction, migrate_to_version1, migrate_to_version2,
  migrate_to_version3, migrate_to_version4, migrate_to_version5, migrate_step,
}
use gottem_link.Db.Migrations.Steps.{calm, Fails, step-Fails_or_calm}

-- The tables that belong to a version; ids and slugs are unique from the first one on.
pub data At (q : Sqlite) : ℕ → Table → Option (List SlugMiss) → Type 0 where
  at_fresh : At q 0 absent none
  at_legacy : (rows : List LegacyRow) → At q 0 (legacy rows) none
  at_v1 : (rows : List RowV1) → insertable q (entries (v1 rows)) ≡ true → At q 1 (v1 rows) none
  at_v2 : (rows : List RowV2) → insertable q (entries (v2 rows)) ≡ true → At q 2 (v2 rows) none
  at_v3 : (rows : List RowV3) → insertable q (entries (v3 rows)) ≡ true → At q 3 (v3 rows) none
  at_v4 :
      (rows : List Redirect) (sequence : ℕ)
      → insertable q (entries (v4 rows sequence)) ≡ true
      → At q 4 (v4 rows sequence) none
  at_v5 :
      (rows : List Redirect) (sequence : ℕ) (misses : List SlugMiss)
      → insertable q (entries (v4 rows sequence)) ≡ true
      → At q 5 (v4 rows sequence) (some misses)

abbrev pub IsConsistent : Sqlite → Database → Type 0
IsConsistent q d = At q d.user_version d.redirects d.misses

-- A step that went to the next version with every redirect.
pub record Progress (q : Sqlite) (n : ℕ) (d : Database) (r : Option MigrationError × Database)
    : Type 0 where
  pub no_error : r.0 ≡ none
  pub next_version : r.1.user_version ≡ suc n
  pub consistent : IsConsistent q r.1
  pub kept : entries r.1.redirects ≡ entries d.redirects

entries-row_v2 : (rows : List RowV1) → entries (v2 (map row_v2 rows)) ≡ entries (v1 rows)
entries-row_v2 [] = refl
entries-row_v2 (r ∷ rows) = ap (λ es. (r.id, r.slug, r.url) ∷ es) (entries-row_v2 rows)

entries-row_v3 : (rows : List RowV2) → entries (v3 (map row_v3 rows)) ≡ entries (v2 rows)
entries-row_v3 [] = refl
entries-row_v3 (r ∷ rows) = ap (λ es. (r.id, r.slug, r.url) ∷ es) (entries-row_v3 rows)

entries-row_v4 :
    (rows : List RowV3) (sequence : ℕ) → entries (v4 (map row_v4 rows) sequence) ≡ entries (v3 rows)
entries-row_v4 [] sequence = refl
entries-row_v4 (r ∷ rows) sequence =
    ap (λ es. (r.id, r.slug, r.url) ∷ es) (entries-row_v4 rows sequence)

some-injective {ℓ} : {A : Type ℓ} {a b : A} → ◌≡◌ {A = Option A} (some a) (some b) → a ≡ b
some-injective h = cc

-- Rows without NULL have what their copies have.
abbrev pub has_texts : LegacyRow → Bool
has_texts r = is_some r.slug && is_some r.url

entry-row_v1 :
    (now : Str) (id : ℕ) (slug url : Option Str) (row : RowV1)
    → row_v1 now id slug url ≡ some row
    → ◌≡◌ {A = Entry} (row.id, row.slug, row.url) (id, text_or_empty slug, text_or_empty url)
entry-row_v1 now id none url row h = cc
entry-row_v1 now id (some slug) none row h = cc
entry-row_v1 now id (some slug) (some url) row h =
    ap (λ (r : RowV1). (r.id, r.slug, r.url)) (sym (some-injective h))

with_row-cases :
    (o : Option RowV1) (p : Option (List RowV1)) (copies : List RowV1)
    → with_row o p ≡ some copies
    → (row : RowV1) × (rest : List RowV1) × (o ≡ some row) × (p ≡ some rest) × (row ∷ rest ≡ copies)
with_row-cases none p copies h = cc
with_row-cases (some row) none copies h = cc
with_row-cases (some row) (some rest) copies h = (row, rest, refl, refl, some-injective h)

pub entries-row_v1 :
    (now : Str) (rows : List LegacyRow) (copies : List RowV1)
    → rows_v1 now rows ≡ some copies
    → entries (v1 copies) ≡ entries (legacy rows)
unfolding rows_v1
entries-row_v1 now [] copies h = ap (λ rows. entries (v1 rows)) (sym (some-injective h))
entries-row_v1 now (r ∷ rows) copies h =
    let (row, rest, e, g, same) =
      with_row-cases (row_v1 now r.id r.slug r.url) (rows_v1 now rows) copies h in
    rw (← same) (
      ap₂ (λ (x : Entry) (xs : List Entry). x ∷ xs) (entry-row_v1 now r.id r.slug r.url row e)
        (entries-row_v1 now rows rest g))

pub rows_v1-total :
    (now : Str) (rows : List LegacyRow)
    → all has_texts rows ≡ true
    → (copies : List RowV1) × (rows_v1 now rows ≡ some copies)
unfolding rows_v1
rows_v1-total now [] h = ([], refl)
rows_v1-total now (r ∷ rows) h = elim (Option-cases r.slug) [
  | inl e ↦ cc (rw e at h)
  | inr (slug, e) ↦ elim (Option-cases r.url) [
    | inl g ↦ cc (rw (e, g) at h)
    | inr (url, g) ↦
        let (rest, f) = rows_v1-total now rows (rw (e, g) at h) in
        (
          record { id = r.id; slug = slug; url = url; created_at = now; updated_at = now } ∷ rest,
          rw (e, g, f) refl,
        )
  ]
]

abbrev pub next_step : Sqlite → Conditions → Database → Option MigrationError × Database
next_step q c d = migrate_step q c d.user_version d

abbrev pub db : ℕ → Table → Option (List SlugMiss) → Database
db n t misses = record { user_version = n; redirects = t; misses = misses }

module _ (q : Sqlite) (c : Conditions) where
  module _ (rows : List LegacyRow) where
    pub legacy-Progress :
        (copies : List RowV1)
        → rows_v1 c.now rows ≡ some copies
        → insertable q (entries (v1 copies)) ≡ true
        → Progress q 0
            (db 0 (legacy rows) none)
            (migrate_step q (calm c) 0 (db 0 (legacy rows) none))
    unfolding migrate_step migrate_to_version1 in_transaction rebuild
    legacy-Progress copies e h =
        rw (migrate_step, e, h)
          (record {
            no_error = refl;
            next_version = refl;
            consistent = at_v1 copies h;
            kept = entries-row_v1 c.now rows copies e;
          })

    legacy_step :
        Fails (db 0 (legacy rows) none) (migrate_step q (calm c) 0 (db 0 (legacy rows) none))
        ⊎ Progress q 0
            (db 0 (legacy rows) none)
            (migrate_step q (calm c) 0 (db 0 (legacy rows) none))
    unfolding migrate_step migrate_to_version1 in_transaction rebuild
    legacy_step = elim (Option-cases (rows_v1 c.now rows)) [
      | inl e ↦ inl (failed 1 copy, rw (migrate_step, e) refl)
      | inr (copies, e) ↦ elim (Bool-cases (insertable q (entries (v1 copies)))) [
        | inl h ↦ inr (legacy-Progress copies e h)
        | inr h ↦ inl (failed 1 copy, rw (migrate_step, e, h) refl)
      ]
    ]

  -- From every version but the legacy table of version 0 a step succeeds where no statement fails.
  pub calm_step :
      (n : ℕ) (t : Table) (misses : Option (List SlugMiss))
      → At q n t misses
      → n < current_schema_version
      → ((rows : List LegacyRow) × (db n t misses ≡ db 0 (legacy rows) none))
        ⊎ Progress q n (db n t misses) (migrate_step q (calm c) n (db n t misses))
  unfolding migrate_step migrate_to_version1 migrate_to_version2 migrate_to_version3
      migrate_to_version4 migrate_to_version5 in_transaction rebuild insertable
  calm_step n t misses at_fresh h =
      inr (record { no_error = refl; next_version = refl; consistent = at_v1 [] refl; kept = refl })
  calm_step n t misses (at_legacy rows) h = inl (rows, refl)
  calm_step n t misses (at_v1 rows distinct) h = inr (record {
    no_error = refl;
    next_version = refl;
    consistent = at_v2 (map row_v2 rows) (ap (insertable q) (entries-row_v2 rows) ∙ distinct);
    kept = entries-row_v2 rows;
  })
  calm_step n t misses (at_v2 rows distinct) h =
      let fits : insertable q (entries (v3 (map row_v3 rows))) ≡ true =
        ap (insertable q) (entries-row_v3 rows) ∙ distinct in
      inr (
        rw (migrate_step, fits)
          (record {
            no_error = refl;
            next_version = refl;
            consistent = at_v3 (map row_v3 rows) fits;
            kept = entries-row_v3 rows;
          }))
  calm_step n t misses (at_v3 rows distinct) h =
      let fits : insertable q (entries (v4 (map row_v4 rows) (largest rows))) ≡ true =
        ap (insertable q) (entries-row_v4 rows (largest rows)) ∙ distinct in
      inr (
        rw (migrate_step, fits)
          (record {
            no_error = refl;
            next_version = refl;
            consistent = at_v4 (map row_v4 rows) (largest rows) fits;
            kept = entries-row_v4 rows (largest rows);
          }))
  calm_step n t misses (at_v4 rows sequence distinct) h = inr (record {
    no_error = refl;
    next_version = refl;
    consistent = at_v5 rows sequence [] distinct;
    kept = refl;
  })
  calm_step n t misses (at_v5 rows sequence stored distinct) h = absurd (omega (arith, h))

  calm_keeps :
      (d : Database)
      → IsConsistent q d
      → d.user_version < current_schema_version
      → Fails d (next_step q (calm c) d) ⊎ Progress q d.user_version d (next_step q (calm c) d)
  calm_keeps d consistent h = elim (calm_step d.user_version d.redirects d.misses consistent h) [
    | inr progress ↦ inr progress
    | inl (rows, same) ↦
        subst
          (λ x.
            Fails x (next_step q (calm c) x) ⊎ Progress q x.user_version x (next_step q (calm c) x))
          (sym same) (legacy_step rows)
  ]

  -- Whichever statements fail, a step leaves the database as it was, or goes to the next version.
  pub step_keeps :
      (d : Database)
      → IsConsistent q d
      → d.user_version < current_schema_version
      → Fails d (next_step q c d) ⊎ Progress q d.user_version d (next_step q c d)
  step_keeps d consistent h = elim (step-Fails_or_calm q c d.user_version d) [
    | inr failure ↦ inl failure
    | inl e ↦
        subst (λ r. Fails d r ⊎ Progress q d.user_version d r) (sym e) (calm_keeps d consistent h)
  ]
