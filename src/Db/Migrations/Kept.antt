-- ===== src/Db/Migrations/Kept.antt =====
-- What migrations keep, and where they end.
use gottem_link.Base.{
  ℕ, zero, suc, ◌+◌, ◌-◌, ◌<◌, ◌≤◌, true, Option, none, some, List, all, ◌≡◌, ◌∙◌, inl, inr, refl,
  sym, subst, ap, arith,
}
use gottem_link.Db.Sql.{Sqlite}
use gottem_link.Db.Store.{SlugMiss}
use gottem_link.Db.Schema.{
  Conditions, MigrationError, LegacyRow, Table, absent, legacy, v1, v2, v3, v4, Database, entries,
  insertable,
}
use gottem_link.Db.Migrations.{current_schema_version, migrate_from, migrate, ready}
use gottem_link.Db.Migrations.Steps.{calm}
use gottem_link.Db.Migrations.Resumed.{from_step, migrate-cases, migrate-calm, migrate_resumes}
use gottem_link.Db.Migrations.Consistent.{
  At, at_fresh, at_legacy, at_v1, at_v2, at_v3, at_v4, at_v5, IsConsistent, Progress, has_texts,
  entries-row_v1, rows_v1-total, legacy-Progress, calm_step, db, next_step, step_keeps,
}

-- A consistent database of the current version has what is read of it.
At-5-ready :
    (q : Sqlite) {n : ℕ} {t : Table} {misses : Option (List SlugMiss)}
    → At q n t misses
    → n ≡ current_schema_version
    → ready (record { user_version = n; redirects = t; misses = misses }) ≡ true
unfolding ready
At-5-ready q at_fresh e = absurd (omega (arith, e))
At-5-ready q (at_legacy rows) e = absurd (omega (arith, e))
At-5-ready q (at_v1 rows distinct) e = absurd (omega (arith, e))
At-5-ready q (at_v2 rows distinct) e = absurd (omega (arith, e))
At-5-ready q (at_v3 rows distinct) e = absurd (omega (arith, e))
At-5-ready q (at_v4 rows sequence distinct) e = absurd (omega (arith, e))
At-5-ready q (at_v5 rows sequence misses distinct) e = refl

version_bounded :
    {q : Sqlite} {n : ℕ} {t : Table} {misses : Option (List SlugMiss)}
    → At q n t misses
    → n ≤ current_schema_version
version_bounded at_fresh = omega arith
version_bounded (at_legacy rows) = omega arith
version_bounded (at_v1 rows distinct) = omega arith
version_bounded (at_v2 rows distinct) = omega arith
version_bounded (at_v3 rows distinct) = omega arith
version_bounded (at_v4 rows sequence distinct) = omega arith
version_bounded (at_v5 rows sequence misses distinct) = omega arith

-- The database is consistent and has the same redirects, and without an error it is ready.
record Keeps (q : Sqlite) (d : Database) (r : Option MigrationError × Database) : Type 0 where
  consistent : IsConsistent q r.1
  kept : entries r.1.redirects ≡ entries d.redirects
  finished : r.0 ≡ none → ready r.1 ≡ true

module _ (q : Sqlite) (c : Conditions) where
  unchanged : (d : Database) (e : MigrationError) → IsConsistent q d → Keeps q d (some e, d)
  unchanged d e h = record { consistent = h; kept = refl; finished = λ none_some. cc }

  progressed :
      (rounds : ℕ) (d : Database)
      → Progress q d.user_version d (next_step q c d)
      → migrate_from q c (suc rounds) d.user_version d
        ≡ migrate_from q c rounds (suc d.user_version) (next_step q c d).1
  progressed rounds d p =
      from_step q c rounds d.user_version d (ap (λ e. (e, (next_step q c d).1)) p.no_error)

  loop-Keeps :
      (rounds : ℕ) (d : Database)
      → IsConsistent q d
      → rounds + d.user_version ≡ current_schema_version
      → Keeps q d (migrate_from q c rounds d.user_version d)
  loop-Keeps zero d h e =
      unfold migrate_from in
      record { consistent = h; kept = refl; finished = λ x. At-5-ready q h (omega (arith, e)) }
  loop-Keeps (suc rounds) d h e = elim (step_keeps q c d h (omega (arith, e))) [
    | inl (failure, f) ↦
        subst (Keeps q d) (sym (from_step q c rounds d.user_version d f)) (unchanged d failure h)
    | inr p ↦
        let d' = (next_step q c d).1 in
        let rest = loop-Keeps rounds d' p.consistent (omega (arith, e, p.next_version)) in
        subst (Keeps q d)
          (ap (λ n. migrate_from q c rounds n d') p.next_version ∙ sym (progressed rounds d p))
          (record {
            consistent = rest.consistent;
            kept = rest.kept ∙ p.kept;
            finished = rest.finished;
          })
  ]

  migrate-Keeps : (d : Database) → IsConsistent q d → Keeps q d (migrate q c d)
  migrate-Keeps d h = elim (migrate-cases q c d) [
    | inl (e, f) ↦ subst (Keeps q d) (sym f) (unchanged d e h)
    | inr (supported, f) ↦
        subst (Keeps q d) (sym f)
          (loop-Keeps (current_schema_version - d.user_version) d h (omega (arith, supported)))
  ]

  -- Whichever statements fail, a migration of a consistent database leaves a consistent one, with
  -- the id, slug and destination of every redirect, and where it returns no error the database is
  -- ready to be served.
  pub migrate_keeps :
      (d : Database)
      → IsConsistent q d
      → IsConsistent q (migrate q c d).1
        × (entries (migrate q c d).1.redirects ≡ entries d.redirects)
        × ((migrate q c d).0 ≡ none → ready (migrate q c d).1 ≡ true)
  migrate_keeps d h = let k = migrate-Keeps d h in (k.consistent, k.kept, k.finished)

-- The rows of a legacy table can be copied: none has a NULL, and ids and slugs are unique.
abbrev pub IsCopyable : Sqlite → Table → Type 0
IsCopyable q (legacy rows) =
    (all has_texts rows ≡ true) × (insertable q (entries (legacy rows)) ≡ true)
IsCopyable q absent = Unit
IsCopyable q (v1 rows) = Unit
IsCopyable q (v2 rows) = Unit
IsCopyable q (v3 rows) = Unit
IsCopyable q (v4 rows sequence) = Unit

next-IsCopyable :
    (q : Sqlite) {n m : ℕ} {t : Table} {misses : Option (List SlugMiss)}
    → At q n t misses
    → n ≡ suc m
    → IsCopyable q t
next-IsCopyable q at_fresh e = tt
next-IsCopyable q (at_legacy rows) e = absurd (omega (arith, e))
next-IsCopyable q (at_v1 rows distinct) e = tt
next-IsCopyable q (at_v2 rows distinct) e = tt
next-IsCopyable q (at_v3 rows distinct) e = tt
next-IsCopyable q (at_v4 rows sequence distinct) e = tt
next-IsCopyable q (at_v5 rows sequence misses distinct) e = tt

module _ (q : Sqlite) (c : Conditions) where
  legacy_progresses :
      (rows : List LegacyRow)
      → IsCopyable q (legacy rows)
      → Progress q 0 (db 0 (legacy rows) none) (next_step q (calm c) (db 0 (legacy rows) none))
  legacy_progresses rows (texts, distinct) =
      let (copies, e) = rows_v1-total c.now rows texts in
      legacy-Progress q c rows copies e
        (ap (insertable q) (entries-row_v1 c.now rows copies e) ∙ distinct)

  step_progresses :
      (d : Database)
      → IsConsistent q d
      → IsCopyable q d.redirects
      → d.user_version < current_schema_version
      → Progress q d.user_version d (next_step q (calm c) d)
  step_progresses d consistent copyable h =
      elim (calm_step q c d.user_version d.redirects d.misses consistent h) [
        | inr p ↦ p
        | inl (rows, same) ↦
            subst
              (λ x. IsCopyable q x.redirects → Progress q x.user_version x (next_step q (calm c) x))
              (sym same) (legacy_progresses rows) copyable
      ]

  loop_completes :
      (rounds : ℕ) (d : Database)
      → IsConsistent q d
      → IsCopyable q d.redirects
      → rounds + d.user_version ≡ current_schema_version
      → (migrate_from q (calm c) rounds d.user_version d).0 ≡ none
  loop_completes zero d h k e = unfold migrate_from in refl
  loop_completes (suc rounds) d h k e =
      let p = step_progresses d h k (omega (arith, e)) in
      let d' = (next_step q (calm c) d).1 in
      ap (λ r. r.0) (progressed q (calm c) rounds d p)
      ∙ ap (λ n. (migrate_from q (calm c) rounds n d').0) (sym p.next_version)
      ∙ loop_completes rounds d' p.consistent (next-IsCopyable q p.consistent p.next_version)
          (omega (arith, e, p.next_version))

  calm_completes :
      (d : Database)
      → IsConsistent q d
      → IsCopyable q d.redirects
      → d.user_version ≤ current_schema_version
      → (migrate q (calm c) d).0 ≡ none
  calm_completes d h k supported =
      ap (λ r. r.0)
        (migrate-calm q c (current_schema_version - d.user_version) d.user_version d refl
          (omega (arith, supported)))
      ∙ loop_completes (current_schema_version - d.user_version) d h k (omega (arith, supported))

  -- After a migration of a consistent database that ended anywhere, whichever statements failed, one
  -- more migration without a failing statement returns no error, and the database is ready with
  -- every redirect it had. A table from before the versions must have rows that can be copied.
  pub migrate_completes :
      (d : Database)
      → IsConsistent q d
      → IsCopyable q d.redirects
      → let r = migrate q (calm c) (migrate q c d).1 in
        (r.0 ≡ none) × (ready r.1 ≡ true) × (entries r.1.redirects ≡ entries d.redirects)
  migrate_completes d h k =
      let again = migrate_resumes q c d in
      let (consistent, kept, finished) = migrate_keeps q (calm c) d h in
      let done = calm_completes d h k (version_bounded h) in
      subst (λ r. (r.0 ≡ none) × (ready r.1 ≡ true) × (entries r.1.redirects ≡ entries d.redirects))
        (sym again) (done, finished done, kept)
