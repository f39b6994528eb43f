-- ===== src/Db/Migrations/Resumed.antt =====
-- A migration that was interrupted is resumed.
use gottem_link.Base.{
  ℕ, zero, suc, ◌+◌, ◌-◌, ◌≤◌, false, Option, none, some, ltb, ◌≡◌, ◌⊎◌, ◌∙◌, inl, inr, refl, sym,
  ap, arith, Bool-cases,
}
use gottem_link.Db.Sql.{Sqlite}
use gottem_link.Db.Schema.{read, Conditions, MigrationError, failed, newer, Database}
use gottem_link.Db.Migrations.{current_schema_version, migrate_step, migrate_from, migrate}
use gottem_link.Db.Migrations.Steps.{calm, step-Fails_or_calm, step-Settles}

module _ (q : Sqlite) (c : Conditions) where
  -- The rounds after a step.
  abbrev pub continued : ℕ → ℕ → Option MigrationError × Database → Option MigrationError × Database
  continued rounds n r =
      let (e, d') = r in
      elim e [ some failure ↦ (some failure, d') | none ↦ migrate_from q c rounds (suc n) d' ]

  pub from_step :
      (rounds n : ℕ) (d : Database) {r : Option MigrationError × Database}
      → migrate_step q c n d ≡ r
      → migrate_from q c (suc rounds) n d ≡ continued rounds n r
  unfolding migrate_from
  from_step rounds n d h = ap (continued rounds n) h

  -- What comes before the loop.
  pub migrate-cases :
      (d : Database)
      → ((e : MigrationError) × (migrate q c d ≡ (some e, d)))
        ⊎ ((d.user_version ≤ current_schema_version)
            × (migrate q c d
                ≡ migrate_from q c (current_schema_version - d.user_version) d.user_version d))
  unfolding migrate
  migrate-cases d = elim (Bool-cases (c.fails 0 read)) [
    | inl e ↦ inl (failed 0 read, rw (migrate, e) refl)
    | inr e ↦ elim (Bool-cases (ltb current_schema_version d.user_version)) [
      | inl g ↦ inl (newer d.user_version, rw (migrate, e, g) refl)
      | inr g ↦ inr (ground (arith, g), rw (migrate, e, g) refl)
    ]
  ]

module _ (q : Sqlite) (c : Conditions) where
  pub migrate-calm :
      (rounds n : ℕ) (d : Database)
      → d.user_version ≡ n
      → rounds + n ≡ current_schema_version
      → migrate q (calm c) d ≡ migrate_from q (calm c) rounds n d
  unfolding migrate
  migrate-calm rounds n d v h =
      rw (supported, left) (ap (λ version. migrate_from q (calm c) rounds version d) v)
    where
      supported : ltb current_schema_version d.user_version ≡ false
      supported = ground (arith, v, h)

      left : current_schema_version - d.user_version ≡ rounds
      left = omega (arith, v, h)

  resume_from :
      (rounds n : ℕ) (d : Database)
      → d.user_version ≡ n
      → rounds + n ≡ current_schema_version
      → migrate q (calm c) (migrate_from q c rounds n d).1 ≡ migrate_from q (calm c) rounds n d
  resume_from zero n d v h = unfold migrate_from in migrate-calm zero n d v h
  resume_from (suc rounds) n d v h = elim (step-Fails_or_calm q c n d) [
    | inr (e, f) ↦ again (from_step q c rounds n d f) ∙ migrate-calm (suc rounds) n d v h
    | inl f ↦ elim (step-Settles q c n d) [
      | inl (d', g, next) ↦
          again (from_step q c rounds n d (f ∙ g))
          ∙ resume_from rounds (suc n) d' (next (omega (arith, h))) (omega (arith, h))
          ∙ sym (from_step q (calm c) rounds n d g)
      | inr (e, g) ↦ again (from_step q c rounds n d (f ∙ g)) ∙ migrate-calm (suc rounds) n d v h
    ]
  ]
    where
      again :
          {r r' : Option MigrationError × Database}
          → r ≡ r'
          → migrate q (calm c) r.1 ≡ migrate q (calm c) r'.1
      again e = ap (λ x. migrate q (calm c) x.1) e

  -- A migration that ended anywhere, with whatever statement failing, is resumed: migrating once more
  -- without a failure gives what a migration without a failure gives at once, where
  -- CURRENT_TIMESTAMP is the same.
  pub migrate_resumes : (d : Database) → migrate q (calm c) (migrate q c d).1 ≡ migrate q (calm c) d
  migrate_resumes d = elim (migrate-cases q c d) [
    | inl (e, f) ↦ ap (λ x. migrate q (calm c) x.1) f
    | inr (supported, f) ↦
        ap (λ x. migrate q (calm c) x.1) f
        ∙ resume_from (current_schema_version - d.user_version) d.user_version d refl
            (omega (arith, supported))
        ∙ sym (
            migrate-calm (current_schema_version - d.user_version) d.user_version d refl
              (omega (arith, supported)))
  ]
