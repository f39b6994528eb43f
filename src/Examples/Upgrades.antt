-- ===== src/Examples/Upgrades.antt =====
-- Examples for the migrations of db/db.go.
use gottem_link.Base.{Bool, true, false, ◌&&◌, none, some, [], ◌∷◌, codes, ◌==◌, ◌≡◌, refl}
use gottem_link.Examples.{sqlite, docs, go_dev}
use gottem_link.Db.Schema.{Conditions, Statement, copy, legacy, Database, entries, insertable}
use gottem_link.Db.Migrations.{migrate, ready}
use gottem_link.Db.Migrations.Steps.{calm}
use gottem_link.Db.Migrations.Resumed.{migrate_resumes}
use gottem_link.Db.Migrations.Consistent.{at_legacy, IsConsistent}
use gottem_link.Db.Migrations.Kept.{migrate_keeps, migrate_completes}

abbrev is_copy : Statement → Bool
is_copy copy = true
is_copy _ = false

-- The copy of the third migration fails.
abbrev interrupted : Conditions
interrupted = record {
  now = codes "2025-01-02 03:04:05";
  fails = λ version statement. version == 3 && is_copy statement;
}

abbrev old : Database
old = record {
  user_version = 0;
  redirects = legacy (record { id = 4; slug = some docs; url = some go_dev } ∷ []);
  misses = none;
}

abbrev halfway : Database
halfway = (migrate sqlite interrupted old).1

migrate_resumes_example :
    migrate sqlite (calm interrupted) halfway ≡ migrate sqlite (calm interrupted) old
migrate_resumes_example = migrate_resumes sqlite interrupted old

migrate_keeps_example :
    IsConsistent sqlite halfway
    × (entries halfway.redirects ≡ (4, docs, go_dev) ∷ [])
    × ((migrate sqlite interrupted old).0 ≡ none → ready halfway ≡ true)
migrate_keeps_example = migrate_keeps sqlite interrupted old (at_legacy _)

migrate_completes_example :
    let r = migrate sqlite (calm interrupted) halfway in
    (r.0 ≡ none) × (ready r.1 ≡ true) × (entries r.1.redirects ≡ (4, docs, go_dev) ∷ [])
unfolding insertable
migrate_completes_example = migrate_completes sqlite interrupted old (at_legacy _) (refl, refl)
