-- ===== src/Db/Migrations.antt =====
-- db/db.go: the migrations of the database.
pub mod Steps
pub mod Resumed
pub mod Consistent
pub mod Kept
use gottem_link.Base.{
  ℕ, zero, suc, ◌-◌, Bool, true, false, ◌&&◌, Option, none, some, Result, ok, err, ◌>>=◌,
  if◌then◌else◌, ltb, ◌==◌, is_some,
}
use gottem_link.Db.Sql.{Sqlite}
use gottem_link.Db.Schema.{
  read, begin, inspect, record_version, commit, Conditions, MigrationError, failed, newer, Table,
  v4, Database, call, table_v1, table_v2, table_v3, table_v4, misses_v5,
}

abbrev pub current_schema_version : ℕ
current_schema_version = 5

-- A transaction that does not commit is rolled back.
abbrev pub settle : Database → Result MigrationError Database → Option MigrationError × Database
settle d (ok d') = (none, d')
settle d (err e) = (some e, d)

unfoldable pub in_transaction :
    Conditions → ℕ → Database → Result MigrationError Database → Option MigrationError × Database
in_transaction c version d statements = settle d (
    call c version begin >>= λ _. statements >>= λ d'. call c version record_version >>= λ _.
    call c version commit >>= λ _. ok (record d' { user_version = version }))

abbrev with_table : Database → Result MigrationError Table → Result MigrationError Database
with_table d r = r >>= λ t. ok (record d { redirects = t })

unfoldable pub migrate_to_version1 :
    Sqlite → Conditions → Database → Option MigrationError × Database
migrate_to_version1 q c d =
    in_transaction c 1 d (call c 1 inspect >>= λ _. with_table d (table_v1 q c d.redirects))

unfoldable pub migrate_to_version2 : Conditions → Database → Option MigrationError × Database
migrate_to_version2 c d = in_transaction c 2 d (with_table d (table_v2 c d.redirects))

unfoldable pub migrate_to_version3 :
    Sqlite → Conditions → Database → Option MigrationError × Database
migrate_to_version3 q c d = in_transaction c 3 d (with_table d (table_v3 q c d.redirects))

unfoldable pub migrate_to_version4 :
    Sqlite → Conditions → Database → Option MigrationError × Database
migrate_to_version4 q c d = in_transaction c 4 d (with_table d (table_v4 q c d.redirects))

unfoldable pub migrate_to_version5 : Conditions → Database → Option MigrationError × Database
migrate_to_version5 c d =
    in_transaction c 5 d (misses_v5 c d.misses >>= λ misses. ok (record d { misses = misses }))

-- The switch on the version.
unfoldable pub migrate_step : Sqlite → Conditions → ℕ → Database → Option MigrationError × Database
migrate_step q c zero d = migrate_to_version1 q c d
migrate_step q c (suc zero) d = migrate_to_version2 c d
migrate_step q c (suc (suc zero)) d = migrate_to_version3 q c d
migrate_step q c (suc (suc (suc zero))) d = migrate_to_version4 q c d
migrate_step q c (suc (suc (suc (suc zero)))) d = migrate_to_version5 c d
migrate_step q c (suc (suc (suc (suc (suc n))))) d = (none, d)

-- The loop, with as many rounds as the version is behind.
unfoldable pub migrate_from :
    Sqlite → Conditions → ℕ → ℕ → Database → Option MigrationError × Database
migrate_from q c zero version d = (none, d)
migrate_from q c (suc rounds) version d =
    let (e, d') = migrate_step q c version d in
    elim e [ some failure ↦ (some failure, d') | none ↦ migrate_from q c rounds (suc version) d' ]

unfoldable pub migrate : Sqlite → Conditions → Database → Option MigrationError × Database
migrate q c d =
    if c.fails 0 read
    then (some (failed 0 read), d)
    else if ltb current_schema_version d.user_version
    then (some (newer d.user_version), d)
    else migrate_from q c (current_schema_version - d.user_version) d.user_version d

abbrev has_all_columns : Table → Bool
has_all_columns (v4 rows sequence) = true
has_all_columns t = false

-- `Ready`, where its queries do not fail for other reasons.
unfoldable pub ready : Database → Bool
ready d =
    d.user_version == current_schema_version && (has_all_columns d.redirects && is_some d.misses)
