-- ===== src/Db/Schema.antt =====
-- db/db.go: the schemas of the database, and what a migration makes of the tables.
use gottem_link.Base.{
  ℕ, Str, Bool, true, not, ◌&&◌, Option, none, some, List, [], ◌∷◌, map, any, Result, ok, err,
  ◌>>=◌, if◌then◌else◌, ltb, ◌==◌, ◌||◌,
}
use gottem_link.Db.Sql.{Sqlite}
use gottem_link.Db.Store.{Redirect, SlugMiss}

-- A row of the table that came before the versions, whose columns may be NULL.
pub record LegacyRow : Type 0 where
  pub id : ℕ
  pub slug : Option Str
  pub url : Option Str

pub record RowV1 : Type 0 where
  pub id : ℕ
  pub slug : Str
  pub url : Str
  pub created_at : Str
  pub updated_at : Str

pub record RowV2 : Type 0 where
  pub id : ℕ
  pub slug : Str
  pub url : Str
  pub created_at : Str
  pub updated_at : Str
  pub disabled_at : Option Str

pub record RowV3 : Type 0 where
  pub id : ℕ
  pub slug : Str
  pub url : Str
  pub created_at : Str
  pub updated_at : Str
  pub disabled_at : Option Str
  pub expires_at : Option Str
  pub destination_updated_at : Str

-- The table redirects with the schema that it has; from the fourth version on with the largest id
-- that AUTOINCREMENT knows.
pub data Table : Type 0 where
  absent : Table
  legacy : List LegacyRow → Table
  v1 : List RowV1 → Table
  v2 : List RowV2 → Table
  v3 : List RowV3 → Table
  v4 : List Redirect → ℕ → Table

-- PRAGMA user_version and the tables; `none` where slug_misses does not exist.
pub record Database : Type 0 where
  pub user_version : ℕ
  pub redirects : Table
  pub misses : Option (List SlugMiss)

pub data Statement : Type 0 where
  read begin inspect create copy drop rename add_column record_version commit : Statement

-- What a migration meets: CURRENT_TIMESTAMP, and the statements that fail of the migration to a
-- version.
pub record Conditions : Type 0 where
  pub now : Str
  pub fails : ℕ → Statement → Bool

pub data MigrationError : Type 0 where
  failed : ℕ → Statement → MigrationError
  newer : ℕ → MigrationError

-- What a row is about: the id, the slug and the destination.
abbrev pub Entry : Type 0
Entry = ℕ × Str × Str

abbrev pub text_or_empty : Option Str → Str
text_or_empty none = []
text_or_empty (some s) = s

abbrev pub legacy_entry : LegacyRow → Entry
legacy_entry r = (r.id, text_or_empty r.slug, text_or_empty r.url)

abbrev pub entries : Table → List Entry
entries absent = []
entries (legacy rows) = map legacy_entry rows
entries (v1 rows) = map (λ r. (r.id, r.slug, r.url)) rows
entries (v2 rows) = map (λ r. (r.id, r.slug, r.url)) rows
entries (v3 rows) = map (λ r. (r.id, r.slug, r.url)) rows
entries (v4 rows sequence) = map (λ r. (r.id, r.slug, r.url)) rows

-- PRIMARY KEY on the id and UNIQUE on the slug, under its collation.
abbrev collide : Sqlite → Entry → Entry → Bool
collide q (id, slug, url) (id', slug', url') = id == id' || q.nocase slug slug'

unfoldable pub insertable : Sqlite → List Entry → Bool
insertable q [] = true
insertable q (e ∷ es) = not (any (collide q e) es) && insertable q es

abbrev pub call : Conditions → ℕ → Statement → Result {0, 0} MigrationError Unit
call c version statement =
    if c.fails version statement then err (failed version statement) else ok tt

-- INSERT INTO ... SELECT: the rows that the new table has, `none` where one of them is refused.
abbrev pub inserted : ℕ → Sqlite → Option Table → Result MigrationError Table
inserted version q none = err (failed version copy)
inserted version q (some t) = if insertable q (entries t) then ok t else err (failed version copy)

-- The table is made anew under another name, filled, and put in the place of the old one.
unfoldable pub rebuild : Sqlite → Conditions → ℕ → Option Table → Result MigrationError Table
rebuild q c version filled = call c version create >>= λ _. call c version copy >>= λ _.
    inserted version q filled >>= λ t.
    call c version drop >>= λ _. call c version rename >>= λ _. ok t

-- NOT NULL on slug and url; `now` is CURRENT_TIMESTAMP.
abbrev pub row_v1 : Str → ℕ → Option Str → Option Str → Option RowV1
row_v1 now id none url = none
row_v1 now id (some slug) none = none
row_v1 now id (some slug) (some url) =
    some (record { id = id; slug = slug; url = url; created_at = now; updated_at = now })

abbrev pub with_row : Option RowV1 → Option (List RowV1) → Option (List RowV1)
with_row none rows = none
with_row (some row) none = none
with_row (some row) (some rows) = some (row ∷ rows)

unfoldable pub rows_v1 : Str → List LegacyRow → Option (List RowV1)
rows_v1 now [] = some []
rows_v1 now (r ∷ rs) = with_row (row_v1 now r.id r.slug r.url) (rows_v1 now rs)

abbrev pub row_v2 : RowV1 → RowV2
row_v2 r = record {
  id = r.id;
  slug = r.slug;
  url = r.url;
  created_at = r.created_at;
  updated_at = r.updated_at;
  disabled_at = none;
}

abbrev pub row_v3 : RowV2 → RowV3
row_v3 r = record {
  id = r.id;
  slug = r.slug;
  url = r.url;
  created_at = r.created_at;
  updated_at = r.updated_at;
  disabled_at = r.disabled_at;
  expires_at = none;
  destination_updated_at = r.updated_at;
}

abbrev pub row_v4 : RowV3 → Redirect
row_v4 r = record {
  id = r.id;
  slug = r.slug;
  url = r.url;
  created_at = r.created_at;
  updated_at = r.updated_at;
  disabled_at = r.disabled_at;
  expires_at = r.expires_at;
  destination_updated_at = r.destination_updated_at;
  click_count = 0;
  last_accessed_at = none;
}

-- The largest id that was inserted.
abbrev pub largest : List RowV3 → ℕ
largest [] = 0
largest (r ∷ rs) = let m = largest rs in if ltb m r.id then r.id else m

-- The statements between BEGIN and the record of the version, on the table redirects. On a table
-- with the schema of another version they are taken to fail.
abbrev pub table_v1 : Sqlite → Conditions → Table → Result MigrationError Table
table_v1 q c absent = call c 1 create >>= λ _. ok (v1 [])
table_v1 q c (legacy rows) =
    rebuild q c 1 (elim (rows_v1 c.now rows) [ none ↦ none | some rs ↦ some (v1 rs) ])
table_v1 q c t = err (failed 1 copy)

abbrev pub table_v2 : Conditions → Table → Result MigrationError Table
table_v2 c (v1 rows) = call c 2 add_column >>= λ _. ok (v2 (map row_v2 rows))
table_v2 c t = err (failed 2 add_column)

abbrev pub table_v3 : Sqlite → Conditions → Table → Result MigrationError Table
table_v3 q c (v2 rows) = rebuild q c 3 (some (v3 (map row_v3 rows)))
table_v3 q c t = err (failed 3 copy)

abbrev pub table_v4 : Sqlite → Conditions → Table → Result MigrationError Table
table_v4 q c (v3 rows) = rebuild q c 4 (some (v4 (map row_v4 rows) (largest rows)))
table_v4 q c t = err (failed 4 copy)

abbrev pub misses_v5 :
    Conditions → Option (List SlugMiss) → Result MigrationError (Option (List SlugMiss))
misses_v5 c none = call c 5 create >>= λ _. ok (some [])
misses_v5 c (some misses) = err (failed 5 create)
