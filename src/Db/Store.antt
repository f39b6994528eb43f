-- ===== src/Db/Store.antt =====
-- The tables of db/db.go as a state, and the types of db/redirects.go and db/misses.go.
use gottem_link.Base.{ℕ, Str, Bool, Option, List, ◌^◌, ◌-◌, any}
use gottem_link.Base.Int.{ℤ}
use gottem_link.Db.Sql.{Sqlite}

-- A row of the table redirects. The CHECK of the schema keeps the count from being negative.
pub record Redirect : Type 0 where
  pub id : ℕ
  pub slug : Str
  pub url : Str
  pub created_at : Str
  pub updated_at : Str
  pub disabled_at : Option Str
  pub expires_at : Option Str
  pub destination_updated_at : Str
  pub click_count : ℕ
  pub last_accessed_at : Option Str

pub record ImportRedirect : Type 0 where
  pub slug : Str
  pub url : Str
  pub disabled : Bool
  pub expires_at : Option Str
  pub destination_updated_at : Str
  pub click_count : ℤ
  pub last_accessed_at : Option Str

-- A row of the table slug_misses.
pub record SlugMiss : Type 0 where
  pub slug : Str
  pub miss_count : ℕ
  pub first_missed_at : Str
  pub last_missed_at : Str

-- Both tables, the rows in no particular order, and the largest id that AUTOINCREMENT has given.
pub record Store : Type 0 where
  pub redirects : List Redirect
  pub sequence : ℕ
  pub misses : List SlugMiss

-- The largest 64-bit signed integer, 9223372036854775807.
abbrev pub max_count : ℕ
max_count = 2 ^ 63 - 1

-- How many missed slugs are stored, and how many are listed.
abbrev pub max_stored_slug_misses : ℕ
max_stored_slug_misses = 500

abbrev pub max_listed_slug_misses : ℕ
max_listed_slug_misses = 100

-- `slug = ?` on a row.
abbrev pub has_slug : Sqlite → Str → Redirect → Bool
has_slug q slug r = q.nocase r.slug slug

abbrev pub is_miss_of : Sqlite → Str → SlugMiss → Bool
is_miss_of q slug m = q.nocase m.slug slug

-- EXISTS (SELECT 1 FROM redirects WHERE slug = ?)
abbrev pub taken : Sqlite → Str → List Redirect → Bool
taken q slug = any (has_slug q slug)
