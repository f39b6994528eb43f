-- ===== src/Db/Redirects.antt =====
-- db/redirects.go, but for the import: the operations on one redirect and the list.
pub mod Outcomes
pub mod Valid
pub mod View
pub mod Changed
pub mod Get
pub mod Resolve
use gottem_link.Base.{
  ℕ, ◌+◌, Str, Bool, true, not, ◌&&◌, ◌||◌, Option, none, some, List, ◌∷◌, Result, ok, err, String,
  if◌then◌else◌, leb, ltb, find, keep, update_where, sort_by, any, is_some, ◌==◌,
}
use gottem_link.Db.Sql.{
  Sqlite, Env, begin, insert, select, update, delete, rows_affected, clear_miss, scan, commit,
  DbError, redirect_not_found, slug_conflict, wrapped, no_rows, raw, later_day,
}
use gottem_link.Db.Store.{Redirect, SlugMiss, Store, max_count, has_slug, is_miss_of, taken}

-- The row that an INSERT of a slug, a URL and an expiration gives, by the column defaults.
abbrev pub new_row : Env → ℕ → Str → Str → Option Str → Redirect
new_row env id slug url expires_at = record {
  id = id;
  slug = slug;
  url = url;
  created_at = env.now;
  updated_at = env.now;
  disabled_at = none;
  expires_at = expires_at;
  destination_updated_at = env.now;
  click_count = 0;
  last_accessed_at = none;
}

-- DELETE FROM slug_misses WHERE slug = ?
abbrev pub without_miss : Sqlite → Str → List SlugMiss → List SlugMiss
without_miss q slug = keep (λ m. not (is_miss_of q slug m))

-- An insertion takes the next id, and clears the miss of the slug.
abbrev pub with_row : Sqlite → Redirect → Store → Store
with_row q row s = record s {
  redirects = row ∷ s.redirects;
  sequence = row.id;
  misses = without_miss q row.slug s.misses;
}

abbrev pub no_id_left : Store → Bool
no_id_left s = leb max_count s.sequence

-- A transaction that is not committed leaves the store as it was.
unfoldable pub create_redirect_with_expiration :
    Sqlite → Env → Str → Str → Option Str → Store → Result DbError Redirect × Store
create_redirect_with_expiration q env slug url expires_at s =
    let row = new_row env (s.sequence + 1) slug url expires_at in
    if env.fails begin
    then (err (wrapped "begin create redirect"), s)
    else if env.fails insert || no_id_left s
    then (err (wrapped "create redirect"), s)
    else if taken q slug s.redirects
    then (err slug_conflict, s)
    else if env.fails clear_miss
    then (err (wrapped "clear resolved slug miss"), s)
    else if env.fails commit
    then (err (wrapped "commit create redirect"), s)
    else (ok row, with_row q row s)

unfoldable pub create_redirect : Sqlite → Env → Str → Str → Store → Result DbError Redirect × Store
create_redirect q env slug url = create_redirect_with_expiration q env slug url none

abbrev pub error_of {ℓ} : {A : Type ℓ} → Result DbError A → Option DbError
error_of (ok a) = none
error_of (err e) = some e

unfoldable pub insert_redirect : Sqlite → Env → Str → Str → Store → Option DbError × Store
unfolding create_redirect create_redirect_with_expiration
insert_redirect q env slug url s =
    let (created, s') = create_redirect q env slug url s in (error_of created, s')

unfoldable pub list_redirects : Sqlite → Env → Store → Result DbError (List Redirect)
list_redirects q env s =
    if env.fails select
    then err (wrapped "list redirects")
    else if env.fails scan
    then err (wrapped "scan redirect")
    else ok (sort_by (λ a b. q.nocase_lt a.slug b.slug) s.redirects)

unfoldable pub get_redirect : Sqlite → Env → Str → Store → Result DbError Redirect
get_redirect q env slug s =
    if env.fails select
    then err (wrapped "get redirect")
    else elim (find (has_slug q slug) s.redirects) [ none ↦ err redirect_not_found | some r ↦ ok r ]

-- UPDATE redirects SET ... WHERE slug = ? RETURNING ..., which the four operations below share.
unfoldable pub update_returning :
    Sqlite → Env → String → (Redirect → Redirect) → Str → Store → Result DbError Redirect × Store
update_returning q env message change slug s =
    if env.fails update
    then (err (wrapped message), s)
    else elim (find (has_slug q slug) s.redirects) [
      | none ↦ (err redirect_not_found, s)
      | some r ↦ (
        ok (change r),
        record s { redirects = update_where (has_slug q slug) change s.redirects },
      )
    ]

abbrev pub set_url : Env → Str → Redirect → Redirect
set_url env url r = record r { url = url; updated_at = env.now; destination_updated_at = env.now }

abbrev pub set_disabled : Env → Option Str → Redirect → Redirect
set_disabled env disabled_at r = record r { disabled_at = disabled_at; updated_at = env.now }

abbrev pub set_expiration : Env → Option Str → Redirect → Redirect
set_expiration env expires_at r = record r { expires_at = expires_at; updated_at = env.now }

unfoldable pub update_redirect : Sqlite → Env → Str → Str → Store → Result DbError Redirect × Store
update_redirect q env slug url = update_returning q env "update redirect" (set_url env url) slug

unfoldable pub disable_redirect : Sqlite → Env → Str → Store → Result DbError Redirect × Store
disable_redirect q env = update_returning q env "disable redirect" (set_disabled env (some env.now))

unfoldable pub enable_redirect : Sqlite → Env → Str → Store → Result DbError Redirect × Store
enable_redirect q env = update_returning q env "enable redirect" (set_disabled env none)

unfoldable pub set_redirect_expiration :
    Sqlite → Env → Str → Option Str → Store → Result DbError Redirect × Store
set_redirect_expiration q env slug expires_at =
    update_returning q env "set redirect expiration" (set_expiration env expires_at) slug

-- The later of the stored time and the new one: a time that SQLite cannot read is not later.
unfoldable pub latest : Sqlite → Option Str → Str → Str
latest q none value = value
latest q (some stored) value =
    if later_day (q.julianday stored) (q.julianday value) then stored else value

unfoldable pub accessed : Sqlite → Str → Redirect → Redirect
accessed q value r = record r {
  click_count = if ltb r.click_count max_count then r.click_count + 1 else r.click_count;
  last_accessed_at = some (latest q r.last_accessed_at value);
}

-- `value` is the time of access as RFC 3339 text in UTC. The update is not undone where only the
-- number of rows cannot be read.
unfoldable pub record_redirect_access : Sqlite → Env → ℕ → Str → Store → Option DbError × Store
record_redirect_access q env id value s =
    let t = record s {
      redirects = update_where (λ r. r.id == id) (accessed q value) s.redirects;
    } in
    if env.fails update
    then (some (wrapped "record redirect access"), s)
    else if env.fails rows_affected
    then (some (wrapped "record redirect access result"), t)
    else if any (λ r. r.id == id) s.redirects
    then (none, t)
    else (some redirect_not_found, t)

unfoldable pub delete_redirect : Sqlite → Env → Str → Store → Option DbError × Store
delete_redirect q env slug s =
    let t = record s { redirects = keep (λ r. not (has_slug q slug r)) s.redirects } in
    if env.fails delete
    then (some (wrapped "delete redirect"), s)
    else if env.fails rows_affected
    then (some (wrapped "delete redirect result"), t)
    else if taken q slug s.redirects
    then (none, t)
    else (some redirect_not_found, t)

-- `disabled_at IS NULL AND (expires_at IS NULL OR julianday(expires_at) > julianday('now'))`
unfoldable pub is_active : Sqlite → Env → Redirect → Bool
is_active q env r =
    not (is_some r.disabled_at)
    && elim r.expires_at [ none ↦ true | some t ↦ later_day (q.julianday t) (some env.today) ]

-- db/db.go
unfoldable pub resolve_slug : Sqlite → Env → Str → Store → Result DbError (ℕ × Str)
resolve_slug q env slug s =
    if env.fails select
    then err raw
    else elim (find (λ r. has_slug q slug r && is_active q env r) s.redirects) [
      | none ↦ err no_rows
      | some r ↦ ok (r.id, r.url)
    ]

abbrev pub url_of : Result DbError (ℕ × Str) → Result DbError Str
url_of (ok (id, url)) = ok url
url_of (err e) = err e

unfoldable pub query_slug : Sqlite → Env → Str → Store → Result DbError Str
unfolding resolve_slug
query_slug q env slug s = url_of (resolve_slug q env slug s)
