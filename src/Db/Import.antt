-- ===== src/Db/Import.antt =====
-- The import of db/redirects.go: `ImportRedirects` and `RedirectImportConflicts`.
pub mod Atomic
pub mod Valid
use gottem_link.Base.{
  ℕ, suc, ◌+◌, ◌-◌, ◌^◌, ◌%◌, Str, Bool, true, false, not, ◌||◌, Option, none, some, List, [], ◌∷◌,
  Result, ok, err, String, if◌then◌else◌, sort_by, is_empty, lower, ◌>>=◌, ltb, ◌==◌,
}
use gottem_link.Base.Int.{ℤ, pos, negsuc}
use gottem_link.Db.Sql.{
  Sqlite, Env, begin, check, insert_at, clear_at, commit, DbError, slug_conflicts, wrapped,
}
use gottem_link.Db.Store.{Redirect, ImportRedirect, Store, taken}
use gottem_link.Db.Redirects.{with_row, no_id_left}

-- The bytes of `sqliteNOCASEName`, the upper-case ASCII letters taken to lower case.
unfoldable pub sqlite_nocase_name : Str → Str
sqlite_nocase_name value = lower value

-- The order of sort.Strings.
unfoldable pub str_lt : Str → Str → Bool
str_lt [] [] = false
str_lt [] (y ∷ t) = true
str_lt (x ∷ s) [] = false
str_lt (x ∷ s) (y ∷ t) =
    let rest = str_lt s t in if ltb x y then true else if x == y then rest else false

abbrev pub sort_strings : List Str → List Str
sort_strings = sort_by str_lt

-- The loop that collects the slugs that are taken; `index` counts its rounds.
unfoldable pub collect_conflicts :
    Sqlite → Env → String → ℕ → List ImportRedirect → Store → Result DbError (List Str)
unfolding sqlite_nocase_name
collect_conflicts q env message index [] s = ok []
collect_conflicts q env message index (r ∷ rs) s =
    let rest = collect_conflicts q env message (suc index) rs s in
    if env.fails (check index)
    then err (wrapped message)
    else if taken q r.slug s.redirects
    then (rest >>= λ conflicts. ok (sqlite_nocase_name r.slug ∷ conflicts))
    else rest

abbrev count_of : ℤ → ℕ
count_of (pos n) = n
count_of (negsuc n) = 0

-- The CHECK of the column click_count.
abbrev is_negative : ℤ → Bool
is_negative (pos n) = false
is_negative (negsuc n) = true

-- The row that the INSERT gives.
abbrev pub imported_row : Env → ℕ → ImportRedirect → Redirect
imported_row env id r = record {
  id = id;
  slug = r.slug;
  url = r.url;
  created_at = env.now;
  updated_at = env.now;
  disabled_at = if r.disabled then some env.now else none;
  expires_at = r.expires_at;
  destination_updated_at =
      if is_empty r.destination_updated_at then env.now else r.destination_updated_at;
  click_count = count_of r.click_count;
  last_accessed_at = r.last_accessed_at;
}

-- The loop of insertions, on the tables inside the transaction.
unfoldable pub insert_all : Sqlite → Env → ℕ → List ImportRedirect → Store → Result DbError Store
unfolding sqlite_nocase_name
insert_all q env index [] s = ok s
insert_all q env index (r ∷ rs) s =
    let rest =
      insert_all q env (suc index) rs (with_row q (imported_row env (s.sequence + 1) r) s) in
    if env.fails (insert_at index) || (no_id_left s || is_negative r.click_count)
    then err (wrapped "import redirect")
    else if taken q r.slug s.redirects
    then err (slug_conflicts (sqlite_nocase_name r.slug ∷ []))
    else if env.fails (clear_at index)
    then err (wrapped "clear imported slug miss")
    else rest

-- The decision after the loop that looks for conflicts.
abbrev reject_conflicts : List Str → Result DbError (Unit {0})
reject_conflicts [] = ok tt
reject_conflicts (c ∷ cs) = err (slug_conflicts (sort_strings (c ∷ cs)))

-- The statements of the transaction up to its commit.
unfoldable pub import_steps : Sqlite → Env → List ImportRedirect → Store → Result DbError Store
import_steps q env redirects s =
    if env.fails begin then err (wrapped "begin redirect import") else do
      conflicts ← collect_conflicts q env "check redirect import conflicts" 0 redirects s
      _ ← reject_conflicts conflicts
      s' ← insert_all q env 0 redirects s
      if env.fails commit then err (wrapped "commit redirect import") else ok s'

-- Only a committed transaction changes the store.
abbrev pub committed : Store → Result DbError Store → Option DbError × Store
committed s (ok s') = (none, s')
committed s (err e) = (some e, s)

unfoldable pub import_redirects :
    Sqlite → Env → List ImportRedirect → Store → Option DbError × Store
import_redirects q env redirects s = committed s (import_steps q env redirects s)

unfoldable pub redirect_import_conflicts :
    Sqlite → Env → List ImportRedirect → Store → Result DbError (List Str)
redirect_import_conflicts q env redirects s = do
  conflicts ← collect_conflicts q env "check redirect import conflicts" 0 redirects s
  ok (sort_strings conflicts)
