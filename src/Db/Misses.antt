-- ===== src/Db/Misses.antt =====
-- db/misses.go: the aggregate of slugs that were asked for and do not exist.
pub mod Prune
pub mod Valid
use gottem_link.Base.{
  ℕ, ◌+◌, Str, Bool, true, false, not, ◌&&◌, ◌||◌, Option, none, some, List, [], ◌∷◌, Result, ok,
  err, if◌then◌else◌, ltb, keep, any, update_where, sort_by, take, drop, map, Unicode, to_lower,
}
use gottem_link.Db.Sql.{
  Sqlite, Env, begin, insert, select, scan, prune, commit, DbError, wrapped, later_day,
}
use gottem_link.Db.Store.{
  SlugMiss, Store, max_count, is_miss_of, taken, max_stored_slug_misses, max_listed_slug_misses,
}

-- ORDER BY puts NULL below every number.
unfoldable pub newer : Option ℕ → Option ℕ → Bool
newer none b = false
newer (some a) none = true
newer (some a) (some b) = ltb b a

-- ORDER BY julianday(last_missed_at) DESC, slug COLLATE NOCASE
unfoldable pub listed_before : Sqlite → SlugMiss → SlugMiss → Bool
unfolding newer
listed_before q a b =
    let day_a = q.julianday a.last_missed_at in
    let day_b = q.julianday b.last_missed_at in
    newer day_a day_b || (not (newer day_b day_a) && q.nocase_lt a.slug b.slug)

-- ON CONFLICT(slug) DO UPDATE
unfoldable pub missed_again : Sqlite → Str → SlugMiss → SlugMiss
missed_again q value m = record m {
  miss_count = if ltb m.miss_count max_count then m.miss_count + 1 else m.miss_count;
  first_missed_at =
      if later_day (q.julianday value) (q.julianday m.first_missed_at)
      then m.first_missed_at
      else value;
  last_missed_at =
      if later_day (q.julianday m.last_missed_at) (q.julianday value)
      then m.last_missed_at
      else value;
}

abbrev first_miss : Str → Str → SlugMiss
first_miss slug value = record {
  slug = slug;
  miss_count = 1;
  first_missed_at = value;
  last_missed_at = value;
}

-- The INSERT: nothing where a redirect has the slug.
unfoldable pub upsert_miss : Sqlite → Str → Str → Store → List SlugMiss
unfolding missed_again
upsert_miss q slug value s =
    if taken q slug s.redirects
    then s.misses
    else if any (is_miss_of q slug) s.misses
    then update_where (is_miss_of q slug) (missed_again q value) s.misses
    else first_miss slug value ∷ s.misses

-- The slugs behind the first 500 in the order of listing.
unfoldable pub doomed : Sqlite → List SlugMiss → SlugMiss → Bool
doomed q misses m =
    any (λ d. q.nocase m.slug d.slug)
      (drop max_stored_slug_misses (sort_by (listed_before q) misses))

-- The DELETE of these slugs.
unfoldable pub prune_misses : Sqlite → List SlugMiss → List SlugMiss
prune_misses q misses = keep (λ m. not (doomed q misses m)) misses

-- `value` is the time of the miss as RFC 3339 text in UTC.
unfoldable pub record_slug_miss :
    Unicode → Sqlite → Env → Str → Str → Store → Option DbError × Store
record_slug_miss u q env slug value s =
    let misses = upsert_miss q (to_lower u slug) value s in
    if env.fails begin
    then (some (wrapped "begin record slug miss"), s)
    else if env.fails insert
    then (some (wrapped "record slug miss"), s)
    else if env.fails prune
    then (some (wrapped "prune slug misses"), s)
    else if env.fails commit
    then (some (wrapped "commit record slug miss"), s)
    else (none, record s { misses = prune_misses q misses })

unfoldable pub list_slug_misses : Sqlite → Env → Store → Result DbError (List SlugMiss)
list_slug_misses q env s =
    if env.fails select
    then err (wrapped "list slug misses")
    else if env.fails scan
    then err (wrapped "scan slug miss")
    else ok (take max_listed_slug_misses (sort_by (listed_before q) s.misses))
