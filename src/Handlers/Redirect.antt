-- ===== src/Handlers/Redirect.antt =====
-- handlers/redirect.go: the public lookup, which visitors use.
pub mod Visit
use gottem_link.Base.{
  ℕ, Str, Bool, true, false, not, ◌&&◌, Option, none, some, List, [], ◌∷◌, if◌then◌else◌, Result,
  ok, err, Unicode, to_lower, is_empty,
}
use gottem_link.Base.Int.{ℤ}
use gottem_link.Validation.Slug.{validate_slug}
use gottem_link.Db.Sql.{Sqlite, Env, DbError, redirect_not_found, no_rows}
use gottem_link.Db.Store.{Redirect, Store}
use gottem_link.Db.Redirects.{resolve_slug, get_redirect}

-- What is written: an error's text, the page for a missing slug, with its content unless the
-- method is HEAD, or a redirection.
pub data Reply : Type 0 where
  no_slug internal_server_error : Reply
  missing_page : Bool → Reply
  found : Str → Reply

-- What the tracker is told.
pub data Tracked : Type 0 where
  track : ℕ → ℤ → Tracked
  track_miss : Str → ℤ → Tracked

-- The optional argument of `RedirectHandler`: no tracker, one of accesses alone, or one of misses
-- too.
pub data Tracker : Type 0 where
  untracked accesses_only accesses_and_misses : Tracker

abbrev pub tracks_accesses : Tracker → Bool
tracks_accesses untracked = false
tracks_accesses _ = true

abbrev pub tracks_misses : Tracker → Bool
tracks_misses accesses_and_misses = true
tracks_misses _ = false

-- The second read, which tells a missing slug from one that is inactive. Only its text is logged
-- where it fails.
abbrev pub classified : Str → ℤ → Result DbError Redirect → Option Tracked
classified canonical at (err redirect_not_found) = some (track_miss canonical at)
classified canonical at _ = none

unfoldable pub missed : Unicode → Sqlite → Env → Tracker → ℤ → Str → Store → Option Tracked
missed uni q env tracker at raw s = elim (validate_slug uni raw) [
  | err e ↦ none
  | ok canonical ↦
      if tracks_misses tracker
      then classified canonical at (get_redirect q env canonical s)
      else none
]

abbrev pub answered :
    Tracker → ℤ → Bool → Option Tracked → Result DbError (ℕ × Str) → Reply × Option Tracked
answered tracker at is_head miss (ok (id, url)) =
    (found url, if tracks_accesses tracker then some (track id at) else none)
answered tracker at is_head miss (err no_rows) = (missing_page (not is_head), miss)
answered tracker at is_head miss (err e) = (internal_server_error, none)

-- The `raw` is the path without its slash, `at` the time, `s` and `env` what the first read meets,
-- `s'` and `env'` what the second does.
unfoldable pub redirect_handler :
    Unicode → Sqlite → Tracker → ℤ → Bool → Str → Env → Store → Env → Store → Reply × Option Tracked
redirect_handler uni q tracker at is_head raw env s env' s' =
    if is_empty raw
    then (no_slug, none)
    else answered tracker at is_head (missed uni q env' tracker at raw s')
        (resolve_slug q env (to_lower uni raw) s)
