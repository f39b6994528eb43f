-- ===== src/Handlers/Redirect/Visit.antt =====
-- What a visit does, by the row that is stored for its slug.
use gottem_link.Base.{
  ◌<◌, Str, Bool, false, not, Option, none, some, [], ◌∷◌, if◌then◌else◌, ok, Unicode, is_empty,
  length, find, ◌≡◌, refl, arith, inl, inr, Bool-cases, Option-cases,
}
use gottem_link.Base.Int.{ℤ}
use gottem_link.Validation.Slug.{validate_slug}
use gottem_link.Validation.Slug.Canonical.{IsSlug-of_ok, to_lower_canonical}
use gottem_link.Db.Sql.{Sqlite, SqliteLaws, Env, select}
use gottem_link.Db.Store.{Redirect, Store, has_slug}
use gottem_link.Db.Invariant.{IsValid}
use gottem_link.Db.Redirects.{get_redirect, is_active}
use gottem_link.Db.Redirects.Resolve.{answer, resolve_slug-eq-answer}
use gottem_link.Handlers.Redirect.{
  Reply, missing_page, found, Tracked, track, track_miss, Tracker, tracks_accesses, tracks_misses,
  missed, answered, redirect_handler,
}

-- What a visit to a slug does, by the row of the slug.
abbrev pub visit :
    Sqlite → Env → Tracker → ℤ → Bool → Str → Option Redirect → Reply × Option Tracked
visit q env tracker at is_head canonical none = (
  missing_page (not is_head),
  if tracks_misses tracker then some (track_miss canonical at) else none,
)
visit q env tracker at is_head canonical (some r) =
    if is_active q env r
    then (found r.url, if tracks_accesses tracker then some (track r.id at) else none)
    else (missing_page (not is_head), none)

nonempty_slug : (s : Str) → 0 < length s → is_empty s ≡ false
nonempty_slug [] h = ground (arith, h)
nonempty_slug (c ∷ s) h = refl

module _ (uni : Unicode) (q : Sqlite) (laws : SqliteLaws q) (tracker : Tracker) (at : ℤ)
    (is_head : Bool) where
  -- What the second read tells of a row that the first did not give.
  missed_lem :
      (env : Env) (raw canonical : Str) (s : Store)
      → validate_slug uni raw ≡ ok canonical
      → env.fails select ≡ false
      → missed uni q env tracker at raw s ≡ elim (find (has_slug q canonical) s.redirects) [
        | none ↦ if tracks_misses tracker then some (track_miss canonical at) else none
        | some r ↦ none
      ]
  unfolding missed get_redirect
  missed_lem env raw canonical s v calm =
      elim (Option-cases (find (has_slug q canonical) s.redirects)) [
        | inl e ↦ rw (missed, v, get_redirect, calm, e) refl
        | inr (r, e) ↦ elim (Bool-cases (tracks_misses tracker)) [
          | inl m ↦ rw (missed, v, get_redirect, calm, e, m) refl
          | inr m ↦ rw (missed, v, get_redirect, calm, e, m) refl
        ]
      ]

  visit_row :
      (env : Env) (canonical : Str) (o : Option Redirect)
      → answered tracker at is_head
          (elim o [
            | none ↦ if tracks_misses tracker then some (track_miss canonical at) else none
            | some r ↦ none
          ])
          (answer q env o)
        ≡ visit q env tracker at is_head canonical o
  visit_row env canonical none = refl
  visit_row env canonical (some r) = elim (Bool-cases (is_active q env r)) [
    | inl e ↦ rw e refl
    | inr e ↦ rw e refl
  ]

  -- In a valid store whose two reads do not fail, what a visit under a text that is accepted as a
  -- slug does follows from the row of that slug. Where there is none, the missing page is written
  -- and the miss is counted, if the tracker counts misses. A row that is disabled or expired gives
  -- the missing page and no miss. An active row gives its destination, and the access is counted
  -- for its id, if there is a tracker.
  pub visit_decides :
      (env env' : Env) (raw canonical : Str) (s : Store)
      → IsValid q s
      → validate_slug uni raw ≡ ok canonical
      → env.fails select ≡ false
      → env'.fails select ≡ false
      → redirect_handler uni q tracker at is_head raw env s env' s
        ≡ visit q env tracker at is_head canonical (find (has_slug q canonical) s.redirects)
  unfolding redirect_handler
  visit_decides env env' raw canonical s valid v calm calm' =
      rw
        (
          redirect_handler,
          nonempty_slug raw (IsSlug-of_ok uni raw canonical v).0.nonempty,
          to_lower_canonical uni raw canonical v,
          resolve_slug-eq-answer q laws env canonical s valid calm,
          missed_lem env' raw canonical s v calm',
        )
        (visit_row env canonical (find (has_slug q canonical) s.redirects))
