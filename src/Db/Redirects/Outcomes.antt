-- ===== src/Db/Redirects/Outcomes.antt =====
-- The ways in which the operations on redirects can end.
use gottem_link.Base.{
  ℕ, ◌+◌, ◌<◌, Str, Bool, true, false, not, ◌||◌, Option, none, some, ◌≡◌, refl, ◌⊎◌, inl, inr,
  arith, Result, ok, err, String, if◌then◌else◌, find, keep, update_where, any, Bool-cases,
  Option-cases, ◌==◌,
}
use gottem_link.Db.Sql.{
  Sqlite, Env, begin, insert, update, delete, rows_affected, clear_miss, commit, DbError,
  redirect_not_found, slug_conflict, wrapped,
}
use gottem_link.Db.Store.{Redirect, Store, has_slug, taken, max_count}
use gottem_link.Db.Redirects.{
  new_row, with_row, no_id_left, create_redirect_with_expiration, update_returning, accessed,
  record_redirect_access, delete_redirect,
}

-- A creation fails and leaves the store, or adds the row for a slug that was free.
abbrev pub CreateOutcome : Sqlite → Redirect → Store → Result DbError Redirect × Store → Type 0
CreateOutcome q row s r =
    ((e : DbError) × (r ≡ (err e, s)))
    ⊎ ((taken q row.slug s.redirects ≡ false)
        × (s.sequence < max_count)
        × (r ≡ (ok row, with_row q row s)))

-- An update fails and leaves the store, or changes the rows of the slug, of which there is one.
abbrev pub UpdateOutcome :
    Sqlite → (Redirect → Redirect) → Str → Store → Result DbError Redirect × Store → Type 0
UpdateOutcome q change slug s r =
    ((e : DbError) × (r ≡ (err e, s)))
    ⊎ ((row : Redirect) × (find (has_slug q slug) s.redirects ≡ some row)
        × (r ≡ (
          ok (change row),
          record s { redirects = update_where (has_slug q slug) change s.redirects },
        )))

-- What the number of rows says changes the error alone.
same_store :
    (unread found : Bool) (e f : Option DbError) (t : Store)
    → (if◌then◌else◌ {A = Option DbError × Store} unread
        (e, t)
        (if found then (none, t) else (f, t))).1
      ≡ t
same_store true found e f t = refl
same_store false true e f t = refl
same_store false false e f t = refl

module _ (q : Sqlite) (env : Env) where
  pub create-outcome :
      (slug url : Str) (expires_at : Option Str) (s : Store)
      → CreateOutcome q
          (new_row env (s.sequence + 1) slug url expires_at)
          s
          (create_redirect_with_expiration q env slug url expires_at s)
  unfolding create_redirect_with_expiration
  create-outcome slug url expires_at s = elim (Bool-cases (env.fails begin)) [
    | inl e ↦ inl (wrapped "begin create redirect", rw e)
    | inr begun ↦ elim (Bool-cases (env.fails insert || no_id_left s)) [
      | inl e ↦ inl (wrapped "create redirect", rw (begun, e))
      | inr room ↦ elim (Bool-cases (taken q slug s.redirects)) [
        | inl e ↦ inl (slug_conflict, rw (begun, room, e))
        | inr free ↦ elim (Bool-cases (env.fails clear_miss)) [
          | inl e ↦ inl (wrapped "clear resolved slug miss", rw (begun, room, free, e))
          | inr cleared ↦ elim (Bool-cases (env.fails commit)) [
            | inl e ↦ inl (wrapped "commit create redirect", rw (begun, room, free, cleared, e))
            | inr done ↦ inr (free, below room, rw (begun, room, free, cleared, done))
          ]
        ]
      ]
    ]
  ]
    where
      below : (env.fails insert || no_id_left s) ≡ false → s.sequence < max_count
      below h = ground arith

  pub update-outcome :
      (message : String) (change : Redirect → Redirect) (slug : Str) (s : Store)
      → UpdateOutcome q change slug s (update_returning q env message change slug s)
  unfolding update_returning
  update-outcome message change slug s = elim (Bool-cases (env.fails update)) [
    | inl e ↦ inl (wrapped message, rw e)
    | inr run ↦ elim (Option-cases (find (has_slug q slug) s.redirects)) [
      | inl missing ↦ inl (redirect_not_found, rw (run, missing))
      | inr (row, found) ↦ inr (row, found, rw (run, found))
    ]
  ]

  -- A recorded access changes the rows of the id, or fails before it changes anything.
  pub access-outcome :
      (id : ℕ) (value : Str) (s : Store)
      → ((record_redirect_access q env id value s).1 ≡ s)
        ⊎ ((record_redirect_access q env id value s).1 ≡ record s {
          redirects = update_where (λ r. r.id == id) (accessed q value) s.redirects;
        })
  unfolding record_redirect_access
  access-outcome id value s = elim (Bool-cases (env.fails update)) [
    | inl e ↦ inl (rw e)
    | inr run ↦
        inr
          (rw run (same_store (env.fails rows_affected) (any (λ r. r.id == id) s.redirects) _ _ _))
  ]

  pub delete-outcome :
      (slug : Str) (s : Store)
      → ((delete_redirect q env slug s).1 ≡ s)
        ⊎ ((delete_redirect q env slug s).1
            ≡ record s { redirects = keep (λ r. not (has_slug q slug r)) s.redirects })
  unfolding delete_redirect
  delete-outcome slug s = elim (Bool-cases (env.fails delete)) [
    | inl e ↦ inl (rw e)
    | inr run ↦ inr (rw run (same_store (env.fails rows_affected) (taken q slug s.redirects) _ _ _))
  ]

  pub delete-ok :
      (slug : Str) (s s' : Store)
      → delete_redirect q env slug s ≡ (none, s')
      → (taken q slug s.redirects ≡ true)
        × (record s { redirects = keep (λ r. not (has_slug q slug r)) s.redirects } ≡ s')
  unfolding delete_redirect
  delete-ok slug s s' e = ground (arith, e)
