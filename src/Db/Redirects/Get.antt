-- ===== src/Db/Redirects/Get.antt =====
-- What the operations on redirects do, seen through `GetRedirect`.

use gottem_link.Base.{
  ◌+◌, ◌<◌, Str, true, false, not, ◌&&◌, Option, none, some, List, ◌≡◌, refl, sym, ◌∙◌, subst,
  subst₂, ok_pair-injective, ap, inl, inr, arith, String, ok, err, if◌then◌else◌, find, keep,
  update_where, All, Bool-cases, update_where_congr, any_of_find, any_congr, All-keep_self, ◌==◌,
}
use gottem_link.Db.Sql.{
  Sqlite, SqliteLaws, Env, select, update, rows_affected, begin, insert, clear_miss, commit,
  DbError, redirect_not_found, slug_conflict,
}
use gottem_link.Db.Store.{Redirect, Store, max_count, has_slug, is_miss_of, taken}
use gottem_link.Db.Redirects.Changed.{HasDestination, IsAccessed, accessed-IsAccessed}
use gottem_link.Db.Invariant.{IsValid}
use gottem_link.Db.Redirects.{
  new_row, with_row, no_id_left, create_redirect_with_expiration, get_redirect, update_returning,
  accessed, record_redirect_access, delete_redirect, set_url, set_disabled, set_expiration,
  update_redirect, disable_redirect, enable_redirect, set_redirect_expiration,
}
use gottem_link.Db.Redirects.Outcomes.{create-outcome, update-outcome, delete-ok}
use gottem_link.Db.Redirects.View.{Calm, same_row, find-changed, find-removed}

-- What `GetRedirect` shows of a slug `t` after an operation that returned a row for `slug`: that
-- row, where the slugs are the same and the reading does not fail, and else what it showed before.
abbrev pub Shows : Sqlite → Env → Str → Str → Redirect → Store → Store → Type 0
Shows q reader t slug row s s' =
    get_redirect q reader t s'
    ≡ (if q.nocase slug t && not (reader.fails select) then ok row else get_redirect q reader t s)

module _ (q : Sqlite) (laws : SqliteLaws q) (env reader : Env) (t : Str) where
  get-added : (row : Redirect) (s : Store) → Shows q reader t row.slug row s (with_row q row s)
  unfolding get_redirect
  get-added row s = elim (Bool-cases (reader.fails select)) [
    | inl f ↦ elim (Bool-cases (q.nocase row.slug t)) [ inl e ↦ rw (f, e) | inr e ↦ rw (f, e) ]
    | inr f ↦ elim (Bool-cases (q.nocase row.slug t)) [ inl e ↦ rw (f, e) | inr e ↦ rw (f, e) ]
  ]

  abbrev pub Fresh : Str → Str → Option Str → Store → Redirect → Store → Type 0
  Fresh slug url expires_at s row s' =
      Shows q reader t slug row s s'
      × ((row.slug ≡ slug)
          × (row.url ≡ url)
          × (row.expires_at ≡ expires_at)
          × (row.disabled_at ≡ none)
          × (row.click_count ≡ 0)
          × (row.last_accessed_at ≡ none))
      × All (λ m. is_miss_of q slug m ≡ false) s'.misses

  -- A redirect that was created is found under every spelling of its slug, with the destination and
  -- the expiration that were given, enabled and never accessed; what other slugs show is
  -- unchanged, and no miss of the slug is left.
  pub get-create :
      (slug url : Str) (expires_at : Option Str) (s s' : Store) (row : Redirect)
      → create_redirect_with_expiration q env slug url expires_at s ≡ (ok row, s')
      → Fresh slug url expires_at s row s'
  get-create slug url expires_at s s' row e = elim (create-outcome q env slug url expires_at s) [
    | inl (f, kept) ↦ cc (e, kept)
    | inr (free, room, added) ↦
        let (same, store) = ok_pair-injective (sym added ∙ e) in
        subst₂ (λ r t. Fresh slug url expires_at s r t) same store
          (
            get-added (new_row env (s.sequence + 1) slug url expires_at) s,
            (refl, refl, refl, refl, refl, refl),
            All-keep_self _ (λ m. not (is_miss_of q slug m)) s.misses (λ m h. ground (arith, h)),
          )
  ]

-- What a search of the new rows finds is what `GetRedirect` shows.
get-rows :
    (q : Sqlite) (reader : Env) (t slug : Str) (row : Redirect) (s : Store) (rows : List Redirect)
    → find (has_slug q t) rows
      ≡ (if q.nocase slug t then some row else find (has_slug q t) s.redirects)
    → Shows q reader t slug row s (record s { redirects = rows })
unfolding get_redirect
get-rows q reader t slug row s rows h = elim (Bool-cases (reader.fails select)) [
  | inl f ↦ elim (Bool-cases (q.nocase slug t)) [ inl e ↦ rw (f, e) | inr e ↦ rw (f, e) ]
  | inr f ↦ elim (Bool-cases (q.nocase slug t)) [ inl e ↦ rw (f, h, e) | inr e ↦ rw (f, h, e) ]
]

module _ (q : Sqlite) (env : Env) (slug url : Str) (expires_at : Option Str) (s : Store) where
  -- A creation that fails, whichever of its database calls failed, leaves the store as it was.
  pub create_atomic :
      (e : DbError) (s' : Store)
      → create_redirect_with_expiration q env slug url expires_at s ≡ (err e, s')
      → s' ≡ s
  create_atomic e s' h = elim (create-outcome q env slug url expires_at s) [
    | inl (f, kept) ↦ ap (λ p. p.1) (sym h ∙ kept)
    | inr (free, room, added) ↦ cc (h, added)
  ]

  -- Where no call fails and ids are left, a creation fails exactly for a slug that is taken, with
  -- the conflict as its error.
  pub create_decides :
      Calm env
      → s.sequence < max_count
      → (create_redirect_with_expiration q env slug url expires_at s).0 ≡ (
          if taken q slug s.redirects
          then err slug_conflict
          else ok (new_row env (s.sequence + 1) slug url expires_at))
  unfolding create_redirect_with_expiration
  create_decides calm room = elim (Bool-cases (taken q slug s.redirects)) [
    | inl e ↦ rw (calm begin, calm insert, no_full room, e)
    | inr e ↦ rw (calm begin, calm insert, no_full room, e, calm clear_miss, calm commit)
  ]
    where
      no_full : s.sequence < max_count → no_id_left s ≡ false
      no_full h = ground arith

accessed-slug : (q : Sqlite) (value : Str) (x : Redirect) → (accessed q value x).slug ≡ x.slug
unfolding accessed
accessed-slug q value x = refl

module _ (q : Sqlite) (laws : SqliteLaws q) (env reader : Env) (t : Str) where
  -- The row that is returned is the stored one, changed, and it replaces that one.
  abbrev pub Replaced : (Redirect → Redirect) → Str → Store → Redirect → Store → Type 0
  Replaced change slug s row s' =
      Shows q reader t slug row s s'
      × ((old : Redirect) × (find (has_slug q slug) s.redirects ≡ some old) × (row ≡ change old))

  get-returned :
      (message : String) (change : Redirect → Redirect) (slug : Str) (s s' : Store) (row : Redirect)
      → ((r : Redirect) → (change r).slug ≡ r.slug)
      → update_returning q env message change slug s ≡ (ok row, s')
      → Replaced change slug s row s'
  get-returned message change slug s s' row fixed e =
      elim (update-outcome q env message change slug s) [
        | inl (f, kept) ↦ cc (e, kept)
        | inr (old, found, changed) ↦
            let (same, store) = ok_pair-injective (sym changed ∙ e) in
            (
              subst₂ (λ r u. Shows q reader t slug r s u) same store (shown old found),
              (old, found, sym same),
            )
      ]
    where
      shown :
          (old : Redirect)
          → find (has_slug q slug) s.redirects ≡ some old
          → Shows q reader t slug
              (change old)
              s
              (record s { redirects = update_where (has_slug q slug) change s.redirects })
      shown old found =
          get-rows q reader t slug (change old) s _
            (rw (find-changed q laws slug t change s.redirects fixed, found))

  -- After a new destination is set the row that is returned has it, with the time of the change as
  -- its times of update, and is otherwise the row that was stored; every spelling of the slug shows
  -- it, other slugs what they showed.
  pub get-update :
      (slug url : Str) (s s' : Store) (row : Redirect)
      → update_redirect q env slug url s ≡ (ok row, s')
      → Shows q reader t slug row s s'
        × ((old : Redirect) × (find (has_slug q slug) s.redirects ≡ some old)
            × HasDestination url env.now old row)
  unfolding update_redirect
  get-update slug url s s' row e =
      let (shown, (old, found, same)) =
        get-returned "update redirect" (set_url env url) slug s s' row (λ r. refl) e in
      (
        shown,
        (
          old,
          found,
          subst (HasDestination url env.now old) (sym same) (record {
            destination = refl;
            times = (refl, refl);
            others = (refl, refl, refl, refl, refl, refl, refl);
          }),
        ),
      )

  -- The same of the time of disabling, which is set or taken away,
  pub get-disable :
      (slug : Str) (s s' : Store) (row : Redirect)
      → disable_redirect q env slug s ≡ (ok row, s')
      → Replaced (set_disabled env (some env.now)) slug s row s'
  unfolding disable_redirect
  get-disable slug s s' row =
      get-returned "disable redirect" (set_disabled env (some env.now)) slug s s' row (λ r. refl)

  pub get-enable :
      (slug : Str) (s s' : Store) (row : Redirect)
      → enable_redirect q env slug s ≡ (ok row, s')
      → Replaced (set_disabled env none) slug s row s'
  unfolding enable_redirect
  get-enable slug s s' row =
      get-returned "enable redirect" (set_disabled env none) slug s s' row (λ r. refl)

  -- and of the expiration.
  pub get-set_expiration :
      (slug : Str) (expires_at : Option Str) (s s' : Store) (row : Redirect)
      → set_redirect_expiration q env slug expires_at s ≡ (ok row, s')
      → Replaced (set_expiration env expires_at) slug s row s'
  unfolding set_redirect_expiration
  get-set_expiration slug expires_at s s' row =
      get-returned "set redirect expiration" (set_expiration env expires_at) slug s s' row
        (λ r. refl)

  get-kept :
      (slug : Str) (s : Store)
      → get_redirect q reader t
          (record s { redirects = keep (λ r. not (has_slug q slug r)) s.redirects })
        ≡ (if q.nocase slug t && not (reader.fails select)
            then err redirect_not_found
            else get_redirect q reader t s)
  unfolding get_redirect
  get-kept slug s = elim (Bool-cases (reader.fails select)) [
    | inl f ↦ elim (Bool-cases (q.nocase slug t)) [ inl e ↦ rw (f, e) | inr e ↦ rw (f, e) ]
    | inr f ↦ elim (Bool-cases (q.nocase slug t)) [
      | inl e ↦ rw (f, find-removed q laws slug t s.redirects, e)
      | inr e ↦ rw (f, find-removed q laws slug t s.redirects, e)
    ]
  ]

  -- A deleted redirect is not found under any spelling of its slug, and other slugs show what they
  -- showed; the ids and the misses stay.
  pub get-delete :
      (slug : Str) (s s' : Store)
      → delete_redirect q env slug s ≡ (none, s')
      → (get_redirect q reader t s' ≡ (
          if q.nocase slug t && not (reader.fails select)
          then err redirect_not_found
          else get_redirect q reader t s))
        × (s'.sequence ≡ s.sequence)
        × (s'.misses ≡ s.misses)
        × (taken q slug s.redirects ≡ true)
  get-delete slug s s' e =
      let (found, store) = delete-ok q env slug s s' e in
      subst
        (λ u.
          (get_redirect q reader t u ≡ (
            if q.nocase slug t && not (reader.fails select)
            then err redirect_not_found
            else get_redirect q reader t s))
          × (u.sequence ≡ s.sequence)
          × (u.misses ≡ s.misses)
          × (taken q slug s.redirects ≡ true))
        store (get-kept slug s, refl, refl, found)

  access-shown :
      (slug value : Str) (s : Store) (r : Redirect)
      → IsValid q s
      → Calm env
      → find (has_slug q slug) s.redirects ≡ some r
      → ((record_redirect_access q env r.id value s).0 ≡ none)
        × Shows q reader t slug (accessed q value r) s (record_redirect_access q env r.id value s).1
  unfolding record_redirect_access
  access-shown slug value s r v calm found =
      let same = same_row q laws slug s.redirects r v.apart found in
      rw
        (
          calm update,
          calm rows_affected,
          any_congr (λ x. x.id == r.id) (has_slug q slug) s.redirects same,
          any_of_find (has_slug q slug) s.redirects,
          found,
          update_where_congr (λ x. x.id == r.id) (has_slug q slug) (accessed q value) s.redirects
              same,
        )
        (
          refl,
          get-rows q reader t slug (accessed q value r) s _
              (rw (find-changed q laws slug t (accessed q value) s.redirects fixed_slug, found)),
        )
    where
      fixed_slug : (x : Redirect) → (accessed q value x).slug ≡ x.slug
      fixed_slug x = accessed-slug q value x

  -- In a valid store where no call fails, an access of a stored redirect counts one click on it, until
  -- the counter is full, and moves its last access to the later of the two times; nothing else of it
  -- and no other redirect changes.
  pub get-access :
      (slug value : Str) (s : Store) (r : Redirect)
      → IsValid q s
      → Calm env
      → find (has_slug q slug) s.redirects ≡ some r
      → ((record_redirect_access q env r.id value s).0 ≡ none)
        × ((row : Redirect) × IsAccessed q value r row
            × Shows q reader t slug row s (record_redirect_access q env r.id value s).1)
  get-access slug value s r v calm found =
      let (done, shown) = access-shown slug value s r v calm found in
      (done, (accessed q value r, accessed-IsAccessed q value r, shown))
