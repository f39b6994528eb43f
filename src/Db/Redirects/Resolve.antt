-- ===== src/Db/Redirects/Resolve.antt =====
-- What `ResolveSlug`, the public lookup, gives.

use gottem_link.Base.{
  ℕ, Str, Bool, true, false, ◌&&◌, Option, none, some, List, [], ◌∷◌, ◌≡◌, refl, sym, ◌∙◌, subst,
  subst₂, ok_pair-injective, ap, inl, inr, String, Result, ok, err, if◌then◌else◌, find, All, Pairs,
  Bool-cases, Option-cases,
}
use gottem_link.Db.Sql.{Sqlite, SqliteLaws, Env, select, DbError, no_rows}
use gottem_link.Db.Store.{Redirect, Store, has_slug}
use gottem_link.Db.Invariant.{Apart, IsValid}
use gottem_link.Db.Redirects.{
  update_returning, set_disabled, disable_redirect, enable_redirect, resolve_slug, is_active,
}
use gottem_link.Db.Redirects.Outcomes.{update-outcome}
use gottem_link.Db.Redirects.Valid.{updates-IsValid}
use gottem_link.Db.Redirects.View.{find-changed}

-- The answer for the row that is stored under a slug, if there is one.
abbrev pub answer : Sqlite → Env → Option Redirect → Result DbError (ℕ × Str)
answer q env none = err no_rows
answer q env (some r) = if is_active q env r then ok (r.id, r.url) else err no_rows

abbrev when_active : Sqlite → Env → Option Redirect → Option Redirect
when_active q env none = none
when_active q env (some r) = if is_active q env r then some r else none

abbrev resolved : Option Redirect → Result DbError (ℕ × Str)
resolved none = err no_rows
resolved (some r) = ok (r.id, r.url)

resolved-when_active :
    (q : Sqlite) (env : Env) (o : Option Redirect) → resolved (when_active q env o) ≡ answer q env o
resolved-when_active q env none = refl
resolved-when_active q env (some r) = elim (Bool-cases (is_active q env r)) [
  | inl e ↦ rw e
  | inr e ↦ rw e
]

resolve_slug-calm :
    (q : Sqlite) (env : Env) (slug : Str) (s : Store)
    → env.fails select ≡ false
    → resolve_slug q env slug s
      ≡ resolved (find (λ r. has_slug q slug r && is_active q env r) s.redirects)
unfolding resolve_slug
resolve_slug-calm q env slug s h =
    rw h (elim (Option-cases (find (λ r. has_slug q slug r && is_active q env r) s.redirects)) [
      | inl e ↦ rw e
      | inr (r, e) ↦ rw e
    ])

answer_disabled :
    (q : Sqlite) (env : Env) (at : Str) (r : Redirect)
    → r.disabled_at ≡ some at
    → answer q env (some r) ≡ err no_rows
unfolding is_active
answer_disabled q env at r h = rw h

answer_enabled :
    (q : Sqlite) (env : Env) (r : Redirect)
    → r.disabled_at ≡ none
    → r.expires_at ≡ none
    → answer q env (some r) ≡ ok (r.id, r.url)
unfolding is_active
answer_enabled q env r h k = rw (h, k)

module _ (q : Sqlite) (laws : SqliteLaws q) where
  none_active :
      (slug : Str) (active : Redirect → Bool) (x : Redirect) (rows : List Redirect)
      → has_slug q slug x ≡ true
      → All (Apart q x) rows
      → find (λ r. has_slug q slug r && active r) rows ≡ none
  none_active slug active x [] h k = refl
  none_active slug active x (y ∷ rows) h ((d, _), k) = elim (Bool-cases (has_slug q slug y)) [
    | inl e ↦ cc (d, laws.nocase_trans x.slug slug y.slug h (laws.nocase_sym y.slug slug e))
    | inr e ↦ rw e (none_active slug active x rows h k)
  ]

  -- The first active row of a slug is the row of the slug, if that is active.
  find-active :
      (slug : Str) (env : Env) (rows : List Redirect)
      → Pairs (Apart q) rows
      → find (λ r. has_slug q slug r && is_active q env r) rows
        ≡ when_active q env (find (has_slug q slug) rows)
  find-active slug env [] h = refl
  find-active slug env (x ∷ rows) (apart, h) = elim (Bool-cases (has_slug q slug x)) [
    | inl e ↦ elim (Bool-cases (is_active q env x)) [
      | inl a ↦ rw (e, a)
      | inr a ↦ rw (e, a) (none_active slug (is_active q env) x rows e apart)
    ]
    | inr e ↦ rw e (find-active slug env rows h)
  ]

  -- A slug resolves to the id and the destination of its redirect where that is enabled and not
  -- expired, and else to nothing, whether the redirect is missing, disabled or expired.
  pub resolve_slug-eq-answer :
      (env : Env) (slug : Str) (s : Store)
      → IsValid q s
      → env.fails select ≡ false
      → resolve_slug q env slug s ≡ answer q env (find (has_slug q slug) s.redirects)
  resolve_slug-eq-answer env slug s v h =
      resolve_slug-calm q env slug s h
      ∙ ap resolved (find-active slug env s.redirects v.apart)
      ∙ resolved-when_active q env (find (has_slug q slug) s.redirects)

  -- The row that an update returns is the row of every spelling of its slug.
  find-returned :
      (env : Env) (message : String) (change : Redirect → Redirect) (slug t : Str) (s s' : Store)
      (row : Redirect)
      → ((r : Redirect) → (change r).slug ≡ r.slug)
      → q.nocase slug t ≡ true
      → update_returning q env message change slug s ≡ (ok row, s')
      → (find (has_slug q t) s'.redirects ≡ some row) × ((old : Redirect) × (row ≡ change old))
  find-returned env message change slug t s s' row fixed same e =
      elim (update-outcome q env message change slug s) [
        | inl (f, kept) ↦ cc (e, kept)
        | inr (old, found, changed) ↦
            let (is_row, store) = ok_pair-injective (sym changed ∙ e) in
            (
              subst₂ (λ r u. find (has_slug q t) u.redirects ≡ some r) is_row store
                  (rw (find-changed q laws slug t change s.redirects fixed, same, found)),
              (old, sym is_row),
            )
      ]

  IsValid-after :
      {r : Result DbError Redirect × Store} {row : Redirect} {s' : Store}
      → r ≡ (ok row, s')
      → IsValid q r.1
      → IsValid q s'
  IsValid-after e v = subst (λ p. IsValid q p.1) e v

  -- Disabling takes a redirect out of the public lookup at once, under every spelling of its slug.
  pub resolve-disable :
      (env reader : Env) (slug t : Str) (s s' : Store) (row : Redirect)
      → IsValid q s
      → disable_redirect q env slug s ≡ (ok row, s')
      → q.nocase slug t ≡ true
      → reader.fails select ≡ false
      → resolve_slug q reader t s' ≡ err no_rows
  resolve-disable env reader slug t s s' row v e same calm =
      let (found, (old, is_row)) =
        find-returned env "disable redirect" (set_disabled env (some env.now)) slug t s s' row
          (λ r. refl) same (unfold disable_redirect in e) in
      resolve_slug-eq-answer reader t s'
        (IsValid-after e (updates-IsValid q env slug [] none s v).1) calm
      ∙ ap (answer q reader) found
      ∙ answer_disabled q reader env.now row (ap (λ (r : Redirect). r.disabled_at) is_row)

  -- Enabling a redirect that is not expired puts it back, with the id and the destination it had.
  pub resolve-enable :
      (env reader : Env) (slug t : Str) (s s' : Store) (row : Redirect)
      → IsValid q s
      → enable_redirect q env slug s ≡ (ok row, s')
      → q.nocase slug t ≡ true
      → reader.fails select ≡ false
      → row.expires_at ≡ none
      → resolve_slug q reader t s' ≡ ok (row.id, row.url)
  resolve-enable env reader slug t s s' row v e same calm forever =
      let (found, (old, is_row)) =
        find-returned env "enable redirect" (set_disabled env none) slug t s s' row (λ r. refl) same
          (unfold enable_redirect in e) in
      resolve_slug-eq-answer reader t s'
        (IsValid-after e (updates-IsValid q env slug [] none s v).2) calm
      ∙ ap (answer q reader) found
      ∙ answer_enabled q reader row (ap (λ (r : Redirect). r.disabled_at) is_row) forever
