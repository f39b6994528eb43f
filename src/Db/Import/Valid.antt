-- ===== src/Db/Import/Valid.antt =====
-- An import keeps the store valid.
use gottem_link.Base.{
  ℕ, suc, ◌+◌, ◌≤◌, ◌<◌, false, ◌||◌, List, [], ◌∷◌, ◌≡◌, refl, sym, ◌∙◌, inl, inr, subst, arith,
  ok, err, ok-injective, All, Bool-cases, Result-cases, ◌⊎◌,
}
use gottem_link.Db.Sql.{
  Sqlite, SqliteLaws, Env, DbError, insert_at, clear_at, wrapped, slug_conflicts,
}
use gottem_link.Db.Store.{ImportRedirect, Store, max_count, taken}
use gottem_link.Db.Invariant.{IsValid}
use gottem_link.Db.Redirects.{with_row, no_id_left}
use gottem_link.Db.Redirects.Valid.{with_row-IsValid}
use gottem_link.Db.Import.{
  count_of, is_negative, imported_row, insert_all, import_steps, import_redirects,
  sqlite_nocase_name,
}

-- A 64-bit count.
abbrev pub IsCounted : ImportRedirect → Type 0
IsCounted r = count_of r.click_count ≤ max_count

-- One round of the insertions fails, or goes on from a store with the row for a free slug.
insert_all-round :
    (q : Sqlite) (env : Env) (index : ℕ) (r : ImportRedirect) (rs : List ImportRedirect) (s : Store)
    → ((e : DbError) × (insert_all q env index (r ∷ rs) s ≡ err e))
      ⊎ ((taken q r.slug s.redirects ≡ false)
          × (s.sequence < max_count)
          × (insert_all q env index (r ∷ rs) s
              ≡ insert_all q env
                  (suc index)
                  rs
                  (with_row q (imported_row env (s.sequence + 1) r) s)))
unfolding insert_all
insert_all-round q env index r rs s =
    elim (Bool-cases (env.fails (insert_at index) || (no_id_left s || is_negative r.click_count))) [
      | inl e ↦ inl (wrapped "import redirect", rw e)
      | inr room ↦ elim (Bool-cases (taken q r.slug s.redirects)) [
        | inl e ↦ inl (slug_conflicts (sqlite_nocase_name r.slug ∷ []), rw (room, e))
        | inr free ↦ elim (Bool-cases (env.fails (clear_at index))) [
          | inl e ↦ inl (wrapped "clear imported slug miss", rw (room, free, e))
          | inr cleared ↦ inr (free, below room, rw (room, free, cleared))
        ]
      ]
    ]
  where
    below :
        (env.fails (insert_at index) || (no_id_left s || is_negative r.click_count)) ≡ false
        → s.sequence < max_count
    below h = ground arith

module _ (q : Sqlite) (laws : SqliteLaws q) (env : Env) where
  same_store : (index : ℕ) (s s' : Store) → insert_all q env index [] s ≡ ok s' → s ≡ s'
  unfolding insert_all
  same_store index s s' e = ok-injective e

  insert_all-IsValid :
      (index : ℕ) (rs : List ImportRedirect) (s s' : Store)
      → All IsCounted rs
      → IsValid q s
      → insert_all q env index rs s ≡ ok s'
      → IsValid q s'
  insert_all-IsValid index [] s s' h v e = subst (IsValid q) (same_store index s s' e) v
  insert_all-IsValid index (r ∷ rs) s s' (c, h) v e = elim (insert_all-round q env index r rs s) [
    | inl (f, failed) ↦ cc (e, failed)
    | inr (free, room, next) ↦
        insert_all-IsValid (suc index) rs (with_row q (imported_row env (s.sequence + 1) r) s) s' h
          (with_row-IsValid q laws (imported_row env (s.sequence + 1) r) s free refl room c v)
          (sym next ∙ e)
  ]

  import_steps-inserted :
      (rs : List ImportRedirect) (s s' : Store)
      → import_steps q env rs s ≡ ok s'
      → insert_all q env 0 rs s ≡ ok s'
  unfolding import_steps
  import_steps-inserted rs s s' e = ground (arith, e)

  -- Whatever an import does with counts of 64 bits, the store stays valid.
  pub import_redirects-IsValid :
      (rs : List ImportRedirect) (s : Store)
      → All IsCounted rs
      → IsValid q s
      → IsValid q (import_redirects q env rs s).1
  unfolding import_redirects
  import_redirects-IsValid rs s h v = elim (Result-cases (import_steps q env rs s)) [
    | inl (s', e) ↦ rw e (insert_all-IsValid 0 rs s s' h v (import_steps-inserted rs s s' e))
    | inr (f, e) ↦ rw e v
  ]
