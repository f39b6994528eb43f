-- ===== src/Db/Import/Atomic.antt =====
-- An import adds all of its redirects or none of them, and the dry run foretells which.
use gottem_link.Base.{
  ℕ, suc, ◌+◌, ◌≤◌, Str, true, false, none, some, List, [], ◌∷◌, ◌≡◌, refl, inl, inr, arith, ok,
  err, map, keep, if◌then◌else◌, All, Pairs, All-both, Bool-cases, ◌>>=◌, length, String, is_empty,
}
use gottem_link.Db.Sql.{
  Sqlite, SqliteLaws, Env, insert_at, clear_at, check, begin, commit, wrapped, slug_conflicts,
}
use gottem_link.Db.Store.{ImportRedirect, Store, max_count, taken}
use gottem_link.Db.Redirects.{with_row, no_id_left}
use gottem_link.Db.Redirects.View.{Calm}
use gottem_link.Db.Import.{
  is_negative, imported_row, insert_all, import_steps, import_redirects, redirect_import_conflicts,
  committed, collect_conflicts, reject_conflicts, sqlite_nocase_name, sort_strings,
}

-- The names of the imported slugs that are taken, in the order of the import.
abbrev pub conflicts : Sqlite → List ImportRedirect → Store → List Str
conflicts q rs s = map (λ r. sqlite_nocase_name r.slug) (keep (λ r. taken q r.slug s.redirects) rs)

-- The store with a row for each of the imported redirects.
pub with_all : Sqlite → Env → List ImportRedirect → Store → Store
with_all q env [] s = s
with_all q env (r ∷ rs) s = with_all q env rs (with_row q (imported_row env (s.sequence + 1) r) s)

-- What a validated backup guarantees, and that there are ids enough.
pub record IsImportable (q : Sqlite) (rs : List ImportRedirect) (s : Store) : Type 0 where
  pub counted : All (λ r. is_negative r.click_count ≡ false) rs
  pub apart : Pairs (λ a b. q.nocase a.slug b.slug ≡ false) rs
  pub room : s.sequence + length rs ≤ max_count

module _ (q : Sqlite) (laws : SqliteLaws q) (env : Env) (calm : Calm env) where
  collect_calm :
      (message : String) (index : ℕ) (rs : List ImportRedirect) (s : Store)
      → collect_conflicts q env message index rs s ≡ ok (conflicts q rs s)
  unfolding collect_conflicts
  collect_calm message index [] s = refl
  collect_calm message index (r ∷ rs) s = elim (Bool-cases (taken q r.slug s.redirects)) [
    | inl e ↦ rw (calm (check index), e, collect_calm message (suc index) rs s)
    | inr e ↦ rw (calm (check index), e) (collect_calm message (suc index) rs s)
  ]

  -- A slug that is free, and differs from the one that is added, stays free.
  still_free :
      (r : ImportRedirect) (id : ℕ) (rs : List ImportRedirect) (s : Store)
      → All (λ x. q.nocase r.slug x.slug ≡ false) rs
      → All (λ x. taken q x.slug s.redirects ≡ false) rs
      → All (λ x. taken q x.slug (with_row q (imported_row env id r) s).redirects ≡ false) rs
  still_free r id rs s apart free = All-both _ _ _ rs both apart free
    where
      both :
          (x : ImportRedirect)
          → q.nocase r.slug x.slug ≡ false
          → taken q x.slug s.redirects ≡ false
          → taken q x.slug (with_row q (imported_row env id r) s).redirects ≡ false
      both x d h = rw (d, h)

  insert_all_calm :
      (index : ℕ) (rs : List ImportRedirect) (s : Store)
      → IsImportable q rs s
      → All (λ r. taken q r.slug s.redirects ≡ false) rs
      → insert_all q env index rs s ≡ ok (with_all q env rs s)
  unfolding insert_all with_all
  insert_all_calm index [] s i free = refl
  insert_all_calm index (r ∷ rs) s i (free, others) =
      rw (calm (insert_at index), has_room (i.room), i.counted.0, free, calm (clear_at index))
        (insert_all_calm (suc index) rs (with_row q (imported_row env (s.sequence + 1) r) s)
          (record { counted = i.counted.1; apart = i.apart.1; room = omega (arith, i.room) })
          (still_free r (s.sequence + 1) rs s i.apart.0 others))
    where
      has_room : s.sequence + suc (length rs) ≤ max_count → no_id_left s ≡ false
      has_room h = ground arith

  some_conflict :
      (r : ImportRedirect) (rs : List ImportRedirect) (s : Store)
      → taken q r.slug s.redirects ≡ true
      → conflicts q (r ∷ rs) s ≡ sqlite_nocase_name r.slug ∷ conflicts q rs s
  some_conflict r rs s t = rw t

  none_taken :
      (rs : List ImportRedirect) (s : Store)
      → conflicts q rs s ≡ []
      → All (λ r. taken q r.slug s.redirects ≡ false) rs
  none_taken [] s e = tt
  none_taken (r ∷ rs) s e = elim (Bool-cases (taken q r.slug s.redirects)) [
    | inl t ↦ cc (some_conflict r rs s t, e)
    | inr f ↦ (f, none_taken rs s (rw f at e))
  ]

  -- Where no call fails, the import of a validated backup adds every redirect if none of the slugs
  -- is taken, and else adds nothing and names all that are taken; the dry run names the same slugs.
  pub import_all_or_none :
      (rs : List ImportRedirect) (s : Store)
      → IsImportable q rs s
      → (redirect_import_conflicts q env rs s ≡ ok (sort_strings (conflicts q rs s)))
        × (import_redirects q env rs s ≡ (
            if is_empty (conflicts q rs s)
            then (none, with_all q env rs s)
            else (some (slug_conflicts (sort_strings (conflicts q rs s))), s)))
  unfolding import_redirects import_steps redirect_import_conflicts
  import_all_or_none rs s i = (
    rw (collect_calm "check redirect import conflicts" 0 rs s),
    rw (calm begin, collect_calm "check redirect import conflicts" 0 rs s)
        (decided (conflicts q rs s) refl),
  )
    where
      decided :
          (cs : List Str)
          → conflicts q rs s ≡ cs
          → committed s (do
            _ ← reject_conflicts cs
            s' ← insert_all q env 0 rs s
            if env.fails commit then err (wrapped "commit redirect import") else ok s')
            ≡ (if is_empty cs
                then (none, with_all q env rs s)
                else (some (slug_conflicts (sort_strings cs)), s))
      decided [] e = rw (insert_all_calm 0 rs s i (none_taken rs s e), calm commit)
      decided (c ∷ cs) e = refl
