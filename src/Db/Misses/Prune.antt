-- ===== src/Db/Misses/Prune.antt =====
-- Pruning leaves the 500 newest misses.
use gottem_link.Base.{
  ℕ, ◌≤◌, Bool, true, false, not, Option, List, [], ◌∷◌, ◌≡◌, arith, ap, keep, any, sort_by, take,
  drop, length, All, Pairs, Pairs-sorted, take-drop-related, All-append, All_of_all, Pairs-sort_by,
  any_none, length-sort_by, drop_all, All-imp, All-both, All-keep, All-keep_self, All-sort_by_back,
  length-keep-sort_by, length-keep-append, length-keep_none, length-keep-le, length-take-le,
  take-append-drop, keep_all,
}
use gottem_link.Db.Sql.{Sqlite, SqliteLaws}
use gottem_link.Db.Store.{SlugMiss, max_stored_slug_misses}
use gottem_link.Db.Invariant.{ApartMisses, nocase-false_sym}
use gottem_link.Db.Misses.{newer, listed_before, doomed, prune_misses}

-- The list is in the order of `listed_before`.
abbrev sorted : Sqlite → List SlugMiss → List SlugMiss
sorted q = sort_by (listed_before q)

module _ (q : Sqlite) (misses : List SlugMiss) where
  -- The first 500 in the order of listing, and the slugs behind them.
  abbrev first : List SlugMiss
  first = take max_stored_slug_misses (sorted q misses)

  abbrev last : List SlugMiss
  last = drop max_stored_slug_misses (sorted q misses)

-- `a` was not missed before `b`, as far as SQLite reads the times.
abbrev pub NotOlder : Sqlite → SlugMiss → SlugMiss → Type 0
NotOlder q a b = newer (q.julianday b.last_missed_at) (q.julianday a.last_missed_at) ≡ false

newer_trans : (a b c : Option ℕ) → newer b a ≡ false → newer c b ≡ false → newer c a ≡ false
unfolding newer
newer_trans a b c h k = ground arith

newer_asym : (a b : Option ℕ) → newer a b ≡ true → newer b a ≡ false
unfolding newer
newer_asym a b h = ground arith

before-NotOlder : (q : Sqlite) (a b : SlugMiss) → listed_before q a b ≡ true → NotOlder q a b
unfolding listed_before
before-NotOlder q a b h =
    ground (arith, newer_asym (q.julianday a.last_missed_at) (q.julianday b.last_missed_at))

after-NotOlder : (q : Sqlite) (a b : SlugMiss) → listed_before q a b ≡ false → NotOlder q b a
unfolding listed_before
after-NotOlder q a b h = ground arith

sorted-NotOlder : (q : Sqlite) (misses : List SlugMiss) → Pairs (NotOlder q) (sorted q misses)
sorted-NotOlder q misses =
    Pairs-sorted (NotOlder q) (listed_before q) misses (before-NotOlder q) (after-NotOlder q)
      λ a b c h k. newer_trans _ _ _ h k

module _ (q : Sqlite) (laws : SqliteLaws q) where
  doomed_self : (ds : List SlugMiss) → All (λ d. any (λ e. q.nocase d.slug e.slug) ds ≡ true) ds
  doomed_self [] = tt
  doomed_self (d ∷ ds) =
      (rw (laws.nocase_refl d.slug), All-imp _ _ ds (λ x h. ground (arith, h)) (doomed_self ds))

  last-doomed : (misses : List SlugMiss) → All (λ d. doomed q misses d ≡ true) (last q misses)
  unfolding doomed
  last-doomed misses = doomed_self (last q misses)

  -- At most 500 misses are left.
  pub length-prune_misses :
      (misses : List SlugMiss) → length (prune_misses q misses) ≤ max_stored_slug_misses
  unfolding prune_misses
  length-prune_misses misses = omega (
    arith,
    length-keep-sort_by survives (listed_before q) misses,
    ap (λ ms. length (keep survives ms))
        (take-append-drop max_stored_slug_misses (sorted q misses)),
    length-keep-append survives (first q misses) (last q misses),
    length-keep_none survives (last q misses)
        (All-imp _ _ (last q misses) (λ d h. rw h) (last-doomed misses)),
    length-keep-le survives (first q misses),
    length-take-le max_stored_slug_misses (sorted q misses),
  )
    where
      survives : SlugMiss → Bool
      survives m = not (doomed q misses m)

  -- What holds of the slugs behind the first 500, or of the first 500, holds of what is pruned, or
  -- of what is left.
  split-All :
      (P : SlugMiss → Type 0) (misses : List SlugMiss)
      → All P (first q misses)
      → All P (last q misses)
      → All P misses
  split-All P misses h k = All-sort_by_back P (listed_before q) misses (
      rw (take-append-drop max_stored_slug_misses (sorted q misses)) at
        (All-append P (first q misses) (last q misses) h k))

  first-spared :
      (misses : List SlugMiss)
      → Pairs (ApartMisses q) misses
      → All (λ m. doomed q misses m ≡ false) (first q misses)
  unfolding doomed
  first-spared misses apart =
      All-imp _ _ (first q misses) (λ m h. none_same m (last q misses) h)
        (take-drop-related (ApartMisses q) max_stored_slug_misses (sorted q misses) (
          Pairs-sort_by (ApartMisses q) (listed_before q) misses
            (λ a b h. nocase-false_sym q laws a.slug b.slug h) apart))
    where
      none_same :
          (m : SlugMiss) (ds : List SlugMiss)
          → All (ApartMisses q m) ds
          → any (λ d. q.nocase m.slug d.slug) ds ≡ false
      none_same m ds h = any_none _ ds h

  -- Every miss that pruning leaves is at least as recent as every miss that it takes away.
  pub prune_misses-NotOlder :
      (misses : List SlugMiss)
      → Pairs (ApartMisses q) misses
      → All (λ a. All (NotOlder q a) (keep (doomed q misses) misses)) (prune_misses q misses)
  unfolding prune_misses
  prune_misses-NotOlder misses apart =
      kept-All (λ a. All (NotOlder q a) (keep (doomed q misses) misses))
        (All-imp _ _ (first q misses) (λ a h. gone-All (NotOlder q a) h)
          (take-drop-related (NotOlder q) max_stored_slug_misses (sorted q misses)
            (sorted-NotOlder q misses)))
    where
      gone-All :
          (P : SlugMiss → Type 0) → All P (last q misses) → All P (keep (doomed q misses) misses)
      gone-All P h =
          All-both (λ m. doomed q misses m ≡ true → P m) (λ m. doomed q misses m ≡ true) P
            (keep (doomed q misses) misses) (λ m f e. f e)
            (All-keep _ (doomed q misses) misses (
              split-All (λ m. doomed q misses m ≡ true → P m) misses
                (All-imp _ _ (first q misses) (λ m spared e. cc (spared, e))
                  (first-spared misses apart))
                (All-imp _ _ (last q misses) (λ m p e. p) h)))
            (All-keep_self _ (doomed q misses) misses (λ m e. e))

      kept-All :
          (P : SlugMiss → Type 0)
          → All P (first q misses)
          → All P (keep (λ m. not (doomed q misses m)) misses)
      kept-All P h =
          All-both (λ m. doomed q misses m ≡ false → P m) (λ m. doomed q misses m ≡ false) P
            (keep (λ m. not (doomed q misses m)) misses) (λ m f e. f e)
            (All-keep _ (λ m. not (doomed q misses m)) misses
              (split-All (λ m. doomed q misses m ≡ false → P m) misses
                (All-imp _ _ (first q misses) (λ m p e. p) h)
                (All-imp _ _ (last q misses) (λ m gone e. cc (gone, e)) (last-doomed misses))))
            (All-keep_self _ (λ m. not (doomed q misses m)) misses (λ m e. ground (arith, e)))

  -- Pruning changes nothing while there are at most 500.
  pub prune_few :
      (misses : List SlugMiss)
      → length misses ≤ max_stored_slug_misses
      → prune_misses q misses ≡ misses
  unfolding prune_misses doomed
  prune_few misses h = keep_all _ misses (
      All_of_all _ misses λ m. rw (
        drop_all max_stored_slug_misses (sorted q misses)
          (omega (arith, h, length-sort_by (listed_before q) misses))))
