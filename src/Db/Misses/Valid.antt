-- ===== src/Db/Misses/Valid.antt =====
-- Recording a miss keeps the store valid, and counts it.
use gottem_link.Base.{
  suc, ◌≤◌, ◌<◌, Str, true, false, Option, none, some, List, [], ◌∷◌, ◌≡◌, ◌∙◌, refl, inl, inr, ◌⊎◌,
  arith, if◌then◌else◌, any, find, length, All, Pairs, All-keep, All-update_where, Pairs-keep,
  Pairs-update_where, Bool-cases, Option-cases, ap, find-update_where_self, length-update_where,
  Unicode, to_lower, any_of_find,
}
use gottem_link.Db.Sql.{Sqlite, SqliteLaws, Env, begin, insert, prune, commit}
use gottem_link.Db.Store.{SlugMiss, Store, is_miss_of, taken, max_stored_slug_misses}
use gottem_link.Db.Counted.{
  CountedUp, Earliest, Latest, counted-CountedUp, later-Earliest, later-Latest,
}
use gottem_link.Db.Invariant.{ApartMisses, MissIsValid, IsValid, nocase-false_sym}
use gottem_link.Db.Redirects.View.{Calm}
use gottem_link.Db.Misses.{missed_again, first_miss, upsert_miss, prune_misses, record_slug_miss}
use gottem_link.Db.Misses.Prune.{length-prune_misses, prune_few}

-- A recording fails and leaves the store, or replaces the misses by the pruned new ones.
record-outcome :
    (u : Unicode) (q : Sqlite) (env : Env) (slug value : Str) (s : Store)
    → ((record_slug_miss u q env slug value s).1 ≡ s)
      ⊎ ((record_slug_miss u q env slug value s).1
          ≡ record s { misses = prune_misses q (upsert_miss q (to_lower u slug) value s) })
unfolding record_slug_miss
record-outcome u q env slug value s = elim (Bool-cases (env.fails begin)) [
  | inl e ↦ inl (rw e)
  | inr begun ↦ elim (Bool-cases (env.fails insert)) [
    | inl e ↦ inl (rw (begun, e))
    | inr inserted ↦ elim (Bool-cases (env.fails prune)) [
      | inl e ↦ inl (rw (begun, inserted, e))
      | inr pruned ↦ elim (Bool-cases (env.fails commit)) [
        | inl e ↦ inl (rw (begun, inserted, pruned, e))
        | inr done ↦ inr (rw (begun, inserted, pruned, done))
      ]
    ]
  ]
]

-- What is stored of a slug after one more miss of it: the first miss, or one more with the earliest
-- and the latest time.
pub data IsMissed (q : Sqlite) (key value : Str) : Option SlugMiss → SlugMiss → Type 0 where
  first_time :
      IsMissed q key value none
        (record { slug = key; miss_count = 1; first_missed_at = value; last_missed_at = value })
  again :
      (old new : SlugMiss)
      → new.slug ≡ old.slug
      → CountedUp old.miss_count new.miss_count
      → Earliest q value old.first_missed_at new.first_missed_at
      → Latest q value (some old.last_missed_at) new.last_missed_at
      → IsMissed q key value (some old) new

abbrev next_miss : Sqlite → Str → Str → Option SlugMiss → SlugMiss
next_miss q key value none = first_miss key value
next_miss q key value (some m) = missed_again q value m

next_miss-IsMissed :
    (q : Sqlite) (key value : Str) (o : Option SlugMiss)
    → IsMissed q key value o (next_miss q key value o)
unfolding missed_again
next_miss-IsMissed q key value none = first_time
next_miss-IsMissed q key value (some m) =
    again m _ refl (counted-CountedUp m.miss_count) (later-Earliest q value m.first_missed_at)
      (later-Latest q value m.last_missed_at)

length-upsert_miss :
    (q : Sqlite) (key value : Str) (s : Store)
    → length (upsert_miss q key value s) ≤ suc (length s.misses)
unfolding upsert_miss
length-upsert_miss q key value s =
    ground (arith, length-update_where (is_miss_of q key) (missed_again q value) s.misses)

-- What the invariant says of the misses alone.
record AreValid (q : Sqlite) (s : Store) (misses : List SlugMiss) : Type 0 where
  missed : All MissIsValid misses
  misses_apart : Pairs (ApartMisses q) misses
  disjoint : All (λ m. taken q m.slug s.redirects ≡ false) misses

missed_again-IsValid :
    (q : Sqlite) (value : Str) (m : SlugMiss) → MissIsValid m → MissIsValid (missed_again q value m)
unfolding missed_again
missed_again-IsValid q value m v = record { positive = ground arith; counted = ground arith }

slug-missed_again :
    (q : Sqlite) (value : Str) (m : SlugMiss) → (missed_again q value m).slug ≡ m.slug
unfolding missed_again
slug-missed_again q value m = refl

module _ (q : Sqlite) (laws : SqliteLaws q) where
  free_misses :
      (slug : Str) (misses : List SlugMiss)
      → any (is_miss_of q slug) misses ≡ false
      → All (λ m. q.nocase slug m.slug ≡ false) misses
  free_misses slug [] h = tt
  free_misses slug (m ∷ misses) h = (
    nocase-false_sym q laws m.slug slug (ground (arith, h)),
    free_misses slug misses (ground (arith, h)),
  )

  upsert_miss-AreValid :
      (slug value : Str) (s : Store) → IsValid q s → AreValid q s (upsert_miss q slug value s)
  unfolding upsert_miss
  upsert_miss-AreValid slug value s v = elim (Bool-cases (taken q slug s.redirects)) [
    | inl e ↦
        rw e (record { missed = v.missed; misses_apart = v.misses_apart; disjoint = v.disjoint })
    | inr free ↦ elim (Bool-cases (any (is_miss_of q slug) s.misses)) [
      | inl e ↦
          rw (free, e)
            (record {
              missed = All-update_where _ _ _ s.misses (missed_again-IsValid q value) v.missed;
              misses_apart =
                  Pairs-update_where (ApartMisses q) _ _ s.misses (λ a b h. same_slug_left a b h)
                    (λ a b h. same_slug_right a b h) v.misses_apart;
              disjoint = All-update_where _ _ _ s.misses (λ m h. same_taken m h) v.disjoint;
            })
      | inr e ↦
          rw (free, e)
            (record {
              missed = (record { positive = omega arith; counted = omega arith }, v.missed);
              misses_apart = (free_misses slug s.misses e, v.misses_apart);
              disjoint = (free, v.disjoint);
            })
    ]
  ]
    where
      same_slug_left :
          (a b : SlugMiss) → ApartMisses q a b → ApartMisses q (missed_again q value a) b
      same_slug_left a b h = rw (slug-missed_again q value a) h

      same_slug_right :
          (a b : SlugMiss) → ApartMisses q a b → ApartMisses q a (missed_again q value b)
      same_slug_right a b h = rw (slug-missed_again q value b) h

      same_taken :
          (m : SlugMiss)
          → taken q m.slug s.redirects ≡ false
          → taken q (missed_again q value m).slug s.redirects ≡ false
      same_taken m h = rw (slug-missed_again q value m) h

  find-upsert_miss :
      (key value : Str) (s : Store)
      → find (is_miss_of q key) (upsert_miss q key value s) ≡ (
          if taken q key s.redirects
          then find (is_miss_of q key) s.misses
          else some (next_miss q key value (find (is_miss_of q key) s.misses)))
  unfolding upsert_miss
  find-upsert_miss key value s = elim (Bool-cases (taken q key s.redirects)) [
    | inl e ↦ rw e
    | inr free ↦ elim (Option-cases (find (is_miss_of q key) s.misses)) [
      | inl e ↦ rw (free, any_of_find (is_miss_of q key) s.misses, e, laws.nocase_refl key)
      | inr (m, e) ↦ rw (
        free,
        any_of_find (is_miss_of q key) s.misses,
        e,
        find-update_where_self (is_miss_of q key) (is_miss_of q key) (missed_again q value) s.misses
            (λ x. refl) (λ x. ap (λ a. q.nocase a key) (slug-missed_again q value x)),
        e,
      )
    ]
  ]

  pub record_slug_miss-IsValid :
      (u : Unicode) (env : Env) (slug value : Str) (s : Store)
      → IsValid q s
      → IsValid q (record_slug_miss u q env slug value s).1
  record_slug_miss-IsValid u env slug value s v = elim (record-outcome u q env slug value s) [
    | inl kept ↦ rw kept v
    | inr changed ↦ rw changed (pruned (upsert_miss-AreValid (to_lower u slug) value s v))
  ]
    where
      pruned :
          {misses : List SlugMiss}
          → AreValid q s misses
          → IsValid q (record s { misses = prune_misses q misses })
      pruned {misses} a = record {
        rows = v.rows;
        apart = v.apart;
        sequenced = v.sequenced;
        missed = unfold prune_misses in All-keep _ _ misses a.missed;
        misses_apart = unfold prune_misses in Pairs-keep _ _ misses a.misses_apart;
        disjoint = unfold prune_misses in All-keep _ _ misses a.disjoint;
        capped = length-prune_misses q laws misses;
      }

  record-found :
      (u : Unicode) (env : Env) (slug value : Str) (s : Store)
      → Calm env
      → length s.misses < max_stored_slug_misses
      → let key = to_lower u slug in
        (record_slug_miss u q env slug value s).1.redirects ≡ s.redirects
        × (find (is_miss_of q key) (record_slug_miss u q env slug value s).1.misses ≡ (
            if taken q key s.redirects
            then find (is_miss_of q key) s.misses
            else some (next_miss q key value (find (is_miss_of q key) s.misses))))
  unfolding record_slug_miss
  record-found u env slug value s calm room =
      let key = to_lower u slug in
      rw
        (
          calm begin,
          calm insert,
          calm prune,
          calm commit,
          prune_few q laws (upsert_miss q key value s) (fits key),
        )
        (refl, upserted key)
    where
      fits : (key : Str) → length (upsert_miss q key value s) ≤ max_stored_slug_misses
      fits key = omega (arith, room, length-upsert_miss q key value s)

      upserted :
          (key : Str)
          → find (is_miss_of q key) (upsert_miss q key value s) ≡ (
              if taken q key s.redirects
              then find (is_miss_of q key) s.misses
              else some (next_miss q key value (find (is_miss_of q key) s.misses)))
      upserted key = find-upsert_miss key value s

  -- Where no call fails and fewer than 500 misses are stored, a recorded miss of a slug without a
  -- redirect is counted: the first time with one, and then with one more, until the counter is full,
  -- the earliest and the latest time kept. For a slug with a redirect what is stored of it stays.
  pub find-record_slug_miss :
      (u : Unicode) (env : Env) (slug value : Str) (s : Store)
      → Calm env
      → length s.misses < max_stored_slug_misses
      → let key = to_lower u slug in
        (record_slug_miss u q env slug value s).1.redirects ≡ s.redirects
        × (((taken q key s.redirects ≡ true)
              × (find (is_miss_of q key) (record_slug_miss u q env slug value s).1.misses
                  ≡ find (is_miss_of q key) s.misses))
            ⊎ ((taken q key s.redirects ≡ false)
                × ((new : SlugMiss) × IsMissed q key value (find (is_miss_of q key) s.misses) new
                    × (find (is_miss_of q key) (record_slug_miss u q env slug value s).1.misses
                        ≡ some new))))
  find-record_slug_miss u env slug value s calm room =
      let key = to_lower u slug in
      let (kept, found) = record-found u env slug value s calm room in
      (
        kept,
        elim (Bool-cases (taken q key s.redirects)) [
          | inl e ↦ inl (e, found ∙ rw e)
          | inr e ↦
              inr (e, (next_miss q key value _, next_miss-IsMissed q key value _, found ∙ rw e))
        ],
      )
