-- ===== src/Db/Redirects/Valid.antt =====
-- The operations on redirects keep the store valid.
use gottem_link.Base.{
  ℕ, ◌+◌, ◌≤◌, ◌<◌, Str, Bool, true, false, not, Option, none, some, ◌≡◌, refl, inl, inr, arith,
  String, keep, update_where, All-keep, All-keep_self, All-imp, All-both, ◌∷◌, All-update_where,
  Pairs-keep, Pairs-update_where, length-keep-le,
}
use gottem_link.Db.Sql.{Sqlite, SqliteLaws, Env}
use gottem_link.Db.Store.{Redirect, SlugMiss, Store, max_count, is_miss_of, taken}
use gottem_link.Db.Invariant.{
  Apart, RowIsValid, IsValid, nocase-false_sym, apart_of_free, taken-keep, taken-update_where,
}
use gottem_link.Db.Redirects.{
  with_row, without_miss, create_redirect_with_expiration, update_returning, accessed,
  record_redirect_access, delete_redirect, set_url, set_disabled, set_expiration, update_redirect,
  disable_redirect, enable_redirect, set_redirect_expiration,
}
use gottem_link.Db.Redirects.Outcomes.{
  create-outcome, update-outcome, access-outcome, delete-outcome,
}

-- A change of a row that the invariant does not see.
pub record IsMild (change : Redirect → Redirect) : Type 0 where
  pub id : (r : Redirect) → (change r).id ≡ r.id
  pub slug : (r : Redirect) → (change r).slug ≡ r.slug
  pub counted : (r : Redirect) → r.click_count ≤ max_count → (change r).click_count ≤ max_count

module _ (q : Sqlite) where
  update_where-IsValid :
      (p : Redirect → Bool) (change : Redirect → Redirect) (s : Store)
      → IsMild change
      → IsValid q s
      → IsValid q (record s { redirects = update_where p change s.redirects })
  update_where-IsValid p change s mild v = record {
    rows =
        All-update_where (RowIsValid s.sequence) p change s.redirects
          (λ r h. record {
            positive = omega (arith, mild.id r, h.positive);
            given = omega (arith, mild.id r, h.given);
            counted = mild.counted r h.counted;
          })
          v.rows;
    apart =
        Pairs-update_where (Apart q) p change s.redirects (λ a b h. rw (mild.id a, mild.slug a) h)
          (λ a b h. rw (mild.id b, mild.slug b) h) v.apart;
    sequenced = v.sequenced;
    missed = v.missed;
    misses_apart = v.misses_apart;
    disjoint =
        All-imp _ _ s.misses
          (λ m h. rw (taken-update_where q m.slug p change s.redirects mild.slug) h) v.disjoint;
    capped = v.capped;
  }

  keep-IsValid :
      (p : Redirect → Bool) (s : Store)
      → IsValid q s
      → IsValid q (record s { redirects = keep p s.redirects })
  keep-IsValid p s v = record {
    rows = All-keep _ p s.redirects v.rows;
    apart = Pairs-keep _ p s.redirects v.apart;
    sequenced = v.sequenced;
    missed = v.missed;
    misses_apart = v.misses_apart;
    disjoint = All-imp _ _ s.misses (λ m h. taken-keep q m.slug p s.redirects h) v.disjoint;
    capped = v.capped;
  }

  module _ (laws : SqliteLaws q) where
    pub with_row-IsValid :
        (row : Redirect) (s : Store)
        → taken q row.slug s.redirects ≡ false
        → row.id ≡ s.sequence + 1
        → s.sequence < max_count
        → row.click_count ≤ max_count
        → IsValid q s
        → IsValid q (with_row q row s)
    with_row-IsValid row s free next room counted v = record {
      rows = (
        record { positive = omega arith; given = omega arith; counted = counted },
        All-imp _ _ s.redirects
            (λ r h. record {
              positive = h.positive;
              given = omega (arith, h.given);
              counted = h.counted;
            })
            v.rows,
      );
      apart = (
        All-both _ _ _ s.redirects
            (λ r h k.
              (nocase-false_sym q laws r.slug row.slug h, λ e. absurd (omega (arith, e, k.given))))
            (apart_of_free q row.slug s.redirects free) v.rows,
        v.apart,
      );
      sequenced = omega arith;
      missed = All-keep _ _ s.misses v.missed;
      misses_apart = Pairs-keep _ _ s.misses v.misses_apart;
      disjoint =
          All-both _ _ _ (without_miss q row.slug s.misses) (λ m h k. added m (keeps m h) k)
            (All-keep_self _ (λ m. not (is_miss_of q row.slug m)) s.misses (λ m h. h))
            (All-keep _ _ s.misses v.disjoint);
      capped =
          omega (arith, v.capped, length-keep-le (λ m. not (is_miss_of q row.slug m)) s.misses);
    }
      where
        keeps :
            (m : SlugMiss) → not (is_miss_of q row.slug m) ≡ true → q.nocase row.slug m.slug ≡ false
        keeps m h = nocase-false_sym q laws m.slug row.slug (ground (arith, h))

        added :
            (m : SlugMiss)
            → q.nocase row.slug m.slug ≡ false
            → taken q m.slug s.redirects ≡ false
            → taken q m.slug (row ∷ s.redirects) ≡ false
        added m h k = rw (h, k)

  module _ (env : Env) where
    pub update-IsValid :
        (message : String) (change : Redirect → Redirect) (slug : Str) (s : Store)
        → IsMild change
        → IsValid q s
        → IsValid q (update_returning q env message change slug s).1
    update-IsValid message change slug s mild v =
        elim (update-outcome q env message change slug s) [
          | inl (e, kept) ↦ rw kept v
          | inr (row, found, changed) ↦ rw changed (update_where-IsValid _ change s mild v)
        ]

    accessed-IsMild : (value : Str) → IsMild (accessed q value)
    unfolding accessed
    accessed-IsMild value = record {
      id = λ r. refl;
      slug = λ r. refl;
      counted = λ r h. ground arith;
    }

    pub access-IsValid :
        (id : ℕ) (value : Str) (s : Store)
        → IsValid q s
        → IsValid q (record_redirect_access q env id value s).1
    access-IsValid id value s v = elim (access-outcome q env id value s) [
      | inl kept ↦ rw kept v
      | inr changed ↦
          rw changed (update_where-IsValid _ (accessed q value) s (accessed-IsMild value) v)
    ]

    pub delete-IsValid :
        (slug : Str) (s : Store) → IsValid q s → IsValid q (delete_redirect q env slug s).1
    delete-IsValid slug s v = elim (delete-outcome q env slug s) [
      | inl kept ↦ rw kept v
      | inr removed ↦ rw removed (keep-IsValid _ s v)
    ]

    pub create-IsValid :
        (laws : SqliteLaws q) (slug url : Str) (expires_at : Option Str) (s : Store)
        → IsValid q s
        → IsValid q (create_redirect_with_expiration q env slug url expires_at s).1
    create-IsValid laws slug url expires_at s v =
        elim (create-outcome q env slug url expires_at s) [
          | inl (e, kept) ↦ rw kept v
          | inr (free, room, added) ↦
              rw added (with_row-IsValid laws _ s free refl room (omega arith) v)
        ]

    -- The four updates of a redirect by its slug.
    pub updates-IsValid :
        (slug url : Str) (expires_at : Option Str) (s : Store)
        → IsValid q s
        → IsValid q (update_redirect q env slug url s).1
          × IsValid q (disable_redirect q env slug s).1
          × IsValid q (enable_redirect q env slug s).1
          × IsValid q (set_redirect_expiration q env slug expires_at s).1
    unfolding update_redirect disable_redirect enable_redirect set_redirect_expiration
    updates-IsValid slug url expires_at s v = (
      update-IsValid _ _ slug s (unseen (set_url env url) (λ r. refl) (λ r. refl) (λ r. refl)) v,
      update-IsValid _ _ slug s
          (unseen (set_disabled env (some env.now)) (λ r. refl) (λ r. refl) (λ r. refl)) v,
      update-IsValid _ _ slug s (unseen (set_disabled env none) (λ r. refl) (λ r. refl) (λ r. refl))
          v,
      update-IsValid _ _ slug s
          (unseen (set_expiration env expires_at) (λ r. refl) (λ r. refl) (λ r. refl)) v,
    )
      where
        unseen :
            (change : Redirect → Redirect)
            → ((r : Redirect) → (change r).id ≡ r.id)
            → ((r : Redirect) → (change r).slug ≡ r.slug)
            → ((r : Redirect) → (change r).click_count ≡ r.click_count)
            → IsMild change
        unseen change i g c = record { id = i; slug = g; counted = λ r h. omega (arith, c r, h) }
