-- ===== src/Db/Redirects/View.antt =====
-- Searches by slug in a table that was changed, and in a valid table.
use mathlib.Core.Option
use gottem_link.Base.{
  Str, true, false, not, none, some, List, [], ◌∷◌, ◌≡◌, ◌≢◌, sym, ◌∙◌, ap, inl, inr, arith,
  if◌then◌else◌, find, keep, update_where, All, All-imp, Pairs, Bool-cases, find-All, find_congr,
  find-update_where_self, find-update_where_other, find-keep, find-keep-none, ◌==◌,
}
use gottem_link.Db.Sql.{Sqlite, SqliteLaws, Env, Call}
use gottem_link.Db.Store.{Redirect, has_slug}
use gottem_link.Db.Invariant.{Apart, nocase_congr}
use gottem_link.Db.Redirects.{}

-- No database call fails.
abbrev pub Calm : Env → Type 0
Calm env = (c : Call) → env.fails c ≡ false

module _ (q : Sqlite) (laws : SqliteLaws q) where
  pub has_slug_congr :
      (a b : Str) → q.nocase a b ≡ true → (r : Redirect) → has_slug q a r ≡ has_slug q b r
  has_slug_congr a b h r = nocase_congr q laws a b r.slug h

  pub has_slug_apart :
      (a b : Str)
      → q.nocase a b ≡ false
      → (r : Redirect) → has_slug q b r ≡ true
      → has_slug q a r ≡ false
  has_slug_apart a b h r k = elim (Bool-cases (q.nocase r.slug a)) [
    | inl e ↦ cc (h, laws.nocase_trans a r.slug b (laws.nocase_sym r.slug a e) k)
    | inr e ↦ e
  ]

  -- A change of the rows of a slug shows at that slug and nowhere else.
  pub find-changed :
      (slug t : Str) (change : Redirect → Redirect) (rows : List Redirect)
      → ((r : Redirect) → (change r).slug ≡ r.slug)
      → find (has_slug q t) (update_where (has_slug q slug) change rows) ≡ (
          if q.nocase slug t
          then Option.map change (find (has_slug q slug) rows)
          else find (has_slug q t) rows)
  find-changed slug t change rows fixed = elim (Bool-cases (q.nocase slug t)) [
    | inl e ↦
        rw (e, find_congr (has_slug q slug) (has_slug q t) rows (has_slug_congr slug t e))
          (find-update_where_self (has_slug q slug) (has_slug q t) change rows
            (has_slug_congr slug t e) (λ r. ap (λ s. q.nocase s t) (fixed r)))
    | inr e ↦ rw e (
        find-update_where_other (has_slug q slug) (has_slug q t) change rows
          (has_slug_apart slug t e) (λ r. ap (λ s. q.nocase s t) (fixed r)))
  ]

  pub find-removed :
      (slug t : Str) (rows : List Redirect)
      → find (has_slug q t) (keep (λ r. not (has_slug q slug r)) rows)
        ≡ (if q.nocase slug t then none else find (has_slug q t) rows)
  find-removed slug t rows = elim (Bool-cases (q.nocase slug t)) [
    | inl e ↦ rw e (
        find-keep-none (λ r. not (has_slug q slug r)) (has_slug q t) rows
          (λ r h. ground (arith, h, has_slug_congr slug t e r)))
    | inr e ↦ rw e (
        find-keep (λ r. not (has_slug q slug r)) (has_slug q t) rows
          (λ r h. rw (has_slug_apart slug t e r h)))
  ]

  -- In a valid table the rows of an id are the rows of its slug.
  pub same_row :
      (slug : Str) (rows : List Redirect) (r : Redirect)
      → Pairs (Apart q) rows
      → find (has_slug q slug) rows ≡ some r
      → All (λ x. (x.id == r.id) ≡ has_slug q slug x) rows
  same_row slug [] r h e = tt
  same_row slug (x ∷ rows) r (apart, h) e = elim (Bool-cases (has_slug q slug x)) [
    | inl here ↦
        let same : x ≡ r = ground (arith, e, here) in
        (
          rw here (ground (arith, ap (λ (y : Redirect). y.id) same)),
          All-imp (Apart q x) _ rows
              (λ y d.
                differs y (λ g. d.1 (ap (λ (z : Redirect). z.id) same ∙ sym g))
                  (has_slug_apart_row x y here d.0))
              apart,
        )
    | inr later ↦
        let found : find (has_slug q slug) rows ≡ some r = rw later at e in
        (
          differs x (λ g. (find-All (Apart q x) (has_slug q slug) rows found apart).0.1 g) later,
          same_row slug rows r h found,
        )
  ]
    where
      differs :
          (y : Redirect)
          → y.id ≢ r.id
          → has_slug q slug y ≡ false
          → (y.id == r.id) ≡ has_slug q slug y
      differs y d k = rw k (ground (arith, d))

      has_slug_apart_row :
          (a b : Redirect)
          → has_slug q slug a ≡ true
          → q.nocase a.slug b.slug ≡ false
          → has_slug q slug b ≡ false
      has_slug_apart_row a b k d = elim (Bool-cases (q.nocase b.slug slug)) [
        | inl g ↦ cc (d, laws.nocase_trans a.slug slug b.slug k (laws.nocase_sym b.slug slug g))
        | inr g ↦ g
      ]
