-- ===== src/Db/Migrations/Steps.antt =====
-- A step of a migration fails without a trace, or does what it does where no statement fails.
use gottem_link.Base.{
  ℕ, zero, suc, ◌<◌, false, Option, none, some, List, [], map, Result, ok, err, ◌>>=◌, ◌≡◌, ◌⊎◌,
  inl, inr, refl, subst, ap, arith, Bool-cases,
}
use gottem_link.Db.Sql.{Sqlite}
use gottem_link.Db.Store.{SlugMiss}
use gottem_link.Db.Schema.{
  Statement, begin, inspect, create, copy, drop, rename, add_column, record_version, commit,
  Conditions, MigrationError, failed, Table, absent, legacy, v1, v2, v3, v4, Database, call,
  inserted, rebuild, row_v2, row_v3, row_v4, largest, table_v1, table_v2, table_v3, table_v4,
  misses_v5,
}
use gottem_link.Db.Migrations.{
  current_schema_version, settle, in_transaction, migrate_to_version1, migrate_to_version2,
  migrate_to_version3, migrate_to_version4, migrate_to_version5, migrate_step,
}

-- The same conditions with no failure.
abbrev pub calm : Conditions → Conditions
calm c = record { now = c.now; fails = λ version statement. false }

-- One computation ends with an error, or as the other one.
abbrev Follows {ℓ} : {A : Type ℓ} → Result MigrationError A → Result MigrationError A → Type ℓ
Follows {A = A} r r' = (r ≡ r') ⊎ ((e : MigrationError) × (r ≡ err e))

same {ℓ} : {A : Type ℓ} (r : Result MigrationError A) → Follows r r
same r = inl refl

module _ {ℓ κ} {A : Type ℓ} {B : Type κ} {f g : A → Result MigrationError B} where
  Follows-same :
      (r : Result MigrationError A) → ((a : A) → Follows (f a) (g a)) → Follows (r >>= f) (r >>= g)
  Follows-same (ok a) k = k a
  Follows-same (err e) k = inl refl

  Follows-bind :
      {r r' : Result MigrationError A}
      → Follows r r'
      → ((a : A) → Follows (f a) (g a))
      → Follows (r >>= f) (r' >>= g)
  Follows-bind {r = r} (inl e) k = subst (λ x. Follows (r >>= f) (x >>= g)) e (Follows-same r k)
  Follows-bind (inr (e, h)) k = inr (e, ap (λ x. x >>= f) h)

call-Follows :
    (c : Conditions) (version : ℕ) (s : Statement)
    → Follows (call c version s) (call (calm c) version s)
call-Follows c version s = elim (Bool-cases (c.fails version s)) [
  | inl e ↦ inr (failed version s, rw e refl)
  | inr e ↦ inl (rw e refl)
]

-- A failure that leaves no trace.
abbrev pub Fails : Database → Option MigrationError × Database → Type 0
Fails d r = (e : MigrationError) × (r ≡ (some e, d))

module _ (q : Sqlite) (c : Conditions) where
  after {ℓ} :
      {A : Type ℓ} (version : ℕ) (s : Statement) {f g : Unit {0} → Result MigrationError A}
      → ((u : Unit) → Follows (f u) (g u))
      → Follows (call c version s >>= f) (call (calm c) version s >>= g)
  after version s k = Follows-bind (call-Follows c version s) k

  rebuild-Follows :
      (version : ℕ) (filled : Option Table)
      → Follows (rebuild q c version filled) (rebuild q (calm c) version filled)
  unfolding rebuild
  rebuild-Follows version filled = after version create (λ _. after version copy (λ _.
      Follows-same (inserted version q filled)
        (λ t. after version drop (λ _. after version rename (λ _. same (ok t))))))

  table_v1-Follows : (t : Table) → Follows (table_v1 q c t) (table_v1 q (calm c) t)
  table_v1-Follows absent = after 1 create (λ _. same (ok (v1 [])))
  table_v1-Follows (legacy rows) = rebuild-Follows 1 _
  table_v1-Follows (v1 rows) = inl refl
  table_v1-Follows (v2 rows) = inl refl
  table_v1-Follows (v3 rows) = inl refl
  table_v1-Follows (v4 rows sequence) = inl refl

  table_v2-Follows : (t : Table) → Follows (table_v2 c t) (table_v2 (calm c) t)
  table_v2-Follows (v1 rows) = after 2 add_column (λ _. same (ok (v2 (map row_v2 rows))))
  table_v2-Follows absent = inl refl
  table_v2-Follows (legacy rows) = inl refl
  table_v2-Follows (v2 rows) = inl refl
  table_v2-Follows (v3 rows) = inl refl
  table_v2-Follows (v4 rows sequence) = inl refl

  table_v3-Follows : (t : Table) → Follows (table_v3 q c t) (table_v3 q (calm c) t)
  table_v3-Follows (v2 rows) = rebuild-Follows 3 (some (v3 (map row_v3 rows)))
  table_v3-Follows absent = inl refl
  table_v3-Follows (legacy rows) = inl refl
  table_v3-Follows (v1 rows) = inl refl
  table_v3-Follows (v3 rows) = inl refl
  table_v3-Follows (v4 rows sequence) = inl refl

  table_v4-Follows : (t : Table) → Follows (table_v4 q c t) (table_v4 q (calm c) t)
  table_v4-Follows (v3 rows) = rebuild-Follows 4 (some (v4 (map row_v4 rows) (largest rows)))
  table_v4-Follows absent = inl refl
  table_v4-Follows (legacy rows) = inl refl
  table_v4-Follows (v1 rows) = inl refl
  table_v4-Follows (v2 rows) = inl refl
  table_v4-Follows (v4 rows sequence) = inl refl

  misses_v5-Follows :
      (misses : Option (List SlugMiss)) → Follows (misses_v5 c misses) (misses_v5 (calm c) misses)
  misses_v5-Follows none = after 5 create (λ _. same (ok (some [])))
  misses_v5-Follows (some misses) = inl refl

  transaction-Follows :
      (version : ℕ) (d : Database) {r r' : Result MigrationError Database}
      → Follows r r'
      → (in_transaction c version d r ≡ in_transaction (calm c) version d r')
        ⊎ Fails d (in_transaction c version d r)
  unfolding in_transaction
  transaction-Follows version d h = settled (
      after version begin (λ _. Follows-bind h (λ d'.
        after version record_version
          (λ _. after version commit (λ _. same (ok (record d' { user_version = version })))))))
    where
      settled :
          {r r' : Result MigrationError Database}
          → Follows r r'
          → (settle d r ≡ settle d r') ⊎ Fails d (settle d r)
      settled (inl e) = inl (ap (settle d) e)
      settled (inr (e, h)) = inr (e, ap (settle d) h)

  pub step-Fails_or_calm :
      (n : ℕ) (d : Database)
      → (migrate_step q c n d ≡ migrate_step q (calm c) n d) ⊎ Fails d (migrate_step q c n d)
  unfolding migrate_step migrate_to_version1 migrate_to_version2 migrate_to_version3
      migrate_to_version4 migrate_to_version5
  step-Fails_or_calm zero d =
      transaction-Follows 1 d
        (after 1 inspect (λ _. Follows-bind (table_v1-Follows d.redirects) (λ t. same (ok _))))
  step-Fails_or_calm (suc zero) d =
      transaction-Follows 2 d (Follows-bind (table_v2-Follows d.redirects) (λ t. same (ok _)))
  step-Fails_or_calm (suc (suc zero)) d =
      transaction-Follows 3 d (Follows-bind (table_v3-Follows d.redirects) (λ t. same (ok _)))
  step-Fails_or_calm (suc (suc (suc zero))) d =
      transaction-Follows 4 d (Follows-bind (table_v4-Follows d.redirects) (λ t. same (ok _)))
  step-Fails_or_calm (suc (suc (suc (suc zero)))) d =
      transaction-Follows 5 d (Follows-bind (misses_v5-Follows d.misses) (λ misses. same (ok _)))
  step-Fails_or_calm (suc (suc (suc (suc (suc n))))) d = inl refl

-- Without a failing statement a step ends in the next version, or fails without a trace.
abbrev pub Settles : ℕ → Database → Option MigrationError × Database → Type 0
Settles n d r =
    ((d' : Database) × (r ≡ (none, d')) × (n < current_schema_version → d'.user_version ≡ suc n))
    ⊎ Fails d r

module _ (q : Sqlite) (c : Conditions) where
  transaction-Settles :
      (n : ℕ) (d : Database) (r : Result MigrationError Database)
      → Settles n d (in_transaction (calm c) (suc n) d r)
  unfolding in_transaction
  transaction-Settles n d (ok d') = inl (record d' { user_version = suc n }, refl, λ h. refl)
  transaction-Settles n d (err e) = inr (e, refl)

  pub step-Settles : (n : ℕ) (d : Database) → Settles n d (migrate_step q (calm c) n d)
  unfolding migrate_step migrate_to_version1 migrate_to_version2 migrate_to_version3
      migrate_to_version4 migrate_to_version5
  step-Settles zero d = transaction-Settles 0 d _
  step-Settles (suc zero) d = transaction-Settles 1 d _
  step-Settles (suc (suc zero)) d = transaction-Settles 2 d _
  step-Settles (suc (suc (suc zero))) d = transaction-Settles 3 d _
  step-Settles (suc (suc (suc (suc zero)))) d = transaction-Settles 4 d _
  step-Settles (suc (suc (suc (suc (suc n))))) d = inl (d, refl, λ h. absurd (omega (arith, h)))
