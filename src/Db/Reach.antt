-- ===== src/Db/Reach.antt =====
-- Every sequence of operations of the package db, failing or not, from the empty tables that
-- migration creates.
use gottem_link.Base.{ℕ, Str, Option, List, [], All, Unicode, arith}
use gottem_link.Db.Sql.{Sqlite, SqliteLaws, Env}
use gottem_link.Db.Store.{Store, ImportRedirect}
use gottem_link.Db.Invariant.{IsValid}
use gottem_link.Db.Redirects.{
  create_redirect_with_expiration, update_redirect, disable_redirect, enable_redirect,
  set_redirect_expiration, record_redirect_access, delete_redirect,
}
use gottem_link.Db.Redirects.Valid.{create-IsValid, updates-IsValid, access-IsValid, delete-IsValid}
use gottem_link.Db.Misses.{record_slug_miss}
use gottem_link.Db.Misses.Valid.{record_slug_miss-IsValid}
use gottem_link.Db.Import.{import_redirects}
use gottem_link.Db.Import.Valid.{IsCounted, import_redirects-IsValid}

-- The tables of a new database.
abbrev pub empty : Store
empty = record { redirects = []; sequence = 0; misses = [] }

module _ (u : Unicode) (q : Sqlite) where
  -- One operation, under any failures.
  pub data Step : Store → Store → Type 0 where
    create :
        (env : Env) (slug url : Str) (expires_at : Option Str) {s : Store}
        → Step s (create_redirect_with_expiration q env slug url expires_at s).1
    update : (env : Env) (slug url : Str) {s : Store} → Step s (update_redirect q env slug url s).1
    disable : (env : Env) (slug : Str) {s : Store} → Step s (disable_redirect q env slug s).1
    enable : (env : Env) (slug : Str) {s : Store} → Step s (enable_redirect q env slug s).1
    expire :
        (env : Env) (slug : Str) (expires_at : Option Str) {s : Store}
        → Step s (set_redirect_expiration q env slug expires_at s).1
    access :
        (env : Env) (id : ℕ) (value : Str) {s : Store}
        → Step s (record_redirect_access q env id value s).1
    delete : (env : Env) (slug : Str) {s : Store} → Step s (delete_redirect q env slug s).1
    miss :
        (env : Env) (slug value : Str) {s : Store}
        → Step s (record_slug_miss u q env slug value s).1
    import :
        (env : Env) (rs : List ImportRedirect) {s : Store}
        → All IsCounted rs
        → Step s (import_redirects q env rs s).1

  pub data Reach : Store → Type 0 where
    new : Reach empty
    next : {s t : Store} → Reach s → Step s t → Reach t

module _ (u : Unicode) (q : Sqlite) (laws : SqliteLaws q) where
  Step-IsValid : {s t : Store} → Step u q s t → IsValid q s → IsValid q t
  Step-IsValid (create env slug url expires_at) v =
      create-IsValid q env laws slug url expires_at _ v
  Step-IsValid (update env slug url) v = (updates-IsValid q env slug url Option.none _ v).0
  Step-IsValid (disable env slug) v = (updates-IsValid q env slug [] Option.none _ v).1
  Step-IsValid (enable env slug) v = (updates-IsValid q env slug [] Option.none _ v).2
  Step-IsValid (expire env slug expires_at) v = (updates-IsValid q env slug [] expires_at _ v).3
  Step-IsValid (access env id value) v = access-IsValid q env id value _ v
  Step-IsValid (delete env slug) v = delete-IsValid q env slug _ v
  Step-IsValid (miss env slug value) v = record_slug_miss-IsValid q laws u env slug value _ v
  Step-IsValid (import env rs h) v = import_redirects-IsValid q laws env rs _ h v

  -- In every store that operations can lead to, whichever of their calls fail: ids and slugs are
  -- unique, counts are 64-bit, at most 500 misses are stored, and no slug is stored both as a
  -- redirect and as missing.
  pub Reach-IsValid : {s : Store} → Reach u q s → IsValid q s
  Reach-IsValid new = record {
    rows = tt;
    apart = tt;
    sequenced = omega arith;
    missed = tt;
    misses_apart = tt;
    disjoint = tt;
    capped = omega arith;
  }
  Reach-IsValid (next r st) = Step-IsValid st (Reach-IsValid r)
