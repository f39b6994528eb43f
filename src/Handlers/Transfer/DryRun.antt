-- ===== src/Handlers/Transfer/DryRun.antt =====
-- A dry run of an import changes nothing and foretells what the import does.
use gottem_link.Base.{
  ℕ, Str, Bool, true, false, none, some, List, [], ◌∷◌, if◌then◌else◌, ok, length, is_empty, ◌≡◌,
  refl, ◌∙◌, ap, length-sort_by, arith,
}
use gottem_link.Backup
use gottem_link.Db.Sql.{Sqlite, SqliteLaws, Env, slug_conflicts}
use gottem_link.Db.Store.{ImportRedirect, Store}
use gottem_link.Db.Redirects.View.{Calm}
use gottem_link.Db.Import.{sort_strings, str_lt}
use gottem_link.Db.Import.Atomic.{IsImportable, conflicts, with_all, import_all_or_none}
use gottem_link.Handlers.Response.{Codec}
use gottem_link.Handlers.Transfer.{
  converted, ImportReply, import_conflicts, import_result, dry_run_reply, import_reply,
  import_converted, import_decoded,
}

same_emptiness : (xs ys : List Str) → length xs ≡ length ys → is_empty xs ≡ is_empty ys
same_emptiness [] [] h = refl
same_emptiness [] (y ∷ ys) h = ground (arith, h)
same_emptiness (x ∷ xs) [] h = ground (arith, h)
same_emptiness (x ∷ xs) (y ∷ ys) h = refl

dry_run_reply_lem :
    (n : ℕ) (slugs : List Str)
    → dry_run_reply n (ok slugs)
      ≡ (if is_empty slugs then import_result n 0 else import_conflicts slugs)
dry_run_reply_lem n [] = refl
dry_run_reply_lem n (c ∷ cs) = refl

dry_run_reply-sorted :
    (n : ℕ) (slugs : List Str)
    → dry_run_reply n (ok (sort_strings slugs))
      ≡ (if is_empty slugs then import_result n 0 else import_conflicts (sort_strings slugs))
dry_run_reply-sorted n slugs =
    dry_run_reply_lem n (sort_strings slugs)
    ∙ ap (λ b. if b then import_result n 0 else import_conflicts (sort_strings slugs))
        (same_emptiness (sort_strings slugs) slugs (length-sort_by str_lt slugs))

pulled :
    (b : Bool) (x y : ImportReply) (s : Store)
    → ◌≡◌ {A = ImportReply × Store} (if b then x else y, s) (if b then (x, s) else (y, s))
pulled true x y s = refl
pulled false x y s = refl

import_reply-if :
    (n : ℕ) (b : Bool) (t : Store) (slugs : List Str) (s : Store)
    → import_reply n (if b then (none, t) else (some (slug_conflicts slugs), s))
      ≡ (if b then (import_result n n, t) else (import_conflicts slugs, s))
import_reply-if n true t slugs s = refl
import_reply-if n false t slugs s = refl

module _ (codec : Codec) (q : Sqlite) (laws : SqliteLaws q) (env : Env) (calm : Calm env) where
  -- Where no call of the database fails, a decoded backup whose times can be converted and whose
  -- redirects can be imported is answered as follows. The dry run leaves the store and gives the
  -- sorted slugs that are taken, or with none the total and no import. The import gives the same
  -- slugs and leaves the store, or with none the total twice and adds every redirect.
  pub dry_run_foretells :
      (envelope : Backup.Envelope) (redirects : List ImportRedirect) (s : Store)
      → converted codec envelope.redirects ≡ some redirects
      → IsImportable q redirects s
      → (import_decoded codec q env true envelope s ≡ (
          if is_empty (conflicts q redirects s)
          then (import_result (length redirects) 0, s)
          else (import_conflicts (sort_strings (conflicts q redirects s)), s)))
        × (import_decoded codec q env false envelope s ≡ (
            if is_empty (conflicts q redirects s)
            then (import_result (length redirects) (length redirects), with_all q env redirects s)
            else (import_conflicts (sort_strings (conflicts q redirects s)), s)))
  unfolding import_decoded import_converted
  dry_run_foretells envelope redirects s e i =
      let (dry, real) = import_all_or_none q laws env calm redirects s i in
      (
        rw
            (
              import_decoded,
              e,
              import_converted,
              dry,
              dry_run_reply-sorted (length redirects) (conflicts q redirects s),
            )
            (pulled (is_empty (conflicts q redirects s)) _ _ s),
        rw (import_decoded, e, import_converted, real)
            (import_reply-if (length redirects) (is_empty (conflicts q redirects s)) _ _ s),
      )
