-- ===== src/Handlers/Transfer/Imports.antt =====
-- What a request to the import of handlers/management.go changes.
use gottem_link.Base.{
  ℕ, Str, Bool, true, false, Option, none, some, is_some, List, [], ◌∷◌, Result, ok, err, length,
  inl, inr, ◌≡◌, refl, ap, Result-cases, Option-cases,
}
use gottem_link.Backup
use gottem_link.Backup.Decode.{BackupJson, DecodeError, decode}
use gottem_link.Backup.Decode
use gottem_link.Db.Sql.{
  Sqlite, Env, DbError, redirect_not_found, slug_conflict, no_rows, raw, wrapped, slug_conflicts,
}
use gottem_link.Db.Store.{ImportRedirect, Store}
use gottem_link.Db.Import.{import_steps, committed, import_redirects, redirect_import_conflicts}
use gottem_link.Handlers.Response.{Codec, Method, get_, post, put, delete_, other}
use gottem_link.Handlers.Transfer.{
  converted, parse_dry_run, ImportReply, import_conflicts, import_result, internal_error,
  invalid_import, method_not_allowed, invalid_dry_run, invalid_redirects, dry_run_reply,
  import_reply, import_converted, import_decoded, import_body, import_handler,
}

-- How many redirects a reply says were imported.
abbrev pub imported_of : ImportReply → ℕ
imported_of (import_result total imported) = imported
imported_of _ = 0

module _ (codec : Codec) (json : BackupJson) (q : Sqlite) (env : Env) where
  -- Either no redirect is reported as imported and the store is as it was, or the request is a POST
  -- without a dry run, and all redirects of its backup were imported.
  pub data Imports (method : Method) (dry_runs : Option (List Str)) (body : Option Str) (s : Store)
      : ImportReply × Store → Type 0 where
    unchanged :
        (reply : ImportReply) → imported_of reply ≡ 0 → Imports method dry_runs body s (reply, s)
    changed :
        (envelope : Backup.Envelope) (redirects : List ImportRedirect) (t : Store)
        → method ≡ post
        → parse_dry_run dry_runs ≡ ok false
        → decode json (λ time. is_some (codec.parse_time time)) body ≡ ok envelope
        → converted codec envelope.redirects ≡ some redirects
        → import_redirects q env redirects s ≡ (none, t)
        → Imports method dry_runs body s (import_result (length redirects) (length redirects), t)

  module _ (dry_runs : Option (List Str)) (body : Option Str) (s : Store) where
    refused-Imports :
        (total : ℕ) (e : DbError) → Imports post dry_runs body s (import_reply total (some e, s))
    refused-Imports total redirect_not_found = unchanged internal_error refl
    refused-Imports total slug_conflict = unchanged internal_error refl
    refused-Imports total no_rows = unchanged internal_error refl
    refused-Imports total (slug_conflicts slugs) = unchanged (import_conflicts slugs) refl
    refused-Imports total raw = unchanged internal_error refl
    refused-Imports total (wrapped message) = unchanged internal_error refl

    dry-Imports :
        (total : ℕ) (r : Result DbError (List Str))
        → Imports post dry_runs body s (dry_run_reply total r, s)
    dry-Imports total (err e) = unchanged internal_error refl
    dry-Imports total (ok []) = unchanged (import_result total 0) refl
    dry-Imports total (ok (c ∷ cs)) = unchanged (import_conflicts (c ∷ cs)) refl

    module _ (envelope : Backup.Envelope)
        (e : decode json (λ time. is_some (codec.parse_time time)) body ≡ ok envelope) where
      committed-Imports :
          (redirects : List ImportRedirect) (r : Result DbError Store)
          → import_steps q env redirects s ≡ r
          → parse_dry_run dry_runs ≡ ok false
          → converted codec envelope.redirects ≡ some redirects
          → Imports post dry_runs body s (import_reply (length redirects) (committed s r))
      unfolding import_redirects
      committed-Imports redirects (err failure) h real c =
          refused-Imports (length redirects) failure
      committed-Imports redirects (ok t) h real c =
          changed envelope redirects t refl real e c (ap (committed s) h)

      converted-Imports :
          (dry_run : Bool) (redirects : List ImportRedirect)
          → parse_dry_run dry_runs ≡ ok dry_run
          → converted codec envelope.redirects ≡ some redirects
          → Imports post dry_runs body s (import_converted q env dry_run redirects s)
      unfolding import_converted import_redirects
      converted-Imports true redirects d c =
          dry-Imports (length redirects) (redirect_import_conflicts q env redirects s)
      converted-Imports false redirects d c = committed-Imports redirects _ refl d c

      decoded-Imports :
          (dry_run : Bool)
          → parse_dry_run dry_runs ≡ ok dry_run
          → Imports post dry_runs body s (import_decoded codec q env dry_run envelope s)
      unfolding import_decoded
      decoded-Imports dry_run d = elim (Option-cases (converted codec envelope.redirects)) [
        | inl c ↦ rw (import_decoded, c) (unchanged invalid_import refl)
        | inr (redirects, c) ↦ rw (import_decoded, c) (converted-Imports dry_run redirects d c)
      ]

    body-Imports :
        (dry_run : Bool) (r : Result DecodeError Backup.Envelope)
        → parse_dry_run dry_runs ≡ ok dry_run
        → decode json (λ time. is_some (codec.parse_time time)) body ≡ r
        → Imports post dry_runs body s (import_body codec json q env dry_run r s)
    body-Imports dry_run (ok envelope) d e = decoded-Imports envelope e dry_run d
    body-Imports dry_run (err (Decode.invalid_redirects issues)) d e =
        unchanged (invalid_redirects issues) refl
    body-Imports dry_run (err Decode.read_import) d e = unchanged invalid_import refl
    body-Imports dry_run (err Decode.too_large) d e = unchanged invalid_import refl
    body-Imports dry_run (err Decode.invalid_json) d e = unchanged invalid_import refl
    body-Imports dry_run (err (Decode.unsupported_version v)) d e = unchanged invalid_import refl

    -- Whatever fails in the database, a request of the import reports nothing as imported and leaves
    -- the store, or it is a POST without a dry run whose body decodes to a backup, and it answers
    -- with 200 and the number of all its redirects, in the store that ImportRedirects committed.
    pub import_handler-Imports :
        (method : Method)
        → Imports method dry_runs body s (import_handler codec json q env method dry_runs body s)
    unfolding import_handler
    import_handler-Imports post = elim (Result-cases (parse_dry_run dry_runs)) [
      | inl (dry_run, d) ↦ rw (import_handler, d) (body-Imports dry_run _ d refl)
      | inr (failure, d) ↦ rw (import_handler, d) (unchanged invalid_dry_run refl)
    ]
    import_handler-Imports get_ = unchanged method_not_allowed refl
    import_handler-Imports put = unchanged method_not_allowed refl
    import_handler-Imports delete_ = unchanged method_not_allowed refl
    import_handler-Imports other = unchanged method_not_allowed refl
