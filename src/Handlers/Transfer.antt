-- ===== src/Handlers/Transfer.antt =====
-- handlers/management.go: the import of a backup.
pub mod DryRun
pub mod Imports
use gottem_link.Base.{
  ℕ, Str, Bool, true, false, not, ◌||◌, Option, none, some, is_some, List, [], ◌∷◌, if◌then◌else◌,
  Result, ok, err, codes, eqb, length, is_empty,
}
use gottem_link.Base.Int.{ℤ, pos}
use gottem_link.Backup
use gottem_link.Backup.{Issue}
use gottem_link.Backup.Decode
use gottem_link.Backup.Decode.{BackupJson, DecodeError, decode}
use gottem_link.Db.Sql.{Sqlite, Env, DbError, slug_conflicts}
use gottem_link.Db.Store.{ImportRedirect, Store}
use gottem_link.Db.Import.{import_redirects, redirect_import_conflicts}
use gottem_link.Handlers.Response.{Codec, Method, post}

unfoldable pub portable_timestamp : Codec → Str → Option Str
portable_timestamp codec value = elim (codec.parse_time value) [
  | some t ↦ some (codec.format_time t)
  | none ↦ elim (codec.parse_sql_time value) [ some t ↦ some (codec.format_time t) | none ↦ none ]
]

unfoldable pub portable_optional_timestamp : Codec → Option Str → Option (Option Str)
unfolding portable_timestamp
portable_optional_timestamp codec none = some none
portable_optional_timestamp codec (some value) = elim (portable_timestamp codec value) [
  | none ↦ none
  | some t ↦ some (some t)
]

-- The values of the query parameter dry_run, `none` where it is absent.
pub data DryRunError : Type 0 where
  not_one_value not_a_boolean : DryRunError

unfoldable pub dry_run_value : Str → Result DryRunError Bool
dry_run_value value =
    if eqb value (codes "true")
    then ok true
    else if eqb value (codes "false")
    then ok false
    else err not_a_boolean

unfoldable pub parse_dry_run : Option (List Str) → Result DryRunError Bool
unfolding dry_run_value
parse_dry_run none = ok false
parse_dry_run (some (value ∷ [])) = dry_run_value value
parse_dry_run (some _) = err not_one_value

-- An absent time of the destination stays absent, which older versions of a backup have.
unfoldable pub portable_destination_time : Codec → Str → Option Str
unfolding portable_timestamp
portable_destination_time codec value =
    if is_empty value then some value else portable_timestamp codec value

abbrev pub with_times :
    Backup.Redirect → Option (Option Str) → Option Str → Option (Option Str) → Option ImportRedirect
with_times r (some expires_at) (some destination_updated_at) (some last_accessed_at) =
    some (record {
      slug = r.slug;
      url = r.url;
      disabled = r.disabled;
      expires_at = expires_at;
      destination_updated_at = destination_updated_at;
      click_count = r.click_count;
      last_accessed_at = last_accessed_at;
    })
with_times r _ _ _ = none

unfoldable pub import_redirect : Codec → Backup.Redirect → Option ImportRedirect
unfolding portable_timestamp portable_optional_timestamp portable_destination_time
import_redirect codec r =
    with_times r (portable_optional_timestamp codec r.expires_at)
      (portable_destination_time codec r.destination_updated_at)
      (portable_optional_timestamp codec r.last_accessed_at)

abbrev pub both :
    Option ImportRedirect → Option (List ImportRedirect) → Option (List ImportRedirect)
both (some r) (some rs) = some (r ∷ rs)
both _ _ = none

-- The loop that converts the redirects of the envelope.
unfoldable pub converted : Codec → List Backup.Redirect → Option (List ImportRedirect)
unfolding import_redirect
converted codec [] = some []
converted codec (r ∷ rs) = both (import_redirect codec r) (converted codec rs)

-- The responses: a status and what the body says.
pub data ImportReply : Type 0 where
  method_not_allowed invalid_dry_run invalid_import internal_error : ImportReply
  -- status 400 with the issues of the redirects
  invalid_redirects : List Issue → ImportReply
  -- status 409 with the slugs
  import_conflicts : List Str → ImportReply
  -- status 200 with the total and the number that was imported
  import_result : ℕ → ℕ → ImportReply

abbrev pub dry_run_reply : ℕ → Result DbError (List Str) → ImportReply
dry_run_reply total (err e) = internal_error
dry_run_reply total (ok []) = import_result total 0
dry_run_reply total (ok (c ∷ cs)) = import_conflicts (c ∷ cs)

abbrev pub import_reply : ℕ → Option DbError × Store → ImportReply × Store
import_reply total (none, s) = (import_result total total, s)
import_reply total (some (slug_conflicts slugs), s) = (import_conflicts slugs, s)
import_reply total (some e, s) = (internal_error, s)

unfoldable pub import_converted :
    Sqlite → Env → Bool → List ImportRedirect → Store → ImportReply × Store
import_converted q env true redirects s =
    (dry_run_reply (length redirects) (redirect_import_conflicts q env redirects s), s)
import_converted q env false redirects s =
    import_reply (length redirects) (import_redirects q env redirects s)

-- What follows the decoding of the body.
unfoldable pub import_decoded :
    Codec → Sqlite → Env → Bool → Backup.Envelope → Store → ImportReply × Store
unfolding converted import_converted
import_decoded codec q env dry_run envelope s = elim (converted codec envelope.redirects) [
  | none ↦ (invalid_import, s)
  | some redirects ↦ import_converted q env dry_run redirects s
]

-- `body` is `none` where the body cannot be read.
abbrev pub import_body :
    Codec
    → BackupJson
    → Sqlite
    → Env
    → Bool
    → Result DecodeError Backup.Envelope
    → Store
    → ImportReply × Store
import_body codec json q env dry_run (ok envelope) s = import_decoded codec q env dry_run envelope s
import_body codec json q env dry_run (err (Decode.invalid_redirects issues)) s =
    (invalid_redirects issues, s)
import_body codec json q env dry_run (err e) s = (invalid_import, s)

unfoldable pub import_handler :
    Codec
    → BackupJson
    → Sqlite
    → Env
    → Method
    → Option (List Str)
    → Option Str
    → Store
    → ImportReply × Store
unfolding parse_dry_run
import_handler codec json q env post dry_runs body s = elim (parse_dry_run dry_runs) [
  | err e ↦ (invalid_dry_run, s)
  | ok dry_run ↦
      import_body codec json q env dry_run (decode json (λ t. is_some (codec.parse_time t)) body) s
]
import_handler codec json q env _ dry_runs body s = (method_not_allowed, s)
