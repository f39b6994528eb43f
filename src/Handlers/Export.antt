-- ===== src/Handlers/Export.antt =====
-- handlers/management.go: the export of all redirects as a backup of the current version.
pub mod Complete
use gottem_link.Base.{
  ℕ, suc, leb, ltb, ◌==◌, Str, Bool, true, false, not, ◌||◌, Option, none, some, is_some, List, [],
  ◌∷◌, ◌++◌, if◌then◌else◌, Result, ok, err, ◌>>=◌, length, Unicode,
}
use gottem_link.Base.Int.{pos}
use gottem_link.Backup
use gottem_link.Backup.Decode.{max_bytes}
use gottem_link.Db.Sql.{Sqlite, Env, DbError}
use gottem_link.Db.Store.{Redirect, Store}
use gottem_link.Db.Redirects.{list_redirects}
use gottem_link.Handlers.Response.{Codec, Method, get_}
use gottem_link.Handlers.Transfer.{portable_timestamp, portable_optional_timestamp}

-- Statuses 405, 500, 422 for each of three reasons, and 413.
pub data ExportError : Type 0 where
  method_not_allowed internal_error invalid_utf8 : ExportError
  invalid_lifecycle_timestamp invalid_usage_timestamp too_large : ExportError

abbrev pub or_error {ℓ} : {A : Type ℓ} → ExportError → Option A → Result ExportError A
or_error e none = err e
or_error e (some a) = ok a

-- One round of the loop.
unfoldable pub export_redirect : Unicode → Codec → Redirect → Result ExportError Backup.Redirect
unfolding portable_optional_timestamp
export_redirect uni codec value =
    if not (is_some (uni.decode value.slug)) || not (is_some (uni.decode value.url))
    then err invalid_utf8
    else do
      destination_updated_at ←
          or_error invalid_lifecycle_timestamp
            (portable_timestamp codec value.destination_updated_at)
      expires_at ←
          or_error invalid_lifecycle_timestamp (portable_optional_timestamp codec value.expires_at)
      last_accessed_at ←
          or_error invalid_usage_timestamp
            (portable_optional_timestamp codec value.last_accessed_at)
      ok (record {
        slug = value.slug;
        url = value.url;
        disabled = is_some value.disabled_at;
        expires_at = expires_at;
        destination_updated_at = destination_updated_at;
        click_count = pos value.click_count;
        last_accessed_at = last_accessed_at;
      })

unfoldable pub export_redirects :
    Unicode → Codec → List Redirect → Result ExportError (List Backup.Redirect)
unfolding export_redirect
export_redirects uni codec [] = ok []
export_redirects uni codec (value ∷ values) = do
  redirect ← export_redirect uni codec value
  redirects ← export_redirects uni codec values
  ok (redirect ∷ redirects)

-- A line feed ends the body and counts for its size.
abbrev pub sized : Str → Result ExportError Str
sized payload =
    if ltb max_bytes (suc (length payload)) then err too_large else ok (payload ++ (10 ∷ []))

abbrev pub listed : Result DbError (List Redirect) → Result ExportError (List Redirect)
listed (err e) = err internal_error
listed (ok rows) = ok rows

-- The `marshal` is json.Marshal on the envelope.
unfoldable pub export_handler :
    Unicode
    → Codec
    → (Backup.Envelope → Option Str)
    → Sqlite
    → Env
    → Method
    → Store
    → Result ExportError Str
unfolding export_redirects
export_handler uni codec marshal q env get_ s = do
  rows ← listed (list_redirects q env s)
  redirects ← export_redirects uni codec rows
  payload ←
      or_error internal_error (marshal (record { version = Backup.version; redirects = redirects }))
  sized payload
export_handler uni codec marshal q env _ s = err method_not_allowed
