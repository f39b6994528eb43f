-- ===== src/Handlers/Management.antt =====
-- handlers/management.go: the handlers of the management of redirects. A handler reads the
-- request's method and body and gives the response and the store.
pub mod Keeps
pub mod Atomic
pub mod Attempts
pub mod Created
use gottem_link.Base.{
  ℕ, zero, suc, ◌+◌, ◌*◌, ◌^◌, ◌-◌, Str, Bool, true, false, not, ◌&&◌, Option, none, some, List, [],
  ◌∷◌, ◌++◌, if◌then◌else◌, Result, ok, err, codes, eqb, Unicode, take, length, leb,
}
use gottem_link.Base.Int.{ℤ}
use gottem_link.Base.Url.{Net}
use gottem_link.Validation.Slug.{validate_slug}
use gottem_link.Validation.Destination.{validate_destination}
use gottem_link.Handlers.Slug.{GenerateError}
use gottem_link.Db.Sql.{Sqlite, Env, DbError, redirect_not_found, slug_conflict}
use gottem_link.Db.Store.{Redirect, SlugMiss, Store}
use gottem_link.Db.Redirects.{
  create_redirect_with_expiration, list_redirects, get_redirect, update_redirect, disable_redirect,
  enable_redirect, set_redirect_expiration, delete_redirect,
}
use gottem_link.Db.Misses.{list_slug_misses}
use gottem_link.Handlers.Response.{
  CreateRedirectRequest, Method, get_, post, put, delete_, other, Codec, Body, redirect_list,
  miss_list, one_redirect, error_text, field_error, no_body, Response, write_management_json,
  write_management_error, write_management_field_error, internal_error, method_not_allowed,
  decode_management_json, validate_expiration, write_created_redirect, write_redirect_result,
  write_custom_result, write_deleted,
}

abbrev pub max_generated_slug_attempts : ℕ
max_generated_slug_attempts = 5

-- The switch on the outcome of an attempt: only a conflict goes on with the loop.
abbrev pub after_create :
    Codec → (Store → Response × Store) → Result DbError Redirect × Store → Response × Store
after_create codec retry (ok r, s) = (write_created_redirect codec r, s)
after_create codec retry (err slug_conflict, s) = retry s
after_create codec retry (err e, s) = (internal_error, s)

module _ (uni : Unicode) (net : Net) (codec : Codec) (q : Sqlite) where
  unfoldable pub create_custom_redirect : Env → Str → Str → Option Str → Store → Response × Store
  create_custom_redirect env slug destination expires_at s = elim (validate_slug uni slug) [
    | err e ↦ (write_management_field_error 400 (codes "invalid slug") (codes "slug"), s)
    | ok canonical ↦
        write_custom_result codec
          (create_redirect_with_expiration q env canonical destination expires_at s)
  ]

  -- The loop with the attempts that are left; `i` counts those made. The generator and the
  -- database of each attempt have outcomes of their own.
  unfoldable pub create_generated :
      (ℕ → Result GenerateError Str)
      → (ℕ → Env)
      → Str
      → Option Str
      → ℕ
      → ℕ
      → Store
      → Response × Store
  create_generated generate env destination expires_at zero i s =
      (write_management_field_error 409 (codes "unable to generate unique slug") (codes "slug"), s)
  create_generated generate env destination expires_at (suc left) i s = elim (generate i) [
    | err e ↦ (internal_error, s)
    | ok candidate ↦ elim (validate_slug uni candidate) [
      | err e ↦ (internal_error, s)
      | ok canonical ↦
          after_create codec (create_generated generate env destination expires_at left (suc i))
            (create_redirect_with_expiration q (env i) canonical destination expires_at s)
    ]
  ]

  unfoldable pub create_generated_redirect :
      (ℕ → Result GenerateError Str) → (ℕ → Env) → Str → Option Str → Store → Response × Store
  unfolding create_generated
  create_generated_redirect generate env destination expires_at =
      create_generated generate env destination expires_at max_generated_slug_attempts 0

  -- A request that names a slug is for that one.
  unfoldable pub create_requested :
      (ℕ → Result GenerateError Str)
      → (ℕ → Env)
      → Option Str
      → Str
      → Option Str
      → Store
      → Response × Store
  create_requested generate env (some slug) destination expires_at s =
      create_custom_redirect (env 0) slug destination expires_at s
  create_requested generate env none destination expires_at s =
      create_generated_redirect generate env destination expires_at s

  unfoldable pub post_redirect :
      (ℕ → Result GenerateError Str)
      → (ℕ → Env)
      → Option CreateRedirectRequest
      → Store
      → Response × Store
  post_redirect generate env none s = (write_management_error 400 (codes "invalid request"), s)
  post_redirect generate env (some request) s = elim (validate_destination uni net request.url) [
    | err e ↦ (write_management_field_error 400 (codes "invalid URL") (codes "url"), s)
    | ok destination ↦ elim (validate_expiration codec request.expires_at) [
      | none ↦
          (write_management_field_error 400 (codes "invalid expiration") (codes "expires_at"), s)
      | some expires_at ↦ create_requested generate env request.slug destination expires_at s
    ]
  ]

  unfoldable pub collection_handler :
      (ℕ → Result GenerateError Str) → (ℕ → Env) → Method → Str → Store → Response × Store
  collection_handler generate env get_ body s = elim (list_redirects q (env 0) s) [
    | err e ↦ (internal_error, s)
    | ok rows ↦ (write_management_json 200 (redirect_list rows), s)
  ]
  collection_handler generate env post body s =
      post_redirect generate env (decode_management_json codec codec.decode_create body) s
  collection_handler generate env _ body s = (method_not_allowed (codes "GET, POST"), s)

  unfoldable pub misses_handler : Env → Method → Store → Response × Store
  misses_handler env get_ s = elim (list_slug_misses q env s) [
    | err e ↦ (internal_error, s)
    | ok rows ↦ (write_management_json 200 (miss_list rows), s)
  ]
  misses_handler env _ s = (method_not_allowed (codes "GET"), s)

  unfoldable pub put_redirect : Env → Str → Option Str → Store → Response × Store
  put_redirect env slug none s = (write_management_error 400 (codes "invalid request"), s)
  put_redirect env slug (some url) s = elim (validate_destination uni net url) [
    | err e ↦ (write_management_field_error 400 (codes "invalid URL") (codes "url"), s)
    | ok destination ↦ write_redirect_result 200 (update_redirect q env slug destination s)
  ]

  unfoldable pub item_handler : Env → Method → Str → Str → Store → Response × Store
  item_handler env get_ slug body s = write_redirect_result 200 (get_redirect q env slug s, s)
  item_handler env put slug body s =
      put_redirect env slug (decode_management_json codec codec.decode_update body) s
  item_handler env delete_ slug body s = write_deleted (delete_redirect q env slug s)
  item_handler env _ slug body s = (method_not_allowed (codes "GET, PUT, DELETE"), s)

  unfoldable pub disable_handler : Env → Method → Str → Store → Response × Store
  disable_handler env post slug s = write_redirect_result 200 (disable_redirect q env slug s)
  disable_handler env _ slug s = (method_not_allowed (codes "POST"), s)

  unfoldable pub enable_handler : Env → Method → Str → Store → Response × Store
  enable_handler env post slug s = write_redirect_result 200 (enable_redirect q env slug s)
  enable_handler env _ slug s = (method_not_allowed (codes "POST"), s)

  -- A raw value of JSON: the absent time, or a string that must be a time.
  unfoldable pub expiration_of : Str → Option (Option Str)
  expiration_of raw =
      if eqb raw (codes "null")
      then validate_expiration codec none
      else elim (codec.decode_string raw) [
        | none ↦ none
        | some value ↦ validate_expiration codec (some value)
      ]

  unfoldable pub put_expiration : Env → Str → Option (Option Str) → Store → Response × Store
  put_expiration env slug none s = (write_management_error 400 (codes "invalid request"), s)
  put_expiration env slug (some none) s = (write_management_error 400 (codes "invalid request"), s)
  put_expiration env slug (some (some raw)) s = elim (expiration_of raw) [
    | none ↦ (write_management_field_error 400 (codes "invalid expiration") (codes "expires_at"), s)
    | some expires_at ↦ write_redirect_result 200 (set_redirect_expiration q env slug expires_at s)
  ]

  unfoldable pub expiration_handler : Env → Method → Str → Str → Store → Response × Store
  expiration_handler env put slug body s =
      put_expiration env slug (decode_management_json codec codec.decode_expiration body) s
  expiration_handler env _ slug body s = (method_not_allowed (codes "PUT"), s)
