-- ===== src/Handlers/Response.antt =====
-- handlers/management.go: what its handlers read of a request and write as a response.
use gottem_link.Base.{
  ℕ, Str, Bool, ◌&&◌, Option, none, some, List, ◌++◌, if◌then◌else◌, Result, ok, err, codes, take,
  length, leb,
}
use gottem_link.Base.Int.{ℤ}
use gottem_link.Db.Sql.{DbError, redirect_not_found, slug_conflict}
use gottem_link.Db.Store.{Redirect, SlugMiss, Store}
use gottem_link.Db.Redirects.{}

-- 1 << 20
abbrev pub max_management_body_bytes : ℕ
max_management_body_bytes = 1048576

pub record CreateRedirectRequest : Type 0 where
  pub slug : Option Str
  pub url : Str
  pub expires_at : Option Str

-- The methods that a handler tells apart.
pub data Method : Type 0 where
  get_ post put delete_ other : Method

-- The packages encoding/json, time and net/url. A decoder reads one value from the front of its
-- text and gives what is left of it; `at_end` says that only space is left.
pub record Codec : Type 0 where
  pub decode_create : Str → Option (CreateRedirectRequest × Str)
  pub decode_update : Str → Option (Str × Str)
  pub decode_expiration : Str → Option (Option Str × Str)
  pub at_end : Str → Bool
  pub decode_string : Str → Option Str
  -- time.Parse with time.RFC3339
  pub parse_time : Str → Option ℤ
  -- time.Parse with the layout of SQLite's CURRENT_TIMESTAMP
  pub parse_sql_time : Str → Option ℤ
  -- in UTC with time.RFC3339Nano
  pub format_time : ℤ → Str
  pub path_escape : Str → Str

pub data Body : Type 0 where
  redirect_list : List Redirect → Body
  miss_list : List SlugMiss → Body
  one_redirect : Redirect → Body
  error_text : Str → Body
  field_error : Str → Str → Body
  no_body : Body

pub record Response : Type 0 where
  pub status : ℕ
  pub allow : Option Str
  pub location : Option Str
  pub body : Body

abbrev pub write_management_json : ℕ → Body → Response
write_management_json status body = record {
  status = status;
  allow = none;
  location = none;
  body = body;
}

abbrev pub write_management_error : ℕ → Str → Response
write_management_error status message = write_management_json status (error_text message)

abbrev pub write_management_field_error : ℕ → Str → Str → Response
write_management_field_error status message field =
    write_management_json status (field_error message field)

abbrev pub internal_error : Response
internal_error = write_management_error 500 (codes "internal server error")

abbrev pub method_not_allowed : Str → Response
method_not_allowed methods = record {
  status = 405;
  allow = some methods;
  location = none;
  body = error_text (codes "method not allowed");
}

-- One JSON value and nothing after it, of which at most the limit is read: where the body is longer
-- its end is not reached.
unfoldable pub decode_bounded {ℓ} :
    {A : Type ℓ} → ℕ → (Str → Bool) → (Str → Option (A × Str)) → Str → Option A
decode_bounded limit at_end decode body = elim (decode (take limit body)) [
  | none ↦ none
  | some (value, rest) ↦ if at_end rest && leb (length body) limit then some value else none
]

unfoldable pub decode_management_json {ℓ} :
    {A : Type ℓ} → Codec → (Str → Option (A × Str)) → Str → Option A
unfolding decode_bounded
decode_management_json codec decode body =
    decode_bounded max_management_body_bytes codec.at_end decode body

-- `none` for a text that is no time, and else the optional canonical text.
unfoldable pub validate_expiration : Codec → Option Str → Option (Option Str)
validate_expiration codec none = some none
validate_expiration codec (some value) = elim (codec.parse_time value) [
  | none ↦ none
  | some t ↦ some (some (codec.format_time t))
]

abbrev pub redirects_path : Str
redirects_path = codes "/api/v1/redirects/"

abbrev pub write_created_redirect : Codec → Redirect → Response
write_created_redirect codec r = record {
  status = 201;
  allow = none;
  location = some (redirects_path ++ codec.path_escape r.slug);
  body = one_redirect r;
}

abbrev pub write_redirect_result : ℕ → Result DbError Redirect × Store → Response × Store
write_redirect_result status (ok r, s) = (write_management_json status (one_redirect r), s)
write_redirect_result status (err redirect_not_found, s) =
    (write_management_error 404 (codes "redirect not found"), s)
write_redirect_result status (err e, s) = (internal_error, s)

abbrev pub write_custom_result : Codec → Result DbError Redirect × Store → Response × Store
write_custom_result codec (ok r, s) = (write_created_redirect codec r, s)
write_custom_result codec (err slug_conflict, s) =
    (write_management_field_error 409 (codes "slug already exists") (codes "slug"), s)
write_custom_result codec (err e, s) = (internal_error, s)

abbrev pub write_deleted : Option DbError × Store → Response × Store
write_deleted (none, s) = (write_management_json 204 no_body, s)
write_deleted (some redirect_not_found, s) =
    (write_management_error 404 (codes "redirect not found"), s)
write_deleted (some e, s) = (internal_error, s)
