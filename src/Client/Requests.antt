-- ===== src/Client/Requests.antt =====
-- cmd/gottem/client.go: the requests of the commands and what becomes of the answers. A
-- request can always be encoded and built here, and the text of an error is what it is made of.
use gottem_link.Base.{
  ℕ, Str, Bool, true, false, Option, none, some, List, ◌++◌, Result, ok, err, ◌>>=◌, if◌then◌else◌,
  codes, is_empty, length, ltb, ◌==◌,
}
use gottem_link.Base.Int.{ℤ}
use gottem_link.Base.Url.{Url}
use gottem_link.Backup.{Envelope}
use gottem_link.Backup.Decode.{BackupJson, DecodeError, decode}

-- 1 << 20
abbrev pub max_response_body_bytes : ℕ
max_response_body_bytes = 1048576

pub record ClientRedirect : Type 0 where
  pub id : ℤ
  pub slug : Str
  pub url : Str
  pub created_at : Str
  pub updated_at : Str
  pub disabled_at : Option Str
  pub expires_at : Option Str
  pub destination_updated_at : Str
  pub click_count : ℤ
  pub last_accessed_at : Option Str

-- The structs that json.Marshal writes; an absent slug or expiration of a creation is left out.
pub data Payload : Type 0 where
  no_payload : Payload
  create_payload : Option Str → Str → Option Str → Payload
  update_payload : Str → Payload
  expiration_payload : Option Str → Payload
  import_payload : Envelope → Payload

pub record ClientRequest : Type 0 where
  pub method : Str
  pub target : Url
  pub authorization : Str
  pub payload : Payload

-- A response, with `none` for a body that cannot be read.
pub record Answer : Type 0 where
  pub status : ℕ
  pub body : Option Str

pub data ClientError : Type 0 where
  request_failed read_response_failed response_too_long : ClientError
  empty_response malformed_json invalid_export : ClientError
  -- `responseError`, whose text is made of the status and the body
  response_error : ℕ → Str → ClientError

pub data ClientValue : Type 0 where
  one_redirect : ClientRedirect → ClientValue
  redirect_list : List ClientRedirect → ClientValue
  exported : Envelope → ClientValue
  import_counts : ℤ → ℤ → ClientValue
  nothing : ClientValue

-- json.Unmarshal into the results of the client.
pub record ClientJson : Type 0 where
  pub decode_redirect : Str → Option ClientRedirect
  pub decode_list : Str → Option (List ClientRedirect)
  pub decode_raw : Str → Option Str
  pub decode_counts : Str → Option (ℤ × ℤ)

-- The package net/url: PathEscape.
abbrev pub Escape : Type 0
Escape = Str → Str

-- A path of unreserved characters is its own escaped form.
abbrev pub with_path : Url → Str → Url
with_path base path = record base { path = path; escaped_path = path }

unfoldable pub collection_url : Url → Url
collection_url base = with_path base (codes "/api/v1/redirects")

unfoldable pub export_url : Url → Url
export_url base = with_path base (codes "/api/v1/exports")

unfoldable pub redirect_url : Escape → Url → Str → Url
redirect_url escape base slug = record base {
  path = codes "/api/v1/redirects/" ++ slug;
  escaped_path = codes "/api/v1/redirects/" ++ escape slug;
}

abbrev pub extended : Url → Str → Url
extended target name = record target {
  path = target.path ++ name;
  escaped_path = target.escaped_path ++ name;
}

unfoldable pub disable_url : Escape → Url → Str → Url
unfolding redirect_url
disable_url escape base slug = extended (redirect_url escape base slug) (codes "/disable")

unfoldable pub expiration_url : Escape → Url → Str → Url
unfolding redirect_url
expiration_url escape base slug = extended (redirect_url escape base slug) (codes "/expiration")

unfoldable pub import_url : Url → Bool → Url
import_url base true = record (with_path base (codes "/api/v1/imports")) {
  raw_query = codes "dry_run=true";
}
import_url base false = with_path base (codes "/api/v1/imports")

abbrev pub some_if_set : Str → Option Str
some_if_set value = if is_empty value then none else some value

unfoldable pub read_bounded : Option Str → Result ClientError Str
read_bounded none = err read_response_failed
read_bounded (some body) =
    if ltb max_response_body_bytes (length body) then err response_too_long else ok body

abbrev pub expect_status : ℕ → ℕ → Str → Result ClientError Str
expect_status expected status body =
    if status == expected then ok body else err (response_error status body)

-- The part of `requestJSON` after the request was sent; redirections are not followed.
unfoldable pub body_of : ℕ → Option Answer → Result ClientError Str
unfolding read_bounded
body_of expected none = err request_failed
body_of expected (some answer) = read_bounded answer.body >>= expect_status expected answer.status

abbrev pub or_malformed {ℓ} : {A : Type ℓ} → Option A → Result ClientError A
or_malformed none = err malformed_json
or_malformed (some a) = ok a

unfoldable pub decoded {ℓ} : {A : Type ℓ} → (Str → Option A) → Str → Result ClientError A
decoded unmarshal body = if is_empty body then err empty_response else or_malformed (unmarshal body)

abbrev pub or_invalid_export : Result DecodeError Envelope → Result ClientError ClientValue
or_invalid_export (ok e) = ok (exported e)
or_invalid_export (err e) = err invalid_export

-- What a method of the client does with the body of a success.
pub data Reading : Type 0 where
  read_redirect read_list read_export read_counts read_nothing : Reading

unfoldable pub read_value :
    ClientJson → BackupJson → (Str → Bool) → Reading → Str → Result ClientError ClientValue
unfolding decoded
read_value json backup readable read_redirect body =
    decoded json.decode_redirect body >>= λ r. ok (one_redirect r)
read_value json backup readable read_list body =
    decoded json.decode_list body >>= λ rs. ok (redirect_list rs)
read_value json backup readable read_export body =
    decoded json.decode_raw body >>= λ b. or_invalid_export (decode backup readable (some b))
read_value json backup readable read_counts body =
    decoded json.decode_counts body >>= λ (total, done). ok (import_counts total done)
read_value json backup readable read_nothing body = ok nothing

-- A request, the status of its success, and what is read then.
pub record Action : Type 0 where
  pub sent : ClientRequest
  pub expected : ℕ
  pub reading : Reading

module _ (escape : Escape) (base : Url) (token : Str) where
  abbrev pub action : Str → Url → Payload → ℕ → Reading → Action
  action method target payload expected reading = record {
    sent = record {
      method = method;
      target = target;
      authorization = codes "Bearer " ++ token;
      payload = payload;
    };
    expected = expected;
    reading = reading;
  }

  unfoldable pub create_action : Str → Str → Str → Action
  create_action slug destination expires_at =
      action (codes "POST") (collection_url base)
        (create_payload (some_if_set slug) destination (some_if_set expires_at)) 201 read_redirect

  unfoldable pub list_action : Action
  list_action = action (codes "GET") (collection_url base) no_payload 200 read_list

  unfoldable pub export_action : Action
  export_action = action (codes "GET") (export_url base) no_payload 200 read_export

  unfoldable pub get_action : Str → Action
  get_action slug =
      action (codes "GET") (redirect_url escape base slug) no_payload 200 read_redirect

  unfoldable pub update_action : Str → Str → Action
  update_action slug destination =
      action (codes "PUT") (redirect_url escape base slug) (update_payload destination) 200
        read_redirect

  unfoldable pub disable_action : Str → Action
  disable_action slug =
      action (codes "POST") (disable_url escape base slug) no_payload 200 read_redirect

  unfoldable pub expiration_action : Str → Option Str → Action
  expiration_action slug expires_at =
      action (codes "PUT") (expiration_url escape base slug) (expiration_payload expires_at) 200
        read_redirect

  unfoldable pub delete_action : Str → Action
  delete_action slug =
      action (codes "DELETE") (redirect_url escape base slug) no_payload 204 read_nothing

  unfoldable pub import_action : Envelope → Bool → Action
  import_action envelope dry_run =
      action (codes "POST") (import_url base dry_run) (import_payload envelope) 200 read_counts
