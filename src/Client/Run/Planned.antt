-- ===== src/Client/Run/Planned.antt =====
-- The requests that the invocations of cmd/gottem stand for, and that each command plans its own.
use gottem_link.Base.{
  Str, Bool, true, false, Option, none, some, ◌∷◌, ◌++◌, Result, ok, err, codes, eqb, is_empty, ◌≡◌,
  refl,
}
use gottem_link.Base.Url.{Url}
use gottem_link.Backup.{Envelope}
use gottem_link.Backup.Decode.{DecodeError, decode}
use gottem_link.Client.Arguments.{Command}
use gottem_link.Client.Arguments.Printed.{
  Invocation, create, list, export, import_file, get, disable, unexpire, update, expire, delete,
  meant, IsFilled,
}
use gottem_link.Client.Requests.{
  Escape, Payload, no_payload, create_payload, update_payload, expiration_payload, import_payload,
  ClientRequest, Action, some_if_set, create_action, list_action, export_action, get_action,
  update_action, disable_action, expiration_action, delete_action, import_action, collection_url,
  export_url, redirect_url, disable_url, expiration_url, import_url,
}
use gottem_link.Client.Run.{
  World, Plan, planned, refused, LocalError, open_import_file, import_refused, import_source,
  import_planned, plan_import, plan_at,
}

-- The requests of the API that the invocations stand for.
abbrev pub method_of : Invocation → Str
method_of (create slug expires_at url) = codes "POST"
method_of list = codes "GET"
method_of export = codes "GET"
method_of (import_file apply file) = codes "POST"
method_of (get slug) = codes "GET"
method_of (disable slug) = codes "POST"
method_of (unexpire slug) = codes "PUT"
method_of (update slug url) = codes "PUT"
method_of (expire slug time) = codes "PUT"
method_of (delete force slug) = codes "DELETE"

abbrev redirects : Str
redirects = codes "/api/v1/redirects"

abbrev pub path_of : Invocation → Str
path_of (create slug expires_at url) = redirects
path_of list = redirects
path_of export = codes "/api/v1/exports"
path_of (import_file apply file) = codes "/api/v1/imports"
path_of (get slug) = redirects ++ (b'/' ∷ slug)
path_of (disable slug) = redirects ++ (b'/' ∷ (slug ++ codes "/disable"))
path_of (unexpire slug) = redirects ++ (b'/' ∷ (slug ++ codes "/expiration"))
path_of (update slug url) = redirects ++ (b'/' ∷ slug)
path_of (expire slug time) = redirects ++ (b'/' ∷ (slug ++ codes "/expiration"))
path_of (delete force slug) = redirects ++ (b'/' ∷ slug)

-- The same path with the slug escaped.
abbrev pub escaped_path_of : Escape → Invocation → Str
escaped_path_of escape (get slug) = redirects ++ (b'/' ∷ escape slug)
escaped_path_of escape (disable slug) = redirects ++ (b'/' ∷ (escape slug ++ codes "/disable"))
escaped_path_of escape (unexpire slug) = redirects ++ (b'/' ∷ (escape slug ++ codes "/expiration"))
escaped_path_of escape (update slug url) = redirects ++ (b'/' ∷ escape slug)
escaped_path_of escape (expire slug time) =
    redirects ++ (b'/' ∷ (escape slug ++ codes "/expiration"))
escaped_path_of escape (delete force slug) = redirects ++ (b'/' ∷ escape slug)
escaped_path_of escape i = path_of i

-- Only an import without --apply asks for a dry run.
abbrev pub query_of : Invocation → Url → Str
query_of (import_file false file) base = codes "dry_run=true"
query_of _ base = base.raw_query

-- What is sent of an invocation: its values, and for an import the backup that the file decodes to.
pub data HasPayload (w : World) : Invocation → Payload → Type 0 where
  of_create :
      (slug expires_at : Option Str) (url : Str)
      → HasPayload w (create slug expires_at url) (create_payload slug url expires_at)
  of_update : (slug url : Str) → HasPayload w (update slug url) (update_payload url)
  of_expire : (slug time : Str) → HasPayload w (expire slug time) (expiration_payload (some time))
  of_unexpire : (slug : Str) → HasPayload w (unexpire slug) (expiration_payload none)
  of_import :
      (apply : Bool) (file : Str) (text : Option Str) (envelope : Envelope)
      → import_source w file ≡ some text
      → decode w.backup w.readable text ≡ ok envelope
      → HasPayload w (import_file apply file) (import_payload envelope)
  of_list : HasPayload w list no_payload
  of_export : HasPayload w export no_payload
  of_get : (slug : Str) → HasPayload w (get slug) no_payload
  of_disable : (slug : Str) → HasPayload w (disable slug) no_payload
  of_delete : (force : Bool) (slug : Str) → HasPayload w (delete force slug) no_payload

-- The request of an invocation, sent to the base URL with the token.
pub record IsRequestOf (w : World) (i : Invocation) (base : Url) (s : ClientRequest) : Type 0 where
  pub method : s.method ≡ method_of i
  pub target : s.target ≡ record base {
    path = path_of i;
    escaped_path = escaped_path_of w.escape i;
    raw_query = query_of i base;
  }
  pub authorized : s.authorization ≡ codes "Bearer " ++ w.token
  pub payload : HasPayload w i s.payload

-- Why nothing is sent of an import.
pub data IsUnread (w : World) : Invocation → LocalError → Type 0 where
  not_opened :
      (apply : Bool) (file : Str)
      → import_source w file ≡ none
      → IsUnread w (import_file apply file) open_import_file
  not_decoded :
      (apply : Bool) (file : Str) (text : Option Str) (e : DecodeError)
      → import_source w file ≡ some text
      → decode w.backup w.readable text ≡ err e
      → IsUnread w (import_file apply file) (import_refused e)

abbrev pub asked : Invocation → Bool → Url → Command
asked i json base = record (meant i) { json = json; base_url = some base }

pub data Planned (w : World) (i : Invocation) (base : Url) : Plan → Type 0 where
  to_send : (a : Action) → IsRequestOf w i base a.sent → Planned w i base (planned a)
  not_sent : (e : LocalError) → IsUnread w i e → Planned w i base (refused e)

abbrev asks :
    {w : World} {i : Invocation} {base : Url} (a : Action)
    → a.sent.method ≡ method_of i
    → a.sent.target ≡ record base {
      path = path_of i;
      escaped_path = escaped_path_of w.escape i;
      raw_query = query_of i base;
    }
    → a.sent.authorization ≡ codes "Bearer " ++ w.token
    → HasPayload w i a.sent.payload
    → Planned w i base (planned a)
asks a m t u p = to_send a (record { method = m; target = t; authorized = u; payload = p })

module _ (w : World) (file : Str) (base : Url) where
  decoded-Planned :
      (apply : Bool) (text : Option Str) (r : Result DecodeError Envelope)
      → import_source w file ≡ some text
      → decode w.backup w.readable text ≡ r
      → Planned w (import_file apply file) base (import_planned w base apply r)
  unfolding import_action import_url
  decoded-Planned apply text (err e) h d =
      not_sent (import_refused e) (not_decoded apply file text e h d)
  decoded-Planned true text (ok envelope) h d =
      asks _ refl refl refl (of_import true file text envelope h d)
  decoded-Planned false text (ok envelope) h d =
      asks _ refl refl refl (of_import false file text envelope h d)

  import-Planned :
      (apply : Bool) (o : Option (Option Str))
      → import_source w file ≡ o
      → Planned w (import_file apply file) base (plan_import w base apply o)
  import-Planned apply none h = not_sent open_import_file (not_opened apply file h)
  import-Planned apply (some text) h =
      decoded-Planned apply text (decode w.backup w.readable text) h refl

if_set_lem : (s : Str) → is_empty s ≡ false → some_if_set s ≡ some s
if_set_lem s h = rw h

module _ (w : World) (json : Bool) (base : Url) where
  create-Planned :
      (slug expires_at : Option Str) (url : Str)
      → IsFilled (create slug expires_at url)
      → Planned w
          (create slug expires_at url)
          base
          (plan_at w (asked (create slug expires_at url) json base) base)
  unfolding plan_at eqb create_action collection_url
  create-Planned none none url f = asks _ refl refl refl (of_create none none url)
  create-Planned (some slug) none url (s, e, u) =
      rw (if_set_lem slug s) (asks _ refl refl refl (of_create (some slug) none url))
  create-Planned none (some time) url (s, e, u) =
      rw (if_set_lem time e) (asks _ refl refl refl (of_create none (some time) url))
  create-Planned (some slug) (some time) url (s, e, u) =
      rw (if_set_lem slug s, if_set_lem time e)
        (asks _ refl refl refl (of_create (some slug) (some time) url))

  -- Each command plans the request of its invocation, or none where its file cannot be imported.
  pub plan-Planned :
      (i : Invocation) → IsFilled i → Planned w i base (plan_at w (asked i json base) base)
  unfolding plan_at eqb list_action export_action get_action update_action disable_action
      expiration_action delete_action export_url collection_url redirect_url disable_url
      expiration_url
  plan-Planned (import_file apply file) f =
      import-Planned w file base apply (import_source w file) refl
  plan-Planned (create slug expires_at url) f = create-Planned slug expires_at url f
  plan-Planned (get slug) f = asks _ refl refl refl (of_get slug)
  plan-Planned (disable slug) f = asks _ refl refl refl (of_disable slug)
  plan-Planned (unexpire slug) f = asks _ refl refl refl (of_unexpire slug)
  plan-Planned (update slug url) f = asks _ refl refl refl (of_update slug url)
  plan-Planned (expire slug time) f = asks _ refl refl refl (of_expire slug time)
  plan-Planned (delete force slug) f = asks _ refl refl refl (of_delete force slug)
  plan-Planned list f = asks _ refl refl refl of_list
  plan-Planned export f = asks _ refl refl refl of_export
