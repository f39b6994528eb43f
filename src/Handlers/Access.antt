-- ===== src/Handlers/Access.antt =====
-- handlers/access.go: the writes of usage that another process sends.
pub mod Guarded
pub mod Refines
use gottem_link.Base.{
  ℕ, zero, suc, Str, Bool, true, false, not, ◌&&◌, ◌||◌, Option, none, some, List, [], ◌∷◌, ◌++◌,
  Result, ok, err, if◌then◌else◌, codes, eqb, Unicode, is_empty, length, trim_prefix, ◌==◌,
}
use gottem_link.Base.Int.{ℤ, pos, negsuc}
use gottem_link.Base.Url.{Net}
use gottem_link.Db.Sql.{Sqlite, Env, DbError}
use gottem_link.Db.Store.{Store}
use gottem_link.Db.Redirects.{record_redirect_access}
use gottem_link.Db.Misses.{record_slug_miss}
use gottem_link.Handlers.Response.{decode_bounded}
use gottem_link.Validation.{ValidationError}
use gottem_link.Validation.Slug.{validate_slug}

abbrev pub max_access_request_bytes : ℕ
max_access_request_bytes = 1024

-- What the handlers read of a request.
pub record InternalRequest : Type 0 where
  pub method : Str
  pub remote_addr : Str
  pub authorization : Str
  pub body : Str

-- net.SplitHostPort, the decoders of encoding/json, and time.Parse and Format with time.RFC3339Nano,
-- the latter in UTC.
pub record InternalCodec : Type 0 where
  pub split_host_port : Str → Option (Str × Str)
  pub decode_access : Str → Option ((ℤ × Str) × Str)
  pub decode_miss : Str → Option ((Str × Str) × Str)
  pub at_end : Str → Bool
  pub parse_time : Str → Option ℤ
  pub format_time : ℤ → Str

-- The statuses of the replies; the body of an error is the text of `http.Error`.
pub data InternalReply : Type 0 where
  no_content not_found : InternalReply
  bad_request failed : Str → InternalReply

abbrev pub status : InternalReply → ℕ
status no_content = 204
status not_found = 404
status (bad_request text) = 400
status (failed text) = 500

abbrev loopback_host : Net → Option (Str × Str) → Bool
loopback_host net none = false
loopback_host net (some (host, port)) = elim (net.parse_ip host) [
  | none ↦ false
  | some loopback ↦ loopback
]

unfoldable pub address_is_loopback : Net → InternalCodec → Str → Bool
address_is_loopback net codec addr = loopback_host net (codec.split_host_port addr)

abbrev pub request_is_loopback : Net → InternalCodec → InternalRequest → Bool
request_is_loopback net codec r = address_is_loopback net codec r.remote_addr

unfoldable pub access_token_matches : InternalRequest → Str → Bool
access_token_matches r token =
    let provided = trim_prefix r.authorization (codes "Bearer ") in
    length provided == length token && eqb provided token

-- `token == "" || r.Method != http.MethodPost || !requestIsLoopback(r) || !accessTokenMatches(r, token)`
unfoldable pub turned_away : Net → InternalCodec → Str → InternalRequest → Bool
unfolding address_is_loopback access_token_matches
turned_away net codec token r =
    is_empty token
    || (not (eqb r.method (codes "POST"))
        || (not (request_is_loopback net codec r) || not (access_token_matches r token)))

abbrev pub is_positive : ℤ → Bool
is_positive (pos zero) = false
is_positive (pos (suc n)) = true
is_positive (negsuc n) = false

abbrev absolute : ℤ → ℕ
absolute (pos n) = n
absolute (negsuc n) = suc n

abbrev pub after_write : Str → Option DbError × Store → InternalReply × Store
after_write text (none, s) = (no_content, s)
after_write text (some e, s) = (failed text, s)

abbrev write_access : InternalCodec → Sqlite → Env → ℤ → Option ℤ → Store → InternalReply × Store
write_access codec q env id none s = (bad_request (codes "invalid access"), s)
write_access codec q env id (some accessed_at) s =
    after_write (codes "record access")
      (record_redirect_access q env (absolute id) (codec.format_time accessed_at) s)

-- The body after its decoding.
unfoldable pub access_decoded :
    InternalCodec → Sqlite → Env → Option (ℤ × Str) → Store → InternalReply × Store
access_decoded codec q env none s = (bad_request (codes "invalid access"), s)
access_decoded codec q env (some (id, accessed_at)) s =
    if is_positive id
    then write_access codec q env id (codec.parse_time accessed_at) s
    else (bad_request (codes "invalid access"), s)

unfoldable pub internal_access_handler :
    Net → InternalCodec → Sqlite → Env → Str → InternalRequest → Store → InternalReply × Store
unfolding turned_away access_decoded
internal_access_handler net codec q env token r s =
    if turned_away net codec token r
    then (not_found, s)
    else access_decoded codec q env
        (decode_bounded max_access_request_bytes codec.at_end codec.decode_access r.body) s

abbrev write_miss :
    Unicode → InternalCodec → Sqlite → Env → Str → Option ℤ → Store → InternalReply × Store
write_miss uni codec q env slug none s = (bad_request (codes "invalid miss"), s)
write_miss uni codec q env slug (some missed_at) s =
    after_write (codes "record miss")
      (record_slug_miss uni q env slug (codec.format_time missed_at) s)

abbrev is_canonical : Str → Result ValidationError Str → Bool
is_canonical slug (ok canonical) = eqb canonical slug
is_canonical slug (err e) = false

unfoldable pub miss_decoded :
    Unicode → InternalCodec → Sqlite → Env → Option (Str × Str) → Store → InternalReply × Store
miss_decoded uni codec q env none s = (bad_request (codes "invalid miss"), s)
miss_decoded uni codec q env (some (slug, missed_at)) s =
    if is_canonical slug (validate_slug uni slug)
    then write_miss uni codec q env slug (codec.parse_time missed_at) s
    else (bad_request (codes "invalid miss"), s)

unfoldable pub internal_miss_handler :
    Unicode
    → Net
    → InternalCodec
    → Sqlite
    → Env
    → Str
    → InternalRequest
    → Store
    → InternalReply × Store
unfolding turned_away miss_decoded
internal_miss_handler uni net codec q env token r s =
    if turned_away net codec token r
    then (not_found, s)
    else miss_decoded uni codec q env
        (decode_bounded max_access_request_bytes codec.at_end codec.decode_miss r.body) s
