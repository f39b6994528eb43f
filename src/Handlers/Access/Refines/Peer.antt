-- ===== src/Handlers/Access/Refines/Peer.antt =====
-- The process that answers the store of db/http_stats.go, and what the codings of both sides share.
use gottem_link.Base.{
  ℕ, ◌≤◌, Str, true, Option, none, some, ◌++◌, codes, if◌then◌else◌, eqb, Unicode, length, ok, ◌≡◌,
}
use gottem_link.Base.Decimal.{max_int64}
use gottem_link.Base.Int.{ℤ, pos}
use gottem_link.Base.Url.{Net}
use gottem_link.Db.Sql.{Sqlite, Env, DbError}
use gottem_link.Db.Store.{Store}
use gottem_link.Db.Remote.{
  Wire, Sent, PostError, unexpected_status, internal_access_path, internal_miss_path,
}
use gottem_link.Handlers.Access.{
  InternalRequest, InternalCodec, InternalReply, status, max_access_request_bytes,
  internal_access_handler, internal_miss_handler,
}
use gottem_link.Validation.Slug.{validate_slug}

-- What is encoded is decoded, with the end of the line left, and fits the limit of the handlers;
-- both sides write a time alike.
pub record WireLaws (wire : Wire) (codec : InternalCodec) : Type 0 where
  pub line_end : Str
  pub line_end_last : codec.at_end line_end ≡ true
  pub same_time : (t : ℤ) → wire.format_time t ≡ codec.format_time t
  pub access_back :
      (id t : ℤ)
      → let at = codec.format_time t in
        codec.decode_access (wire.encode_access id at) ≡ some ((id, at), line_end)
  pub access_small :
      (n : ℕ) (t : ℤ)
      → n ≤ max_int64
      → length (wire.encode_access (pos n) (codec.format_time t)) ≤ max_access_request_bytes
  pub miss_back :
      (uni : Unicode) (slug : Str) (t : ℤ)
      → validate_slug uni slug ≡ ok slug
      → let at = codec.format_time t in
        codec.decode_miss (wire.encode_miss slug at) ≡ some ((slug, at), line_end)
  pub miss_small :
      (uni : Unicode) (slug : Str) (t : ℤ)
      → validate_slug uni slug ≡ ok slug
      → length (wire.encode_miss slug (codec.format_time t)) ≤ max_access_request_bytes

abbrev pub reply_status : InternalReply × Store → Option ℕ × Store
reply_status (reply, s) = (some (status reply), s)

abbrev pub request_from : Str → Sent → InternalRequest
request_from remote_addr sent = record {
  method = codes "POST";
  remote_addr = remote_addr;
  authorization = sent.authorization;
  body = sent.body;
}

-- The other process behind its address, with its two internal routes.
abbrev pub other_process :
    Unicode → Net → InternalCodec → Sqlite → Env → Str → Str → Str → Sent → Store → Option ℕ × Store
other_process uni net codec q env address token remote_addr sent s =
    if eqb sent.destination (address ++ internal_access_path)
    then reply_status
        (internal_access_handler net codec q env token (request_from remote_addr sent) s)
    else if eqb sent.destination (address ++ internal_miss_path)
    then reply_status
        (internal_miss_handler uni net codec q env token (request_from remote_addr sent) s)
    else (some 404, s)

-- How an error of the local store comes back.
abbrev pub as_remote : Option DbError × Store → Option PostError × Store
as_remote (none, s) = (none, s)
as_remote (some e, s) = (some (unexpected_status 500), s)
