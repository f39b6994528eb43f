-- ===== src/Handlers/Access/Refines.antt =====
-- The store of db/http_stats.go, whose requests the internal handlers answer, does what the local
-- store does.
pub mod Peer
use gottem_link.Base.{
  ℕ, zero, suc, ◌≤◌, ◌<◌, ◌+◌, ◌-◌, Str, Bool, true, false, not, ◌&&◌, ◌||◌, Option, none, some, [],
  ◌∷◌, ◌++◌, codes, if◌then◌else◌, eqb, eqb_iff, eqb_refl, Unicode, is_empty, length, length-append,
  drop, take, leb, has_prefix, trim_prefix, ok, ◌==◌, ==_iff, ◌≡◌, ◌⊎◌, inl, inr, refl, sym, ap,
  ◌∙◌, arith, Bool-cases, length-eqb,
}
use gottem_link.Base.Decimal.{max_int64}
use gottem_link.Base.Int.{ℤ, pos}
use gottem_link.Base.Url.{Net}
use gottem_link.Db.Sql.{Sqlite, Env, DbError}
use gottem_link.Db.Store.{Store}
use gottem_link.Db.Redirects.{record_redirect_access}
use gottem_link.Db.Misses.{record_slug_miss}
use gottem_link.Db.Remote.{
  HttpAccessStore, Wire, Sent, PostError, unexpected_status, internal_access_path,
  internal_miss_path, trim_suffix, check_status, post, remote_redirect_access, remote_slug_miss,
}
use gottem_link.Handlers.Access.{
  InternalRequest, InternalCodec, InternalReply, status, after_write, max_access_request_bytes,
  request_is_loopback, access_token_matches, address_is_loopback, turned_away, access_decoded,
  miss_decoded, internal_access_handler, internal_miss_handler,
}
use gottem_link.Base.Splits.{drop_front, take_front, take_all, eqb-append}
use gottem_link.Handlers.Access.Refines.Peer.{
  WireLaws, reply_status, request_from, other_process, as_remote,
}
use gottem_link.Handlers.Response.{decode_bounded}
use gottem_link.Validation.Slug.{validate_slug}

front_length : (s t : Str) → length (s ++ t) - length t ≡ length s
front_length s t = omega (arith, length-append s t)

long_enough : (s t : Str) → leb (length t) (length (s ++ t)) ≡ true
long_enough s t = ground (arith, length-append s t)

trim_suffix-append : (s suffix : Str) → trim_suffix (s ++ suffix) suffix ≡ s
unfolding trim_suffix
trim_suffix-append s suffix =
    rw (long_enough s suffix, front_length s suffix, drop_front s suffix, eqb_refl suffix)
      (take_front s suffix)

decode_bounded-some {ℓ} :
    {A : Type ℓ} (limit : ℕ) (at_end : Str → Bool) (decode : Str → Option (A × Str))
    (body rest : Str) (a : A)
    → length body ≤ limit
    → decode body ≡ some (a, rest)
    → at_end rest ≡ true
    → decode_bounded limit at_end decode body ≡ some a
unfolding decode_bounded
decode_bounded-some limit at_end decode body rest a h d e =
    rw (decode_bounded, take_all limit body h, d, e) (ground (arith, h))

bearer_matches :
    (r : InternalRequest) (token : Str)
    → r.authorization ≡ codes "Bearer " ++ token
    → access_token_matches r token ≡ true
unfolding access_token_matches trim_prefix has_prefix
bearer_matches r token h = rw (h, eqb_refl token) (ground arith)

module _ (wire : Wire) (codec : InternalCodec) (laws : WireLaws wire codec) (uni : Unicode)
    (net : Net) (q : Sqlite) (env : Env) (address token remote_addr : Str)
    (token_set : is_empty token ≡ false) where
  abbrev store_at : HttpAccessStore
  store_at = record { url = address ++ internal_access_path; token = token }

  abbrev peer : Sent → Store → Option ℕ × Store
  peer = other_process uni net codec q env address token remote_addr

  let_in :
      (r : InternalRequest)
      → r.method ≡ codes "POST"
      → request_is_loopback net codec r ≡ true
      → r.authorization ≡ codes "Bearer " ++ token
      → turned_away net codec token r ≡ false
  unfolding turned_away eqb
  let_in r posted loopback carried =
      rw (token_set, posted, loopback, bearer_matches r token carried)

  access_written :
      (n : ℕ) (t : ℤ) (s : Store)
      → 0 < n
      → codec.parse_time (codec.format_time t) ≡ some t
      → access_decoded codec q env (some (pos n, codec.format_time t)) s
        ≡ after_write
            (codes "record access")
            (record_redirect_access q env n (codec.format_time t) s)
  unfolding access_decoded
  access_written zero t s h e = elim h [ ]
  access_written (suc n) t s h e = rw e refl

  access_answered :
      (n : ℕ) (t : ℤ) (r : InternalRequest) (s : Store)
      → turned_away net codec token r ≡ false
      → r.body ≡ wire.encode_access (pos n) (codec.format_time t)
      → 0 < n
      → n ≤ max_int64
      → codec.parse_time (codec.format_time t) ≡ some t
      → internal_access_handler net codec q env token r s
        ≡ after_write
            (codes "record access")
            (record_redirect_access q env n (codec.format_time t) s)
  unfolding internal_access_handler
  access_answered n t r s e body positive small h =
      rw
        (
          internal_access_handler,
          e,
          body,
          decode_bounded-some max_access_request_bytes codec.at_end codec.decode_access
              (wire.encode_access (pos n) (codec.format_time t)) laws.line_end
              (pos n, codec.format_time t) (laws.access_small n t small)
              (laws.access_back (pos n) t) laws.line_end_last,
        )
        (access_written n t s positive h)

  abbrev sent_to : Str → Str → Sent
  sent_to path body = record {
    destination = address ++ path;
    authorization = codes "Bearer " ++ token;
    body = body;
  }

  posted :
      (path body : Str) (s : Store)
      → post peer store_at path body s ≡ check_status (peer (sent_to path body) s)
  unfolding post
  posted path body s =
      ap (λ d. check_status (peer (record (sent_to path body) { destination = d ++ path }) s))
        (trim_suffix-append address internal_access_path)

  access_route :
      (body : Str) (s : Store)
      → peer (sent_to internal_access_path body) s
        ≡ reply_status (
            internal_access_handler net codec q env token
              (request_from remote_addr (sent_to internal_access_path body))
              s)
  access_route body s = rw (eqb_refl (address ++ internal_access_path)) refl

  miss_route :
      (body : Str) (s : Store)
      → peer (sent_to internal_miss_path body) s
        ≡ reply_status (
            internal_miss_handler uni net codec q env token
              (request_from remote_addr (sent_to internal_miss_path body))
              s)
  unfolding eqb
  miss_route body s =
      rw
        (
          eqb-append address internal_miss_path internal_access_path,
          eqb_refl (address ++ internal_miss_path),
        )
        refl

  settled :
      (text : Str) (o : Option DbError × Store)
      → check_status (reply_status (after_write text o)) ≡ as_remote o
  settled text (none, s) = refl
  settled text (some e, s) = refl

  remote_access_refines :
      (n : ℕ) (t : ℤ) (s : Store)
      → 0 < n
      → n ≤ max_int64
      → codec.parse_time (codec.format_time t) ≡ some t
      → address_is_loopback net codec remote_addr ≡ true
      → remote_redirect_access wire peer store_at (pos n) t s
        ≡ as_remote (record_redirect_access q env n (codec.format_time t) s)
  unfolding remote_redirect_access
  remote_access_refines n t s positive small h near =
      let body = wire.encode_access (pos n) (codec.format_time t) in
      let r = request_from remote_addr (sent_to internal_access_path body) in
      rw (laws.same_time t) (
        posted internal_access_path body s
        ∙ ap check_status (
            access_route body s
            ∙ ap reply_status
                (access_answered n t r s (let_in r refl near refl) refl positive small h))
        ∙ settled (codes "record access") (record_redirect_access q env n (codec.format_time t) s))

  miss_answered :
      (slug : Str) (t : ℤ) (r : InternalRequest) (s : Store)
      → turned_away net codec token r ≡ false
      → r.body ≡ wire.encode_miss slug (codec.format_time t)
      → validate_slug uni slug ≡ ok slug
      → codec.parse_time (codec.format_time t) ≡ some t
      → internal_miss_handler uni net codec q env token r s
        ≡ after_write
            (codes "record miss")
            (record_slug_miss uni q env slug (codec.format_time t) s)
  unfolding internal_miss_handler miss_decoded
  miss_answered slug t r s e body valid h =
      rw
        (
          internal_miss_handler,
          e,
          body,
          decode_bounded-some max_access_request_bytes codec.at_end codec.decode_miss
              (wire.encode_miss slug (codec.format_time t)) laws.line_end
              (slug, codec.format_time t) (laws.miss_small uni slug t valid)
              (laws.miss_back uni slug t valid) laws.line_end_last,
          valid,
          eqb_refl slug,
          h,
        )
        refl

  remote_miss_refines :
      (slug : Str) (t : ℤ) (s : Store)
      → validate_slug uni slug ≡ ok slug
      → codec.parse_time (codec.format_time t) ≡ some t
      → address_is_loopback net codec remote_addr ≡ true
      → remote_slug_miss wire peer store_at slug t s
        ≡ as_remote (record_slug_miss uni q env slug (codec.format_time t) s)
  unfolding remote_slug_miss
  remote_miss_refines slug t s valid h near =
      let body = wire.encode_miss slug (codec.format_time t) in
      let r = request_from remote_addr (sent_to internal_miss_path body) in
      rw (laws.same_time t) (
        posted internal_miss_path body s
        ∙ ap check_status (
            miss_route body s
            ∙ ap reply_status (miss_answered slug t r s (let_in r refl near refl) refl valid h))
        ∙ settled (codes "record miss") (record_slug_miss uni q env slug (codec.format_time t) s))

  -- A write that is sent to the process at the store's address, under the same token and from a
  -- loopback address, changes the store there as the local store's operation does, and is answered
  -- with an error exactly where that returns one. The id is a positive 64-bit number, validation
  -- accepts the slug as it stands, the token is set, and the time's text is read back as the time.
  pub remote_refines :
      (n : ℕ) (slug : Str) (t : ℤ) (s : Store)
      → 0 < n
      → n ≤ max_int64
      → validate_slug uni slug ≡ ok slug
      → codec.parse_time (codec.format_time t) ≡ some t
      → address_is_loopback net codec remote_addr ≡ true
      → (remote_redirect_access wire peer store_at (pos n) t s
          ≡ as_remote (record_redirect_access q env n (codec.format_time t) s))
        × (remote_slug_miss wire peer store_at slug t s
            ≡ as_remote (record_slug_miss uni q env slug (codec.format_time t) s))
  remote_refines n slug t s positive small valid h near =
      (remote_access_refines n t s positive small h near, remote_miss_refines slug t s valid h near)
