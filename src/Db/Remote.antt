-- ===== src/Db/Remote.antt =====
-- db/http_stats.go: the store of usage that sends its writes to another process.
use gottem_link.Base.{
  ℕ, ◌-◌, Str, Bool, true, false, not, ◌&&◌, Option, none, some, ◌++◌, Result, ok, err,
  if◌then◌else◌, codes, eqb, equal_fold, Unicode, is_empty, length, take, drop, leb, ◌==◌,
}
use gottem_link.Base.Int.{ℤ}
use gottem_link.Base.Url.{Url, Net}

abbrev pub internal_access_path : Str
internal_access_path = codes "/.internal/accesses"

abbrev pub internal_miss_path : Str
internal_miss_path = codes "/.internal/misses"

pub record HttpAccessStore : Type 0 where
  pub url : Str
  pub token : Str

-- url.String, the time in UTC with time.RFC3339Nano, and encoding/json on the two requests.
pub record Wire : Type 0 where
  pub url_string : Url → Str
  pub format_time : ℤ → Str
  pub encode_access : ℤ → Str → Str
  pub encode_miss : Str → Str → Str

pub data StoreError : Type 0 where
  token_required not_loopback_origin has_path not_loopback_host : StoreError

unfoldable pub is_loopback_origin : Url → Bool
is_loopback_origin parsed =
    eqb parsed.scheme (codes "http")
    && (not (is_empty parsed.host)
        && (not parsed.has_user && (is_empty parsed.raw_query && is_empty parsed.fragment)))

unfoldable pub has_loopback_host : Unicode → Net → Url → Bool
has_loopback_host uni net parsed =
    if equal_fold uni parsed.hostname (codes "localhost")
    then true
    else elim (net.parse_ip parsed.hostname) [ none ↦ false | some loopback ↦ loopback ]

-- The checks of the parsed URL.
unfoldable pub new_store_at :
    Unicode → Net → Wire → Str → Option Url → Result StoreError HttpAccessStore
unfolding is_loopback_origin has_loopback_host
new_store_at uni net wire token none = err not_loopback_origin
new_store_at uni net wire token (some parsed) =
    if not (is_loopback_origin parsed)
    then err not_loopback_origin
    else if not (is_empty parsed.path) && not (eqb parsed.path (codes "/"))
    then err has_path
    else if not (has_loopback_host uni net parsed)
    then err not_loopback_host
    else ok (record {
      url = wire.url_string (record parsed { path = internal_access_path });
      token = token;
    })

unfoldable pub new_http_access_store :
    Unicode → Net → Wire → Str → Str → Result StoreError HttpAccessStore
unfolding new_store_at
new_http_access_store uni net wire proxy_url token =
    if is_empty token
    then err token_required
    else new_store_at uni net wire token (net.parse_url proxy_url)

-- A request with the method POST.
pub record Sent : Type 0 where
  pub destination : Str
  pub authorization : Str
  pub body : Str

pub data PostError : Type 0 where
  not_sent : PostError
  unexpected_status : ℕ → PostError

-- strings.TrimSuffix
unfoldable pub trim_suffix : Str → Str → Str
trim_suffix s suffix =
    if leb (length suffix) (length s) && eqb (drop (length s - length suffix) s) suffix
    then take (length s - length suffix) s
    else s

-- What the other process, and the way to it, make of a request: no response, or one with a status.
abbrev pub Exchange {ℓ} : Type ℓ → Type ℓ
Exchange S = Sent → S → Option ℕ × S

abbrev pub check_status {ℓ} : {S : Type ℓ} → Option ℕ × S → Option PostError × S
check_status (none, s) = (some not_sent, s)
check_status (some status, s) =
    if status == 204 then (none, s) else (some (unexpected_status status), s)

unfoldable pub post {ℓ} :
    {S : Type ℓ} → Exchange S → HttpAccessStore → Str → Str → S → Option PostError × S
post exchange store path body s = check_status (
    exchange
      (record {
        destination = trim_suffix store.url internal_access_path ++ path;
        authorization = codes "Bearer " ++ store.token;
        body = body;
      })
      s)

module _ {ℓ} {S : Type ℓ} (wire : Wire) (exchange : Exchange S) (store : HttpAccessStore) where
  unfoldable pub remote_redirect_access : ℤ → ℤ → S → Option PostError × S
  remote_redirect_access id accessed_at s =
      post exchange store internal_access_path
        (wire.encode_access id (wire.format_time accessed_at)) s

  unfoldable pub remote_slug_miss : Str → ℤ → S → Option PostError × S
  remote_slug_miss slug missed_at s =
      post exchange store internal_miss_path (wire.encode_miss slug (wire.format_time missed_at)) s
