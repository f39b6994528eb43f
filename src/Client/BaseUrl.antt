-- ===== src/Client/BaseUrl.antt =====
-- `parseBaseURL` of cmd/gottem/run.go.
pub mod Origin
use gottem_link.Base.{
  ℕ, Str, Bool, true, false, not, ◌&&◌, ◌||◌, Option, none, some, List, [], ◌∷◌, Result, ok, err,
  if◌then◌else◌, codes, eqb, equal_fold, Unicode, is_empty, any, leb, ◌==◌,
}
use gottem_link.Base.Decimal.{digits}
use gottem_link.Base.Url.{Url, Net}

pub data BaseUrlError : Type 0 where
  empty_url not_an_origin wrong_scheme more_than_an_origin wrong_port with_path : BaseUrlError

-- strconv.ParseUint(port, 10, 16) without an error.
unfoldable pub is_port : Str → Bool
is_port port = elim (digits port) [ none ↦ false | some n ↦ leb n 65535 ]

unfoldable pub has_web_scheme : Unicode → Url → Bool
has_web_scheme uni parsed =
    equal_fold uni parsed.scheme (codes "http") || equal_fold uni parsed.scheme (codes "https")

-- Something besides a host and its port; `base_text` is the text that was parsed.
unfoldable pub exceeds_origin : Str → Url → Bool
exceeds_origin base_text parsed =
    is_empty parsed.hostname
    || (not (is_empty parsed.opaque)
        || (parsed.has_user
            || (not (is_empty parsed.raw_query)
                || (parsed.force_query || any (λ c. c == b'#') base_text))))

unfoldable pub parsed_base : Unicode → Str → Option Url → Result BaseUrlError Url
parsed_base uni base_text none = err not_an_origin
parsed_base uni base_text (some parsed) =
    if not (has_web_scheme uni parsed)
    then err wrong_scheme
    else if exceeds_origin base_text parsed
    then err more_than_an_origin
    else if not (is_empty parsed.port) && not (is_port parsed.port)
    then err wrong_port
    else if not (is_empty parsed.escaped_path) && not (eqb parsed.escaped_path (codes "/"))
    then err with_path
    else ok (record parsed { path = []; escaped_path = [] })

unfoldable pub parse_base_url : Unicode → Net → Str → Result BaseUrlError Url
unfolding parsed_base
parse_base_url uni net base_text =
    if is_empty base_text
    then err empty_url
    else parsed_base uni base_text (net.parse_url base_text)
