-- ===== src/Config.antt =====
-- config.go: the configuration of the server from its flags and environment.
pub mod Admin
pub mod Parse
use gottem_link.Base.{
  ℕ, Str, Bool, true, false, not, ◌&&◌, ◌||◌, Option, none, some, List, if◌then◌else◌, Result, ok,
  err, codes, eqb, equal_fold, Unicode, is_empty, length, ltb, ◌++◌,
}
use gottem_link.Base.Url.{Url, Net}

pub record Config : Type 0 where
  pub addr : Str
  pub dsn : Str
  pub migrate_only : Bool
  pub management_token : Str
  pub backup_token : Str
  pub session_secret : Str
  pub admin_origin : Str
  pub secure_cookies : Bool
  pub stats_proxy_url : Str

-- What the flag set of package flag finds in the arguments.
pub record Flags : Type 0 where
  pub addr : Str
  pub dsn : Str
  pub stats_proxy_url : Str
  pub migrate_only : Bool

-- The packages os and flag: the environment, and the parse of the arguments, `none` for an error.
pub record Os : Type 0 where
  pub getenv : Str → Str
  pub parse_flags : List Str → Option Flags

pub data ConfigError : Type 0 where
  bad_flags tokens_equal token_required secret_short origin_required : ConfigError
  origin_not_exact origin_not_canonical default_port http_not_loopback scheme_unknown : ConfigError

unfoldable pub is_loopback_host : Unicode → Net → Str → Bool
is_loopback_host uni net host =
    if equal_fold uni host (codes "localhost")
    then true
    else elim (net.parse_ip host) [ none ↦ false | some loopback ↦ loopback ]

unfoldable pub with_scheme : Unicode → Net → Url → Config → Option ConfigError × Config
with_scheme uni net origin config =
    if eqb origin.scheme (codes "https")
    then (none, record config { secure_cookies = true })
    else if eqb origin.scheme (codes "http")
    then (if not (is_loopback_host uni net origin.hostname)
        then (some http_not_loopback, config)
        else (none, record config { secure_cookies = false }))
    else (some scheme_unknown, config)

unfoldable pub check_origin : Unicode → Net → Url → Config → Option ConfigError × Config
check_origin uni net origin config =
    if is_empty origin.host
      || (origin.has_user
          || (not (is_empty origin.path)
              || (not (is_empty origin.raw_query)
                  || (not (is_empty origin.fragment) || not (is_empty origin.opaque)))))
    then (some origin_not_exact, config)
    else if not (eqb config.admin_origin (origin.scheme ++ (codes "://" ++ origin.host)))
    then (some origin_not_canonical, config)
    else if (eqb origin.scheme (codes "https") && eqb origin.port (codes "443"))
        || (eqb origin.scheme (codes "http") && eqb origin.port (codes "80"))
    then (some default_port, config)
    else with_scheme uni net origin config

-- The configuration is changed in place, also before an error.
unfoldable pub validate_admin_config : Unicode → Net → Config → Option ConfigError × Config
validate_admin_config uni net config =
    if is_empty config.session_secret && is_empty config.admin_origin
    then (none, config)
    else if is_empty config.management_token
    then (some token_required, config)
    else if ltb (length config.session_secret) 32
    then (some secret_short, config)
    else if is_empty config.admin_origin
    then (some origin_required, config)
    else elim (net.parse_url config.admin_origin) [
      | none ↦ (some origin_not_exact, config)
      | some origin ↦ check_origin uni net origin config
    ]

-- Before the flags are parsed the configuration holds the environment's values.
unfoldable pub from_environment : Os → Flags → Config
from_environment os flags = record {
  addr = flags.addr;
  dsn = flags.dsn;
  migrate_only = flags.migrate_only;
  management_token = os.getenv (codes "GOTTEM_MANAGEMENT_TOKEN");
  backup_token = os.getenv (codes "GOTTEM_BACKUP_TOKEN");
  session_secret = os.getenv (codes "GOTTEM_SESSION_SECRET");
  admin_origin = os.getenv (codes "GOTTEM_ADMIN_ORIGIN");
  secure_cookies = false;
  stats_proxy_url = flags.stats_proxy_url;
}

abbrev pub checked : Option ConfigError × Config → Result ConfigError Config
checked (none, config) = ok config
checked (some e, config) = err e

unfoldable pub check_tokens : Unicode → Net → Config → Result ConfigError Config
check_tokens uni net config =
    if not (is_empty config.management_token) && eqb config.management_token config.backup_token
    then err tokens_equal
    else checked (validate_admin_config uni net config)

-- The configuration that accompanies an error is not used by the callers.
unfoldable pub parse_config : Unicode → Net → Os → List Str → Result ConfigError Config
parse_config uni net os args = elim (os.parse_flags args) [
  | none ↦ err bad_flags
  | some flags ↦ check_tokens uni net (from_environment os flags)
]
