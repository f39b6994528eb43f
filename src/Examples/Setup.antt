-- ===== src/Examples/Setup.antt =====
-- Examples for config.go and routes/routes.go.
use gottem_link.Base.{
  Str, true, false, none, some, List, [], if◌then◌else◌, all, ◌≡◌, ◌⊎◌, refl, codes, eqb,
  has_prefix, trim_prefix,
}
use gottem_link.Examples.{ascii, net}
use gottem_link.Config.{
  Config, Flags, Os, parse_config, check_tokens, validate_admin_config, check_origin, with_scheme,
  from_environment,
}
use gottem_link.Config.Admin.{Agrees, admin_config, validate_admin_config-Agrees}
use gottem_link.Config.Parse.{parse_config-IsServed}
use gottem_link.Routes.{Route, admin_enabled, new_router_with_admin_stats}
use gottem_link.Routes.Guarded.{is_guarded, backup_exports_only, has_distinct_patterns, routes_safe}

abbrev secret : Str
secret = codes "0123456789abcdef0123456789abcdef"

abbrev value_of : Str → Str
value_of name =
    if eqb name (codes "GOTTEM_MANAGEMENT_TOKEN")
    then codes "manage"
    else if eqb name (codes "GOTTEM_SESSION_SECRET")
    then secret
    else if eqb name (codes "GOTTEM_ADMIN_ORIGIN")
    then codes "https://gottem.link"
    else []

abbrev flags : Flags
flags = record {
  addr = codes ":8080";
  dsn = codes "gottem.db";
  stats_proxy_url = [];
  migrate_only = false;
}

abbrev os : Os
os = record { getenv = value_of; parse_flags = λ args. some flags }

abbrev config : Config
config = record {
  addr = codes ":8080";
  dsn = codes "gottem.db";
  migrate_only = false;
  management_token = codes "manage";
  backup_token = [];
  session_secret = secret;
  admin_origin = codes "https://gottem.link";
  secure_cookies = true;
  stats_proxy_url = [];
}

parse_config-IsServed_example :
    (eqb (codes "manage") [] ≡ false)
    × (admin_enabled ascii net (codes "manage") (admin_config config) ≡ true)
unfolding parse_config check_tokens from_environment validate_admin_config check_origin with_scheme
    eqb has_prefix trim_prefix
parse_config-IsServed_example = parse_config-IsServed ascii net os [] config refl

validate_admin_config-Agrees_example :
    ((false ≡ true)
      × (validate_admin_config ascii net config ≡ (none, config))
      × (admin_enabled ascii net (codes "manage") (admin_config config) ≡ false))
    ⊎ ((false ≡ false)
        × Agrees
            (λ secure.
              admin_enabled ascii net
                (codes "manage")
                (record (admin_config config) { secure_cookies = secure }))
            config
            (validate_admin_config ascii net config))
validate_admin_config-Agrees_example = validate_admin_config-Agrees ascii net config

abbrev served : List Route
served =
    new_router_with_admin_stats ascii net (codes "manage") (codes "backup") (admin_config config)
      true

routes_safe_example :
    (has_distinct_patterns served ≡ true)
    × (all is_guarded served ≡ true)
    × (all backup_exports_only served ≡ true)
routes_safe_example =
    routes_safe ascii net (codes "manage") (codes "backup") (admin_config config) true
