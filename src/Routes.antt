-- ===== src/Routes.antt =====
-- routes/routes.go: the routes that the server registers.
pub mod Guarded
use gottem_link.Base.{
  Str, Bool, true, false, not, ◌&&◌, ◌||◌, Option, none, some, List, [], ◌∷◌, ◌++◌, if◌then◌else◌,
  codes, eqb, equal_fold, Unicode, is_empty, length, ltb,
}
use gottem_link.Base.Url.{Url, Net}

pub record AdminConfig : Type 0 where
  pub origin : Str
  pub session_secret : Str
  pub secure_cookies : Bool

unfoldable pub valid_scheme : Unicode → Net → Url → AdminConfig → Bool
valid_scheme uni net origin admin =
    if eqb origin.scheme (codes "https")
    then admin.secure_cookies
    else if not (eqb origin.scheme (codes "http")) || admin.secure_cookies
    then false
    else if equal_fold uni origin.hostname (codes "localhost")
    then true
    else elim (net.parse_ip origin.hostname) [ none ↦ false | some loopback ↦ loopback ]

unfoldable pub valid_origin : Unicode → Net → Url → AdminConfig → Bool
valid_origin uni net origin admin =
    if is_empty origin.host
      || (origin.has_user
          || (not (is_empty origin.path)
              || (not (is_empty origin.raw_query)
                  || (not (is_empty origin.fragment) || not (is_empty origin.opaque)))))
    then false
    else if not (eqb admin.origin (origin.scheme ++ (codes "://" ++ origin.host)))
    then false
    else if (eqb origin.scheme (codes "https") && eqb origin.port (codes "443"))
        || (eqb origin.scheme (codes "http") && eqb origin.port (codes "80"))
    then false
    else valid_scheme uni net origin admin

unfoldable pub valid_admin_config : Unicode → Net → AdminConfig → Bool
valid_admin_config uni net admin =
    if ltb (length admin.session_secret) 32 then false else elim (net.parse_url admin.origin) [
      | none ↦ false
      | some origin ↦ valid_origin uni net origin admin
    ]

unfoldable pub admin_enabled : Unicode → Net → Str → AdminConfig → Bool
admin_enabled uni net management_token admin =
    not (is_empty management_token) && valid_admin_config uni net admin

-- The handlers that the routes name.
pub data Handler : Type 0 where
  health readiness not_found session qr_code admin_page_or_legacy admin_page : Handler
  admin_css admin_js admin_legacy export_redirects import_redirects misses : Handler
  collection item disable enable expiration redirect home : Handler
  internal_accesses internal_misses : Handler

-- What stands before a handler: nothing, the session's own checks, the session or the management
-- token, the management token alone, or either of the two tokens.
pub data Guard : Type 0 where
  unguarded own_checks session_or_bearer bearer bearer_any bearer_inside : Guard

pub record Route : Type 0 where
  pub pattern : Str
  pub guard : Guard
  pub handler : Handler

abbrev route : Str → Guard → Handler → Route
route pattern guard handler = record { pattern = pattern; guard = guard; handler = handler }

abbrev pub admin_routes : Bool → List Route
admin_routes true =
    route (codes "/api/v1/session") own_checks session
    ∷ route (codes "/api/v1/redirects/{slug}/qr.png") session_or_bearer qr_code
    ∷ route (codes "/admin") unguarded admin_page_or_legacy
    ∷ route (codes "/admin/{$}") unguarded admin_page
    ∷ route (codes "/admin/assets/admin.css") unguarded admin_css
    ∷ route (codes "/admin/assets/admin.js") unguarded admin_js
    ∷ []
admin_routes false = route (codes "/admin") unguarded admin_legacy ∷ []

abbrev pub management_auth : Bool → Guard
management_auth true = session_or_bearer
management_auth false = bearer

abbrev pub export_routes : Bool → List Route
export_routes true = route (codes "/api/v1/exports") bearer_any export_redirects ∷ []
export_routes false = []

abbrev pub management_routes : Guard → Bool → List Route
management_routes auth true =
    route (codes "/api/v1/imports") auth import_redirects
    ∷ route (codes "/api/v1/misses") auth misses
    ∷ route (codes "/api/v1/redirects") auth collection
    ∷ route (codes "/api/v1/redirects/{slug}") auth item
    ∷ route (codes "/api/v1/redirects/{slug}/disable") auth disable
    ∷ route (codes "/api/v1/redirects/{slug}/enable") auth enable
    ∷ route (codes "/api/v1/redirects/{slug}/expiration") auth expiration
    ∷ []
management_routes auth false = []

-- The registrations in the order of the code: whether the administration page is enabled, and
-- whether a management and a backup token are set.
abbrev pub registered : Bool → Bool → Bool → List Route
registered enabled management backup =
    (route (codes "/.well-known/healthz") unguarded health
      ∷ route (codes "/.well-known/readyz") unguarded readiness
      ∷ route (codes "/api/") unguarded not_found
      ∷ route (codes "/admin/") unguarded not_found
      ∷ [])
    ++ (admin_routes enabled
        ++ (export_routes (management || backup)
            ++ (management_routes (management_auth enabled) management
                ++ (route (codes "/{slug}") unguarded redirect
                    ∷ route (codes "/{$}") unguarded home
                    ∷ route (codes "/.well-known/home.css") unguarded home
                    ∷ []))))

unfoldable pub new_router_with_admin : Unicode → Net → Str → Str → AdminConfig → List Route
new_router_with_admin uni net management_token backup_token admin =
    registered (admin_enabled uni net management_token admin) (not (is_empty management_token))
      (not (is_empty backup_token))

abbrev pub internal_routes : Bool → List Route
internal_routes true =
    route (codes "/.internal/accesses") bearer_inside internal_accesses
    ∷ route (codes "/.internal/misses") bearer_inside internal_misses
    ∷ []
internal_routes false = []

-- With the routes for the writes that another node sends; their handlers check the token.
unfoldable pub new_router_with_admin_stats :
    Unicode → Net → Str → Str → AdminConfig → Bool → List Route
new_router_with_admin_stats uni net management_token backup_token admin has_access_store =
    new_router_with_admin uni net management_token backup_token admin
    ++ internal_routes (not (is_empty management_token) && has_access_store)

-- The constructors with defaults; a tracker and a slug generator do not change the routes.
abbrev pub no_admin : AdminConfig
no_admin = record { origin = []; session_secret = []; secure_cookies = false }

unfoldable pub new_router_with_backup_token : Unicode → Net → Str → Str → List Route
unfolding new_router_with_admin
new_router_with_backup_token uni net management_token backup_token =
    new_router_with_admin uni net management_token backup_token no_admin

unfoldable pub new_router : Unicode → Net → Str → List Route
unfolding new_router_with_backup_token
new_router uni net management_token = new_router_with_backup_token uni net management_token []

unfoldable pub new_router_with_stats : Unicode → Net → Str → List Route
unfolding new_router_with_admin
new_router_with_stats uni net management_token =
    new_router_with_admin uni net management_token [] no_admin
