-- ===== src/Routes/Guarded.antt =====
-- What the table of routes/routes.go guarantees, whatever is configured.
use gottem_link.Base.{
  Str, Bool, true, false, not, ◌&&◌, ◌||◌, List, [], ◌∷◌, ◌++◌, eqb, Unicode, is_empty, any, all,
  ◌≡◌, refl,
}
use gottem_link.Base.Url.{Net}
use gottem_link.Routes.{
  AdminConfig, Route, Handler, Guard, unguarded, own_checks, bearer_any, bearer_inside,
  export_redirects, import_redirects, misses, collection, item, disable, enable, expiration,
  qr_code, admin_enabled, registered, internal_routes, new_router_with_admin,
  new_router_with_admin_stats,
}

-- The handlers of the API for the management; the internal handlers of other nodes' writes are not
-- among them.
abbrev pub is_management : Handler → Bool
is_management export_redirects = true
is_management import_redirects = true
is_management misses = true
is_management collection = true
is_management item = true
is_management disable = true
is_management enable = true
is_management expiration = true
is_management qr_code = true
is_management _ = false

-- Whether a guard lets only a holder of a token or of a session pass.
abbrev pub authenticates : Guard → Bool
authenticates unguarded = false
authenticates own_checks = false
authenticates bearer_inside = false
authenticates _ = true

abbrev pub is_guarded : Route → Bool
is_guarded r = not (is_management r.handler) || authenticates r.guard

-- Only the export accepts the backup token.
abbrev pub is_export : Handler → Bool
is_export export_redirects = true
is_export _ = false

abbrev pub accepts_backup : Guard → Bool
accepts_backup bearer_any = true
accepts_backup _ = false

abbrev pub backup_exports_only : Route → Bool
backup_exports_only r = not (accepts_backup r.guard) || is_export r.handler

-- No pattern stands twice.
abbrev pub has_distinct_patterns : List Route → Bool
has_distinct_patterns [] = true
has_distinct_patterns (r ∷ rs) =
    not (any (λ x. eqb x.pattern r.pattern) rs) && has_distinct_patterns rs

abbrev Safe : List Route → Type 0
Safe rs =
    (has_distinct_patterns rs ≡ true)
    × (all is_guarded rs ≡ true)
    × (all backup_exports_only rs ≡ true)

registered-Safe :
    (enabled management backup store : Bool)
    → Safe (registered enabled management backup ++ internal_routes (management && store))
unfolding eqb
registered-Safe true true true true = (refl, refl, refl)
registered-Safe true true true false = (refl, refl, refl)
registered-Safe true true false true = (refl, refl, refl)
registered-Safe true true false false = (refl, refl, refl)
registered-Safe true false true store = (refl, refl, refl)
registered-Safe true false false store = (refl, refl, refl)
registered-Safe false true true true = (refl, refl, refl)
registered-Safe false true true false = (refl, refl, refl)
registered-Safe false true false true = (refl, refl, refl)
registered-Safe false true false false = (refl, refl, refl)
registered-Safe false false true store = (refl, refl, refl)
registered-Safe false false false store = (refl, refl, refl)

-- With every configuration no pattern is registered twice, each handler of the management stands
-- behind a token or a session, and only the export accepts the backup token.
pub routes_safe :
    (uni : Unicode) (net : Net) (management_token backup_token : Str) (admin : AdminConfig)
    (has_access_store : Bool)
    → let rs =
        new_router_with_admin_stats uni net management_token backup_token admin has_access_store in
      (has_distinct_patterns rs ≡ true)
      × (all is_guarded rs ≡ true)
      × (all backup_exports_only rs ≡ true)
unfolding new_router_with_admin new_router_with_admin_stats
routes_safe uni net management_token backup_token admin has_access_store =
    registered-Safe (admin_enabled uni net management_token admin) (not (is_empty management_token))
      (not (is_empty backup_token)) has_access_store

-- Without a management token no handler of the management is registered but the export, and that
-- only where a backup token is set.
pub unmanaged :
    (uni : Unicode) (net : Net) (backup_token : Str) (admin : AdminConfig) (has_access_store : Bool)
    → let rs = new_router_with_admin_stats uni net [] backup_token admin has_access_store in
      (all (λ r. not (is_management r.handler) || is_export r.handler) rs ≡ true)
      × (any (λ r. is_export r.handler) rs ≡ not (is_empty backup_token))
unfolding new_router_with_admin new_router_with_admin_stats admin_enabled
unmanaged uni net [] admin has_access_store = (refl, refl)
unmanaged uni net (c ∷ s) admin has_access_store = (refl, refl)
