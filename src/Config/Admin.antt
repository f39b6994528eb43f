-- ===== src/Config/Admin.antt =====
-- What config.go accepts of the admin page is what routes/routes.go serves.
use gottem_link.Base.{
  Str, Bool, true, false, not, ◌&&◌, ◌||◌, Option, none, some, [], ◌∷◌, ◌++◌, if◌then◌else◌, codes,
  eqb, Unicode, is_empty, length, ltb, ◌≡◌, refl, inl, inr, ◌⊎◌, arith, Bool-cases,
}
use gottem_link.Base.Url.{Url, Net}
use gottem_link.Config.{
  Config, ConfigError, token_required, secret_short, origin_required, origin_not_exact,
  origin_not_canonical, default_port, http_not_loopback, scheme_unknown, is_loopback_host,
  with_scheme, check_origin, validate_admin_config,
}
use gottem_link.Routes.{AdminConfig, valid_scheme, valid_origin, valid_admin_config, admin_enabled}

-- What main.go hands to the router.
abbrev pub admin_config : Config → AdminConfig
admin_config config = record {
  origin = config.admin_origin;
  session_secret = config.session_secret;
  secure_cookies = config.secure_cookies;
}

abbrev with_cookies : Config → Bool → Config
with_cookies config secure = record config { secure_cookies = secure }

-- An error leaves the configuration, and the routes refuse it with either flag; else only the
-- flag is set, and the routes agree to it.
abbrev pub Agrees : (Bool → Bool) → Config → Option ConfigError × Config → Type 0
Agrees serves c r =
    ((e : ConfigError) × (r ≡ (some e, c)) × ((secure : Bool) → serves secure ≡ false))
    ⊎ ((secure : Bool) × (r ≡ (none, with_cookies c secure)) × (serves secure ≡ true))

no_text : (t host : Str) → eqb [] (t ++ (codes "://" ++ host)) ≡ false
unfolding eqb
no_text [] host = refl
no_text (c ∷ t) host = refl

empty_short : (s : Str) → is_empty s ≡ true → ltb (length s) 32 ≡ true
empty_short [] e = refl
empty_short (c ∷ s) e = cc

empty_nil : (s : Str) → is_empty s ≡ true → s ≡ []
empty_nil [] e = refl
empty_nil (c ∷ s) e = cc

abbrev inexact : Url → Bool
inexact origin =
    is_empty origin.host
    || (origin.has_user
        || (not (is_empty origin.path)
            || (not (is_empty origin.raw_query)
                || (not (is_empty origin.fragment) || not (is_empty origin.opaque)))))

abbrev has_default_port : Url → Bool
has_default_port origin =
    (eqb origin.scheme (codes "https") && eqb origin.port (codes "443"))
    || (eqb origin.scheme (codes "http") && eqb origin.port (codes "80"))

abbrev at_flag : (AdminConfig → Bool) → Config → Bool → Bool
at_flag valid c secure = valid (admin_config (with_cookies c secure))

module _ (uni : Unicode) (net : Net) where
  with_scheme-Agrees :
      (origin : Url) (c : Config)
      → Agrees (at_flag (valid_scheme uni net origin) c) c (with_scheme uni net origin c)
  unfolding with_scheme valid_scheme is_loopback_host
  with_scheme-Agrees origin c = elim (Bool-cases (eqb origin.scheme (codes "https"))) [
    | inl https ↦ inr (true, rw https refl, rw https refl)
    | inr other ↦ elim (Bool-cases (eqb origin.scheme (codes "http"))) [
      | inr neither ↦
          inl (scheme_unknown, rw (other, neither) refl, λ b. ground (arith, other, neither))
      | inl http ↦ elim (Bool-cases (is_loopback_host uni net origin.hostname)) [
        | inl local ↦
            inr (false, ground (arith, other, http, local), ground (arith, other, http, local))
        | inr remote ↦ inl (
          http_not_loopback,
          ground (arith, other, http, remote),
          λ b. ground (arith, other, http, remote),
        )
      ]
    ]
  ]

  check_origin-Agrees :
      (origin : Url) (c : Config)
      → Agrees (at_flag (valid_origin uni net origin) c) c (check_origin uni net origin c)
  unfolding check_origin valid_origin
  check_origin-Agrees origin c = elim (Bool-cases (inexact origin)) [
    | inl e ↦ inl (origin_not_exact, rw e refl, λ s. rw e refl)
    | inr e ↦
        rw e
          (elim (Bool-cases (eqb c.admin_origin (origin.scheme ++ (codes "://" ++ origin.host)))) [
            | inr f ↦ inl (origin_not_canonical, rw f refl, λ s. rw f refl)
            | inl f ↦ rw f (elim (Bool-cases (has_default_port origin)) [
              | inl g ↦ inl (default_port, rw g refl, λ s. rw g refl)
              | inr g ↦ rw g (with_scheme-Agrees origin c)
            ])
          ])
  ]

  no_origin :
      (origin : Url) (a : AdminConfig) → a.origin ≡ [] → valid_origin uni net origin a ≡ false
  unfolding valid_origin
  no_origin origin a e = elim (Bool-cases (is_empty origin.host)) [
    | inl h ↦ rw h refl
    | inr h ↦ ground (arith, h, e, no_text origin.scheme origin.host)
  ]

  parsed-Agrees :
      (u : Option Url) (c : Config)
      → Agrees
          (λ s. elim u [ none ↦ false | some origin ↦ at_flag (valid_origin uni net origin) c s ])
          c
          (elim u [
            | none ↦ (some origin_not_exact, c)
            | some origin ↦ check_origin uni net origin c
          ])
  parsed-Agrees none c = inl (origin_not_exact, refl, λ s. refl)
  parsed-Agrees (some origin) c = check_origin-Agrees origin c

  parsed_empty :
      (u : Option Url) (a : AdminConfig)
      → a.origin ≡ []
      → (elim u [ none ↦ false | some origin ↦ valid_origin uni net origin a ]) ≡ false
  parsed_empty none a e = refl
  parsed_empty (some origin) a e = no_origin origin a e

  late-Agrees :
      (c : Config)
      → Agrees (at_flag (valid_admin_config uni net) c) c (
          if ltb (length c.session_secret) 32
          then (some secret_short, c)
          else if is_empty c.admin_origin
          then (some origin_required, c)
          else elim (net.parse_url c.admin_origin) [
            | none ↦ (some origin_not_exact, c)
            | some origin ↦ check_origin uni net origin c
          ])
  unfolding valid_admin_config
  late-Agrees c = elim (Bool-cases (ltb (length c.session_secret) 32)) [
    | inl short ↦ inl (secret_short, rw short refl, λ s. rw short refl)
    | inr long ↦ elim (Bool-cases (is_empty c.admin_origin)) [
      | inl e ↦ inl (
        origin_required,
        rw (long, e) refl,
        λ s. rw long (parsed_empty _ _ (empty_nil c.admin_origin e)),
      )
      | inr e ↦ rw (long, e) (parsed-Agrees (net.parse_url c.admin_origin) c)
    ]
  ]

  no_secret :
      (c : Config)
      → is_empty c.session_secret && is_empty c.admin_origin ≡ true
      → admin_enabled uni net c.management_token (admin_config c) ≡ false
  unfolding admin_enabled valid_admin_config
  no_secret c e = ground (arith, e, empty_short c.session_secret)

  -- Both parts of the code treat the administration page of a configuration alike. Where neither
  -- the session's secret nor the origin is configured, there is no error, nothing changes and the
  -- routes do not serve it. Else an error leaves the configuration as it was and the routes would
  -- not serve the page with either flag for the cookies; without an error only that flag is set and
  -- the routes serve the page.
  pub validate_admin_config-Agrees :
      (c : Config)
      → ((is_empty c.session_secret && is_empty c.admin_origin ≡ true)
          × (validate_admin_config uni net c ≡ (none, c))
          × (admin_enabled uni net c.management_token (admin_config c) ≡ false))
        ⊎ ((is_empty c.session_secret && is_empty c.admin_origin ≡ false)
            × Agrees
                (at_flag (admin_enabled uni net c.management_token) c)
                c
                (validate_admin_config uni net c))
  unfolding validate_admin_config admin_enabled
  validate_admin_config-Agrees c =
      elim (Bool-cases (is_empty c.session_secret && is_empty c.admin_origin)) [
        | inl e ↦ inl (e, rw e refl, no_secret c e)
        | inr e ↦ inr (
          e,
          elim (Bool-cases (is_empty c.management_token)) [
            | inl t ↦ inl (token_required, rw (e, t) refl, λ s. rw t refl)
            | inr t ↦ rw (e, t) (late-Agrees c)
          ],
        )
      ]
