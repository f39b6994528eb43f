-- ===== src/Config/Parse.antt =====
-- What a configuration that `parseConfig` accepts guarantees.
use gottem_link.Base.{
  Str, false, not, ◌&&◌, Option, none, some, List, ok, eqb, Unicode, is_empty, ◌≡◌, sym, ◌∙◌, ap,
  inl, inr, arith, Bool-cases, Option-cases, ok-injective, subst,
}
use gottem_link.Base.Url.{Net}
use gottem_link.Config.{
  Config, ConfigError, Os, validate_admin_config, from_environment, checked, check_tokens,
  parse_config,
}
use gottem_link.Config.Admin.{admin_config, validate_admin_config-Agrees}
use gottem_link.Routes.{admin_enabled}

-- The tokens differ where both are set, and the routes serve the administration page exactly where
-- something of it is configured.
abbrev IsServed : Unicode → Net → Config → Type 0
IsServed uni net c =
    ((not (is_empty c.management_token) && eqb c.management_token c.backup_token) ≡ false)
    × (admin_enabled uni net c.management_token (admin_config c)
        ≡ not (is_empty c.session_secret && is_empty c.admin_origin))

checked_ok : (r : Option ConfigError × Config) (c : Config) → checked r ≡ ok c → r ≡ (none, c)
checked_ok (none, d) c h = ap (λ x. (none, x)) (ok-injective h)
checked_ok (some e, d) c h = cc

module _ (uni : Unicode) (net : Net) where
  accepted :
      (d c c' : Config)
      → not (is_empty d.management_token) && eqb d.management_token d.backup_token ≡ false
      → check_tokens uni net d ≡ ok c
      → validate_admin_config uni net d ≡ (none, c')
      → c' ≡ c
  unfolding check_tokens
  accepted d c c' differ h e =
      ap (λ r. r.1) (sym e ∙ checked_ok _ c (rw (check_tokens, differ) at h))

  tokens-IsServed : (d c : Config) → check_tokens uni net d ≡ ok c → IsServed uni net c
  unfolding check_tokens
  tokens-IsServed d c h =
      elim (Bool-cases
        (not (is_empty d.management_token) && eqb d.management_token d.backup_token)) [
          | inl same ↦ ground (arith, h, same)
          | inr differ ↦ elim (validate_admin_config-Agrees uni net d) [
            | inl (unset, e, off) ↦
                subst (IsServed uni net) (accepted d c d differ h e)
                  (differ, off ∙ ap not (sym unset))
            | inr (set_, inl (e, f, refused)) ↦
                cc (f, checked_ok _ c (rw (check_tokens, differ) at h))
            | inr (set_, inr (secure, f, on)) ↦
                subst (IsServed uni net) (accepted d c _ differ h f)
                  (differ, on ∙ ap not (sym set_))
          ]
        ]

  -- In a configuration that is accepted the two tokens are not the same where the management token
  -- is set, and the routes serve the administration page exactly where the session's secret or the
  -- origin is configured.
  pub parse_config-IsServed :
      (os : Os) (args : List Str) (c : Config)
      → parse_config uni net os args ≡ ok c
      → ((not (is_empty c.management_token) && eqb c.management_token c.backup_token) ≡ false)
        × (admin_enabled uni net c.management_token (admin_config c)
            ≡ not (is_empty c.session_secret && is_empty c.admin_origin))
  unfolding parse_config
  parse_config-IsServed os args c h = elim (Option-cases (os.parse_flags args)) [
    | inl e ↦ ground (arith, e, h)
    | inr (flags, e) ↦ tokens-IsServed (from_environment os flags) c (rw (parse_config, e) at h)
  ]
