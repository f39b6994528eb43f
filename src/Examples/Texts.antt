-- ===== src/Examples/Texts.antt =====
-- Examples for validation/validation.go, handlers/slug.go and backup/backup.go.
use gottem_link.Base.{
  Str, Bool, not, is_empty, All, Pairs, none, ◌∷◌, false, some, [], ok, ◌≡◌, refl, codes, eqb,
  lower_byte, ◌↔◌,
}
use gottem_link.Examples.{ascii, net, docs, go_dev}
use gottem_link.Base.Int.{pos}
use gottem_link.Backup.{validate, issues_from, round_issues, sqlite_nocase}
use gottem_link.Backup.Validated.{IsSane, Distinct, validate-IsSane}
use gottem_link.Backup
use gottem_link.Validation.Slug.{validate_slug}
use gottem_link.Validation.Slug.Canonical.{slug_reference, validate_slug-eq-reference}
use gottem_link.Validation.Destination.{validate_destination}
use gottem_link.Validation.Destination.Shape.{IsDestination, validate_destination_iff}

validate_slug-eq-reference_example :
    validate_slug ascii (codes "my--docs") ≡ slug_reference ascii (codes "my--docs")
validate_slug-eq-reference_example = validate_slug-eq-reference ascii (codes "my--docs")

validate_destination_iff_example :
    (validate_destination ascii net go_dev ≡ ok go_dev)
    ↔ (IsDestination ascii net go_dev × (go_dev ≡ go_dev))
validate_destination_iff_example = validate_destination_iff ascii net go_dev go_dev

-- A time is readable if it is not empty.
abbrev readable : Str → Bool
readable t = not (is_empty t)

abbrev used_redirect : Backup.Redirect
used_redirect = record {
  slug = docs;
  url = go_dev;
  disabled = false;
  expires_at = none;
  destination_updated_at = codes "2025-01-02T03:04:05Z";
  click_count = pos 3;
  last_accessed_at = some (codes "2025-01-03T00:00:00Z");
}

validate-IsSane_example :
    All (IsSane readable) (used_redirect ∷ []) × Pairs Distinct (used_redirect ∷ [])
unfolding validate issues_from round_issues sqlite_nocase eqb lower_byte
validate-IsSane_example = validate-IsSane readable (used_redirect ∷ []) refl
