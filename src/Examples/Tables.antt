-- ===== src/Examples/Tables.antt =====
-- Examples for db/.
use gottem_link.Base.{
  Str, lower_byte, to_lower, true, false, none, some, List, [], ◌∷◌, ok, err, codes, eqb, ◌≡◌, ◌⊎◌,
  refl, arith, All, find, keep,
}
use gottem_link.Base.Int.{pos}
use gottem_link.Examples.{
  ascii, sqlite, sqlite_laws, calm, docs, shouted, go_dev, docs_row, no_rows_yet, with_docs,
}
use gottem_link.Db.Sql.{no_rows, slug_conflicts, redirect_not_found}
use gottem_link.Db.Store.{Redirect, ImportRedirect, SlugMiss, Store, has_slug, is_miss_of, taken}
use gottem_link.Db.Invariant.{IsValid}
use gottem_link.Db.Redirects.{
  create_redirect_with_expiration, get_redirect, update_redirect, disable_redirect,
  update_returning, delete_redirect, record_redirect_access, resolve_slug, set_url, set_disabled,
}
use gottem_link.Db.Redirects.Changed.{HasDestination, IsAccessed}
use gottem_link.Db.Redirects.Get.{Fresh, Shows, get-create, get-update, get-delete, get-access}
use gottem_link.Db.Redirects.Resolve.{resolve-disable}
use gottem_link.Db.Misses.{prune_misses, doomed, record_slug_miss}
use gottem_link.Db.Misses.Prune.{NotOlder, prune_misses-NotOlder}
use gottem_link.Db.Misses.Valid.{IsMissed, find-record_slug_miss}
use gottem_link.Db.Import.{sqlite_nocase_name, import_redirects, redirect_import_conflicts}
use gottem_link.Db.Import.Atomic.{import_all_or_none}
use gottem_link.Db.Reach.{Reach, new, next, create, disable, Reach-IsValid}

abbrev disabled_row : Redirect
disabled_row = set_disabled calm (some calm.now) docs_row

abbrev with_disabled : Store
with_disabled = record with_docs { redirects = disabled_row ∷ [] }

pub Reach-docs : Reach ascii sqlite with_docs
unfolding create_redirect_with_expiration eqb lower_byte
Reach-docs = next {t = with_docs} new (create calm docs go_dev none)

pub with_docs-IsValid : IsValid sqlite with_docs
with_docs-IsValid = Reach-IsValid ascii sqlite sqlite_laws Reach-docs

Reach-IsValid_example : IsValid sqlite with_disabled
unfolding disable_redirect update_returning eqb lower_byte
Reach-IsValid_example =
    Reach-IsValid ascii sqlite sqlite_laws
      (next {t = with_disabled} Reach-docs (disable calm shouted))

get-create_example :
    Fresh sqlite sqlite_laws calm calm shouted docs go_dev none no_rows_yet docs_row with_docs
unfolding create_redirect_with_expiration eqb lower_byte
get-create_example =
    get-create sqlite sqlite_laws calm calm shouted docs go_dev none no_rows_yet with_docs docs_row
      refl

get-update_example :
    Shows sqlite calm docs shouted
      (set_url calm (codes "https://go.dev/doc") docs_row)
      with_docs
      (record with_docs { redirects = set_url calm (codes "https://go.dev/doc") docs_row ∷ [] })
    × ((old : Redirect) × (find (has_slug sqlite shouted) with_docs.redirects ≡ some old)
        × HasDestination
            (codes "https://go.dev/doc")
            calm.now
            old
            (set_url calm (codes "https://go.dev/doc") docs_row))
unfolding update_redirect update_returning eqb lower_byte
get-update_example =
    get-update sqlite sqlite_laws calm calm docs shouted (codes "https://go.dev/doc") with_docs
      (record with_docs { redirects = set_url calm (codes "https://go.dev/doc") docs_row ∷ [] })
      (set_url calm (codes "https://go.dev/doc") docs_row) refl

get-delete_example :
    (get_redirect sqlite calm docs (record no_rows_yet { sequence = 1 }) ≡ err redirect_not_found)
    × (with_docs.sequence ≡ with_docs.sequence)
    × (◌≡◌ {A = List SlugMiss} [] [])
    × (taken sqlite shouted with_docs.redirects ≡ true)
unfolding delete_redirect eqb lower_byte
get-delete_example =
    get-delete sqlite sqlite_laws calm calm docs shouted with_docs
      (record no_rows_yet { sequence = 1 }) refl

get-access_example :
    ((record_redirect_access sqlite calm 1 (codes "2025-01-03T00:00:00Z") with_docs).0 ≡ none)
    × ((row : Redirect) × IsAccessed sqlite (codes "2025-01-03T00:00:00Z") docs_row row
        × Shows sqlite calm docs docs row with_docs
            (record_redirect_access sqlite calm 1 (codes "2025-01-03T00:00:00Z") with_docs).1)
unfolding eqb lower_byte
get-access_example =
    get-access sqlite sqlite_laws calm calm docs docs (codes "2025-01-03T00:00:00Z") with_docs
      docs_row with_docs-IsValid (λ c. refl) refl

resolve-disable_example : resolve_slug sqlite calm shouted with_disabled ≡ err no_rows
unfolding disable_redirect update_returning eqb lower_byte
resolve-disable_example =
    resolve-disable sqlite sqlite_laws calm calm docs shouted with_docs with_disabled disabled_row
      with_docs-IsValid refl refl refl

abbrev missed_at : Str
missed_at = codes "2025-01-04T00:00:00Z"

find-record_slug_miss_example :
    ((record_slug_miss ascii sqlite calm (codes "nope") missed_at with_docs).1.redirects
      ≡ with_docs.redirects)
    × (((taken sqlite (codes "nope") with_docs.redirects ≡ true)
          × (find
                (is_miss_of sqlite (codes "nope"))
                (record_slug_miss ascii sqlite calm (codes "nope") missed_at with_docs).1.misses
              ≡ none))
        ⊎ ((taken sqlite (codes "nope") with_docs.redirects ≡ false)
            × ((new : SlugMiss) × IsMissed sqlite (codes "nope") missed_at none new
                × (find
                      (is_miss_of sqlite (codes "nope"))
                      (record_slug_miss ascii sqlite calm
                        (codes "nope")
                        missed_at
                        with_docs).1.misses
                    ≡ some new))))
unfolding eqb lower_byte to_lower
find-record_slug_miss_example =
    find-record_slug_miss sqlite sqlite_laws ascii calm (codes "nope") missed_at with_docs
      (λ c. refl) (ground arith)

abbrev two_misses : List SlugMiss
two_misses =
    record {
      slug = codes "a";
      miss_count = 1;
      first_missed_at = missed_at;
      last_missed_at = missed_at;
    }
    ∷ record {
      slug = codes "b";
      miss_count = 2;
      first_missed_at = missed_at;
      last_missed_at = missed_at;
    }
    ∷ []

prune_misses-NotOlder_example :
    All
      (λ a. All (NotOlder sqlite a) (keep (doomed sqlite two_misses) two_misses))
      (prune_misses sqlite two_misses)
unfolding eqb lower_byte
prune_misses-NotOlder_example =
    prune_misses-NotOlder sqlite sqlite_laws two_misses ((refl, tt), (tt, tt))

abbrev imported : Str → ImportRedirect
imported slug = record {
  slug = slug;
  url = go_dev;
  disabled = false;
  expires_at = none;
  destination_updated_at = missed_at;
  click_count = pos 0;
  last_accessed_at = none;
}

import_all_or_none_example :
    (redirect_import_conflicts sqlite calm (imported (codes "b") ∷ imported shouted ∷ []) with_docs
      ≡ ok (docs ∷ []))
    × (import_redirects sqlite calm (imported (codes "b") ∷ imported shouted ∷ []) with_docs
        ≡ (some (slug_conflicts (docs ∷ [])), with_docs))
unfolding eqb lower_byte sqlite_nocase_name
import_all_or_none_example =
    import_all_or_none sqlite sqlite_laws calm (λ c. refl)
      (imported (codes "b") ∷ imported shouted ∷ []) with_docs
      (record { counted = (refl, (refl, tt)); apart = ((refl, tt), (tt, tt)); room = ground arith })
