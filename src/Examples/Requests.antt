-- ===== src/Examples/Requests.antt =====
-- Examples for handlers/.
use gottem_link.Base.{
  ℕ, Str, Option, true, false, none, some, [], ◌∷◌, Result, ok, ◌≡◌, refl, arith, codes, eqb,
  lower_byte, to_lower, has_prefix, trim_prefix, equal_fold, split, cut,
}
use gottem_link.Base.Int.{pos}
use gottem_link.Backup
use gottem_link.Db.Import.{sqlite_nocase_name}
use gottem_link.Db.Store.{ImportRedirect}
use gottem_link.Handlers.Transfer.{
  import_decoded, import_conflicts, converted, import_redirect, portable_optional_timestamp,
  portable_destination_time,
}
use gottem_link.Handlers.Transfer.DryRun.{dry_run_foretells}
use gottem_link.Base.{List, length, ◌++◌, ◌+◌, ◌≤◌}
use gottem_link.Handlers.Transfer.{portable_timestamp}
use gottem_link.Backup.Decode.{max_bytes}
use gottem_link.Examples.Backups.{json}
use gottem_link.Handlers.Transfer.{import_handler}
use gottem_link.Handlers.Transfer.Imports.{Imports, import_handler-Imports}
use gottem_link.Handlers.Export.{export_redirect, export_redirects, export_handler}
use gottem_link.Handlers.Export.Complete.{CarriesAll, export_handler-CarriesAll}
use gottem_link.Db.Redirects.{list_redirects}
use gottem_link.Examples.{
  ascii, net, sqlite, sqlite_laws, calm, docs, shouted, go_dev, no_rows_yet, with_docs,
}
use gottem_link.Examples.Tables.{with_docs-IsValid}
use gottem_link.Db.Store.{ImportRedirect, Redirect}
use gottem_link.Db.Redirects.{create_redirect_with_expiration, is_active}
use gottem_link.Db.Redirects.Get.{Shows}
use gottem_link.Validation.Slug.{validate_slug}
use gottem_link.Validation.Destination.{
  validate_destination, refused_url, unreadable, contains_unsafe_character, valid_authority,
  valid_hostname, explicit_port, valid_label, is_dotted_numeric, last_index_byte,
}
use gottem_link.Handlers.Slug.{forty_bits, generate_slug, GenerateError, Random}
use gottem_link.Handlers.Response.{
  Codec, CreateRedirectRequest, post, one_redirect, decode_management_json, validate_expiration,
}
use gottem_link.Handlers.Management.{
  create_custom_redirect, create_requested, post_redirect, collection_handler,
  create_generated_redirect,
}
use gottem_link.Handlers.Management.Created.{collection_handler-created}
use gottem_link.Handlers.Management.Attempts.{generated_decides}
use gottem_link.Handlers.Management.Atomic.{on_collection, serve, errors_change_nothing}
use gottem_link.Handlers.Redirect.{accesses_and_misses, redirect_handler, found, track}
use gottem_link.Handlers.Redirect.Visit.{visit_decides}

-- Every body asks for the slug DOCS.
abbrev codec : Codec
codec = record {
  decode_create =
      λ body. some (record { slug = some shouted; url = go_dev; expires_at = none }, []);
  decode_update = λ body. none;
  decode_expiration = λ body. none;
  at_end = λ rest. true;
  decode_string = λ body. none;
  parse_time = λ body. none;
  parse_sql_time = λ body. some (pos 0);
  format_time = λ t. [];
  path_escape = λ s. s;
}

abbrev bytes : Random
bytes = record { b0 = 255; b1 = 0; b2 = 17; b3 = 34; b4 = 128 }

abbrev generate : ℕ → Result GenerateError Str
generate i = generate_slug (some bytes)

collection_handler-created_example :
    (request : CreateRedirectRequest) × (row : Redirect) × (decode_management_json codec
        codec.decode_create
        (codes "{}")
      ≡ some request)
    × ((collection_handler ascii net codec sqlite generate
          (λ i. calm)
          post
          (codes "{}")
          no_rows_yet).0.body
        ≡ one_redirect row)
    × (validate_slug ascii row.slug ≡ ok row.slug)
    × (validate_destination ascii net request.url ≡ ok row.url)
    × (validate_expiration codec request.expires_at ≡ some row.expires_at)
    × (row.disabled_at ≡ none)
    × Shows sqlite calm docs row.slug row no_rows_yet
        (collection_handler ascii net codec sqlite generate
          (λ i. calm)
          post
          (codes "{}")
          no_rows_yet).1
unfolding decode_management_json collection_handler post_redirect create_requested
    create_custom_redirect create_redirect_with_expiration validate_slug validate_destination
    validate_expiration refused_url unreadable contains_unsafe_character valid_authority
    valid_hostname explicit_port valid_label is_dotted_numeric last_index_byte equal_fold split cut
    eqb lower_byte has_prefix trim_prefix to_lower
collection_handler-created_example =
    collection_handler-created ascii net codec sqlite sqlite_laws calm docs generate (λ i. calm)
      (codes "{}") no_rows_yet refl

conflict_status :
    (serve ascii net codec sqlite generate
      (λ i. calm)
      on_collection
      post
      (codes "{}")
      with_docs).0.status
    ≡ 409
unfolding decode_management_json collection_handler post_redirect create_requested
    create_custom_redirect create_redirect_with_expiration validate_slug validate_destination
    validate_expiration refused_url unreadable contains_unsafe_character valid_authority
    valid_hostname explicit_port valid_label is_dotted_numeric last_index_byte equal_fold split cut
    eqb lower_byte has_prefix trim_prefix to_lower
conflict_status = refl

errors_change_nothing_example :
    (serve ascii net codec sqlite generate (λ i. calm) on_collection post (codes "{}") with_docs).1
    ≡ with_docs
errors_change_nothing_example =
    errors_change_nothing ascii net codec sqlite generate (λ i. calm) on_collection post
      (codes "{}") with_docs refl (ground (arith, conflict_status))

generated_decides_example :
    (create_generated_redirect ascii net codec sqlite generate
      (λ i. calm)
      go_dev
      none
      with_docs).0.status
    ≡ 201
unfolding generate_slug forty_bits eqb lower_byte
generated_decides_example =
    generated_decides ascii net codec sqlite (λ i. bytes) (λ i. codes "74abciu") (λ i. calm) go_dev
      none with_docs (λ i. refl) (λ i c. refl) (ground arith)

visit_decides_example :
    redirect_handler ascii sqlite accesses_and_misses
      (pos 5)
      false
      shouted
      calm
      with_docs
      calm
      with_docs
    ≡ (found go_dev, some (track 1 (pos 5)))
unfolding validate_slug eqb lower_byte has_prefix to_lower is_active
visit_decides_example =
    visit_decides ascii sqlite sqlite_laws accesses_and_misses (pos 5) false calm calm shouted docs
      with_docs with_docs-IsValid refl refl refl

abbrev envelope : Backup.Envelope
envelope = record {
  version = 1;
  redirects =
      record {
        slug = shouted;
        url = go_dev;
        disabled = false;
        expires_at = none;
        destination_updated_at = [];
        click_count = pos 0;
        last_accessed_at = none;
      }
      ∷ [];
}

abbrev imported : ImportRedirect
imported = record {
  slug = shouted;
  url = go_dev;
  disabled = false;
  expires_at = none;
  destination_updated_at = [];
  click_count = pos 0;
  last_accessed_at = none;
}

dry_run_foretells_example :
    (import_decoded codec sqlite calm true envelope with_docs
      ≡ (import_conflicts (docs ∷ []), with_docs))
    × (import_decoded codec sqlite calm false envelope with_docs
        ≡ (import_conflicts (docs ∷ []), with_docs))
unfolding converted import_redirect portable_optional_timestamp portable_destination_time eqb
    lower_byte sqlite_nocase_name
dry_run_foretells_example =
    dry_run_foretells codec sqlite sqlite_laws calm (λ c. refl) envelope (imported ∷ []) with_docs
      refl (record { counted = (refl, tt); apart = (tt, tt); room = ground arith })

-- Any text will do as the form of an envelope.
abbrev marshal : Backup.Envelope → Option Str
marshal e = some (codes "{}")

export_handler-CarriesAll_example :
    (rows : List Redirect) × (redirects : List Backup.Redirect) × (payload : Str) × (list_redirects
        sqlite calm with_docs
      ≡ ok rows)
    × CarriesAll rows redirects
    × (marshal (record { version = Backup.version; redirects = redirects }) ≡ some payload)
    × (codes "{}\n" ≡ payload ++ (10 ∷ []))
    × (length payload + 1 ≤ max_bytes)
unfolding export_handler export_redirects export_redirect portable_timestamp
    portable_optional_timestamp list_redirects
export_handler-CarriesAll_example =
    export_handler-CarriesAll ascii codec marshal sqlite calm with_docs (codes "{}\n") refl

import_handler-Imports_example :
    Imports codec json sqlite calm post none
      (some (codes "x" ++ docs))
      no_rows_yet
      (import_handler codec json sqlite calm post none (some (codes "x" ++ docs)) no_rows_yet)
import_handler-Imports_example =
    import_handler-Imports codec json sqlite calm none (some (codes "x" ++ docs)) no_rows_yet post
