-- ===== src/Examples/Backups.antt =====
-- Examples for the decoding of backup/backup.go and for cmd/gottem.
use gottem_link.Base.{
  zero, suc, Str, Bool, true, false, Option, none, some, List, [], ◌∷◌, map, codes, eqb, is_empty,
  ◌++◌, ◌≡◌, sym, refl, ap, arith,
}
use gottem_link.Base.Int.{ℤ, pos, negsuc}
use gottem_link.Examples.{ascii, docs}
use gottem_link.Backup.{Redirect, version, validate}
use gottem_link.Backup.Json.{has_unique_fields}
use gottem_link.Backup.Json.Walk.{
  Document, scalar, array, object, item, no_item, field, no_field, written, is_unique,
  has_unique_fields-written,
}
use gottem_link.Backup.Decode.{BackupJson, decode, or_issues, Marshal, marshal_json}
use gottem_link.Backup.Decode.RoundTrip.{
  MarshalLaws, wire_v3, current, envelope_document, decode-marshal_json,
}

abbrev twice : Document
twice = object (
    field (codes "a") scalar (
      field (codes "b") (array (item (object (field (codes "a") scalar no_field)) no_item))
        (field (codes "a") scalar no_field)))

has_unique_fields-written_example : has_unique_fields (written twice []) ≡ is_unique twice
has_unique_fields-written_example = has_unique_fields-written twice []

-- An encoding for backups of one redirect without usage whose destination is one byte.
abbrev packed : Str → Str → Bool → Option Str → Str → ℤ → Option Str → Option Str
packed slug (c ∷ []) false none [] (pos zero) none = some (c ∷ slug)
packed slug _ _ _ _ _ _ = none

abbrev redirect_of : Str → Str → Redirect
redirect_of slug url = record {
  slug = slug;
  url = url;
  disabled = false;
  expires_at = none;
  destination_updated_at = [];
  click_count = pos 0;
  last_accessed_at = none;
}

abbrev unpacked : Str → Redirect
unpacked [] = redirect_of [] []
unpacked (c ∷ slug) = redirect_of slug (c ∷ [])

abbrev pack : List Redirect → Option Str
pack (r ∷ []) =
    packed r.slug r.url r.disabled r.expires_at r.destination_updated_at r.click_count
      r.last_accessed_at
pack _ = none

abbrev quoted_text : Str → Str
quoted_text s = b'"' ∷ s

abbrev unquoted_text : Str → Option Str
unquoted_text [] = none
unquoted_text (c ∷ s) = some s

abbrev pub json : BackupJson
json = record {
  tokens = λ payload. written (envelope_document (unpacked payload ∷ [])) [];
  version_field = λ payload. some (pos version);
  decode_v1 = λ payload. none;
  decode_v2 = λ payload. none;
  decode_v3 = λ payload. some (some (wire_v3 quoted_text (unpacked payload) ∷ []), []);
  at_end = is_empty;
  unquote = unquoted_text;
}

abbrev marshal : Marshal
marshal = record {
  legacy = λ v rs. none;
  lifecycle = λ v rs. none;
  current = λ e. pack e.redirects;
}

from_some : {a b : Str} → ◌≡◌ {A = Option Str} (some a) (some b) → a ≡ b
from_some {a} {b} h = ap (λ o. elim o [ none ↦ a | some c ↦ c ]) h

module _ (slug : Str) (payload : Str) where
  one-packed :
      (url : Str) (disabled : Bool) (expires_at : Option Str) (updated : Str) (count : ℤ)
      (accessed : Option Str)
      → packed slug url disabled expires_at updated count accessed ≡ some payload
      → ◌≡◌ {A = Redirect}
          (record {
            slug = slug;
            url = url;
            disabled = disabled;
            expires_at = expires_at;
            destination_updated_at = updated;
            click_count = count;
            last_accessed_at = accessed;
          })
          (unpacked payload)
  one-packed (c ∷ []) false none [] (pos zero) none h = ap unpacked (from_some h)
  one-packed (c ∷ []) false none [] (pos zero) (some t) h = absurd (ground (arith, h))
  one-packed (c ∷ []) false none [] (pos (suc n)) accessed h = absurd (ground (arith, h))
  one-packed (c ∷ []) false none [] (negsuc n) accessed h = absurd (ground (arith, h))
  one-packed (c ∷ []) false none (d ∷ updated) count accessed h = absurd (ground (arith, h))
  one-packed (c ∷ []) false (some t) updated count accessed h = absurd (ground (arith, h))
  one-packed (c ∷ []) true expires_at updated count accessed h = absurd (ground (arith, h))
  one-packed (c ∷ d ∷ url) disabled expires_at updated count accessed h = absurd (ground (arith, h))
  one-packed [] disabled expires_at updated count accessed h = absurd (ground (arith, h))

one-pack :
    (rs : List Redirect) (payload : Str) → pack rs ≡ some payload → rs ≡ unpacked payload ∷ []
one-pack [] payload h = absurd (ground (arith, h))
one-pack (r ∷ s ∷ rs) payload h = absurd (ground (arith, h))
one-pack (r ∷ []) payload h =
    ap (λ x. x ∷ [])
      (one-packed r.slug payload r.url r.disabled r.expires_at r.destination_updated_at
        r.click_count r.last_accessed_at h)

laws : MarshalLaws ascii json marshal
unfolding eqb
laws = record {
  quote = quoted_text;
  quote_no_null = λ s. refl;
  unquote_back = λ s h. refl;
  nothing_left = refl;
  written_tokens =
      λ rs payload u h. ap (λ l. written (envelope_document l) []) (sym (one-pack rs payload h));
  written_version = λ rs payload u h. refl;
  written_wire = λ rs payload u h.
      ap (λ l. some (some (map (wire_v3 quoted_text) l), [])) (sym (one-pack rs payload h));
}

abbrev backed_up : Redirect
backed_up = redirect_of docs (codes "x")

decode-marshal_json_example :
    decode json (λ t. true) (some (codes "x" ++ docs))
    ≡ or_issues (current (backed_up ∷ [])) (validate (λ t. true) (current (backed_up ∷ [])))
unfolding marshal_json
decode-marshal_json_example =
    decode-marshal_json ascii json marshal laws (λ t. true) (backed_up ∷ []) (codes "x" ++ docs)
      (
        record {
          slug_utf8 = refl;
          url_utf8 = refl;
          expires_utf8 = refl;
          updated_utf8 = refl;
          accessed_utf8 = refl;
        },
        tt,
      )
      refl (omega arith)
