-- ===== src/Backup/Decode/RoundTrip.antt =====
-- What MarshalJSON writes of a backup is what Decode reads.
use gottem_link.Base.{
  ℕ, Str, Bool, true, false, ◌≤◌, Option, none, some, is_some, List, [], ◌∷◌, map, All, codes, eqb,
  length, ltb, ◌≡◌, refl, arith, Unicode,
}
use gottem_link.Base.Int.{pos}
use gottem_link.Backup.{Redirect, Envelope, validate, version}
use gottem_link.Backup.Json.Walk.{
  Document, scalar, text, array, object, Documents, no_item, item, no_field, field, written,
  is_unique, unique_items, no_repeats, keys, has_unique_fields-written,
}
use gottem_link.Backup.Decode.{
  max_bytes, WireRedirectV3, BackupJson, decode_strict, optional_text, from_v3, collected,
  or_issues, checked_envelope, decode_version, decode, Marshal, marshal_json,
}

-- An optional text as JSON: `quote` writes a string.
abbrev pub optional_json : (Str → Str) → Option Str → Str
optional_json quote none = codes "null"
optional_json quote (some s) = quote s

abbrev pub wire_v3 : (Str → Str) → Redirect → WireRedirectV3
wire_v3 quote r = record {
  slug = r.slug;
  url = r.url;
  disabled = some r.disabled;
  expires_at = some (optional_json quote r.expires_at);
  destination_updated_at = some r.destination_updated_at;
  click_count = some r.click_count;
  last_accessed_at = some (optional_json quote r.last_accessed_at);
}

abbrev optional_document : Option Str → Document
optional_document none = scalar
optional_document (some s) = text s

-- The fields in the order of the struct.
abbrev pub redirect_document : Redirect → Document
redirect_document r = object (
    field (codes "slug") (text r.slug) (
      field (codes "url") (text r.url) (
        field (codes "disabled") scalar (
          field (codes "expires_at") (optional_document r.expires_at) (
            field (codes "destination_updated_at") (text r.destination_updated_at) (
              field (codes "click_count") scalar (
                field (codes "last_accessed_at") (optional_document r.last_accessed_at)
                  no_field)))))))

pub redirect_documents : List Redirect → Documents
redirect_documents [] = no_item
redirect_documents (r ∷ rs) = item (redirect_document r) (redirect_documents rs)

abbrev pub envelope_document : List Redirect → Document
envelope_document rs = object (
    field (codes "version") scalar
      (field (codes "redirects") (array (redirect_documents rs)) no_field))

abbrev optional_utf8 : Unicode → Option Str → Bool
optional_utf8 uni none = true
optional_utf8 uni (some s) = is_some (uni.decode s)

-- Every text of a redirect is UTF-8: json.Marshal replaces the bytes of others.
pub record IsUtf8 (uni : Unicode) (r : Redirect) : Type 0 where
  pub slug_utf8 : is_some (uni.decode r.slug) ≡ true
  pub url_utf8 : is_some (uni.decode r.url) ≡ true
  pub expires_utf8 : optional_utf8 uni r.expires_at ≡ true
  pub updated_utf8 : is_some (uni.decode r.destination_updated_at) ≡ true
  pub accessed_utf8 : optional_utf8 uni r.last_accessed_at ≡ true

abbrev pub current : List Redirect → Envelope
current rs = record { version = version; redirects = rs }

-- What json.Marshal writes of the current struct: a string reads back, and the payload has the
-- tokens, the version and the fields of the envelope.
pub record MarshalLaws (uni : Unicode) (json : BackupJson) (m : Marshal) : Type 0 where
  pub quote : Str → Str
  pub quote_no_null : (s : Str) → eqb (quote s) (codes "null") ≡ false
  pub unquote_back : (s : Str) → is_some (uni.decode s) ≡ true → json.unquote (quote s) ≡ some s
  pub nothing_left : json.at_end [] ≡ true
  pub written_tokens :
      (rs : List Redirect) (payload : Str)
      → All (IsUtf8 uni) rs
      → m.current (current rs) ≡ some payload
      → json.tokens payload ≡ written (envelope_document rs) []
  pub written_version :
      (rs : List Redirect) (payload : Str)
      → All (IsUtf8 uni) rs
      → m.current (current rs) ≡ some payload
      → json.version_field payload ≡ some (pos version)
  pub written_wire :
      (rs : List Redirect) (payload : Str)
      → All (IsUtf8 uni) rs
      → m.current (current rs) ≡ some payload
      → json.decode_v3 payload ≡ some (some (map (wire_v3 quote) rs), [])

optional_document_unique : (o : Option Str) → is_unique (optional_document o) ≡ true
unfolding is_unique
optional_document_unique none = refl
optional_document_unique (some s) = refl

redirects_unique : (rs : List Redirect) → unique_items (redirect_documents rs) ≡ true
unfolding is_unique redirect_documents keys no_repeats eqb
redirects_unique [] = refl
redirects_unique (r ∷ rs) =
    rw (optional_document_unique r.expires_at, optional_document_unique r.last_accessed_at)
      (redirects_unique rs)

envelope_unique : (rs : List Redirect) → is_unique (envelope_document rs) ≡ true
unfolding is_unique keys no_repeats eqb
envelope_unique rs = rw (redirects_unique rs) refl

module _ (uni : Unicode) (json : BackupJson) (m : Marshal) (laws : MarshalLaws uni json m) where
  optional_back :
      (o : Option Str)
      → optional_utf8 uni o ≡ true
      → optional_text json (some (optional_json laws.quote o)) ≡ some o
  unfolding optional_text eqb
  optional_back none h = refl
  optional_back (some s) h = rw (optional_text, laws.quote_no_null s, laws.unquote_back s h) refl

  redirect_back : (r : Redirect) → IsUtf8 uni r → from_v3 json (wire_v3 laws.quote r) ≡ some r
  unfolding from_v3
  redirect_back r h =
      rw
        (
          from_v3,
          optional_back r.expires_at h.expires_utf8,
          optional_back r.last_accessed_at h.accessed_utf8,
        )
        refl

  redirects_back :
      (rs : List Redirect)
      → All (IsUtf8 uni) rs
      → collected (from_v3 json) (map (wire_v3 laws.quote) rs) ≡ some rs
  unfolding collected
  redirects_back [] h = refl
  redirects_back (r ∷ rs) (first, h) = rw (redirect_back r first, redirects_back rs h) refl

  version_back :
      (readable : Str → Bool) (rs : List Redirect) (payload : Str)
      → All (IsUtf8 uni) rs
      → json.decode_v3 payload ≡ some (some (map (wire_v3 laws.quote) rs), [])
      → decode_version json readable payload (some (pos version))
        ≡ or_issues (current rs) (validate readable (current rs))
  unfolding decode_version checked_envelope decode_strict
  version_back readable rs payload h e =
      rw (decode_strict, e, laws.nothing_left, redirects_back rs h) refl

  -- What is written of a backup of the current version, of UTF-8 texts and within 1 MiB, is read as
  -- that backup where its redirects are valid, and is refused with their issues where not.
  pub decode-marshal_json :
      (readable : Str → Bool) (rs : List Redirect) (payload : Str)
      → All (IsUtf8 uni) rs
      → marshal_json m (current rs) ≡ some payload
      → length payload ≤ max_bytes
      → decode json readable (some payload)
        ≡ or_issues (current rs) (validate readable (current rs))
  unfolding marshal_json decode
  decode-marshal_json readable rs payload h e small =
      rw
        (
          within (length payload) small,
          laws.written_tokens rs payload h e,
          has_unique_fields-written (envelope_document rs) [],
          envelope_unique rs,
          laws.written_version rs payload h e,
        )
        (version_back readable rs payload h (laws.written_wire rs payload h e))
    where
      within : (n : ℕ) → n ≤ max_bytes → ltb max_bytes n ≡ false
      within n h = ground (arith, h)
