-- ===== src/Examples/Peers.antt =====
-- Examples for handlers/access.go and db/http_stats.go.
use gottem_link.Base.{
  ℕ, zero, suc, ◌≤◌, Str, true, Option, none, some, [], ◌∷◌, ◌++◌, codes, ok, eqb, lower_byte,
  has_prefix, length, Unicode, to_lower, ◌≡◌, ◌||◌, ◌⊎◌, ◌==◌, ltb, inl, inr, Bool-cases, refl,
  arith,
}
use gottem_link.Base.Int.{ℤ, pos, negsuc}
use gottem_link.Base.Url.{Net}
use gottem_link.Examples.{ascii, sqlite, calm, docs, https_url, with_docs}
use gottem_link.Db.Redirects.{record_redirect_access}
use gottem_link.Db.Misses.{record_slug_miss}
use gottem_link.Db.Remote.{
  HttpAccessStore, Wire, internal_access_path, remote_redirect_access, remote_slug_miss,
}
use gottem_link.Handlers.Access.{
  InternalCodec, InternalRequest, address_is_loopback, internal_access_handler,
  internal_miss_handler,
}
use gottem_link.Handlers.Access.Guarded.{Inside, writes-Inside}
use gottem_link.Handlers.Access.Refines.{remote_refines}
use gottem_link.Handlers.Access.Refines.Peer.{WireLaws, as_remote, other_process}
use gottem_link.Validation.Slug.{validate_slug}

-- Every address is a loopback address.
abbrev loopback : Net
loopback = record { parse_url = https_url; parse_ip = λ s. some true }

-- Times and ids as two numbers.
abbrev two : ℤ → Str
two (pos n) = 1 ∷ n ∷ []
two (negsuc n) = 0 ∷ n ∷ []

abbrev read_two : Str → Option ℤ
read_two (zero ∷ n ∷ []) = some (negsuc n)
read_two (suc k ∷ n ∷ []) = some (pos n)
read_two s = none

abbrev wire : Wire
wire = record {
  url_string = λ u. [];
  format_time = two;
  encode_access = λ id at. two id ++ at;
  encode_miss = λ slug at. at ++ slug;
}

abbrev access_of : Str → Option ((ℤ × Str) × Str)
access_of (zero ∷ n ∷ at) = some ((negsuc n, at), [])
access_of (suc k ∷ n ∷ at) = some ((pos n, at), [])
access_of s = none

abbrev miss_of : Str → Option ((Str × Str) × Str)
miss_of (k ∷ n ∷ slug) = some ((slug, k ∷ n ∷ []), [])
miss_of s = none

abbrev codec : InternalCodec
codec = record {
  split_host_port = λ s. some (s, []);
  decode_access = access_of;
  decode_miss = miss_of;
  at_end = λ s. true;
  parse_time = read_two;
  format_time = two;
}

access_back : (id t : ℤ) → access_of (two id ++ two t) ≡ some ((id, two t), [])
access_back (pos n) t = refl
access_back (negsuc n) t = refl

miss_back : (slug : Str) (t : ℤ) → miss_of (two t ++ slug) ≡ some ((slug, two t), [])
miss_back slug (pos n) = refl
miss_back slug (negsuc n) = refl

access_small : (n : ℕ) (t : ℤ) → length (two (pos n) ++ two t) ≤ 1024
access_small n (pos m) = omega arith
access_small n (negsuc m) = omega arith

written_small : (slug : Str) (t : ℤ) → length slug ≤ 64 → length (two t ++ slug) ≤ 1024
written_small slug (pos n) h = omega (arith, h)
written_small slug (negsuc n) h = omega (arith, h)

miss_small :
    (uni : Unicode) (slug : Str) (t : ℤ)
    → validate_slug uni slug ≡ ok slug
    → length (two t ++ slug) ≤ 1024
unfolding validate_slug
miss_small uni slug t h = elim (Bool-cases (length slug == 0 || ltb 64 (length slug))) [
  | inl e ↦ cc (rw (validate_slug, e) at h)
  | inr e ↦ written_small slug t (ground (arith, e))
]

wire_laws : WireLaws wire codec
wire_laws = record {
  line_end = [];
  line_end_last = refl;
  same_time = λ t. refl;
  access_back = access_back;
  access_small = λ n t h. access_small n t;
  miss_back = λ uni slug t h. miss_back slug t;
  miss_small = miss_small;
}

abbrev token : Str
token = codes "shared"

abbrev address : Str
address = codes "http://localhost"

abbrev store_here : HttpAccessStore
store_here = record { url = address ++ internal_access_path; token = token }

remote_refines_example :
    (remote_redirect_access wire
        (other_process ascii loopback codec sqlite calm address token [])
        store_here
        (pos 1)
        (pos 7)
        with_docs
      ≡ as_remote (record_redirect_access sqlite calm 1 (two (pos 7)) with_docs))
    × (remote_slug_miss wire
          (other_process ascii loopback codec sqlite calm address token [])
          store_here
          docs
          (pos 7)
          with_docs
        ≡ as_remote (record_slug_miss ascii sqlite calm docs (two (pos 7)) with_docs))
unfolding validate_slug eqb lower_byte address_is_loopback to_lower has_prefix
remote_refines_example =
    remote_refines wire codec wire_laws ascii loopback sqlite calm address token [] refl 1 docs
      (pos 7) with_docs (omega arith) (omega arith) refl refl refl

abbrev borne : InternalRequest
borne = record {
  method = codes "POST";
  remote_addr = codes "127.0.0.1:80";
  authorization = codes "Bearer shared";
  body = wire.encode_access (pos 1) (two (pos 7));
}

writes-Inside_example :
    Inside loopback codec token borne
    ⊎ (((internal_access_handler loopback codec sqlite calm token borne with_docs).1 ≡ with_docs)
        × ((internal_miss_handler ascii loopback codec sqlite calm token borne with_docs).1
            ≡ with_docs))
writes-Inside_example = writes-Inside loopback codec token borne ascii sqlite calm with_docs
