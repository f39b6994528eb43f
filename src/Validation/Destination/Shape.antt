-- ===== src/Validation/Destination/Shape.antt =====
-- What the destinations are that `ValidateDestination` of validation/validation.go accepts.
use gottem_link.Base.{
  ℕ, ◌<◌, ◌≤◌, Str, true, false, Option, none, some, List, [], ◌∷◌, ok, codes, Unicode, equal_fold,
  length, ◌≡◌, refl, ◌⊎◌, ◌↔◌, arith, All, is_empty,
}
use gottem_link.Base.Url.{Url, Net}
use gottem_link.Validation.Destination.Hostname.{IsHostname, hostname_back, hostname_forth}
use gottem_link.Validation.Destination.Port.{IsUsablePort, port_back, port_forth}
use gottem_link.Validation.Destination.{
  max_destination_bytes, contains_unsafe_character, refused_url, unreadable, valid_hostname,
  valid_port, explicit_port, validate_destination,
}

module _ (u : Unicode) (net : Net) where
  -- An absolute web address with no user, a host that resolves by its form, and a usable port.
  pub record IsWebUrl (parsed : Url) : Type 0 where
    pub web :
        (equal_fold u parsed.scheme (codes "http") ≡ true)
        ⊎ (equal_fold u parsed.scheme (codes "https") ≡ true)
    pub anonymous : parsed.has_user ≡ false
    pub named : 0 < length parsed.hostname
    pub host : IsHostname net parsed.hostname
    pub port : IsUsablePort parsed.host

  -- No control character, space or format character.
  pub record IsSafe (character : ℕ) : Type 0 where
    pub no_control : u.is_control character ≡ false
    pub no_space : u.is_space character ≡ false
    pub no_format : u.is_format character ≡ false

  pub record IsDestination (d : Str) : Type 0 where
    pub nonempty : 0 < length d
    pub short : length d ≤ max_destination_bytes
    pub text : (characters : List ℕ) × (u.decode d ≡ some characters) × (All IsSafe characters)
    pub url : (parsed : Url) × (net.parse_url d ≡ some parsed) × IsWebUrl parsed

  contains_unsafe_character-IsSafe :
      (characters : List ℕ) → contains_unsafe_character u characters ≡ false → All IsSafe characters
  unfolding contains_unsafe_character
  contains_unsafe_character-IsSafe [] h = tt
  contains_unsafe_character-IsSafe (c ∷ cs) h = (
    record {
      no_control = ground (arith, h);
      no_space = ground (arith, h);
      no_format = ground (arith, h);
    },
    contains_unsafe_character-IsSafe cs (ground (arith, h)),
  )

  IsSafe-contains_unsafe_character :
      (characters : List ℕ) → All IsSafe characters → contains_unsafe_character u characters ≡ false
  unfolding contains_unsafe_character
  IsSafe-contains_unsafe_character [] h = refl
  IsSafe-contains_unsafe_character (c ∷ cs) (safe, more) = ground (
    arith,
    safe.no_control,
    safe.no_space,
    safe.no_format,
    IsSafe-contains_unsafe_character cs more,
  )

  -- The tests after parsing.
  record Passes (parsed : Url) : Type 0 where
    web :
        (equal_fold u parsed.scheme (codes "http") ≡ true)
        ⊎ (equal_fold u parsed.scheme (codes "https") ≡ true)
    anonymous : parsed.has_user ≡ false
    named : is_empty parsed.hostname ≡ false
    host : valid_hostname net parsed.hostname ≡ true
    port : valid_port (explicit_port parsed.host) ≡ true

  accepted-Passes : (parsed : Url) → refused_url u net (some parsed) ≡ false → Passes parsed
  unfolding refused_url
  accepted-Passes parsed h = ground arith

  Passes-accepted : (parsed : Url) → Passes parsed → refused_url u net (some parsed) ≡ false
  unfolding refused_url
  Passes-accepted parsed h = ground arith

  named_back : (name : Str) → is_empty name ≡ false → 0 < length name
  named_back [] h = cc
  named_back (c ∷ name) h = omega arith

  named_forth : (name : Str) → 0 < length name → is_empty name ≡ false
  named_forth [] h = absurd (omega (arith, h))
  named_forth (c ∷ name) h = refl

  web_of_accepted : (parsed : Url) → refused_url u net (some parsed) ≡ false → IsWebUrl parsed
  web_of_accepted parsed h =
      let p = accepted-Passes parsed h in
      record {
        web = p.web;
        anonymous = p.anonymous;
        named = named_back parsed.hostname p.named;
        host = hostname_back net parsed.hostname p.host;
        port = port_back parsed.host p.port;
      }

  accepted_of_web : (parsed : Url) → IsWebUrl parsed → refused_url u net (some parsed) ≡ false
  accepted_of_web parsed h = Passes-accepted parsed (record {
    web = h.web;
    anonymous = h.anonymous;
    named = named_forth parsed.hostname h.named;
    host = hostname_forth net parsed.hostname h.host;
    port = port_forth parsed.host h.port;
  })

  text_of_readable :
      (o : Option (List ℕ))
      → unreadable u o ≡ false
      → (characters : List ℕ) × (o ≡ some characters) × (All IsSafe characters)
  unfolding unreadable
  text_of_readable none h = cc
  text_of_readable (some characters) h =
      (characters, refl, contains_unsafe_character-IsSafe characters h)

  url_of_accepted :
      (o : Option Url)
      → refused_url u net o ≡ false
      → (parsed : Url) × (o ≡ some parsed) × IsWebUrl parsed
  unfolding refused_url
  url_of_accepted none h = cc
  url_of_accepted (some parsed) h = (parsed, refl, web_of_accepted parsed h)

  accepted_tests :
      (d r : Str)
      → validate_destination u net d ≡ ok r
      → (0 < length d)
        × (length d ≤ max_destination_bytes)
        × (unreadable u (u.decode d) ≡ false)
        × (refused_url u net (net.parse_url d) ≡ false)
        × (r ≡ d)
  unfolding validate_destination
  accepted_tests [] r h = cc
  accepted_tests (c ∷ d) r h = ground arith

  tests_accept :
      (d : Str)
      → 0 < length d
      → length d ≤ max_destination_bytes
      → unreadable u (u.decode d) ≡ false
      → refused_url u net (net.parse_url d) ≡ false
      → validate_destination u net d ≡ ok d
  unfolding validate_destination
  tests_accept [] h _ _ _ = elim h [ ]
  tests_accept (c ∷ d) h short text url = ground arith

  readable_of_text :
      (o : Option (List ℕ)) (characters : List ℕ)
      → o ≡ some characters
      → All IsSafe characters
      → unreadable u o ≡ false
  unfolding unreadable
  readable_of_text o characters e h = rw e (IsSafe-contains_unsafe_character characters h)

  -- `ValidateDestination` accepts exactly the destinations, and hands them back unchanged: at most
  -- 2048 bytes of valid UTF-8 without unsafe characters that parse to a web address.
  pub validate_destination_iff :
      (d r : Str) → (validate_destination u net d ≡ ok r) ↔ (IsDestination d × (r ≡ d))
  validate_destination_iff d r = (
    λ e.
        let (nonempty, short, text, url, same) = accepted_tests d r e in
        (
          record {
            nonempty = nonempty;
            short = short;
            text = text_of_readable (u.decode d) text;
            url = url_of_accepted (net.parse_url d) url;
          },
          same,
        ),
    λ (shape, same).
        let (characters, decoded, safe) = shape.text in
        let (parsed, found, web) = shape.url in
        rw same (
          tests_accept d shape.nonempty shape.short (readable_of_text _ characters decoded safe)
            (rw found (accepted_of_web parsed web))),
  )
