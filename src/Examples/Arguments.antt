-- ===== src/Examples/Arguments.antt =====
-- Examples for the arguments of cmd/gottem.
use gottem_link.Base.{
  true, false, none, some, [], ◌∷◌, codes, ok, eqb, equal_fold, lower_byte, has_prefix, trim_prefix,
  ◌≡◌, refl, Bool,
}
use gottem_link.Base.Url.{Url}
use gottem_link.Examples.{ascii, net, docs, go_dev}
use gottem_link.Client.BaseUrl.{parse_base_url, has_web_scheme, exceeds_origin}
use gottem_link.Client.BaseUrl.Origin.{IsOrigin}
use gottem_link.Client.Arguments.{parse_command}
use gottem_link.Client.Arguments.Printed.{
  Invocation, create, words, meant, IsFilled, parse_command-words,
}
use gottem_link.Client.Arguments.Accepted.{parse_command_complete}

abbrev base : Url
base = record {
  scheme = codes "https";
  opaque = [];
  has_user = false;
  host = codes "gottem.link";
  hostname = codes "gottem.link";
  port = [];
  path = [];
  escaped_path = [];
  force_query = false;
  raw_query = [];
  fragment = [];
}

abbrev invocation : Invocation
invocation = create (some docs) none go_dev

parse_command-words_example :
    parse_command ascii net []
      (codes "--json" ∷ codes "--base-url" ∷ codes "https://gottem.link" ∷ words invocation)
    ≡ ok (record (meant invocation) { json = true; base_url = some base })
unfolding parse_base_url has_web_scheme exceeds_origin eqb has_prefix trim_prefix equal_fold
    lower_byte
parse_command-words_example =
    parse_command-words ascii net [] (codes "https://gottem.link") true base invocation
      (refl, tt, refl) refl refl

parse_command_complete_example :
    (i : Invocation) × (json : Bool) × (url : Url) × (record (meant invocation) {
      json = false;
      base_url = some base;
    }
      ≡ record (meant i) { json = json; base_url = some url })
    × IsFilled i
    × IsOrigin ascii url
unfolding parse_command parse_base_url has_web_scheme exceeds_origin eqb has_prefix trim_prefix
    equal_fold lower_byte
parse_command_complete_example =
    parse_command_complete ascii net [] (codes "create" ∷ codes "--slug" ∷ docs ∷ go_dev ∷ [])
      (record (meant invocation) { json = false; base_url = some base }) refl
