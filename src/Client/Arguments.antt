-- ===== src/Client/Arguments.antt =====
-- `parseCommand` of cmd/gottem/run.go.
pub mod Printed
pub mod Accepted
use gottem_link.Base.{
  ℕ, Str, Bool, true, false, not, ◌&&◌, ◌||◌, Option, none, some, List, [], ◌∷◌, ◌++◌, Result, ok,
  err, ◌>>=◌, if◌then◌else◌, codes, eqb, is_empty, has_prefix, trim_prefix, Unicode, is_some,
}
use gottem_link.Base.Url.{Url, Net}
use gottem_link.Client.BaseUrl.{parse_base_url}
use gottem_link.Client.Flags.{
  ArgumentError, command_missing, unknown_import_flag, unknown_delete_flag, unknown_command,
  wrong_arguments, must_not_be_empty, invalid_base_url, Globals, parse_globals, CreateFlags,
  no_value, parse_create_flags,
}

abbrev pub default_base_url : Str
default_base_url = codes "https://gottem.link"

pub record Command : Type 0 where
  pub name : Str
  pub slug : Str
  pub slug_set : Bool
  pub destination : Str
  pub expires_at : Str
  pub expires_at_set : Bool
  pub force : Bool
  pub apply : Bool
  pub file : Str
  pub json : Bool
  pub base_url : Option Url

-- requireNonEmpty
unfoldable pub require_non_empty : Str → Str → Result {0, 0} ArgumentError Unit
require_non_empty value name = if is_empty value then err (must_not_be_empty name) else ok tt

-- requireArguments with the counts 0, 1 and 2, and the arguments.
abbrev pub require_none : Str → List Str → Result {0, 0} ArgumentError Unit
require_none message [] = ok tt
require_none message (a ∷ args) = err (wrong_arguments message)

abbrev pub require_one : Str → List Str → Result ArgumentError Str
require_one message [] = err (wrong_arguments message)
require_one message (a ∷ []) = ok a
require_one message (a ∷ b ∷ args) = err (wrong_arguments message)

abbrev pub require_two : Str → List Str → Result ArgumentError (Str × Str)
require_two message [] = err (wrong_arguments message)
require_two message (a ∷ []) = err (wrong_arguments message)
require_two message (a ∷ b ∷ []) = ok (a, b)
require_two message (a ∷ b ∷ d ∷ args) = err (wrong_arguments message)

-- One argument that must not be empty.
unfoldable pub require_value : Str → Str → List Str → Result ArgumentError Str
unfolding require_non_empty
require_value message name args =
    require_one message args >>= λ value. require_non_empty value name >>= λ _. ok value

unfoldable pub require_values : Str → Str → Str → List Str → Result ArgumentError (Str × Str)
unfolding require_non_empty
require_values message first second args = require_two message args >>= λ (a, b).
    require_non_empty a first >>= λ _. require_non_empty b second >>= λ _. ok (a, b)

abbrev pub blank : Str → Command
blank name = record {
  name = name;
  slug = [];
  slug_set = false;
  destination = [];
  expires_at = [];
  expires_at_set = false;
  force = false;
  apply = false;
  file = [];
  json = false;
  base_url = none;
}

abbrev pub text_or_empty : Option Str → Str
text_or_empty none = []
text_or_empty (some s) = s

-- A value that is set must not be empty.
abbrev pub require_if_set : Option Str → Str → Result {0, 0} ArgumentError Unit
require_if_set none name = ok tt
require_if_set (some value) name = require_non_empty value name

abbrev pub created : CreateFlags → Str → Command
created f destination = record (blank (codes "create")) {
  slug = text_or_empty f.slug;
  slug_set = is_some f.slug;
  expires_at = text_or_empty f.expires_at;
  expires_at_set = is_some f.expires_at;
  destination = destination;
}

unfoldable pub finish_create : CreateFlags × List Str → Result ArgumentError Command
unfolding require_non_empty
finish_create (f, args) =
    require_one (codes "create requires exactly one URL") args >>= λ destination.
    require_if_set f.slug (codes "slug") >>= λ _.
    require_if_set f.expires_at (codes "expiration") >>= λ _.
    require_non_empty destination (codes "URL") >>= λ _. ok (created f destination)

unfoldable pub parse_create : List Str → Result ArgumentError Command
unfolding parse_create_flags finish_create
parse_create args =
    parse_create_flags no_value args (record { slug = none; expires_at = none }) >>= finish_create

abbrev pub imported : Bool → Str → Command
imported apply file = record (blank (codes "import")) { apply = apply; file = file }

unfoldable pub finish_import : Bool → List Str → Result ArgumentError Command
unfolding require_value
finish_import apply args =
    require_value (codes "import requires exactly one FILE") (codes "FILE") args >>= λ file.
    ok (imported apply file)

unfoldable pub parse_import : List Str → Result ArgumentError Command
unfolding finish_import
parse_import [] = finish_import false []
parse_import (arg ∷ args) =
    if eqb arg (codes "--apply")
    then finish_import true args
    else if has_prefix arg (codes "-") && not (eqb arg (codes "-"))
    then err (unknown_import_flag arg)
    else finish_import false (arg ∷ args)

abbrev pub deleted : Bool → Str → Command
deleted force slug = record (blank (codes "delete")) { force = force; slug = slug }

unfoldable pub finish_delete : Bool → List Str → Result ArgumentError Command
unfolding require_value
finish_delete force args =
    require_value (codes "delete requires exactly one slug") (codes "slug") args >>= λ slug.
    ok (deleted force slug)

unfoldable pub parse_delete : List Str → Result ArgumentError Command
unfolding finish_delete
parse_delete [] = finish_delete false []
parse_delete (arg ∷ args) =
    if eqb arg (codes "--force")
    then finish_delete true args
    else if has_prefix arg (codes "-")
    then err (unknown_delete_flag arg)
    else finish_delete false (arg ∷ args)

-- `list` and `export`, and `get`, `disable` and `unexpire`.
unfoldable pub parse_bare : Str → List Str → Result ArgumentError Command
parse_bare name args =
    require_none (name ++ codes " takes no arguments") args >>= λ _. ok (blank name)

abbrev pub about_slug : Str → Str → Command
about_slug name slug = record (blank name) { slug = slug }

unfoldable pub parse_slug : Str → List Str → Result ArgumentError Command
unfolding require_value
parse_slug name args =
    require_value (name ++ codes " requires exactly one slug") (codes "slug") args >>= λ slug.
    ok (about_slug name slug)

abbrev pub updated : Str → Str → Command
updated slug destination = record (blank (codes "update")) {
  slug = slug;
  destination = destination;
}

unfoldable pub parse_update : List Str → Result ArgumentError Command
unfolding require_values
parse_update args =
    require_values (codes "update requires SLUG and URL") (codes "slug") (codes "URL") args
    >>= λ (slug, destination). ok (updated slug destination)

abbrev pub expired : Str → Str → Command
expired slug expires_at = record (blank (codes "expire")) { slug = slug; expires_at = expires_at }

unfoldable pub parse_expire : List Str → Result ArgumentError Command
unfolding require_values
parse_expire args =
    require_values (codes "expire requires SLUG and RFC3339 TIMESTAMP") (codes "slug")
      (codes "TIMESTAMP") args
    >>= λ (slug, expires_at). ok (expired slug expires_at)

-- The switch on the command's name.
unfoldable pub parse_named : Str → List Str → Result ArgumentError Command
unfolding parse_create parse_bare parse_import parse_slug parse_update parse_expire parse_delete
parse_named name args =
    if eqb name (codes "create")
    then parse_create args
    else if eqb name (codes "list") || eqb name (codes "export")
    then parse_bare name args
    else if eqb name (codes "import")
    then parse_import args
    else if eqb name (codes "get") || (eqb name (codes "disable") || eqb name (codes "unexpire"))
    then parse_slug name args
    else if eqb name (codes "update")
    then parse_update args
    else if eqb name (codes "expire")
    then parse_expire args
    else if eqb name (codes "delete")
    then parse_delete args
    else err (unknown_command name)

unfoldable pub with_base : Unicode → Net → Globals → Command → Result ArgumentError Command
with_base uni net g c = elim (parse_base_url uni net g.base_text) [
  | err e ↦ err (invalid_base_url e)
  | ok url ↦ ok (record c { json = g.json; base_url = some url })
]

unfoldable pub after_globals : Unicode → Net → Globals × List Str → Result ArgumentError Command
unfolding parse_named with_base
after_globals uni net (g, []) = err command_missing
after_globals uni net (g, name ∷ args) = parse_named name args >>= with_base uni net g

-- The variable GOTTEM_BASE_URL, empty where it is not set.
abbrev pub first_base_text : Str → Str
first_base_text environment = if is_empty environment then default_base_url else environment

unfoldable pub parse_command : Unicode → Net → Str → List Str → Result ArgumentError Command
unfolding parse_globals after_globals
parse_command uni net environment args =
    parse_globals false args (record { json = false; base_text = first_base_text environment })
    >>= after_globals uni net
