-- ===== src/Client/Flags.antt =====
-- The flags that `parseCommand` and `parseCreate` of cmd/gottem/run.go read, and their errors.
use gottem_link.Base.{
  Str, Bool, true, false, not, Option, some, List, [], ◌∷◌, Result, ok, err, if◌then◌else◌, codes,
  eqb, has_prefix, trim_prefix,
}
use gottem_link.Client.BaseUrl.{BaseUrlError}

pub data ArgumentError : Type 0 where
  base_url_missing command_missing : ArgumentError
  unknown_global_flag unknown_create_flag unknown_import_flag : Str → ArgumentError
  unknown_delete_flag unknown_command value_missing : Str → ArgumentError
  wrong_arguments must_not_be_empty : Str → ArgumentError
  invalid_base_url : BaseUrlError → ArgumentError

-- What a word of the flags before the command is.
pub data GlobalWord : Type 0 where
  json_flag base_url_flag unknown_flag command_word : GlobalWord
  base_url_is : Str → GlobalWord

unfoldable pub global_word : Str → GlobalWord
global_word arg =
    if not (has_prefix arg (codes "-"))
    then command_word
    else if eqb arg (codes "--json")
    then json_flag
    else if eqb arg (codes "--base-url")
    then base_url_flag
    else if has_prefix arg (codes "--base-url=")
    then base_url_is (trim_prefix arg (codes "--base-url="))
    else unknown_flag

pub record Globals : Type 0 where
  pub json : Bool
  pub base_text : Str

-- The loop over the flags before the command; the Boolean says that --base-url waits for its URL.
unfoldable pub parse_globals : Bool → List Str → Globals → Result ArgumentError (Globals × List Str)
unfolding global_word
parse_globals true [] g = err base_url_missing
parse_globals true (url ∷ args) g = parse_globals false args (record g { base_text = url })
parse_globals false [] g = ok (g, [])
parse_globals false (arg ∷ args) g = elim (global_word arg) [
  | json_flag ↦ parse_globals false args (record g { json = true })
  | base_url_flag ↦ parse_globals true args g
  | base_url_is url ↦ parse_globals false args (record g { base_text = url })
  | unknown_flag ↦ err (unknown_global_flag arg)
  | command_word ↦ ok (g, arg ∷ args)
]

pub data CreateWord : Type 0 where
  slug_flag expires_at_flag unknown_word url_word : CreateWord
  slug_is expires_at_is : Str → CreateWord

unfoldable pub create_word : Str → CreateWord
create_word arg =
    if not (has_prefix arg (codes "-"))
    then url_word
    else if eqb arg (codes "--slug")
    then slug_flag
    else if eqb arg (codes "--expires-at")
    then expires_at_flag
    else if has_prefix arg (codes "--slug=")
    then slug_is (trim_prefix arg (codes "--slug="))
    else if has_prefix arg (codes "--expires-at=")
    then expires_at_is (trim_prefix arg (codes "--expires-at="))
    else unknown_word

-- The flags of `create` with what was given, and the flag that waits for its value.
pub record CreateFlags : Type 0 where
  pub slug : Option Str
  pub expires_at : Option Str

pub data Waiting : Type 0 where
  no_value for_slug for_expires_at : Waiting

unfoldable pub parse_create_flags :
    Waiting → List Str → CreateFlags → Result ArgumentError (CreateFlags × List Str)
unfolding create_word
parse_create_flags for_slug [] f = err (value_missing (codes "--slug"))
parse_create_flags for_expires_at [] f = err (value_missing (codes "--expires-at"))
parse_create_flags for_slug (value ∷ args) f =
    parse_create_flags no_value args (record f { slug = some value })
parse_create_flags for_expires_at (value ∷ args) f =
    parse_create_flags no_value args (record f { expires_at = some value })
parse_create_flags no_value [] f = ok (f, [])
parse_create_flags no_value (arg ∷ args) f = elim (create_word arg) [
  | slug_flag ↦ parse_create_flags for_slug args f
  | expires_at_flag ↦ parse_create_flags for_expires_at args f
  | slug_is value ↦ parse_create_flags no_value args (record f { slug = some value })
  | expires_at_is value ↦ parse_create_flags no_value args (record f { expires_at = some value })
  | unknown_word ↦ err (unknown_create_flag arg)
  | url_word ↦ ok (f, arg ∷ args)
]
