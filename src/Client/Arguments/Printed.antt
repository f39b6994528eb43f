-- ===== src/Client/Arguments/Printed.antt =====
-- The arguments that ask for a command, and that `parseCommand` reads them back.
use gottem_link.Base.{
  Str, Bool, true, false, not, ◌&&◌, Option, none, some, List, [], ◌∷◌, ok, ◌>>=◌, if◌then◌else◌,
  codes, eqb, is_empty, has_prefix, Unicode, eqb_iff, Bool-cases, inl, inr, ◌≡◌, refl, ap, ◌∙◌,
}
use gottem_link.Base.Url.{Url, Net}
use gottem_link.Client.BaseUrl.{parse_base_url}
use gottem_link.Client.Flags.{Globals, parse_globals, global_word, parse_create_flags, create_word}
use gottem_link.Client.Arguments.{
  Command, blank, created, imported, deleted, about_slug, updated, expired, require_non_empty,
  require_value, require_values, finish_create, parse_create, finish_import, parse_import,
  finish_delete, parse_delete, parse_bare, parse_slug, parse_update, parse_expire, parse_named,
  with_base, after_globals, first_base_text, parse_command,
}

-- What a user asks for.
pub data Invocation : Type 0 where
  create : Option Str → Option Str → Str → Invocation
  list export : Invocation
  import_file : Bool → Str → Invocation
  get disable unexpire : Str → Invocation
  update expire : Str → Str → Invocation
  delete : Bool → Str → Invocation

abbrev if_set : Str → Option Str → List Str → List Str
if_set flag none args = args
if_set flag (some value) args = flag ∷ value ∷ args

abbrev if_on : Bool → Str → List Str → List Str
if_on on flag args = if on then flag ∷ args else args

pub words : Invocation → List Str
words (create slug expires_at url) =
    codes "create"
    ∷ if_set (codes "--slug") slug (if_set (codes "--expires-at") expires_at (url ∷ []))
words list = codes "list" ∷ []
words export = codes "export" ∷ []
words (import_file apply file) = codes "import" ∷ if_on apply (codes "--apply") (file ∷ [])
words (get slug) = codes "get" ∷ slug ∷ []
words (disable slug) = codes "disable" ∷ slug ∷ []
words (unexpire slug) = codes "unexpire" ∷ slug ∷ []
words (update slug url) = codes "update" ∷ slug ∷ url ∷ []
words (expire slug time) = codes "expire" ∷ slug ∷ time ∷ []
words (delete force slug) = codes "delete" ∷ if_on force (codes "--force") (slug ∷ [])

abbrev pub meant : Invocation → Command
meant (create slug expires_at url) = created (record { slug = slug; expires_at = expires_at }) url
meant list = blank (codes "list")
meant export = blank (codes "export")
meant (import_file apply file) = imported apply file
meant (get slug) = about_slug (codes "get") slug
meant (disable slug) = about_slug (codes "disable") slug
meant (unexpire slug) = about_slug (codes "unexpire") slug
meant (update slug url) = updated slug url
meant (expire slug time) = expired slug time
meant (delete force slug) = deleted force slug

abbrev pub Filled : Str → Type 0
Filled s = is_empty s ≡ false

abbrev pub FilledIfSet : Option Str → Type 0
FilledIfSet none = Unit
FilledIfSet (some s) = Filled s

-- No value is empty.
abbrev pub IsFilled : Invocation → Type 0
IsFilled (create slug expires_at url) = FilledIfSet slug × FilledIfSet expires_at × Filled url
IsFilled list = Unit
IsFilled export = Unit
IsFilled (import_file apply file) = Filled file
IsFilled (get slug) = Filled slug
IsFilled (disable slug) = Filled slug
IsFilled (unexpire slug) = Filled slug
IsFilled (update slug url) = Filled slug × Filled url
IsFilled (expire slug time) = Filled slug × Filled time
IsFilled (delete force slug) = Filled slug

-- What stands where a flag may stand does not begin with a dash; a file may be a dash.
abbrev pub IsPlain : Invocation → Type 0
IsPlain (create slug expires_at url) = has_prefix url (codes "-") ≡ false
IsPlain (import_file true file) = Unit
IsPlain (import_file false file) = has_prefix file (codes "-") && not (eqb file (codes "-")) ≡ false
IsPlain (delete true slug) = Unit
IsPlain (delete false slug) = has_prefix slug (codes "-") ≡ false
IsPlain list = Unit
IsPlain export = Unit
IsPlain (get slug) = Unit
IsPlain (disable slug) = Unit
IsPlain (unexpire slug) = Unit
IsPlain (update slug url) = Unit
IsPlain (expire slug time) = Unit

flag_apart : (p : Str → Bool) (s flag : Str) → p flag ≡ true → p s ≡ false → eqb s flag ≡ false
flag_apart p s flag h k = elim (Bool-cases (eqb s flag)) [
  | inl e ↦ cc (ap p ((eqb_iff s flag).0 e), h, k)
  | inr e ↦ e
]

words_first : (i : Invocation) (g : Globals) → parse_globals false (words i) g ≡ ok (g, words i)
unfolding words parse_globals global_word has_prefix
words_first (create slug expires_at url) g = refl
words_first list g = refl
words_first export g = refl
words_first (import_file apply file) g = refl
words_first (get slug) g = refl
words_first (disable slug) g = refl
words_first (unexpire slug) g = refl
words_first (update slug url) g = refl
words_first (expire slug time) g = refl
words_first (delete force slug) g = refl

before_words :
    (environment base_text : Str) (json : Bool) (i : Invocation)
    → parse_globals false
        (if_on json (codes "--json") (codes "--base-url" ∷ base_text ∷ words i))
        (record { json = false; base_text = first_base_text environment })
      ≡ ok (record { json = json; base_text = base_text }, words i)
unfolding parse_globals global_word has_prefix eqb
before_words environment base_text true i = words_first i _
before_words environment base_text false i = words_first i _

with_base_url :
    (uni : Unicode) (net : Net) (base_text : Str) (json : Bool) (url : Url) (c : Command)
    → parse_base_url uni net base_text ≡ ok url
    → with_base uni net (record { json = json; base_text = base_text }) c
      ≡ ok (record c { json = json; base_url = some url })
unfolding with_base
with_base_url uni net base_text json url c e = rw (with_base, e) refl

-- What follows the flags before the command.
parsed_words :
    (uni : Unicode) (net : Net) (g : Globals) (i : Invocation)
    → IsFilled i
    → IsPlain i
    → after_globals uni net (g, words i) ≡ with_base uni net g (meant i)
unfolding after_globals parse_named words eqb parse_create parse_create_flags create_word has_prefix
    finish_create parse_bare parse_import finish_import parse_slug parse_update parse_expire
    parse_delete finish_delete require_value require_values require_non_empty
parsed_words uni net g (create none none url) (s, e, u) p = rw (p, u) refl
parsed_words uni net g (create (some slug) none url) (s, e, u) p = rw (p, s, u) refl
parsed_words uni net g (create none (some time) url) (s, e, u) p = rw (p, e, u) refl
parsed_words uni net g (create (some slug) (some time) url) (s, e, u) p = rw (p, s, e, u) refl
parsed_words uni net g list f p = refl
parsed_words uni net g export f p = refl
parsed_words uni net g (import_file true file) f p = rw f refl
parsed_words uni net g (import_file false file) f p =
    rw
      (
        flag_apart (λ s. has_prefix s (codes "-") && not (eqb s (codes "-"))) file (codes "--apply")
            refl p,
        p,
        f,
      )
      refl
parsed_words uni net g (get slug) f p = rw f refl
parsed_words uni net g (disable slug) f p = rw f refl
parsed_words uni net g (unexpire slug) f p = rw f refl
parsed_words uni net g (update slug url) (s, u) p = rw (s, u) refl
parsed_words uni net g (expire slug time) (s, t) p = rw (s, t) refl
parsed_words uni net g (delete true slug) f p = rw f refl
parsed_words uni net g (delete false slug) f p =
    rw (flag_apart (λ s. has_prefix s (codes "-")) slug (codes "--force") refl p, p, f) refl

-- Every command is read back from its arguments, with --json or without it and with any base URL that
-- is accepted: no value is empty, and what stands where a flag may stand does not begin with a dash,
-- but for a file that is a dash alone.
pub parse_command-words :
    (uni : Unicode) (net : Net) (environment base_text : Str) (json : Bool) (url : Url)
    (i : Invocation)
    → IsFilled i
    → IsPlain i
    → parse_base_url uni net base_text ≡ ok url
    → parse_command uni net environment
        (if_on json (codes "--json") (codes "--base-url" ∷ base_text ∷ words i))
      ≡ ok (record (meant i) { json = json; base_url = some url })
unfolding parse_command
parse_command-words uni net environment base_text json url i f p e =
    ap (λ r. r >>= after_globals uni net) (before_words environment base_text json i)
    ∙ parsed_words uni net (record { json = json; base_text = base_text }) i f p
    ∙ with_base_url uni net base_text json url (meant i) e
