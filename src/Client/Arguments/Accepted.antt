-- ===== src/Client/Arguments/Accepted.antt =====
-- What every command that `parseCommand` accepts is.
use gottem_link.Base.{
  Str, Bool, true, false, not, ◌&&◌, ◌||◌, Option, none, some, List, [], ◌∷◌, Result, ok, err,
  ◌>>=◌, if◌then◌else◌, codes, eqb, eqb_iff, has_prefix, Unicode, Bool-cases, Result-cases,
  ok-injective, inl, inr, ◌≡◌, refl, ap, subst,
}
use gottem_link.Base.Url.{Url, Net}
use gottem_link.Client.BaseUrl.{parse_base_url}
use gottem_link.Client.BaseUrl.Origin.{IsOrigin, parse_base_url-IsOrigin}
use gottem_link.Client.Flags.{
  ArgumentError, Globals, parse_globals, CreateFlags, no_value, parse_create_flags,
}
use gottem_link.Client.Arguments.{
  Command, blank, about_slug, require_non_empty, require_none, require_one, require_two,
  require_if_set, require_value, require_values, finish_create, parse_create, finish_import,
  parse_import, finish_delete, parse_delete, parse_bare, parse_slug, parse_update, parse_expire,
  parse_named, with_base, after_globals, parse_command,
}
use gottem_link.Client.Arguments.Printed.{
  Invocation, create, list, export, import_file, get, disable, unexpire, update, expire, delete,
  meant, Filled, FilledIfSet, IsFilled,
}

-- A result that is no error has the property.
data Always {ℓ κ} {A : Type ℓ} (P : A → Type κ) : Result ArgumentError A → Type (ℓ ⊔ κ) where
  good : {a : A} → P a → Always P (ok a)
  bad : {e : ArgumentError} → Always P (err e)

and_then {ℓ κ ι ν} :
    {A : Type ℓ} {B : Type κ} {P : A → Type ι} {Q : B → Type ν} {r : Result ArgumentError A}
    {f : A → Result ArgumentError B}
    → Always P r
    → ((a : A) → P a → Always Q (f a))
    → Always Q (r >>= f)
and_then (good {a} h) k = k a h
and_then bad k = bad

anything {ℓ} : {A : Type ℓ} (r : Result ArgumentError A) → Always (λ a. Unit {0}) r
anything (ok a) = good tt
anything (err e) = bad

filled : (value name : Str) → Always (λ u. Filled value) (require_non_empty value name)
unfolding require_non_empty
filled [] name = bad
filled (x ∷ value) name = good refl

filled_if_set : (o : Option Str) (name : Str) → Always (λ u. FilledIfSet o) (require_if_set o name)
unfolding require_non_empty
filled_if_set none name = good tt
filled_if_set (some []) name = bad
filled_if_set (some (x ∷ value)) name = good refl

require_value_filled :
    (message name : Str) (args : List Str) → Always Filled (require_value message name args)
unfolding require_value
require_value_filled message name args =
    and_then (anything (require_one message args))
      (λ value any. and_then (filled value name) (λ u set_. good set_))

require_values_filled :
    (message first second : Str) (args : List Str)
    → Always (λ p. Filled p.0 × Filled p.1) (require_values message first second args)
unfolding require_values
require_values_filled message first second args =
    and_then (anything (require_two message args)) (λ p any.
      and_then (filled p.0 first)
        (λ u one. and_then (filled p.1 second) (λ v two. good (one, two))))

-- The command of something that was asked for, with values that are not empty.
abbrev Asked : Command → Type 0
Asked c = (i : Invocation) × (c ≡ meant i) × IsFilled i

finish_create-Asked : (p : CreateFlags × List Str) → Always Asked (finish_create p)
unfolding finish_create
finish_create-Asked (f, args) = and_then (anything (require_one _ args)) (λ url any.
    and_then (filled_if_set f.slug _) (λ u slug_set.
      and_then (filled_if_set f.expires_at _) (λ v expires_set.
        and_then (filled url _) (λ w url_set.
          good (create f.slug f.expires_at url, refl, (slug_set, expires_set, url_set))))))

create-Asked : (args : List Str) → Always Asked (parse_create args)
unfolding parse_create
create-Asked args =
    and_then (anything (parse_create_flags no_value args _)) (λ p any. finish_create-Asked p)

finish_import-Asked : (apply : Bool) (args : List Str) → Always Asked (finish_import apply args)
unfolding finish_import
finish_import-Asked apply args =
    and_then (require_value_filled _ _ args)
      (λ file set_. good (import_file apply file, refl, set_))

import-Asked : (args : List Str) → Always Asked (parse_import args)
unfolding parse_import
import-Asked [] = finish_import-Asked false []
import-Asked (arg ∷ args) = elim (Bool-cases (eqb arg (codes "--apply"))) [
  | inl e ↦ rw e (finish_import-Asked true args)
  | inr e ↦ elim (Bool-cases (has_prefix arg (codes "-") && not (eqb arg (codes "-")))) [
    | inl g ↦ rw (e, g) bad
    | inr g ↦ rw (e, g) (finish_import-Asked false (arg ∷ args))
  ]
]

finish_delete-Asked : (force : Bool) (args : List Str) → Always Asked (finish_delete force args)
unfolding finish_delete
finish_delete-Asked force args =
    and_then (require_value_filled _ _ args) (λ slug set_. good (delete force slug, refl, set_))

delete-Asked : (args : List Str) → Always Asked (parse_delete args)
unfolding parse_delete
delete-Asked [] = finish_delete-Asked false []
delete-Asked (arg ∷ args) = elim (Bool-cases (eqb arg (codes "--force"))) [
  | inl e ↦ rw e (finish_delete-Asked true args)
  | inr e ↦ elim (Bool-cases (has_prefix arg (codes "-"))) [
    | inl g ↦ rw (e, g) bad
    | inr g ↦ rw (e, g) (finish_delete-Asked false (arg ∷ args))
  ]
]

-- The commands that share a parser.
bare-Asked :
    (name : Str) (args : List Str)
    → eqb name (codes "list") || eqb name (codes "export") ≡ true
    → Always Asked (parse_bare name args)
unfolding parse_bare
bare-Asked name args h = and_then (anything (require_none _ args)) (λ u any.
    good (elim (Bool-cases (eqb name (codes "list"))) [
      | inl e ↦ (list, ap blank ((eqb_iff name (codes "list")).0 e), tt)
      | inr e ↦ (export, ap blank ((eqb_iff name (codes "export")).0 (rw e at h)), tt)
    ]))

about-Asked :
    (name slug : Str)
    → eqb name (codes "get") || (eqb name (codes "disable") || eqb name (codes "unexpire")) ≡ true
    → Filled slug
    → Asked (about_slug name slug)
about-Asked name slug h set_ = elim (Bool-cases (eqb name (codes "get"))) [
  | inl e ↦ (get slug, ap (λ n. about_slug n slug) ((eqb_iff name (codes "get")).0 e), set_)
  | inr e ↦ elim (Bool-cases (eqb name (codes "disable"))) [
    | inl g ↦
        (disable slug, ap (λ n. about_slug n slug) ((eqb_iff name (codes "disable")).0 g), set_)
    | inr g ↦ (
      unexpire slug,
      ap (λ n. about_slug n slug) ((eqb_iff name (codes "unexpire")).0 (rw (e, g) at h)),
      set_,
    )
  ]
]

slug-Asked :
    (name : Str) (args : List Str)
    → eqb name (codes "get") || (eqb name (codes "disable") || eqb name (codes "unexpire")) ≡ true
    → Always Asked (parse_slug name args)
unfolding parse_slug
slug-Asked name args h =
    and_then (require_value_filled _ _ args) (λ slug set_. good (about-Asked name slug h set_))

update-Asked : (args : List Str) → Always Asked (parse_update args)
unfolding parse_update
update-Asked args =
    and_then (require_values_filled _ _ _ args) (λ p set_. good (update p.0 p.1, refl, set_))

expire-Asked : (args : List Str) → Always Asked (parse_expire args)
unfolding parse_expire
expire-Asked args =
    and_then (require_values_filled _ _ _ args) (λ p set_. good (expire p.0 p.1, refl, set_))

either {ℓ} :
    {A : Type ℓ} {P : A → Type 0} (b : Bool) {r r' : Result ArgumentError A}
    → (b ≡ true → Always P r)
    → Always P r'
    → Always P (if b then r else r')
either true h k = h refl
either false h k = k

named-Asked : (name : Str) (args : List Str) → Always Asked (parse_named name args)
unfolding parse_named
named-Asked name args =
    either (eqb name (codes "create")) (λ e. create-Asked args)
      (either (eqb name (codes "list") || eqb name (codes "export")) (bare-Asked name args) (
        either (eqb name (codes "import")) (λ e. import-Asked args)
          (either
            (eqb name (codes "get") || (eqb name (codes "disable") || eqb name (codes "unexpire")))
            (slug-Asked name args)
            (either (eqb name (codes "update")) (λ e. update-Asked args)
              (either (eqb name (codes "expire")) (λ e. expire-Asked args)
                (either (eqb name (codes "delete")) (λ e. delete-Asked args) bad))))))

module _ (uni : Unicode) (net : Net) where
  -- A command that was asked for, for the base URL that a text gives.
  abbrev Complete : Command → Type 0
  Complete c =
      (i : Invocation) × (json : Bool) × (url : Url) × (c
        ≡ record (meant i) { json = json; base_url = some url })
      × IsFilled i
      × IsOrigin uni url

  base-Complete : (g : Globals) (c : Command) → Asked c → Always Complete (with_base uni net g c)
  unfolding with_base
  base-Complete g c (i, same, set_) = elim (Result-cases (parse_base_url uni net g.base_text)) [
    | inl (url, e) ↦
        rw (with_base, e)
          (good (
            i,
            g.json,
            url,
            ap {B = Command} (λ (x : Command). record x { json = g.json; base_url = some url })
                same,
            set_,
            parse_base_url-IsOrigin uni net g.base_text url e,
          ))
    | inr (failure, e) ↦ rw (with_base, e) bad
  ]

  globals-Complete : (p : Globals × List Str) → Always Complete (after_globals uni net p)
  unfolding after_globals
  globals-Complete (g, []) = bad
  globals-Complete (g, name ∷ args) = and_then (named-Asked name args) (base-Complete g)

  good_only :
      {r : Result ArgumentError Command} (c : Command) → Always Complete r → r ≡ ok c → Complete c
  good_only c (good h) e = subst Complete (ok-injective e) h
  good_only c bad e = cc

  -- Every command that is accepted is what one of the ten invocations means, with no value of it
  -- empty, for a base URL that is an HTTP or HTTPS origin: with a host, without user, query and path.
  pub parse_command_complete :
      (environment : Str) (args : List Str) (c : Command)
      → parse_command uni net environment args ≡ ok c
      → (i : Invocation) × (json : Bool) × (url : Url) × (c
          ≡ record (meant i) { json = json; base_url = some url })
        × IsFilled i
        × IsOrigin uni url
  unfolding parse_command
  parse_command_complete environment args c h =
      good_only c (and_then (anything (parse_globals false args _)) (λ p any. globals-Complete p)) h
