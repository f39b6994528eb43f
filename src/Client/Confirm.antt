-- ===== src/Client/Confirm.antt =====
-- The question before a deletion, `terminalConfirm` and `promptConfirm` of cmd/gottem/output.go.
use gottem_link.Base.{
  Str, Bool, true, false, ◌||◌, Option, none, some, if◌then◌else◌, codes, eqb, Unicode, to_lower,
}

-- What the standard input is: Stat with the mode of a character device, the line that is read up to
-- its end, with an error other than the end of the input, and TrimSpace of the package strings.
pub record Terminal : Type 0 where
  pub is_char_device : Option Bool
  pub line : Str
  pub read_failed : Bool
  pub trim_space : Str → Str

-- `none` is an error.
unfoldable pub prompt_confirm : Unicode → Terminal → Option Bool
prompt_confirm uni terminal =
    if terminal.read_failed
    then none
    else let answer = to_lower uni (terminal.trim_space terminal.line) in
      some (eqb answer (codes "y") || eqb answer (codes "yes"))

-- Without Stat, with an error of it, and for another device there is no question.
unfoldable pub terminal_confirm : Unicode → Terminal → Option Bool
unfolding prompt_confirm
terminal_confirm uni terminal = elim terminal.is_char_device [
  | none ↦ none
  | some false ↦ none
  | some true ↦ prompt_confirm uni terminal
]
