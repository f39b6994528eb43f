-- ===== src/Client/Run.antt =====
-- `run` of cmd/gottem/output.go, without the texts that it writes.
pub mod Planned
pub mod Sends
use gottem_link.Base.{
  ℕ, Str, Bool, true, false, not, ◌&&◌, ◌||◌, Option, none, some, List, [], ◌∷◌, Result, ok, err,
  ◌>>=◌, if◌then◌else◌, codes, eqb, is_empty, Unicode,
}
use gottem_link.Base.Url.{Url, Net}
use gottem_link.Backup.{Envelope}
use gottem_link.Backup.Decode.{BackupJson, DecodeError, decode}
use gottem_link.Client.Confirm.{Terminal, terminal_confirm}
use gottem_link.Client.Flags.{ArgumentError}
use gottem_link.Client.Arguments.{Command, parse_command}
use gottem_link.Client.Requests.{
  ClientRequest, Answer, ClientError, ClientValue, ClientJson, Escape, Reading, Action, body_of,
  read_value, create_action, list_action, export_action, get_action, update_action, disable_action,
  expiration_action, delete_action, import_action,
}

-- What a run meets: the environment's variables, the function that confirms a deletion (the terminal
-- is asked where there is none), the files (`none` where one cannot be opened, and inside where it
-- cannot be read), the standard input, the server, and whether the output can be written.
pub record World : Type 0 where
  pub environment : Str
  pub token : Str
  pub confirm : Option (Str → Option Bool)
  pub terminal : Terminal
  pub open_file : Str → Option (Option Str)
  pub stdin : Option Str
  pub exchange : ClientRequest → Option Answer
  pub can_write : Bool
  pub json : ClientJson
  pub backup : BackupJson
  pub readable : Str → Bool
  pub escape : Escape

pub data LocalError : Type 0 where
  open_import_file : LocalError
  import_refused : DecodeError → LocalError

-- What a command comes to before anything is sent. Other names are no command's.
pub data Plan : Type 0 where
  planned : Action → Plan
  refused : LocalError → Plan
  nothing_to_do : Plan

pub data Ending : Type 0 where
  bad_arguments : ArgumentError → Ending
  token_required confirmation_failed cancelled no_command not_written : Ending
  not_imported : LocalError → Ending
  not_done : ClientError → Ending
  shown : ClientValue → Ending

pub record Outcome : Type 0 where
  pub exit : ℕ
  pub sent : List ClientRequest
  pub ending : Ending

abbrev pub outcome : ℕ → List ClientRequest → Ending → Outcome
outcome exit sent ending = record { exit = exit; sent = sent; ending = ending }

-- The file of an import, `-` being the standard input.
unfoldable pub import_source : World → Str → Option (Option Str)
import_source w file = if eqb file (codes "-") then some w.stdin else w.open_file file

abbrev pub import_planned : World → Url → Bool → Result DecodeError Envelope → Plan
import_planned w base apply (err e) = refused (import_refused e)
import_planned w base apply (ok envelope) =
    planned (import_action w.escape base w.token envelope (not apply))

abbrev pub plan_import : World → Url → Bool → Option (Option Str) → Plan
plan_import w base apply none = refused open_import_file
plan_import w base apply (some payload) =
    import_planned w base apply (decode w.backup w.readable payload)

-- The switch on the command's name.
unfoldable pub plan_at : World → Command → Url → Plan
plan_at w c base =
    if eqb c.name (codes "create")
    then planned (create_action w.escape base w.token c.slug c.destination c.expires_at)
    else if eqb c.name (codes "list")
    then planned (list_action w.escape base w.token)
    else if eqb c.name (codes "export")
    then planned (export_action w.escape base w.token)
    else if eqb c.name (codes "import")
    then plan_import w base c.apply (import_source w c.file)
    else if eqb c.name (codes "get")
    then planned (get_action w.escape base w.token c.slug)
    else if eqb c.name (codes "update")
    then planned (update_action w.escape base w.token c.slug c.destination)
    else if eqb c.name (codes "disable")
    then planned (disable_action w.escape base w.token c.slug)
    else if eqb c.name (codes "expire")
    then planned (expiration_action w.escape base w.token c.slug (some c.expires_at))
    else if eqb c.name (codes "unexpire")
    then planned (expiration_action w.escape base w.token c.slug none)
    else if eqb c.name (codes "delete")
    then planned (delete_action w.escape base w.token c.slug)
    else nothing_to_do

-- Every accepted command has a base URL.
abbrev pub plan_of : World → Command → Option Url → Plan
plan_of w c none = nothing_to_do
plan_of w c (some base) = plan_at w c base

abbrev pub finish_run : World → List ClientRequest → Result ClientError ClientValue → Outcome
finish_run w sent (err e) = outcome 1 sent (not_done e)
finish_run w sent (ok value) =
    if w.can_write then outcome 0 sent (shown value) else outcome 1 sent not_written

unfoldable pub run_plan : World → Plan → Outcome
run_plan w nothing_to_do = outcome 0 [] no_command
run_plan w (refused e) = outcome 1 [] (not_imported e)
run_plan w (planned a) =
    finish_run w (a.sent ∷ [])
      (body_of a.expected (w.exchange a.sent) >>= read_value w.json w.backup w.readable a.reading)

abbrev pub if_confirmed : World → Plan → Option Bool → Outcome
if_confirmed w plan none = outcome 1 [] confirmation_failed
if_confirmed w plan (some false) = outcome 1 [] cancelled
if_confirmed w plan (some true) = run_plan w plan

unfoldable pub confirmed : Unicode → World → Str → Option Bool
unfolding terminal_confirm
confirmed uni w slug = elim w.confirm [
  | none ↦ terminal_confirm uni w.terminal
  | some confirm ↦ confirm slug
]

abbrev pub needs_confirmation : Command → Bool
needs_confirmation c = eqb c.name (codes "delete") && not c.force

unfoldable pub run_command : Unicode → World → Command → Outcome
unfolding run_plan confirmed
run_command uni w c =
    if needs_confirmation c
    then if_confirmed w (plan_of w c c.base_url) (confirmed uni w c.slug)
    else run_plan w (plan_of w c c.base_url)

abbrev pub with_token : Unicode → World → Command → Outcome
with_token uni w c = if is_empty w.token then outcome 2 [] token_required else run_command uni w c

abbrev pub run_parsed : Unicode → World → Result ArgumentError Command → Outcome
run_parsed uni w (err e) = outcome 2 [] (bad_arguments e)
run_parsed uni w (ok c) = with_token uni w c

unfoldable pub run : Unicode → Net → World → List Str → Outcome
unfolding run_command
run uni net w args = run_parsed uni w (parse_command uni net w.environment args)
