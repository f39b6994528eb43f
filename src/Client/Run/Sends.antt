-- ===== src/Client/Run/Sends.antt =====
-- What `run` of cmd/gottem/output.go sends.
use gottem_link.Base.{
  ℕ, Str, Bool, true, false, Option, if◌then◌else◌, none, some, List, [], ◌∷◌, Result, ok, err, eqb,
  is_empty, Unicode, Bool-cases, Result-cases, inl, inr, ◌≡◌, ◌∙◌, refl, sym, subst, ap,
}
use gottem_link.Base.Url.{Url, Net}
use gottem_link.Client.Arguments.{Command, parse_command}
use gottem_link.Client.Arguments.Printed.{
  Invocation, create, list, export, import_file, get, disable, unexpire, update, expire, delete,
  IsFilled,
}
use gottem_link.Client.Arguments.Accepted.{parse_command_complete}
use gottem_link.Client.BaseUrl.Origin.{IsOrigin}
use gottem_link.Client.Requests.{ClientRequest, ClientError, ClientValue}
use gottem_link.Client.Flags.{ArgumentError}
use gottem_link.Client.Run.Planned.{
  IsRequestOf, IsUnread, asked, Planned, to_send, not_sent, plan-Planned,
}
use gottem_link.Client.Run.{
  World, Plan, LocalError, Ending, not_done, not_imported, shown, not_written, bad_arguments,
  token_required, confirmation_failed, cancelled, Outcome, outcome, confirmed, plan_at, finish_run,
  run_plan, if_confirmed, run_command, with_token, run,
}

-- A deletion without --force is confirmed first.
abbrev pub IsAllowed : Unicode → World → Invocation → Type 0
IsAllowed uni w (delete false slug) = confirmed uni w slug ≡ some true
IsAllowed uni w i = Unit

module _ (uni : Unicode) (net : Net) (w : World) (args : List Str) where
  -- That the arguments are read as an invocation, with its options before the command.
  abbrev pub Asks : Invocation → Bool → Url → Type 0
  Asks i json base = parse_command uni net w.environment args ≡ ok (asked i json base)

  -- Why nothing is sent, with the status and the ending of the run.
  pub data Unsent : ℕ → Ending → Type 0 where
    unparsed :
        (e : ArgumentError)
        → parse_command uni net w.environment args ≡ err e
        → Unsent 2 (bad_arguments e)
    no_token : is_empty w.token ≡ true → Unsent 2 token_required
    not_asked :
        (slug : Str) (json : Bool) (base : Url)
        → Asks (delete false slug) json base
        → confirmed uni w slug ≡ none
        → Unsent 1 confirmation_failed
    not_agreed :
        (slug : Str) (json : Bool) (base : Url)
        → Asks (delete false slug) json base
        → confirmed uni w slug ≡ some false
        → Unsent 1 cancelled
    not_read :
        (i : Invocation) (json : Bool) (base : Url) (e : LocalError)
        → Asks i json base
        → IsUnread w i e
        → Unsent 1 (not_imported e)

  -- Either nothing is sent, for one of the reasons, or the one request that the arguments stand for.
  pub data Ran : Outcome → Type 0 where
    silent : (code : ℕ) (ending : Ending) → Unsent code ending → Ran (outcome code [] ending)
    sent_once :
        (i : Invocation) (json : Bool) (base : Url) (s : ClientRequest) (code : ℕ) (ending : Ending)
        → Asks i json base
        → IsAllowed uni w i
        → IsRequestOf w i base s
        → Ran (outcome code (s ∷ []) ending)

  finish_run-Ran :
      (i : Invocation) (json : Bool) (base : Url) (s : ClientRequest)
      (r : Result ClientError ClientValue)
      → Asks i json base
      → IsAllowed uni w i
      → IsRequestOf w i base s
      → Ran (finish_run w (s ∷ []) r)
  finish_run-Ran i json base s (err e) p k h = sent_once i json base s 1 (not_done e) p k h
  finish_run-Ran i json base s (ok value) p k h = written w.can_write
    where
      written :
          (can_write : Bool)
          → Ran (
              if can_write
              then outcome 0 (s ∷ []) (shown value)
              else outcome 1 (s ∷ []) not_written)
      written true = sent_once i json base s 0 (shown value) p k h
      written false = sent_once i json base s 1 not_written p k h

  plan-Ran :
      (i : Invocation) (json : Bool) (base : Url) (plan : Plan)
      → Asks i json base
      → IsAllowed uni w i
      → Planned w i base plan
      → Ran (run_plan w plan)
  unfolding run_plan
  plan-Ran i json base plan p k (to_send a h) = finish_run-Ran i json base a.sent _ p k h
  plan-Ran i json base plan p k (not_sent e h) =
      silent 1 (not_imported e) (not_read i json base e p h)

  confirmed-Ran :
      (slug : Str) (json : Bool) (base : Url) (answer : Option Bool)
      → confirmed uni w slug ≡ answer
      → Asks (delete false slug) json base
      → IsFilled (delete false slug)
      → Ran (if_confirmed w (plan_at w (asked (delete false slug) json base) base) answer)
  confirmed-Ran slug json base none e p f =
      silent 1 confirmation_failed (not_asked slug json base p e)
  confirmed-Ran slug json base (some false) e p f =
      silent 1 cancelled (not_agreed slug json base p e)
  confirmed-Ran slug json base (some true) e p f =
      plan-Ran (delete false slug) json base _ p e (plan-Planned w json base (delete false slug) f)

  command-Ran :
      (i : Invocation) (json : Bool) (base : Url)
      → Asks i json base
      → IsFilled i
      → Ran (run_command uni w (asked i json base))
  unfolding run_command eqb
  command-Ran (delete false slug) json base p f = confirmed-Ran slug json base _ refl p f
  command-Ran (delete true slug) json base p f =
      plan-Ran (delete true slug) json base _ p tt (plan-Planned w json base (delete true slug) f)
  command-Ran (create slug expires_at url) json base p f =
      plan-Ran (create slug expires_at url) json base _ p tt
        (plan-Planned w json base (create slug expires_at url) f)
  command-Ran list json base p f = plan-Ran list json base _ p tt (plan-Planned w json base list f)
  command-Ran export json base p f =
      plan-Ran export json base _ p tt (plan-Planned w json base export f)
  command-Ran (import_file apply file) json base p f =
      plan-Ran (import_file apply file) json base _ p tt
        (plan-Planned w json base (import_file apply file) f)
  command-Ran (get slug) json base p f =
      plan-Ran (get slug) json base _ p tt (plan-Planned w json base (get slug) f)
  command-Ran (disable slug) json base p f =
      plan-Ran (disable slug) json base _ p tt (plan-Planned w json base (disable slug) f)
  command-Ran (unexpire slug) json base p f =
      plan-Ran (unexpire slug) json base _ p tt (plan-Planned w json base (unexpire slug) f)
  command-Ran (update slug url) json base p f =
      plan-Ran (update slug url) json base _ p tt (plan-Planned w json base (update slug url) f)
  command-Ran (expire slug time) json base p f =
      plan-Ran (expire slug time) json base _ p tt (plan-Planned w json base (expire slug time) f)

  token-Ran :
      (c : Command) → parse_command uni net w.environment args ≡ ok c → Ran (with_token uni w c)
  token-Ran c p = elim (Bool-cases (is_empty w.token)) [
    | inl e ↦ rw e (silent 2 token_required (no_token e))
    | inr e ↦ rw e (of_invocation (parse_command_complete uni net w.environment args c p))
  ]
    where
      of_invocation :
          ((i : Invocation) × (json : Bool) × (url : Url) × (c ≡ asked i json url)
            × IsFilled i
            × IsOrigin uni url)
          → Ran (run_command uni w c)
      of_invocation (i, json, url, e, filled, origin) =
          subst (λ d. Ran (run_command uni w d)) (sym e)
            (command-Ran i json url (p ∙ ap ok e) filled)

  -- A run sends nothing and fails, where the arguments are not accepted, no token is set, a deletion
  -- without --force is not confirmed or a file cannot be imported; or it sends exactly one request, with
  -- the token: the one that the accepted arguments stand for, with its values as its path and payload,
  -- after a confirmation where it deletes without --force.
  pub run-Ran : Ran (run uni net w args)
  unfolding run
  run-Ran = elim (Result-cases (parse_command uni net w.environment args)) [
    | inl (c, p) ↦ rw p (token-Ran c p)
    | inr (e, p) ↦ rw p (silent 2 (bad_arguments e) (unparsed e p))
  ]
