-- ===== src/Examples/Runs.antt =====
-- Examples for the runs of cmd/gottem.
use gottem_link.Base.{true, false, none, some, [], ◌∷◌, codes}
use gottem_link.Examples.{ascii, net, docs}
use gottem_link.Examples.Backups.{json}
use gottem_link.Client.Requests.{ClientJson}
use gottem_link.Client.Run.{World, run}
use gottem_link.Client.Run.Sends.{Ran, run-Ran}

abbrev client_json : ClientJson
client_json = record {
  decode_redirect = λ body. none;
  decode_list = λ body. some [];
  decode_raw = λ body. some body;
  decode_counts = λ body. none;
}

-- A server that has deleted what it was asked to, and a person who agrees.
abbrev agreed : World
agreed = record {
  environment = codes "https://gottem.link";
  token = codes "secret";
  confirm = none;
  terminal = record {
    is_char_device = some true;
    line = codes "Yes";
    read_failed = false;
    trim_space = λ s. s;
  };
  open_file = λ file. none;
  stdin = none;
  exchange = λ sent. some (record { status = 204; body = some [] });
  can_write = true;
  json = client_json;
  backup = json;
  readable = λ t. true;
  escape = λ s. s;
}

run-Ran_example :
    Ran ascii net agreed
      (codes "delete" ∷ docs ∷ [])
      (run ascii net agreed (codes "delete" ∷ docs ∷ []))
run-Ran_example = run-Ran ascii net agreed (codes "delete" ∷ docs ∷ [])
