-- ===== src/Examples.antt =====
-- Concrete parameters and data for the examples in the modules below.
pub mod Texts
pub mod Tables
pub mod Queues
pub mod Requests
pub mod Setup
pub mod Upgrades
pub mod Arguments
pub mod Backups
pub mod Runs
pub mod Codes
pub mod Peers
pub mod Sessions
use gottem_link.Base.{
  ℕ, Str, Bool, true, false, Option, none, some, List, [], ◌∷◌, if◌then◌else◌, codes, eqb, eqb_iff,
  eqb_refl, lower, ltb, length, has_prefix, trim_prefix, Unicode, ◌≡◌, refl, sym, ◌∙◌, ap,
}
use gottem_link.Base.Url.{Url, Net}
use gottem_link.Base.Int.{ℤ, pos}
use gottem_link.Db.Sql.{Sqlite, SqliteLaws, Call, Env}
use gottem_link.Db.Import.{str_lt}
use gottem_link.Db.Store.{Redirect, Store}

-- Texts of ASCII characters alone.
abbrev pub ascii : Unicode
ascii = record {
  map_lower = λ s. s;
  fold_eq = eqb;
  decode = λ s. some s;
  is_control = λ c. ltb c 32;
  is_space = λ c. ltb c 33;
  is_format = λ c. false;
}

-- URLs of the form https://host.
abbrev pub https_url : Str → Option Url
https_url s =
    if has_prefix s (codes "https://")
    then some (record {
      scheme = codes "https";
      opaque = [];
      has_user = false;
      host = trim_prefix s (codes "https://");
      hostname = trim_prefix s (codes "https://");
      port = [];
      path = [];
      escaped_path = [];
      force_query = false;
      raw_query = [];
      fragment = [];
    })
    else none

abbrev pub net : Net
net = record { parse_url = https_url; parse_ip = λ s. none }

-- A time is as late as its text is long.
abbrev pub sqlite : Sqlite
sqlite = record {
  nocase = λ a b. eqb (lower a) (lower b);
  nocase_lt = λ a b. str_lt (lower a) (lower b);
  julianday = λ s. some (length s);
}

pub sqlite_laws : SqliteLaws sqlite
sqlite_laws = record {
  nocase_refl = λ a. eqb_refl (lower a);
  nocase_sym = λ a b h. (eqb_iff (lower b) (lower a)).1 (sym ((eqb_iff (lower a) (lower b)).0 h));
  nocase_trans = λ a b c h k.
      (eqb_iff (lower a) (lower c)).1
        ((eqb_iff (lower a) (lower b)).0 h ∙ (eqb_iff (lower b) (lower c)).0 k);
  nocase_lower = λ a b h k. refl;
}

abbrev pub calm : Env
calm = record { now = codes "2025-01-02 03:04:05"; today = 10; fails = λ c. false }

abbrev pub docs : Str
docs = codes "docs"

abbrev pub shouted : Str
shouted = codes "DOCS"

abbrev pub go_dev : Str
go_dev = codes "https://go.dev"

abbrev pub docs_row : Redirect
docs_row = record {
  id = 1;
  slug = docs;
  url = go_dev;
  created_at = calm.now;
  updated_at = calm.now;
  disabled_at = none;
  expires_at = none;
  destination_updated_at = calm.now;
  click_count = 0;
  last_accessed_at = none;
}

abbrev pub no_rows_yet : Store
no_rows_yet = record { redirects = []; sequence = 0; misses = [] }

abbrev pub with_docs : Store
with_docs = record { redirects = docs_row ∷ []; sequence = 1; misses = [] }
