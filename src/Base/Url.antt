-- ===== src/Base/Url.antt =====
-- What the program uses of the packages net/url and net. Their parsers are parameters.
use gottem_link.Base.{Str, Bool, Option}

-- The fields of a parsed URL, `hostname`, `port` and `escaped_path` being what its methods of these
-- names return.
pub record Url : Type 0 where
  pub scheme : Str
  pub opaque : Str
  pub has_user : Bool
  pub host : Str
  pub hostname : Str
  pub port : Str
  pub path : Str
  pub escaped_path : Str
  pub force_query : Bool
  pub raw_query : Str
  pub fragment : Str

pub record Net : Type 0 where
  -- url.Parse, `none` for an error
  pub parse_url : Str → Option Url
  -- net.ParseIP, with what IsLoopback says of the address
  pub parse_ip : Str → Option Bool
