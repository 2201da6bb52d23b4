-- ===== src/App/Start.antt =====
-- src/app/Application.cpp and src/app/UriHandler.cpp: which start of the program runs, and what becomes
-- of the URI that the desktop passes. The kernel's lock, the socket and `QUrl` are arguments.
pub mod Machine
use shelf_remote.Prelude.{
  true, false, none, some, [], List, Chars, Bool, String, not, Option, if◌then◌else◌, str_eq,
}
use shelf_remote.Prelude.{[], ◌∷◌}

-- What connecting to the first instance gave in one round of the loop; the text that was written, and
-- its acknowledgement, are only logged.
pub data Probe : Type 0 where
  no_answer connected : Probe

-- The rounds that fit in the three seconds.
unfoldable pub forward_to_primary : List Probe → Bool
forward_to_primary [] = false
forward_to_primary (Probe.connected ∷ probes) = true
forward_to_primary (Probe.no_answer ∷ probes) = forward_to_primary probes

pub data Lock : Type 0 where
  not_opened owned refused : Lock

pub record Guard : Type 0 where
  pub holds_lock : Bool
  pub is_listening : Bool

-- The answer is whether this start runs; the guard is what it then holds. `listens` is the answer of
-- the server's `listen`.
unfoldable pub acquire : Lock → List Probe → Bool → Bool × Guard
acquire not_opened probes listens =
    (not (forward_to_primary probes), record { holds_lock = false; is_listening = false })
acquire refused probes listens = (false, record { holds_lock = false; is_listening = false })
acquire owned probes listens = (true, record { holds_lock = true; is_listening = listens })

-- What `QUrl` and `QUrlQuery` read from a text, trimmed.
pub record UriParts : Type 0 where
  pub scheme : String
  pub host : String
  pub query_value : String → Chars

pub record Callback : Type 0 where
  pub code : Chars
  pub state : Chars
  pub error : Chars

-- `UriHandler::handle`: the signal `oauthCallback` when the answer is true.
unfoldable pub handle : String → UriParts → Option Callback
handle uri_scheme u =
    if not (str_eq u.scheme uri_scheme)
    then none
    else if str_eq u.host "oauth"
    then some (record {
      code = u.query_value "code";
      state = u.query_value "state";
      error = u.query_value "error";
    })
    else none
