-- ===== src/Net/Client/Examples.antt =====
-- Runs of the theorems on the HTTP client.
use shelf_remote.Net.Client.Retries.{sends, run-sends}
use shelf_remote.Net.Client.Calls.{
  owed, Input, run, call, finish, calls, run-calls, new_token, refreshed, point_at,
}
use shelf_remote.Prelude.{refl, true, false, none, [], List, ◌≤◌, ◌≡◌, ◌+◌, ◌∷◌, ◌*◌}
use shelf_remote.Net.Client.{Client, Url}

abbrev here : Url
here = record {
  scheme = "https";
  host = "books";
  port = none;
  path = [];
  query = [];
  fragment = [];
}

abbrev quiet : Client
quiet = record { base = here; access_token = "t1"; epoch = 0; active = []; waiting = []; out = [] }

-- Two calls: the first is refused, refreshed and sent again, and the server changes.
abbrev traffic : List Input
traffic =
    call 7 false
    ∷ call 8 true
    ∷ finish 1 401 false
    ∷ new_token "t2"
    ∷ refreshed 0 true
    ∷ point_at false here
    ∷ []

run-calls_example : owed 7 (run traffic quiet) ≡ owed 7 quiet + calls 7 traffic
run-calls_example = run-calls 7 traffic quiet

run-sends_example : sends 7 (run traffic quiet).out ≤ 2 * calls 7 traffic
run-sends_example = run-sends 7 traffic quiet refl refl refl
