-- ===== src/Auth/Manager/Examples.antt =====
-- Runs of the theorems on the sign-in.
use shelf_remote.Auth.Manager.OwnRun.{run-IsOwn}
use shelf_remote.Auth.Manager.Oidc.{begin_oidc, on_oauth_callback, exchange_code, on_oidc_timeout}
use shelf_remote.Auth.Manager.Exchange.{is_own, all_began}
use shelf_remote.Auth.Manager.Admission.{run-IsOutside, ever_accepts, accepts}
use shelf_remote.Auth.Manager.Keyring.{Waited, retries, retries-end}
use shelf_remote.Auth.Manager.Restore.{Attempt, retry_seconds, restore_session}
use shelf_remote.Auth.Manager.Login.{
  LoginReply, check_server, login_local, on_login_reply, apply_login_payload, on_authorize_reply,
  bind_account,
}
use shelf_remote.Auth.Manager.Outside.{IsOutside}
use shelf_remote.Auth.Manager.Steps.{
  run, Linked, step, Input, server_chosen, password_given, cancelled, login_replied,
  authorize_replied, browser_asked, called_back, oidc_timed_out,
}
use shelf_remote.Prelude.{
  refl, true, false, none, some, arith, [], List, ◌∷◌, codes, get_elem?, ◌≡◌,
}
use shelf_remote.Auth.Manager.{
  Auth, Url, after_tokens, authorize_and_finish, cancel_auth, clear_error, disconnected, hear,
  hear_all, no_message, nobody, set_notice, set_state, somebody, stop_waiting_for_keyring,
  authenticated, set_last_error, state_changed, error_changed, posted_exchange, posted_openid,
}
use shelf_remote.Auth.TokenStore.{
  Tokens, provider_unavailable, set_account, set_server_key, set_tokens, persist, reset_memory,
  expiry_from_jwt, payload_of, before_point,
}

abbrev home : Url
home = record { scheme = "https"; host = "h"; port = none; path = []; query = []; fragment = [] }

abbrev no_tokens : Tokens
no_tokens = record {
  server_key = "";
  account = "";
  access = [];
  refresh_token = [];
  expiry = none;
  refreshing = false;
  pending = [];
  bearer = [];
  out = [];
}

abbrev start : Auth
start = record {
  state = disconnected;
  auth_methods = [];
  oidc_button_text = "Login with OpenID";
  server_version = "";
  last_error = no_message;
  is_waiting = false;
  user = nobody;
  pkce = record { code_verifier = ""; state = "" };
  oidc_in_progress = false;
  oidc_timeout = false;
  keyring_retry = none;
  restore_url = home;
  restore_key = "";
  keyring_attempts = 0;
  keyring_unavailable = false;
  base = home;
  tokens = no_tokens;
  out = [];
}

abbrev linked : Linked
linked = record {
  payload_exp = λ payload. none;
  id_for_url = λ url. url.host;
  challenge_of = λ verifier. verifier;
}

abbrev accepted_login : LoginReply
accepted_login = record {
  stale = false;
  ok = true;
  status = 200;
  root_access = some (codes "a.b.c");
  user_access = none;
  root_refresh = some (codes "r");
  user_refresh = none;
  user = somebody (some "u1");
  root_id = none;
}

-- A password is accepted, and the server then refuses the tokens.
abbrev refused : List Input
refused =
    server_chosen home
    ∷ password_given "n" "p"
    ∷ login_replied accepted_login
    ∷ authorize_replied (record { stale = false; ok = false; status = 401; user = nobody })
    ∷ []

run-IsOutside_example : IsOutside (run linked refused start)
run-IsOutside_example =
    run-IsOutside linked refused start (unfold ever_accepts accepts in refl) refl

abbrev away : Attempt
away = record { now = 10; skew = 5; account = "u1"; saved = provider_unavailable }

abbrev six : List Attempt
six = away ∷ away ∷ away ∷ away ∷ away ∷ away ∷ []

retries-end_example :
    Waited 6
      (get_elem? retry_seconds 6)
      (retries linked.payload_exp six (restore_session linked.payload_exp away home "k1" start).0)
retries-end_example =
    retries-end linked.payload_exp away six home "k1" start refl
      (refl, (refl, (refl, (refl, (refl, (refl, tt)))))) refl (omega arith)

-- The reply to a password that comes after the user has cancelled signs in all the same.
abbrev cancelled_login : List Input
cancelled_login =
    server_chosen home
    ∷ password_given "n" "p"
    ∷ cancelled
    ∷ login_replied accepted_login
    ∷ authorize_replied (record { stale = false; ok = true; status = 200; user = nobody })
    ∷ []

late_login : (run linked cancelled_login start).state ≡ authenticated
unfolding run step check_server login_local cancel_auth on_login_reply apply_login_payload
    on_authorize_reply after_tokens hear_all hear set_state set_notice clear_error
    stop_waiting_for_keyring authorize_and_finish set_account set_server_key set_tokens persist
    reset_memory bind_account expiry_from_jwt payload_of before_point
late_login = refl

-- A sign-in by the browser, its callback, and a callback that nobody asked for.
abbrev by_browser : List Input
by_browser =
    browser_asked (record { code_verifier = "v"; state = "s" })
    ∷ called_back "code" "s" ""
    ∷ oidc_timed_out
    ∷ called_back "other" "t" ""
    ∷ []

run-IsOwn_example :
    let q = run linked by_browser start in
    is_own linked.challenge_of q.oidc_in_progress q.pkce q.out ≡ true
run-IsOwn_example = run-IsOwn linked by_browser start (unfold is_own all_began in refl)

-- One exchange is posted in it.
one_exchange : (run linked by_browser start).out ≡ (
    state_changed
    ∷ error_changed
    ∷ posted_exchange "s" "code" "v"
    ∷ posted_openid "v" "s"
    ∷ state_changed
    ∷ [])
unfolding run step begin_oidc on_oauth_callback exchange_code on_oidc_timeout set_state clear_error
    set_last_error
one_exchange = refl
