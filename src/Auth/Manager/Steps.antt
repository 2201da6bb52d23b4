-- ===== src/Auth/Manager/Steps.antt =====
-- src/auth/AuthManager.cpp: what can happen to the sign-in, one step at a time.
use shelf_remote.Auth.Manager.Restore.{Attempt, restore_session, on_keyring_retry}
use shelf_remote.Auth.Manager.Oidc.{
  begin_oidc, OpenidReply, on_openid_reply, on_oauth_callback, on_exchange_reply, on_oidc_timeout,
}
use shelf_remote.Auth.Manager.Login.{
  check_server, on_status_reply, StatusReply, login_local, LoginReply, on_login_reply,
  AuthorizeReply, on_authorize_reply, logout, on_logout_reply,
}
use shelf_remote.Prelude.{suc, [], List, Chars, Option, ◌∷◌, ℕ, String, Bool}
use shelf_remote.Auth.Manager.{cancel_auth, Auth, Url, Pkce, cancel_auth, after_tokens, unlogged}
use shelf_remote.Auth.TokenStore.{RefreshReply, refresh, on_refresh_reply}

-- What the program is linked with: the claim "exp" of a token's payload, the key of a server, and the
-- challenge of a verifier.
pub record Linked : Type 0 where
  pub payload_exp : Chars → Option ℕ
  pub id_for_url : Url → String
  pub challenge_of : String → String

pub data Input : Type 0 where
  server_chosen : Url → Input
  status_replied : StatusReply → Input
  password_given : String → String → Input
  login_replied : LoginReply → Input
  browser_asked : Pkce → Input
  openid_replied : OpenidReply → Input
  called_back : String → String → String → Input
  exchange_replied : LoginReply → Input
  oidc_timed_out : Input
  authorize_replied : AuthorizeReply → Input
  signed_out cancelled : Input
  logout_replied : Bool → Chars → Input
  restored : Attempt → Url → String → Input
  keyring_retried : Attempt → Input
  refresh_asked : ℕ → Input
  refresh_replied : String → RefreshReply → Input

-- The refreshes that the HTTP client asks for pass by the sign-in but for their signals; its callbacks
-- have names above 0.
unfoldable pub step : Linked → Input → Auth → Auth
step x (server_chosen url) a = check_server x.id_for_url url a
step x (status_replied res) a = on_status_reply res a
step x (password_given name password) a = login_local name password a
step x (login_replied res) a = on_login_reply x.payload_exp res a
step x (browser_asked p) a = begin_oidc x.challenge_of p a
step x (openid_replied res) a = on_openid_reply res a
step x (called_back code st failure) a = on_oauth_callback code st failure a
step x (exchange_replied res) a = on_exchange_reply x.payload_exp res a
step x oidc_timed_out a = on_oidc_timeout a
step x (authorize_replied res) a = on_authorize_reply res a
step x signed_out a = logout a
step x cancelled a = cancel_auth a
step x (logout_replied stale page) a = on_logout_reply stale page a
step x (restored e url key) a = (restore_session x.payload_exp e url key a).0
step x (keyring_retried e) a = on_keyring_retry x.payload_exp e a
step x (refresh_asked w) a = after_tokens (refresh (suc w) (unlogged a.tokens)) a
step x (refresh_replied key res) a =
    after_tokens (on_refresh_reply x.payload_exp key res (unlogged a.tokens)) a

unfoldable pub run : Linked → List Input → Auth → Auth
run x [] a = a
run x (i ∷ is) a = run x is (step x i a)
