-- ===== src/Auth/Manager/Login.antt =====
-- src/auth/AuthManager.cpp: the choice of a server, the sign-in by password, the check of the tokens,
-- and signing out.
use shelf_remote.Net.Endpoints.{Url}
use shelf_remote.Auth.Manager.{
  Message, User, Auth, somebody, after_tokens, emit, stop_waiting_for_keyring, set_state, nobody,
  session_ending, needs_login, cookies_cleared, posted_login, authenticating, not_verified,
  bad_password, opened_browser, base_url, set_error, posted_logout, unlogged, login_failed,
  unreachable, no_access_token, clear_error, set_last_error, user_id, server_text,
  auth_methods_changed, signed_in, authorize_and_finish, posted_status, authenticated,
  status_changed, checking, error_changed, no_message,
}
use shelf_remote.Prelude.{
  none, some, [], String, Bool, Chars, ℕ, Option, List, if◌then◌else◌, not, is_empty, is_blank,
  ◌||◌, ◌==◌, ◌∷◌,
}
use shelf_remote.Auth.TokenStore.{
  set_account, set_tokens, persist, either_text, clear, set_server_key, reset_memory,
}

unfoldable pub check_server : (Url → String) → Url → Auth → Auth
check_server id_for_url url a =
    let q =
      emit cookies_cleared
        (emit (base_url url) (record (stop_waiting_for_keyring a) { base = url })) in
    let t = set_account "" (set_server_key (id_for_url url) (reset_memory (unlogged q.tokens))) in
    let r = after_tokens t q in
    emit posted_status
      (set_state checking (emit error_changed (record r { last_error = no_message })))

-- The reply to /status.
pub record StatusReply : Type 0 where
  pub stale : Bool
  pub ok : Bool
  pub error_string : String
  pub server_version : Option String
  pub auth_methods : List String
  pub button_text : Option String

abbrev text_or : String → Option String → String
text_or default none = default
text_or default (some s) = s

unfoldable pub on_status_reply : StatusReply → Auth → Auth
on_status_reply res a =
    if res.stale
    then a
    else if not res.ok
    then set_error (if is_blank res.error_string then unreachable else server_text res.error_string)
        a
    else set_state needs_login (
        emit auth_methods_changed (
          emit status_changed (record a {
            server_version = text_or "" res.server_version;
            auth_methods = if is_empty res.auth_methods then "local" ∷ [] else res.auth_methods;
            oidc_button_text = text_or a.oidc_button_text res.button_text;
          })))

unfoldable pub login_local : String → String → Auth → Auth
login_local username password a =
    emit (posted_login username password) (set_state authenticating (clear_error a))

-- The reply to /login and to the exchange of a code: tokens at the root, or else under "user".
pub record LoginReply : Type 0 where
  pub stale : Bool
  pub ok : Bool
  pub status : ℕ
  pub root_access : Option Chars
  pub user_access : Option Chars
  pub root_refresh : Option Chars
  pub user_refresh : Option Chars
  pub user : User
  pub root_id : Option String

abbrev user_or : User → Option String → User
user_or nobody root_id = somebody root_id
user_or (somebody id) root_id = somebody id

unfoldable pub apply_login_payload : (Chars → Option ℕ) → LoginReply → Auth → Auth
apply_login_payload payload_exp res a =
    let access = either_text res.root_access res.user_access in
    let refresh = either_text res.root_refresh res.user_refresh in
    if is_empty access
    then set_error no_access_token a
    else let t = set_account (user_id res.user) (unlogged a.tokens) in
      let q = after_tokens (set_tokens payload_exp access refresh t) a in
      authorize_and_finish (record q { user = user_or res.user res.root_id })

unfoldable pub refuse_login : Message → Auth → Auth
refuse_login m a = set_state needs_login (emit (login_failed m) (set_last_error m a))

unfoldable pub on_login_reply : (Chars → Option ℕ) → LoginReply → Auth → Auth
on_login_reply payload_exp res a =
    if res.stale
    then a
    else if not res.ok
    then refuse_login bad_password a
    else apply_login_payload payload_exp res a

-- The reply to /api/authorize.
pub record AuthorizeReply : Type 0 where
  pub stale : Bool
  pub ok : Bool
  pub status : ℕ
  pub user : User

unfoldable pub drop_tokens : Auth → Auth
drop_tokens a = after_tokens (clear (unlogged a.tokens)) a

abbrev pub known : User → User → User
known nobody old = old
known (somebody id) old = somebody id

unfoldable pub bind_account : String → Auth → Auth
bind_account id a =
    if is_blank id then a else after_tokens (persist (set_account id (unlogged a.tokens))) a

unfoldable pub on_authorize_reply : AuthorizeReply → Auth → Auth
on_authorize_reply res a =
    if res.stale
    then a
    else if not res.ok
    then refuse_login not_verified
        (if res.status == 401 || res.status == 403 then drop_tokens a else a)
    else let user = known res.user a.user in
      let q = bind_account (user_id user) (record a { user = user }) in
      emit (signed_in user) (set_state authenticated (clear_error q))

-- The reply to /logout is read for one page to open, and changes nothing.
unfoldable pub logout : Auth → Auth
logout a =
    let q = stop_waiting_for_keyring (emit session_ending a) in
    let r = drop_tokens q in
    emit (posted_logout q.tokens.refresh_token) (set_state needs_login (record r { user = nobody }))

unfoldable pub on_logout_reply : Bool → Chars → Auth → Auth
on_logout_reply stale idp_logout a =
    if stale || is_empty idp_logout then a else emit (opened_browser idp_logout) a
