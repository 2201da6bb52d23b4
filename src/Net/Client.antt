-- ===== src/Net/Client.antt =====
-- src/net/ApiClient.h and .cpp: the requests in flight, the epoch of the base URL, and the one retry
-- after a refresh of the token. A call is named by its callback. What QNetworkAccessManager does with a
-- request is an input: its reply. The refresh handler is installed, and answers by an input too.
pub mod Calls
pub mod Retries
pub mod Examples
use shelf_remote.Net.Endpoints.{Url}
use shelf_remote.Prelude.{
  ℕ, true, false, [], String, ◌∷◌, Bool, List, if◌then◌else◌, not, ◌&&◌, ◌==◌, ◌+◌, str_eq, leb,
  ◌||◌, ltb,
}

-- A request in flight, or one that waits for the refresh that its 401 has started.
pub record Flight : Type 0 where
  pub callback : ℕ
  pub no_auth_retry : Bool
  pub allow_retry : Bool
  pub epoch : ℕ

pub record Response : Type 0 where
  pub status : ℕ
  pub ok : Bool
  pub stale : Bool

-- A request that goes out, with the epoch at that time and the token of its header, and a callback run.
pub data Notice : Type 0 where
  sent : Flight → ℕ → String → Notice
  delivered : ℕ → Response → Notice
  token_changed : Notice

pub record Client : Type 0 where
  pub base : Url
  pub access_token : String
  pub epoch : ℕ
  pub active : List Flight
  pub waiting : List Flight
  pub out : List Notice

unfoldable pub set_access_token : String → Client → Client
set_access_token token c =
    if str_eq c.access_token token
    then c
    else record c { access_token = token; out = token_changed ∷ c.out }

-- `sendImpl`: the epoch is that of the time of sending.
unfoldable pub send_impl : ℕ → Bool → Bool → Client → Client
send_impl callback no_auth_retry allow_retry c =
    let f : Flight = record {
      callback = callback;
      no_auth_retry = no_auth_retry;
      allow_retry = allow_retry;
      epoch = c.epoch;
    } in
    record c { active = f ∷ c.active; out = sent f c.epoch c.access_token ∷ c.out }

unfoldable pub send : ℕ → Bool → Client → Client
unfolding send_impl
send callback no_auth_retry c = send_impl callback no_auth_retry true c

unfoldable pub deliver : Flight → Response → Client → Client
deliver f res c = record c { out = delivered f.callback res ∷ c.out }

-- The success that `buildResponse` reads: a status of 2xx and no transport error.
unfoldable pub is_ok : Bool → ℕ → Bool
is_ok error status = not error && (leb 200 status && ltb status 300)

-- The slot of `finished`, for a request that has left `active`.
unfoldable pub on_finished : Flight → ℕ → Bool → Client → Client
unfolding deliver is_ok
on_finished f status error c =
    let stale = not (f.epoch == c.epoch) in
    if status == 401 && (f.allow_retry && (not f.no_auth_retry && not stale))
    then record c { waiting = f ∷ c.waiting }
    else deliver f (record { status = status; ok = is_ok error status; stale = stale }) c

-- The abort of every request in flight: each ends at once, with a transport error and no status. The
-- epoch has moved on, so none of them is retried.
unfoldable pub abort_all : List Flight → Client → Client
abort_all [] c = c
abort_all (f ∷ fs) c = abort_all fs (on_finished f 0 true c)

-- `same` is the comparison of the two base URLs; `chopped` is what `Endpoints::setBase` makes of the
-- new one.
unfoldable pub set_base_url : Bool → Url → Client → Client
set_base_url same chopped c =
    if same
    then c
    else let q = record c { base = chopped; epoch = c.epoch + 1; active = [] } in
      abort_all c.active q

-- The answer of the refresh handler to the 401 of `f`.
unfoldable pub on_refreshed : Flight → Bool → Client → Client
on_refreshed f refreshed c =
    let stale = not (f.epoch == c.epoch) in
    if not refreshed || stale
    then deliver f (record { status = 401; ok = false; stale = stale }) c
    else send_impl f.callback f.no_auth_retry false c
