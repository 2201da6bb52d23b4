-- ===== src/Auth/TokenStore.antt =====
-- src/auth/TokenStore.h and .cpp: the tokens of the active server, and the one refresh in flight.
-- Both objects that it is given, the HTTP client and the secret store, are there. A waiter is the name
-- of a callback; to run it is an entry of the log, and what it does is a later step. What base64 and
-- JSON make of the payload of a token is a parameter; the answer of the secret store is an argument.
use shelf_remote.Prelude.{
  ℕ, true, false, none, some, [], ◌∷◌, if◌then◌else◌, Chars, Option, Bool, String, leb, List,
  is_blank, is_empty, ◌==◌, ◌||◌, not, ◌++◌, ◌&&◌, str_eq, ◌+◌,
}

-- What others see, newest first: the signals, the calls of the secret store, the request of a refresh
-- with the token it carries, and the callbacks that are run.
pub data Notice : Type 0 where
  tokens_changed refresh_failed secrets_unreadable secrets_unavailable : Notice
  stored : String → String → Chars → Chars → Notice
  removed : String → Notice
  posted_refresh : Chars → Notice
  settled : ℕ → Bool → Notice

pub record Tokens : Type 0 where
  pub server_key : String
  pub account : String
  pub access : Chars
  pub refresh_token : Chars
  pub expiry : Option ℕ
  pub refreshing : Bool
  pub pending : List ℕ
  pub bearer : Chars
  pub out : List Notice

-- The text between the first point and the second, if there is a point.
unfoldable pub before_point : Chars → Chars
before_point [] = []
before_point (c ∷ cs) = let rest = before_point cs in if c == b'.' then [] else c ∷ rest

unfoldable pub payload_of : Chars → Option Chars
payload_of [] = none
payload_of (c ∷ cs) = let rest = payload_of cs in if c == b'.' then some (before_point cs) else rest

-- `payload_exp` is the claim "exp" of the decoded payload, in seconds.
unfoldable pub expiry_from_jwt : (Chars → Option ℕ) → Chars → Option ℕ
expiry_from_jwt payload_exp jwt = elim (payload_of jwt) [
  | none ↦ none
  | some payload ↦ payload_exp payload
]

unfoldable pub needs_refresh : ℕ → ℕ → Tokens → Bool
needs_refresh now skew t = elim t.expiry [ none ↦ false | some e ↦ leb e (now + skew) ]

unfoldable pub has_tokens : Tokens → Bool
has_tokens t = not (is_empty t.access) && not (is_empty t.refresh_token)

abbrev pub notify : Notice → Tokens → Tokens
notify n t = record t { out = n ∷ t.out }

unfoldable pub set_server_key : String → Tokens → Tokens
set_server_key key t = record t { server_key = key }

unfoldable pub set_account : String → Tokens → Tokens
set_account account t = record t { account = account }

unfoldable pub persist : Tokens → Tokens
persist t =
    if is_blank t.server_key
    then t
    else notify (stored t.server_key t.account t.access t.refresh_token) t

unfoldable pub set_tokens : (Chars → Option ℕ) → Chars → Chars → Tokens → Tokens
unfolding persist
set_tokens payload_exp access refresh t = notify tokens_changed (
    persist (record t {
      access = access;
      refresh_token = refresh;
      expiry = expiry_from_jwt payload_exp access;
      bearer = access;
    }))

abbrev forgotten : Tokens → Tokens
forgotten t = record t { access = []; refresh_token = []; expiry = none; bearer = [] }

unfoldable pub clear : Tokens → Tokens
clear t =
    let q = forgotten t in
    notify tokens_changed (if is_blank t.server_key then q else notify (removed t.server_key) q)

unfoldable pub reset_memory : Tokens → Tokens
reset_memory t = notify tokens_changed (forgotten t)

-- What `SecureStore::retrieve` answers, with the two texts that the blob holds when there is one.
pub data Retrieved : Type 0 where
  found : Option Chars → Option Chars → Retrieved
  missing undecryptable provider_unavailable : Retrieved

abbrev or_empty : Option Chars → Chars
or_empty none = []
or_empty (some s) = s

-- What `load` does with an answer; its result is `has_tokens` after `found`, and else false.
unfoldable pub on_retrieved : (Chars → Option ℕ) → Retrieved → Tokens → Tokens × Bool
unfolding has_tokens
on_retrieved payload_exp missing t = (t, false)
on_retrieved payload_exp undecryptable t =
    (notify secrets_unreadable (notify (removed t.server_key) t), false)
on_retrieved payload_exp provider_unavailable t = (notify secrets_unavailable t, false)
on_retrieved payload_exp (found a r) t =
    let access = or_empty a in
    let q = record t {
      access = access;
      refresh_token = or_empty r;
      expiry = expiry_from_jwt payload_exp access;
      bearer = if is_empty access then t.bearer else access;
    } in
    (q, has_tokens q)

unfoldable pub load : (Chars → Option ℕ) → Retrieved → Tokens → Tokens × Bool
load payload_exp r t = if is_blank t.server_key then (t, false) else on_retrieved payload_exp r t

-- The callbacks run in the order in which they were left, so the last is the newest notice.
unfoldable pub settle_all : Bool → List ℕ → List Notice → List Notice
settle_all ok [] out = out
settle_all ok (w ∷ ws) out = settle_all ok ws (settled w ok ∷ out)

unfoldable pub settle : Bool → Tokens → Tokens
settle ok t = record t { refreshing = false; pending = []; out = settle_all ok t.pending t.out }

-- `refresh`; a call without a callback is not made anywhere.
unfoldable pub refresh : ℕ → Tokens → Tokens
refresh w t =
    if is_empty t.refresh_token
    then notify (settled w false) t
    else let q = record t { pending = t.pending ++ w ∷ [] } in
      if t.refreshing
      then q
      else notify (posted_refresh t.refresh_token) (record q { refreshing = true })

-- The reply to a refresh, with the texts that the code reads: at the root, else under "user".
pub record RefreshReply : Type 0 where
  pub stale : Bool
  pub ok : Bool
  pub status : ℕ
  pub root_access : Option Chars
  pub user_access : Option Chars
  pub root_refresh : Option Chars
  pub user_refresh : Option Chars

abbrev pub either_text : Option Chars → Option Chars → Chars
either_text none user = or_empty user
either_text (some s) user = s

abbrev pub is_refusal : ℕ → Bool
is_refusal status = status == 400 || (status == 401 || status == 403)

-- `key` is the server key at the time of the request.
unfoldable pub on_refresh_reply : (Chars → Option ℕ) → String → RefreshReply → Tokens → Tokens
on_refresh_reply payload_exp key res t =
    if res.stale || not (str_eq key t.server_key)
    then settle false t
    else if not res.ok
    then settle false (if is_refusal res.status then notify refresh_failed t else t)
    else let access = either_text res.root_access res.user_access in
      let rotated = either_text res.root_refresh res.user_refresh in
      let kept = if is_empty rotated then t.refresh_token else rotated in
      if is_empty access
      then settle false (notify refresh_failed t)
      else settle true (set_tokens payload_exp access kept t)
