-- ===== src/Auth/SingleFlight.antt =====
-- One refresh at a time, and none of its callers forgotten.
use shelf_remote.Auth.Refresh.{
  times, run, posts, step, Input, answer, set_tokens-owed, ask, posts-settle_all, IsSettled,
  sign_in, runs, owed, asked, switch, run-owed, name_account, restore, sign_out, reset,
}
use shelf_remote.Prelude.{
  ℕ, some, none, sym, ap, ◌∙◌, empty_eq, refl, true, false, arith, [], if◌then◌else◌, Chars, ◌+◌,
  Option, Bool, ◌≡◌, String, List, ◌∷◌, if_elim, is_blank, ◌⊎◌, ◌||◌, not, ◌≢◌, str_eq, is_empty,
  inl, inr, eq_iff,
}
use shelf_remote.Auth.TokenStore.{
  Tokens, settle, on_refresh_reply, load, refresh, on_retrieved, set_tokens, persist, notify,
  Retrieved, refresh_failed, RefreshReply, found, clear, reset_memory, set_server_key, settle_all,
  tokens_changed, is_refusal, set_account, stored, either_text, missing, undecryptable,
  provider_unavailable,
}

abbrev pub busy : Tokens → ℕ
busy t = if t.refreshing then 1 else 0

-- The replies that end a refresh.
unfoldable pub ends : Input → Tokens → ℕ
ends (answer key res) t = busy t
ends i t = 0

unfoldable pub answered : (Chars → Option ℕ) → List Input → Tokens → ℕ
answered e [] t = 0
answered e (i ∷ is) t = ends i t + answered e is (step e i t)

-- The requests of `q` against those of `t`, of which `n` have ended.
abbrev Flight : ℕ → Tokens → Tokens → Type 0
Flight n t q = (posts q.out + busy t ≡ posts t.out + n + busy q) × (IsSettled t → IsSettled q)

settled-Flight :
    (ok : Bool) (t q : Tokens) → posts q.out ≡ posts t.out → Flight (busy t) t (settle ok q)
unfolding settle
settled-Flight ok t q same = (omega (arith, same, posts-settle_all ok q.pending q.out), λ s e. refl)

failed-Flight :
    (b : Bool) (t : Tokens)
    → Flight (busy t) t (settle false (if b then notify refresh_failed t else t))
unfolding posts
failed-Flight true t = settled-Flight false t (notify refresh_failed t) refl
failed-Flight false t = settled-Flight false t t refl

accepted-Flight :
    (e : Chars → Option ℕ) (a r : Chars) (t : Tokens)
    → Flight (busy t) t (settle true (set_tokens e a r t))
accepted-Flight e a r t = settled-Flight true t (set_tokens e a r t) (set_tokens-owed e 0 a r t).3

answer-Flight :
    (e : Chars → Option ℕ) (key : String) (res : RefreshReply) (t : Tokens)
    → Flight (busy t) t (on_refresh_reply e key res t)
unfolding on_refresh_reply
answer-Flight e key res t =
    if_elim (Flight (busy t) t) (res.stale || not (str_eq key t.server_key))
      (λ _. settled-Flight false t t refl)
      λ _.
        if_elim (Flight (busy t) t) (not res.ok) (λ _. failed-Flight (is_refusal res.status) t)
          λ _.
            if_elim (Flight (busy t) t) (is_empty (either_text res.root_access res.user_access))
              (λ _. failed-Flight true t) λ _. accepted-Flight e _ _ t

refresh-Flight : (w : ℕ) (t : Tokens) → Flight 0 t (refresh w t)
unfolding refresh posts
refresh-Flight w t = ground arith

load-Flight : (e : Chars → Option ℕ) (r : Retrieved) (t : Tokens) → Flight 0 t (load e r t).0
unfolding load on_retrieved posts
load-Flight e (found a r) t = ground arith
load-Flight e missing t = ground arith
load-Flight e undecryptable t = ground arith
load-Flight e provider_unavailable t = ground arith

set_tokens-Flight :
    (e : Chars → Option ℕ) (a r : Chars) (t : Tokens) → Flight 0 t (set_tokens e a r t)
set_tokens-Flight e a r t = ground (arith, set_tokens-owed e 0 a r t)

step-Flight : (e : Chars → Option ℕ) (i : Input) (t : Tokens) → Flight (ends i t) t (step e i t)
unfolding step ends posts
step-Flight e (ask v) t = refresh-Flight v t
step-Flight e (answer key res) t = answer-Flight e key res t
step-Flight e (sign_in a r) t = set_tokens-Flight e a r t
step-Flight e sign_out t = unfold clear in ground arith
step-Flight e reset t = unfold reset_memory in ground arith
step-Flight e (switch key) t = unfold set_server_key in ground arith
step-Flight e (name_account a) t = unfold set_account in ground arith
step-Flight e (restore r) t = load-Flight e r t

-- Over any history there is at most one refresh in flight: the requests posted are those that have
-- been answered, and one more exactly while a refresh runs.
pub run-single_flight :
    (e : Chars → Option ℕ) (is : List Input) (t : Tokens)
    → let q = run e is t in posts q.out + busy t ≡ posts t.out + answered e is t + busy q
unfolding run answered
run-single_flight e [] t = omega arith
run-single_flight e (i ∷ is) t =
    omega (arith, run-single_flight e is (step e i t), (step-Flight e i t).0)

run-IsSettled :
    (e : Chars → Option ℕ) (is : List Input) (t : Tokens) → IsSettled t → IsSettled (run e is t)
unfolding run
run-IsSettled e [] t s = s
run-IsSettled e (i ∷ is) t s = run-IsSettled e is (step e i t) ((step-Flight e i t).1 s)

-- After any history at whose end no refresh is in flight, every callback that was passed to `refresh`
-- has been run, and once for each time it was passed, provided that at the start no callback waited
-- without a refresh in flight.
pub run-answers_all :
    (e : Chars → Option ℕ) (w : ℕ) (is : List Input) (t : Tokens)
    → IsSettled t
    → (run e is t).refreshing ≡ false
    → runs w (run e is t).out ≡ owed w t + asked w is
unfolding times
run-answers_all e w is t s idle =
    let none_left = run-IsSettled e is t s idle in ground (arith, run-owed e w is t, none_left)

-- The text of a reply: at its root, or, where the root has none, under "user".
abbrev pub IsGiven : Option Chars → Option Chars → Chars → Type 0
IsGiven (some s) user text = s ≡ text
IsGiven none user text = user ≡ some text

-- The reply is a success for the server and the account of now, and gives an access token that is not
-- empty.
abbrev pub IsUsable : String → RefreshReply → Tokens → Type 0
IsUsable key res t =
    (res.stale ≡ false)
    × (key ≡ t.server_key)
    × (res.ok ≡ true)
    × ((a : Chars) × IsGiven res.root_access res.user_access a × (a ≢ []))

-- The refresh token is the one given; or none, or an empty one, is given and the one before is kept.
abbrev pub IsRotated : RefreshReply → Tokens → Chars → Type 0
IsRotated res t r =
    (IsGiven res.root_refresh res.user_refresh r × (r ≢ []))
    ⊎ ((r ≡ t.refresh_token)
        × ((given : Chars) → IsGiven res.root_refresh res.user_refresh given → given ≡ []))

-- The tokens stay as they are; or they are those of the reply, the client has the new bearer, and they
-- are saved under the key and the account of the server that was asked.
abbrev pub Outcome : String → RefreshReply → Tokens → Tokens → Type 0
Outcome key res t q =
    (¬ IsUsable key res t
      × (q.access ≡ t.access)
      × (q.refresh_token ≡ t.refresh_token)
      × (q.bearer ≡ t.bearer))
    ⊎ (IsUsable key res t
        × IsGiven res.root_access res.user_access q.access
        × IsRotated res t q.refresh_token
        × (q.bearer ≡ q.access)
        × (q.out
            ≡ settle_all true t.pending
                (tokens_changed ∷ stored key t.account q.access q.refresh_token ∷ t.out)))

IsGiven-either :
    (root user : Option Chars) (text : Chars)
    → IsGiven root user text
    → either_text root user ≡ text
IsGiven-either (some s) user text h = h
IsGiven-either none user text h = rw h refl

either-IsGiven :
    (root user : Option Chars)
    → either_text root user ≢ []
    → IsGiven root user (either_text root user)
either-IsGiven (some s) user h = refl
either-IsGiven none (some s) h = refl
either-IsGiven none none h = absurd (h refl)

unusable :
    (key : String) (res : RefreshReply) (t : Tokens)
    → either_text res.root_access res.user_access ≡ []
    → ¬ IsUsable key res t
unusable key res t h (fresh, same, accepted, (a, given, has)) =
    has (sym (IsGiven-either res.root_access res.user_access a given) ∙ h)

either-IsRotated :
    (res : RefreshReply) (t : Tokens)
    → let r = either_text res.root_refresh res.user_refresh in
      IsRotated res t (if is_empty r then t.refresh_token else r)
either-IsRotated res t =
    let r = either_text res.root_refresh res.user_refresh in
    if_elim (IsRotated res t) (is_empty r)
      (λ e. inr (
        refl,
        λ given is_given.
            sym (IsGiven-either res.root_refresh res.user_refresh given is_given) ∙ empty_eq r e,
      ))
      λ e.
        let some_text : r ≢ [] = λ n. absurd (ground (arith, ap is_empty n, e)) in
        inl (either-IsGiven res.root_refresh res.user_refresh some_text, some_text)

accepted-Outcome :
    (e : Chars → Option ℕ) (key : String) (res : RefreshReply) (r : Chars) (t : Tokens)
    → let a = either_text res.root_access res.user_access in
      a ≢ []
      → IsRotated res t r
      → key ≡ t.server_key
      → is_blank t.server_key ≡ false
      → res.stale ≡ false
      → res.ok ≡ true
      → Outcome key res t (settle true (set_tokens e a r t))
unfolding settle set_tokens persist
accepted-Outcome e key res r t has rotated same named fresh accepted =
    let a = either_text res.root_access res.user_access in
    let given = either-IsGiven res.root_access res.user_access has in
    inr (
      (fresh, same, accepted, (a, given, has)),
      rw named given,
      rw named rotated,
      rw named refl,
      rw (named, same) refl,
    )

-- A reply to a refresh, for a server whose key is not empty. It is usable when it is not stale, is for the
-- server of now, has succeeded and gives an access token, at its root or else under "user", that is not
-- empty. Any other leaves both tokens and the bearer as they are. After a usable one the access token is
-- the one given and is the new bearer, the refresh token is the one given or, where none or an empty one
-- is given, the one before, both are saved under the key and the account of the server that was asked, and every caller
-- that waits is told that it has succeeded.
pub on_refresh_reply-cases :
    (e : Chars → Option ℕ) (key : String) (res : RefreshReply) (t : Tokens)
    → is_blank t.server_key ≡ false
    → Outcome key res t (on_refresh_reply e key res t)
unfolding on_refresh_reply settle
on_refresh_reply-cases e key res t named =
    let a = either_text res.root_access res.user_access in
    let rotated = either_text res.root_refresh res.user_refresh in
    if_elim (Outcome key res t) (res.stale || not (str_eq key t.server_key))
      (λ old. inl (
        λ (fresh, same, accepted, given).
            absurd (ground (arith, old, fresh, same, eq_iff key t.server_key)),
        refl,
        refl,
        refl,
      ))
      λ current.
        if_elim (Outcome key res t) (not res.ok)
          (λ refused. inl (
            λ (fresh, same, accepted, given). absurd (ground (arith, refused, accepted)),
            ground arith,
            ground arith,
            ground arith,
          ))
          λ accepted.
            if_elim (Outcome key res t) (is_empty a)
              (λ no_access. inl (unusable key res t (empty_eq a no_access), refl, refl, refl))
              λ some_access.
                accepted-Outcome e key res (if is_empty rotated then t.refresh_token else rotated) t
                  (λ none_. absurd (ground (arith, ap is_empty none_, some_access)))
                  (either-IsRotated res t) (ground (arith, eq_iff key t.server_key)) named
                  (ground arith) (ground arith)
