-- ===== src/Auth/Manager/Keyring.antt =====
-- src/auth/AuthManager.cpp: the wait for the keyring ends.
use shelf_remote.Auth.Manager.Restore.{
  attempt_restore, wait, Attempt, on_loaded, named, retry_seconds, wait_for_keyring,
  on_keyring_retry, restore_session,
}
use shelf_remote.Prelude.{
  refl, ap, true, false, none, some, arith, Chars, ℕ, ◌≡◌, if_elim, Option, Bool, String, is_blank,
  if◌then◌else◌, get_elem?, ◌*◌, not, ◌+◌, ◌∙◌, subst, [], ◌<◌, List, get_elem?_total, ◌∷◌, All,
  length, ◌≤◌,
}
use shelf_remote.Auth.Manager.{
  Auth, authenticating, needs_login, after_tokens, set_state, set_notice, stop_waiting_for_keyring,
  clear_error, State, emit, is_state, hear_all, set_last_error, hear, error_changed, base_url,
  is_no_message, disconnected, keyring_locked, checking, authenticated, error, Url,
}
use shelf_remote.Auth.TokenStore.{
  notify, secrets_unavailable, on_retrieved, provider_unavailable, set_account, set_server_key,
  load,
}

is_state-eq : (s q : State) → is_state s q ≡ true → s ≡ q
is_state-eq disconnected q h = ground arith
is_state-eq checking q h = ground arith
is_state-eq needs_login q h = ground arith
is_state-eq authenticating q h = ground arith
is_state-eq authenticated q h = ground arith
is_state-eq error q h = ground arith

set_state-state : (s : State) (a : Auth) → (set_state s a).state ≡ s
unfolding set_state
set_state-state s a =
    if_elim (λ (q : Auth). q.state ≡ s) (is_state a.state s) (is_state-eq a.state s) λ _. refl

-- The number of attempts, what is restored, and the timer.
record IsSame (a q : Auth) : Type 0 where
  attempts : q.keyring_attempts ≡ a.keyring_attempts
  key : q.restore_key ≡ a.restore_key
  timer : q.keyring_retry ≡ a.keyring_retry

abbrev nothing_changed : (a : Auth) → IsSame a a
nothing_changed a = record { attempts = refl; key = refl; timer = refl }

set_state-IsSame : (s : State) (a : Auth) → IsSame a (set_state s a)
unfolding set_state
set_state-IsSame s a =
    if_elim (IsSame a) (is_state a.state s) (λ _. nothing_changed a)
      λ _. record { attempts = refl; key = refl; timer = refl }

set_notice-IsSame : (b : Bool) (a : Auth) → IsSame a (set_notice b a)
unfolding set_notice
set_notice-IsSame b a =
    if_elim (IsSame a) (if b then a.is_waiting else not a.is_waiting) (λ _. nothing_changed a)
      λ _. record { attempts = refl; key = refl; timer = refl }

clear_error-IsSame : (a : Auth) → IsSame a (clear_error a)
unfolding clear_error
clear_error-IsSame a =
    if_elim (IsSame a) (is_no_message a.last_error) (λ _. nothing_changed a)
      λ _. record { attempts = refl; key = refl; timer = refl }

-- After an attempt that has found the keyring away: the next delay runs, or the user is asked.
pub Waited : ℕ → Option ℕ → Auth → Type 0
Waited n (some delay) a =
    (a.keyring_retry ≡ some (delay * 1000))
    × (a.keyring_attempts ≡ n + 1)
    × (a.state ≡ authenticating)
Waited n none a = (a.keyring_retry ≡ none) × (a.keyring_attempts ≡ 0) × (a.state ≡ needs_login)

record HasWaited (n : ℕ) (key : String) (a : Auth) : Type 0 where
  waited : Waited n (get_elem? retry_seconds n) a
  same_key : a.restore_key ≡ key

stop_waiting-none :
    (a : Auth)
    → ((stop_waiting_for_keyring a).keyring_retry ≡ none)
      × ((stop_waiting_for_keyring a).keyring_attempts ≡ 0)
      × ((stop_waiting_for_keyring a).restore_key ≡ a.restore_key)
unfolding stop_waiting_for_keyring
stop_waiting-none a =
    let h = set_notice-IsSame false (record a { keyring_retry = none; keyring_attempts = 0 }) in
    (h.timer, h.attempts, h.key)

wait-HasWaited :
    (o : Option ℕ) (n : ℕ) (a : Auth)
    → a.keyring_attempts ≡ n
    → Waited n o (wait o a) × ((wait o a).restore_key ≡ a.restore_key)
unfolding wait Waited set_last_error
wait-HasWaited none n a h =
    let q =
      emit error_changed (record (stop_waiting_for_keyring a) { last_error = keyring_locked }) in
    let s = set_state-IsSame needs_login q in
    let k = stop_waiting-none a in
    ((s.timer ∙ k.0, s.attempts ∙ k.1, set_state-state needs_login q), s.key ∙ k.2)
wait-HasWaited (some delay) n a h =
    let b = record a { keyring_attempts = a.keyring_attempts + 1 } in
    let c = clear_error-IsSame b in
    let d = set_notice-IsSame true (clear_error b) in
    let s = set_state-IsSame authenticating (set_notice true (clear_error b)) in
    (
      (
        refl,
        s.attempts ∙ d.attempts ∙ c.attempts ∙ ap (λ k. k + 1) h,
        set_state-state authenticating (set_notice true (clear_error b)),
      ),
      s.key ∙ d.key ∙ c.key,
    )

-- The secret store's answer is that the keyring is away.
abbrev pub IsAway : Attempt → Type 0
IsAway e = e.saved ≡ provider_unavailable

-- What is left of the state after the loading.
abbrev unheard : Attempt → Auth → Auth
unheard e a =
    let q = emit (base_url a.restore_url) (record a { base = a.restore_url }) in
    after_tokens (notify secrets_unavailable (named e a)) (record q { keyring_unavailable = false })

attempt_restore-away :
    (x : Chars → Option ℕ) (e : Attempt) (a : Auth)
    → IsAway e
    → is_blank a.restore_key ≡ false
    → attempt_restore x e a ≡ (wait_for_keyring (unheard e a), true)
unfolding attempt_restore on_loaded load on_retrieved named after_tokens hear_all hear set_account
    set_server_key
attempt_restore-away x e a h hk = rw (h, hk)

unheard-attempts : (e : Attempt) (a : Auth) → (unheard e a).keyring_attempts ≡ a.keyring_attempts
unfolding after_tokens hear_all hear named set_account set_server_key
unheard-attempts e a = refl

unheard-key : (e : Attempt) (a : Auth) → (unheard e a).restore_key ≡ a.restore_key
unfolding after_tokens hear_all hear named set_account set_server_key
unheard-key e a = refl

attempt-HasWaited :
    (x : Chars → Option ℕ) (e : Attempt) (n : ℕ) (a : Auth)
    → IsAway e
    → is_blank a.restore_key ≡ false
    → a.keyring_attempts ≡ n
    → HasWaited n a.restore_key (attempt_restore x e a).0 × ((attempt_restore x e a).1 ≡ true)
attempt-HasWaited x e n a h hk hn =
    let q = unheard e a in
    let k = unheard-attempts e a in
    let w = wait-HasWaited (get_elem? retry_seconds q.keyring_attempts) n q (k ∙ hn) in
    let ws : (wait_for_keyring q).restore_key ≡ q.restore_key = unfold wait_for_keyring in w.1 in
    rw (attempt_restore-away x e a h hk) (
      record {
        waited =
            subst (λ j. Waited n (get_elem? retry_seconds j) (wait_for_keyring q)) (k ∙ hn)
              (unfold wait_for_keyring in w.0);
        same_key = ws ∙ unheard-key e a;
      },
      refl,
    )

restore_session-HasWaited :
    (x : Chars → Option ℕ) (e : Attempt) (url : Url) (key : String) (a : Auth)
    → IsAway e
    → is_blank key ≡ false
    → HasWaited 0 key (restore_session x e url key a).0
unfolding restore_session
restore_session-HasWaited x e url key a h hk =
    let q = record (stop_waiting_for_keyring a) { restore_url = url; restore_key = key } in
    (attempt-HasWaited x e 0 q h hk (stop_waiting-none a).1).0

waiting-attempts :
    (n : ℕ) (key : String) (a : Auth) → n < 6 → HasWaited n key a → a.keyring_attempts ≡ n + 1
unfolding Waited
waiting-attempts n key a h w =
    let d = get_elem?_total retry_seconds n h in (subst (λ o. Waited n o a) d.1 w.waited).1

on_keyring_retry-HasWaited :
    (x : Chars → Option ℕ) (e : Attempt) (n : ℕ) (key : String) (a : Auth)
    → IsAway e
    → is_blank key ≡ false
    → n < 6
    → HasWaited n key a
    → HasWaited (n + 1) key (on_keyring_retry x e a)
unfolding on_keyring_retry
on_keyring_retry-HasWaited x e n key a h hk lt w =
    let q = record a { keyring_retry = none } in
    let r =
      attempt-HasWaited x e (n + 1) q h (ap is_blank w.same_key ∙ hk)
        (waiting-attempts n key a lt w) in
    rw r.1 (record { waited = r.0.waited; same_key = r.0.same_key ∙ w.same_key })

-- The timer fires once for each of the attempts.
unfoldable pub retries : (Chars → Option ℕ) → List Attempt → Auth → Auth
retries x [] a = a
retries x (e ∷ es) a = retries x es (on_keyring_retry x e a)

retries-HasWaited :
    (x : Chars → Option ℕ) (es : List Attempt) (n : ℕ) (key : String) (a : Auth)
    → All IsAway es
    → is_blank key ≡ false
    → n + length es ≤ 6
    → HasWaited n key a
    → HasWaited (n + length es) key (retries x es a)
unfolding retries
retries-HasWaited x [] n key a h hk le w = subst (λ m. HasWaited m key a) (omega arith) w
retries-HasWaited x (e ∷ es) n key a h hk le w =
    subst (λ m. HasWaited m key (retries x es (on_keyring_retry x e a))) (omega arith)
      (retries-HasWaited x es (n + 1) key (on_keyring_retry x e a) h.1 hk (omega arith)
        (on_keyring_retry-HasWaited x e n key a h.0 hk (omega arith) w))

-- The wait for the keyring ends: while it is away, the attempt of a restore and each of the first five
-- that the timer starts leave the sign-in under way with the timer set to the next delay, 2, 5, 10, 20,
-- 40 and 60 seconds; the sixth that the timer starts, and no earlier one, asks the user to sign in, with
-- no timer left.
pub retries-end :
    (x : Chars → Option ℕ) (e : Attempt) (es : List Attempt) (url : Url) (key : String) (a : Auth)
    → IsAway e
    → All IsAway es
    → is_blank key ≡ false
    → length es ≤ 6
    → Waited
        (length es)
        (get_elem? retry_seconds (length es))
        (retries x es (restore_session x e url key a).0)
retries-end x e es url key a h hs hk le =
    let q = (restore_session x e url key a).0 in
    let w =
      retries-HasWaited x es 0 key q hs hk (omega arith)
        (restore_session-HasWaited x e url key a h hk) in
    subst (λ n. Waited n (get_elem? retry_seconds n) (retries x es q)) (omega arith) w.waited
