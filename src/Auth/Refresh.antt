-- ===== src/Auth/Refresh.antt =====
-- The waiters of a refresh, and the one refresh in flight, over any history of the token store.
use shelf_remote.Prelude.{
  ℕ, refl, false, arith, [], ◌+◌, ◌≡◌, List, String, Chars, Option, Bool, if◌then◌else◌, ◌∷◌, ◌++◌,
  ◌==◌, true, if_elim, ◌||◌, not, str_eq, ◌∙◌, is_empty,
}
use shelf_remote.Auth.TokenStore.{
  missing, undecryptable, provider_unavailable, Tokens, settle, set_tokens, on_refresh_reply,
  settle_all, persist, Notice, RefreshReply, settled, Retrieved, refresh, clear, reset_memory,
  set_server_key, set_account, load, notify, on_retrieved, posted_refresh, refresh_failed, found,
  is_refusal, either_text,
}

-- What can happen to the store.
pub data Input : Type 0 where
  ask : ℕ → Input
  answer : String → RefreshReply → Input
  sign_in : Chars → Chars → Input
  sign_out reset : Input
  switch name_account : String → Input
  restore : Retrieved → Input

unfoldable pub step : (Chars → Option ℕ) → Input → Tokens → Tokens
step e (ask w) t = refresh w t
step e (answer key res) t = on_refresh_reply e key res t
step e (sign_in a r) t = set_tokens e a r t
step e sign_out t = clear t
step e reset t = reset_memory t
step e (switch key) t = set_server_key key t
step e (name_account a) t = set_account a t
step e (restore r) t = (load e r t).0

unfoldable pub run : (Chars → Option ℕ) → List Input → Tokens → Tokens
run e [] t = t
run e (i ∷ is) t = run e is (step e i t)

-- How often `w` stands in a list of waiters, has been run, and has asked.
unfoldable pub times : ℕ → List ℕ → ℕ
times w [] = 0
times w (v ∷ vs) = (if v == w then 1 else 0) + times w vs

unfoldable pub runs : ℕ → List Notice → ℕ
runs w [] = 0
runs w (settled v ok ∷ out) = (if v == w then 1 else 0) + runs w out
runs w (n ∷ out) = runs w out

unfoldable pub asks : ℕ → Input → ℕ
asks w (ask v) = if v == w then 1 else 0
asks w i = 0

unfoldable pub asked : ℕ → List Input → ℕ
asked w [] = 0
asked w (i ∷ is) = asks w i + asked w is

-- The requests posted.
unfoldable pub posts : List Notice → ℕ
posts [] = 0
posts (posted_refresh token ∷ out) = 1 + posts out
posts (n ∷ out) = posts out

times-append :
    (w v : ℕ) (vs : List ℕ) → times w (vs ++ v ∷ []) ≡ times w vs + (if v == w then 1 else 0)
unfolding times
times-append w v [] = ground arith
times-append w v (u ∷ us) = ground (arith, times-append w v us)

runs-settle_all :
    (w : ℕ) (ok : Bool) (ws : List ℕ) (out : List Notice)
    → runs w (settle_all ok ws out) ≡ times w ws + runs w out
unfolding runs times settle_all
runs-settle_all w ok [] out = omega arith
runs-settle_all w ok (v ∷ vs) out = ground (arith, runs-settle_all w ok vs (settled v ok ∷ out))

pub posts-settle_all :
    (ok : Bool) (ws : List ℕ) (out : List Notice) → posts (settle_all ok ws out) ≡ posts out
unfolding posts settle_all
posts-settle_all ok [] out = refl
posts-settle_all ok (v ∷ vs) out = ground (arith, posts-settle_all ok vs (settled v ok ∷ out))

-- The waiter's callbacks, run or still to run.
abbrev pub owed : ℕ → Tokens → ℕ
owed w t = runs w t.out + times w t.pending

-- No callback waits while no refresh is in flight.
abbrev pub IsSettled : Tokens → Type 0
IsSettled t = t.refreshing ≡ false → t.pending ≡ []

settle-owed : (w : ℕ) (ok : Bool) (t : Tokens) → owed w (settle ok t) ≡ owed w t
unfolding settle times
settle-owed w ok t = omega (arith, runs-settle_all w ok t.pending t.out)

pub set_tokens-owed :
    (e : Chars → Option ℕ) (w : ℕ) (a r : Chars) (t : Tokens)
    → let q = set_tokens e a r t in
      (owed w q ≡ owed w t)
      × (q.refreshing ≡ t.refreshing)
      × (q.pending ≡ t.pending)
      × (posts q.out ≡ posts t.out)
unfolding set_tokens persist runs posts
set_tokens-owed e w a r t = ground arith

abbrev SameOwed : ℕ → Tokens → Tokens → Type 0
SameOwed w t q = owed w q ≡ owed w t

failed-owed :
    (w : ℕ) (b : Bool) (t : Tokens)
    → owed w (settle false (if b then notify refresh_failed t else t)) ≡ owed w t
unfolding runs
failed-owed w true t = settle-owed w false (notify refresh_failed t)
failed-owed w false t = settle-owed w false t

accepted-owed :
    (e : Chars → Option ℕ) (w : ℕ) (a r : Chars) (t : Tokens)
    → owed w (settle true (set_tokens e a r t)) ≡ owed w t
accepted-owed e w a r t = settle-owed w true (set_tokens e a r t) ∙ (set_tokens-owed e w a r t).0

refresh-owed : (w v : ℕ) (t : Tokens) → owed w (refresh v t) ≡ owed w t + (if v == w then 1 else 0)
unfolding refresh runs
refresh-owed w v t = ground (arith, times-append w v t.pending)

load-owed :
    (e : Chars → Option ℕ) (w : ℕ) (r : Retrieved) (t : Tokens) → owed w (load e r t).0 ≡ owed w t
unfolding load on_retrieved runs
load-owed e w (found a r) t = ground arith
load-owed e w missing t = ground arith
load-owed e w undecryptable t = ground arith
load-owed e w provider_unavailable t = ground arith

on_refresh_reply-owed :
    (e : Chars → Option ℕ) (w : ℕ) (key : String) (res : RefreshReply) (t : Tokens)
    → owed w (on_refresh_reply e key res t) ≡ owed w t
unfolding on_refresh_reply runs
on_refresh_reply-owed e w key res t =
    if_elim (SameOwed w t) (res.stale || not (str_eq key t.server_key)) (λ _. settle-owed w false t)
      λ _.
        if_elim (SameOwed w t) (not res.ok) (λ _. failed-owed w (is_refusal res.status) t)
          λ _.
            if_elim (SameOwed w t) (is_empty (either_text res.root_access res.user_access))
              (λ _. failed-owed w true t) λ _. accepted-owed e w _ _ t

step-owed :
    (e : Chars → Option ℕ) (w : ℕ) (i : Input) (t : Tokens)
    → owed w (step e i t) ≡ owed w t + asks w i
unfolding step asks runs
step-owed e w (ask v) t = omega (arith, refresh-owed w v t)
step-owed e w (answer key res) t = omega (arith, on_refresh_reply-owed e w key res t)
step-owed e w (sign_in a r) t = omega (arith, (set_tokens-owed e w a r t).0)
step-owed e w sign_out t = unfold clear in ground arith
step-owed e w reset t = unfold reset_memory in ground arith
step-owed e w (switch key) t = unfold set_server_key in ground arith
step-owed e w (name_account a) t = unfold set_account in ground arith
step-owed e w (restore r) t = omega (arith, load-owed e w r t)

-- Over any history, a callback that is passed to `refresh` is run exactly once or still waits: the
-- runs and the places in the queue are as many as the calls.
pub run-owed :
    (e : Chars → Option ℕ) (w : ℕ) (is : List Input) (t : Tokens)
    → owed w (run e is t) ≡ owed w t + asked w is
unfolding run asked
run-owed e w [] t = omega arith
run-owed e w (i ∷ is) t = omega (arith, run-owed e w is (step e i t), step-owed e w i t)
