-- ===== src/Net/Client/Retries.antt =====
-- A call goes out at most twice.
use shelf_remote.Net.Client.Calls.{
  pick, run, step, flights, Input, calls_in, calls, one, call, finish, on_picked, refreshed,
  on_waited, pick-flights, new_token, point_at,
}
use shelf_remote.Prelude.{
  ℕ, inl, inr, true, some, arith, zero, suc, [], ◌+◌, List, ◌≡◌, Bool, ◌≤◌, ◌∷◌, ◌*◌, if◌then◌else◌,
  Option-cases,
}
use shelf_remote.Net.Client.{
  Client, abort_all, on_finished, on_refreshed, Notice, deliver, Flight, send_impl, sent, send,
  set_access_token, set_base_url,
}

-- The requests that have gone out for the callback.
unfoldable pub sends : ℕ → List Notice → ℕ
sends w [] = 0
sends w (sent f epoch token ∷ out) = one f.callback w + sends w out
sends w (n ∷ out) = sends w out

-- The requests in flight that may be retried.
unfoldable pub retriable : ℕ → List Flight → ℕ
retriable w [] = 0
retriable w (f ∷ fs) = (if f.allow_retry then one f.callback w else 0) + retriable w fs

-- What has gone out and may still go out.
abbrev pub cost : ℕ → Client → ℕ
cost w c = sends w c.out + retriable w c.active + flights w c.waiting

pick-retriable :
    (w i : ℕ) (fs : List Flight) (f : Flight) (rest : List Flight)
    → pick i fs ≡ some (f, rest)
    → retriable w fs ≡ (if f.allow_retry then one f.callback w else 0) + retriable w rest
unfolding pick retriable
pick-retriable w i [] f rest e = cc
pick-retriable w zero (g ∷ gs) f rest e = ground arith
pick-retriable w (suc i) (g ∷ gs) f rest e = elim (Option-cases (pick i gs)) [
  | inl none_ ↦ absurd (ground arith)
  | inr ((h, left), e') ↦ ground (arith, e', pick-retriable w i gs h left e')
]

on_finished-cost :
    (w : ℕ) (f : Flight) (status : ℕ) (error : Bool) (c : Client)
    → cost w (on_finished f status error c)
      ≤ cost w c + (if f.allow_retry then one f.callback w else 0)
unfolding on_finished deliver sends flights
on_finished-cost w f status error c = ground arith

on_refreshed-cost :
    (w : ℕ) (f : Flight) (ok : Bool) (c : Client)
    → cost w (on_refreshed f ok c) ≤ cost w c + one f.callback w
unfolding on_refreshed deliver send_impl sends retriable
on_refreshed-cost w f ok c = ground arith

abort_all-cost :
    (w : ℕ) (fs : List Flight) (c : Client) → cost w (abort_all fs c) ≤ cost w c + retriable w fs
unfolding abort_all retriable
abort_all-cost w [] c = omega arith
abort_all-cost w (f ∷ fs) c =
    omega (arith, abort_all-cost w fs (on_finished f 0 true c), on_finished-cost w f 0 true c)

step-cost : (w : ℕ) (i : Input) (c : Client) → cost w (step i c) ≤ cost w c + 2 * calls_in w i
unfolding step calls_in
step-cost w (call v no_retry) c = unfold send send_impl sends retriable in ground arith
step-cost w (finish i status error) c = elim (Option-cases (pick i c.active)) [
  | inl e ↦ rw e (unfold on_picked in omega arith)
  | inr ((f, rest), e) ↦ rw e (
      unfold on_picked in
      omega (
        arith,
        on_finished-cost w f status error (record c { active = rest }),
        pick-retriable w i c.active f rest e,
      ))
]
step-cost w (refreshed i ok) c = elim (Option-cases (pick i c.waiting)) [
  | inl e ↦ rw e (unfold on_waited in omega arith)
  | inr ((f, rest), e) ↦ rw e (
      unfold on_waited in
      omega (
        arith,
        on_refreshed-cost w f ok (record c { waiting = rest }),
        pick-flights w i c.waiting f rest e,
      ))
]
step-cost w (new_token t) c = unfold set_access_token sends in ground arith
step-cost w (point_at same u) c =
    let q = record c { base = u; epoch = c.epoch + 1; active = [] } in
    unfold set_base_url retriable in ground (arith, abort_all-cost w c.active q)

run-cost : (w : ℕ) (is : List Input) (c : Client) → cost w (run is c) ≤ cost w c + 2 * calls w is
unfolding run calls
run-cost w [] c = omega arith
run-cost w (i ∷ is) c = omega (arith, run-cost w is (step i c), step-cost w i c)

-- A client that starts with no request under way and an empty log sends at most two requests for each
-- call, whatever the replies: a 401 is retried once and never in a loop.
pub run-sends :
    (w : ℕ) (is : List Input) (c : Client)
    → c.active ≡ []
    → c.waiting ≡ []
    → c.out ≡ []
    → sends w (run is c).out ≤ 2 * calls w is
unfolding sends retriable flights
run-sends w is c a b d = ground (arith, run-cost w is c)
