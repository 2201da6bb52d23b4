-- ===== src/Net/Client/Calls.antt =====
-- Every call is answered once, and is sent at most twice.
use shelf_remote.Prelude.{
  ℕ, inl, inr, true, none, some, arith, zero, suc, [], Bool, ◌+◌, ◌≡◌, Option, if◌then◌else◌, List,
  ◌==◌, ◌∷◌, String, Option-cases,
}
use shelf_remote.Net.Client.{
  Client, abort_all, send, on_finished, on_refreshed, send_impl, deliver, Notice, Flight,
  set_access_token, Url, set_base_url, delivered,
}

-- Entry `i` and the list without it.
unfoldable pub pick : ℕ → List Flight → Option (Flight × List Flight)
pick i [] = none
pick zero (f ∷ fs) = some (f, fs)
pick (suc i) (f ∷ fs) = elim (pick i fs) [ none ↦ none | some (g, rest) ↦ some (g, f ∷ rest) ]

pub data Input : Type 0 where
  call : ℕ → Bool → Input
  finish : ℕ → ℕ → Bool → Input
  refreshed : ℕ → Bool → Input
  new_token : String → Input
  point_at : Bool → Url → Input

unfoldable pub on_picked : Option (Flight × List Flight) → ℕ → Bool → Client → Client
on_picked none status error c = c
on_picked (some (f, rest)) status error c = on_finished f status error (record c { active = rest })

unfoldable pub on_waited : Option (Flight × List Flight) → Bool → Client → Client
on_waited none ok c = c
on_waited (some (f, rest)) ok c = on_refreshed f ok (record c { waiting = rest })

unfoldable pub step : Input → Client → Client
step (call w no_retry) c = send w no_retry c
step (finish i status error) c = on_picked (pick i c.active) status error c
step (refreshed i ok) c = on_waited (pick i c.waiting) ok c
step (new_token t) c = set_access_token t c
step (point_at same u) c = set_base_url same u c

unfoldable pub run : List Input → Client → Client
run [] c = c
run (i ∷ is) c = run is (step i c)

abbrev pub one : ℕ → ℕ → ℕ
one v w = if v == w then 1 else 0

-- How often the callback is run in a log, and stands in a list of requests.
unfoldable pub answers : ℕ → List Notice → ℕ
answers w [] = 0
answers w (delivered v res ∷ out) = one v w + answers w out
answers w (n ∷ out) = answers w out

unfoldable pub flights : ℕ → List Flight → ℕ
flights w [] = 0
flights w (f ∷ fs) = one f.callback w + flights w fs

unfoldable pub calls_in : ℕ → Input → ℕ
calls_in w (call v no_retry) = one v w
calls_in w i = 0

unfoldable pub calls : ℕ → List Input → ℕ
calls w [] = 0
calls w (i ∷ is) = calls_in w i + calls w is

-- The callbacks of the call, run or to be run.
abbrev pub owed : ℕ → Client → ℕ
owed w c = answers w c.out + flights w c.active + flights w c.waiting

pub pick-flights :
    (w i : ℕ) (fs : List Flight) (f : Flight) (rest : List Flight)
    → pick i fs ≡ some (f, rest)
    → flights w fs ≡ one f.callback w + flights w rest
unfolding pick flights
pick-flights w i [] f rest e = cc
pick-flights w zero (g ∷ gs) f rest e = ground arith
pick-flights w (suc i) (g ∷ gs) f rest e = elim (Option-cases (pick i gs)) [
  | inl none_ ↦ absurd (ground arith)
  | inr ((h, left), e') ↦ ground (arith, e', pick-flights w i gs h left e')
]

on_finished-owed :
    (w : ℕ) (f : Flight) (status : ℕ) (error : Bool) (c : Client)
    → owed w (on_finished f status error c) ≡ owed w c + one f.callback w
unfolding on_finished deliver answers flights
on_finished-owed w f status error c = ground arith

on_refreshed-owed :
    (w : ℕ) (f : Flight) (ok : Bool) (c : Client)
    → owed w (on_refreshed f ok c) ≡ owed w c + one f.callback w
unfolding on_refreshed deliver send_impl answers flights
on_refreshed-owed w f ok c = ground arith

abort_all-owed :
    (w : ℕ) (fs : List Flight) (c : Client) → owed w (abort_all fs c) ≡ owed w c + flights w fs
unfolding abort_all flights
abort_all-owed w [] c = omega arith
abort_all-owed w (f ∷ fs) c =
    omega (arith, abort_all-owed w fs (on_finished f 0 true c), on_finished-owed w f 0 true c)

step-owed : (w : ℕ) (i : Input) (c : Client) → owed w (step i c) ≡ owed w c + calls_in w i
unfolding step calls_in
step-owed w (call v no_retry) c = unfold send send_impl answers flights in ground arith
step-owed w (finish i status error) c = elim (Option-cases (pick i c.active)) [
  | inl e ↦ rw e (unfold on_picked in omega arith)
  | inr ((f, rest), e) ↦ rw e (
      unfold on_picked in
      omega (
        arith,
        on_finished-owed w f status error (record c { active = rest }),
        pick-flights w i c.active f rest e,
      ))
]
step-owed w (refreshed i ok) c = elim (Option-cases (pick i c.waiting)) [
  | inl e ↦ rw e (unfold on_waited in omega arith)
  | inr ((f, rest), e) ↦ rw e (
      unfold on_waited in
      omega (
        arith,
        on_refreshed-owed w f ok (record c { waiting = rest }),
        pick-flights w i c.waiting f rest e,
      ))
]
step-owed w (new_token t) c = unfold set_access_token answers in ground arith
step-owed w (point_at same u) c =
    let q = record c { base = u; epoch = c.epoch + 1; active = [] } in
    unfold set_base_url flights in ground (arith, abort_all-owed w c.active q)

-- Over any history of the client, the runs of a callback, its requests in flight and those that wait
-- for a refresh are together as many as the calls that passed it: every call is answered exactly once
-- or still under way, whatever is retried, refused or aborted by a change of server.
pub run-calls : (w : ℕ) (is : List Input) (c : Client) → owed w (run is c) ≡ owed w c + calls w is
unfolding run calls
run-calls w [] c = omega arith
run-calls w (i ∷ is) c = omega (arith, run-calls w is (step i c), step-owed w i c)
