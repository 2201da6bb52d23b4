-- ===== src/App/Start/Machine.antt =====
-- Starts and ends of the program of src/app/Application.cpp on one machine, over the kernel's lock,
-- which one start at a time holds and which its end gives back.
use shelf_remote.App.Start.{acquire, Guard, Lock, Probe, not_opened, owned, refused}
use shelf_remote.Prelude.{
  true, false, none, some, [], ℕ, List, Bool, ◌≡◌, Option, if◌then◌else◌, ◌∷◌, length, ◌&&◌, ◌==◌,
  ◌≤◌, sym, subst,
}
use shelf_remote.Prelude.{[], ◌∷◌, none, some, true, false, refl, arith}

pub record Machine : Type 0 where
  pub owner : Option ℕ
  pub running : List ℕ

-- A start has a number of its own. It can open the lock file, or not; what it finds on the socket and
-- whether it can listen are given.
pub data Event : Type 0 where
  launch : ℕ → Bool → List Probe → Bool → Event
  leave : ℕ → Event

abbrev lock_of : Bool → Option ℕ → Lock
lock_of false owner = not_opened
lock_of true none = owned
lock_of true (some i) = refused

unfoldable pub remove_id : ℕ → List ℕ → List ℕ
remove_id i [] = []
remove_id i (j ∷ js) = if j == i then remove_id i js else j ∷ remove_id i js

abbrev release : ℕ → Option ℕ → Option ℕ
release i none = none
release i (some j) = if j == i then none else some j

unfoldable pub start_with : ℕ → Bool × Guard → Machine → Machine
start_with i (runs, guard) m = record {
  owner = if guard.holds_lock then some i else m.owner;
  running = if runs then i ∷ m.running else m.running;
}

unfoldable pub step : Event → Machine → Machine
step (launch i opens probes listens) m =
    start_with i (acquire (lock_of opens m.owner) probes listens) m
step (leave i) m = record { owner = release i m.owner; running = remove_id i m.running }

unfoldable pub run : List Event → Machine → Machine
run [] m = m
run (e ∷ es) m = run es (step e m)

abbrev pub opens_lock : Event → Bool
opens_lock (launch i opens probes listens) = opens
opens_lock (leave i) = true

unfoldable pub all_open : List Event → Bool
all_open [] = true
all_open (e ∷ es) = opens_lock e && all_open es

abbrev pub at_rest : Machine
at_rest = record { owner = none; running = [] }

abbrev pub owner_alone : Option ℕ → List ℕ
owner_alone none = []
owner_alone (some i) = i ∷ []

-- The start that runs is the one that holds the lock.
abbrev IsOwned : Machine → Type 0
IsOwned m = m.running ≡ owner_alone m.owner

step-IsOwned_alone :
    (e : Event) (owner : Option ℕ)
    → opens_lock e ≡ true
    → IsOwned (step e (record { owner = owner; running = owner_alone owner }))
unfolding step start_with acquire remove_id
step-IsOwned_alone (launch i true probes listens) none h = refl
step-IsOwned_alone (launch i true probes listens) (some j) h = refl
step-IsOwned_alone (launch i false probes listens) owner h = absurd cc
step-IsOwned_alone (leave i) none h = refl
step-IsOwned_alone (leave i) (some j) h = ground arith

step-IsOwned : (e : Event) (m : Machine) → opens_lock e ≡ true → IsOwned m → IsOwned (step e m)
step-IsOwned e m h v =
    subst (λ r. IsOwned (step e (record { owner = m.owner; running = r }))) (sym v)
      (step-IsOwned_alone e m.owner h)

run-IsOwned : (es : List Event) (m : Machine) → all_open es ≡ true → IsOwned m → IsOwned (run es m)
unfolding run all_open
run-IsOwned [] m h v = v
run-IsOwned (e ∷ es) m h v =
    run-IsOwned es (step e m) (ground (arith, h)) (step-IsOwned e m (ground (arith, h)) v)

owner_alone-length : (owner : Option ℕ) → length (owner_alone owner) ≤ 1
owner_alone-length none = omega arith
owner_alone-length (some i) = omega arith

-- However starts and ends of the program follow each other, at most one start runs, and it is the one
-- that holds the lock, as long as every start can open the lock file.
pub run-at_most_one :
    (es : List Event)
    → all_open es ≡ true
    → let m = run es at_rest in (length m.running ≤ 1) × (m.running ≡ owner_alone m.owner)
run-at_most_one es h =
    let m = run es at_rest in
    let v : IsOwned m = run-IsOwned es at_rest h refl in (rw v (owner_alone-length m.owner), v)
