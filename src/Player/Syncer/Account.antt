-- ===== src/Player/Syncer/Account.antt =====
-- The accounting of listening time over any history of calls on a `ProgressSyncer`.
use shelf_remote.Prelude.{
  ℕ, ◌+◌, ◌≤◌, ◌≡◌, refl, Bool, true, false, Option, none, some, List, [], ◌∷◌, arith,
  if◌then◌else◌,
}
use shelf_remote.Player.Syncer.{
  Syncer, initial, set_playing, pending_listened, take_listened, rollback,
}

-- The timer runs exactly while playing, and was started in the past.
abbrev pub Started : Option ℕ → Bool → ℕ → Type 0
Started none playing now = playing ≡ false
Started (some t) playing now = (playing ≡ true) × (t ≤ now)

-- A history: time passes, audio starts or stops, an interval is taken for a request, or a request
-- that carried an interval fails.
pub data Event : Type 0 where
  pass : ℕ → Event
  play stop take : Event
  fail : ℕ → Event

-- The syncer beside the clock and two totals: of the intervals taken, and of those given back.
pub record Ledger : Type 0 where
  pub now : ℕ
  pub syncer : Syncer
  pub taken : ℕ
  pub returned : ℕ

unfoldable pub step : Ledger → Event → Ledger
step l (pass d) = record l { now = l.now + d }
step l play = record l { syncer = set_playing l.now true l.syncer }
step l stop = record l { syncer = set_playing l.now false l.syncer }
step l take =
    let (listened, s) = take_listened l.now l.syncer in
    record l { syncer = s; taken = l.taken + listened }
step l (fail n) = record l { syncer = rollback n l.syncer; returned = l.returned + n }

unfoldable pub run : Ledger → List Event → Ledger
run l [] = l
run l (e ∷ es) = run (step l e) es

-- The specification: the time that passes while audio is on, whatever is taken or given back.
unfoldable pub listening : Bool → List Event → ℕ
listening on [] = 0
listening on (pass d ∷ es) = (if on then d else 0) + listening on es
listening on (play ∷ es) = listening true es
listening on (stop ∷ es) = listening false es
listening on (take ∷ es) = listening on es
listening on (fail n ∷ es) = listening on es

abbrev pub IsSound : Ledger → Type 0
IsSound l = Started l.syncer.timer l.syncer.playing l.now

abbrev pub balance : Ledger → ℕ
balance l = l.taken + pending_listened l.now l.syncer

step-IsSound : (l : Ledger) (e : Event) → IsSound l → IsSound (step l e)
unfolding step set_playing take_listened rollback
step-IsSound l (pass d) h = ground arith
step-IsSound l play h = ground arith
step-IsSound l stop h = ground arith
step-IsSound l take h = ground arith
step-IsSound l (fail n) h = ground arith

-- One step moves the balance by the time listened to and by what is given back.
step-balance :
    (l : Ledger) (e : Event) (es : List Event)
    → IsSound l
    → balance (step l e) + listening (step l e).syncer.playing es + l.returned
      ≡ balance l + listening l.syncer.playing (e ∷ es) + (step l e).returned
unfolding step set_playing take_listened rollback pending_listened listening
step-balance l (pass d) es h = ground arith
step-balance l play es h = ground arith
step-balance l stop es h = ground arith
step-balance l take es h = ground arith
step-balance l (fail n) es h = ground arith

ledger_run-balance :
    (l : Ledger) (es : List Event)
    → IsSound l
    → balance (run l es) + l.returned
      ≡ balance l + listening l.syncer.playing es + (run l es).returned
unfolding run
ledger_run-balance l [] h = unfold listening in omega arith
ledger_run-balance l (e ∷ es) h =
    omega (arith, ledger_run-balance (step l e) es (step-IsSound l e h), step-balance l e es h)

abbrev pub opened : ℕ → Ledger
opened now = record { now = now; syncer = initial; taken = 0; returned = 0 }

-- After any history of a fresh syncer, the intervals that were taken and the interval still pending
-- add up to the time that passed while audio was on and to the intervals that were given back.
pub pending-conserved :
    (now : ℕ) (es : List Event)
    → let end = run (opened now) es in
      end.taken + pending_listened end.now end.syncer ≡ listening false es + end.returned
pending-conserved now es =
    unfold pending_listened in omega (arith, ledger_run-balance (opened now) es refl)
