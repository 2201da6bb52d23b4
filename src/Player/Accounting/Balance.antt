-- ===== src/Player/Accounting/Balance.antt =====
-- The balance of listening time over any history of the player.
-- What a history adds to the account: the time that passes while audio is on, and the intervals that
-- a failed request of the current session gives back.
use shelf_remote.Prelude.{
  true, arith, ℤ, ◌≡◌, ◌+◌, ℕ, ◌∙◌, Bool, if◌then◌else◌, ◌||◌, not, ◌==◌, ◌&&◌,
}
use shelf_remote.Player.State.{Player}
use shelf_remote.Player.Syncer.{pending_listened}
use shelf_remote.Player.Quiet.{time_reported}
use shelf_remote.Player.Accounting.{accounted, IsClocked, Accounts, Quiet-Accounts, emit-Accounts}
use shelf_remote.Player.Sync.{Reply}
use shelf_remote.Player.Open.{PlayJson, is_unusable, read_response, prepare_session, begin_session}
use shelf_remote.Player.Effects.{speed_changed}
use shelf_remote.Player.Quiet.Moves.{load_track_for_global-Quiet}
use shelf_remote.Player.Events.{Input, pass, play_reply, report_reply}

unfoldable pub gained : Input → Player → ℕ
gained (pass d) p = if p.listen.playing then d else 0
gained (report_reply n g res) p =
    if res.stale || not (g == p.listen_generation) then 0 else if res.ok then 0 else n
gained _ p = 0

-- A reply that begins a session: it resets the account, and what was pending is lost.
unfoldable pub opens : ℕ → Reply → PlayJson → Player → Bool
opens g res json p =
    not (res.stale || not (g == p.play_generation))
    && (res.ok && not (is_unusable (read_response json p)))

unfoldable pub dropped : Input → Player → ℕ
dropped (play_reply g res json) p =
    if opens g res json p then pending_listened p.now p.listen else 0
dropped _ p = 0

-- One input moves the account by what it gains and what it drops, and keeps the clock sound.
pub record Balanced (i : Input) (p q : Player) : Type 0 where
  pub balance : accounted q + dropped i p ≡ accounted p + gained i p
  pub sound : IsClocked q

pub Accounts-Balanced :
    {i : Input} {p q : Player} → gained i p ≡ 0 → dropped i p ≡ 0 → Accounts p q → Balanced i p q
Accounts-Balanced g d a = record { balance = omega (arith, a.conserved); sound = a.clocked }

prepare_session-account :
    (resume : ℤ) (p : Player)
    → (accounted (prepare_session resume p) ≡ time_reported p.out)
      × IsClocked (prepare_session resume p)
unfolding prepare_session pending_listened time_reported
prepare_session-account resume p = ground arith

pub begin_session-account :
    (resume : ℤ) (p : Player)
    → (accounted (begin_session resume p) ≡ time_reported p.out)
      × IsClocked (begin_session resume p)
unfolding begin_session
begin_session-account resume p =
    let q = prepare_session resume p in
    let (a, h) = prepare_session-account resume p in
    let b =
      emit-Accounts speed_changed (Quiet-Accounts (load_track_for_global-Quiet resume true q) h) in
    (b.conserved ∙ a, b.clocked)
