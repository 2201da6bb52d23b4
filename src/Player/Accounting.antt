-- ===== src/Player/Accounting.antt =====
-- Listening time across the whole player: what the requests report, what is still pending, and what
-- is lost.
pub mod Steps
pub mod Balance
pub mod Heard
pub mod Run
use shelf_remote.Player.Quiet.{
  Quiet-trans, emit-Quiet, resume_sleep_countdown-Quiet, hold_sleep_countdown-Quiet,
}
use shelf_remote.Player.Sleep.{resume_sleep_countdown, hold_sleep_countdown}
use shelf_remote.Player.Effects.{Signal, playing_changed}
use shelf_remote.Player.Events.{refresh_playing}
use shelf_remote.Player.Quiet.{Quiet-refl, clear_sleep_timer-Quiet}
use shelf_remote.Player.Sleep.{clear_sleep_timer}
use shelf_remote.Player.Sync.{close_session}
use shelf_remote.Prelude.{
  arith, [], ◌≡◌, Bool, ℕ, ◌≢◌, ◌+◌, refl, sym, true, false, if◌then◌else◌, ◌∙◌, if_elim, not,
  not-false,
}
use shelf_remote.Player.Mpv
use shelf_remote.Player.Syncer
use shelf_remote.Player.Syncer.{pending_listened}
use shelf_remote.Player.Syncer.Account.{Started}
use shelf_remote.Player.State.{Player, emit, ◌▷◌}
use shelf_remote.Player.Quiet.{time_reported, Quiet}
use shelf_remote.Player.Sync.{sync, flush_and_close}
use shelf_remote.Player.Events.{on_playing_changed}

abbrev pub accounted : Player → ℕ
accounted p = time_reported p.out + pending_listened p.now p.listen

-- The syncer's timer runs exactly while it counts, and was started in the past.
abbrev pub IsClocked : Player → Type 0
IsClocked p = Started p.listen.timer p.listen.playing p.now

pub Quiet-accounted : {p q : Player} → Quiet p q → accounted q ≡ accounted p
Quiet-accounted a = ground arith

pub Quiet-IsClocked : {p q : Player} → Quiet p q → IsClocked p → IsClocked q
Quiet-IsClocked a h = ground arith

-- The operation reports, keeps or adds listening time, and loses none of it.
pub record Accounts (p q : Player) : Type 0 where
  pub conserved : accounted q ≡ accounted p
  pub clocked : IsClocked q

pub Quiet-Accounts : {p q : Player} → Quiet p q → IsClocked p → Accounts p q
Quiet-Accounts a h = record { conserved = Quiet-accounted a; clocked = Quiet-IsClocked a h }

pub Accounts-trans : {p q r : Player} → Accounts p q → Accounts q r → Accounts p r
Accounts-trans a b = ground arith

pub sync-Accounts : (p : Player) → IsClocked p → Accounts p (sync p)
unfolding sync Syncer.take_listened pending_listened time_reported
sync-Accounts p h = ground arith

pub if-Accounts :
    {p q r : Player} (b : Bool) → Accounts p q → Accounts p r → Accounts p (if b then q else r)
if-Accounts true a c = a
if-Accounts false a c = c

close_session-Accounts :
    (b : Bool) (p : Player) → p.session_id ≢ [] → IsClocked p → Accounts p (close_session b p)
unfolding close_session Syncer.take_listened Syncer.set_playing pending_listened time_reported
close_session-Accounts true p n h = ground arith
close_session-Accounts false p n h = ground arith

pub flush_and_close-Accounts :
    (b : Bool) (p : Player)
    → (p.active ≡ true → p.session_id ≢ [])
    → IsClocked p
    → Accounts p (flush_and_close b p)
unfolding flush_and_close
flush_and_close-Accounts b p n h =
    if_elim (Accounts p) (not p.active) (λ _. Quiet-Accounts (Quiet-refl p) h)
      λ on. Accounts-trans (Quiet-Accounts cleared h) (
        close_session-Accounts b (clear_sleep_timer p)
          (λ e. n (not-false on) (sym cleared.same_session ∙ e)) (Quiet-IsClocked cleared h))
  where
    cleared : Quiet p (clear_sleep_timer p)
    cleared = clear_sleep_timer-Quiet p

set_playing-Accounts :
    (b : Bool) (p : Player)
    → IsClocked p
    → Accounts p (record p { listen = Syncer.set_playing p.now b p.listen })
unfolding Syncer.set_playing pending_listened
set_playing-Accounts true p h = ground arith
set_playing-Accounts false p h = ground arith

set_timer-Quiet : (b : Bool) (p : Player) → Quiet p (record p { sync_timer = b })
set_timer-Quiet b p = ground arith

started-Accounts :
    (p : Player)
    → IsClocked p
    → Accounts p (resume_sleep_countdown (record p { sync_timer = true }))
started-Accounts p h =
    let q = record p { sync_timer = true } in
    Quiet-Accounts (Quiet-trans (set_timer-Quiet true p) (resume_sleep_countdown-Quiet q)) h

stopped-Accounts :
    (p : Player)
    → IsClocked p
    → Accounts p (sync (hold_sleep_countdown (record p { sync_timer = false })))
stopped-Accounts p h =
    let q = record p { sync_timer = false } in
    let held = Quiet-trans (set_timer-Quiet false p) (hold_sleep_countdown-Quiet q) in
    Accounts-trans (Quiet-Accounts held h)
      (sync-Accounts (hold_sleep_countdown q) (Quiet-IsClocked held h))

-- Where audio starts or stops, the session's part of the handler.
told-Accounts :
    (b : Bool) (p q : Player)
    → Accounts p q
    → Accounts p (
        if b
        then record q { sync_timer = true } ▷ resume_sleep_countdown
        else record q { sync_timer = false } ▷ hold_sleep_countdown ▷ sync)
told-Accounts true p q a = Accounts-trans a (started-Accounts q a.clocked)
told-Accounts false p q a = Accounts-trans a (stopped-Accounts q a.clocked)

-- `playing` is not a part of the accounting.
pub Marked-Accounts : (b : Bool) (p : Player) → IsClocked p → Accounts p (record p { playing = b })
Marked-Accounts b p h = ground arith

pub emit-Accounts : (s : Signal) {p q : Player} → Accounts p q → Accounts p (emit s q)
emit-Accounts s {p} {q} a = Accounts-trans a (Quiet-Accounts (emit-Quiet s q) a.clocked)

pub on_playing_changed-Accounts :
    (b : Bool) (p : Player) → IsClocked p → Accounts p (on_playing_changed b p)
unfolding on_playing_changed
on_playing_changed-Accounts b p h =
    let marked = Marked-Accounts b p h in
    emit-Accounts (playing_changed b) (
      if_elim (Accounts p) (not p.active) (λ _. marked)
        λ _.
          told-Accounts b p (record p { playing = b; listen = Syncer.set_playing p.now b p.listen })
            (Accounts-trans marked
              (set_playing-Accounts b (record p { playing = b }) marked.clocked)))

pub refresh_playing-Accounts : (p : Player) → IsClocked p → Accounts p (refresh_playing p)
unfolding refresh_playing
refresh_playing-Accounts p h =
    if_elim (Accounts p) (Mpv.same (Mpv.effective p.mpv) p.mpv.playing)
      (λ _. Quiet-Accounts (Quiet-refl p) h)
      λ _.
        let on = Mpv.effective p.mpv in
        let q = record p { mpv = record p.mpv { playing = on } } in
        Accounts-trans {q = q} (record { conserved = refl; clocked = h })
          (on_playing_changed-Accounts on q h)
