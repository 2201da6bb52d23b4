-- ===== src/Player/Quiet/Commands.antt =====
-- The sleep timer's commands, the play keys, speed and volume leave the accounting alone.
use shelf_remote.Prelude.{none, ℤ, ℕ, String, arith, ◌*◌, if◌then◌else◌, not, true, ◌&&◌, is_empty}
use shelf_remote.Player.Mpv
use shelf_remote.Player.Effects.{sleep_timer_changed, sleep_remaining_changed}
use shelf_remote.Player.State.{Player, emit, with_mpv, ◌▷◌}
use shelf_remote.Player.Sleep.{
  clear_sleep_timer, resume_sleep_countdown, set_sleep_timer, set_sleep_at_chapter_end,
  cycle_sleep_timer, on_sleep_timeout, toggle_play_pause,
}
use shelf_remote.Player.Seek.{set_speed, set_volume}
use shelf_remote.Player.Events.{on_access_token}
use shelf_remote.Player.Quiet.{
  time_reported, Quiet, Quiet-refl, Quiet-trans, clear_sleep_timer-Quiet,
  resume_sleep_countdown-Quiet, pause-Quiet, play-Quiet,
}
use shelf_remote.Player.Timeline.{chapter_end_for}
use shelf_remote.Player.Quiet.Moves.{if-Quiet}

with_notices-Quiet :
    (p : Player) → Quiet p (p ▷ emit sleep_timer_changed ▷ emit sleep_remaining_changed)
unfolding time_reported
with_notices-Quiet p = ground arith

pub set_sleep_timer-Quiet : (m : ℕ) (p : Player) → Quiet p (set_sleep_timer m p)
unfolding set_sleep_timer
set_sleep_timer-Quiet m p0 = Quiet-trans (clear_sleep_timer-Quiet p0) (
    if-Quiet (not p.active) (Quiet-refl p)
      (Quiet-trans (Quiet-trans {q = armed} (ground arith) started) (with_notices-Quiet _)))
  where
    p : Player
    p = clear_sleep_timer p0

    armed : Player
    armed = record p { sleep_minutes = m; sleep_remaining_ms = m * 60 * 1000 }

    started : Quiet armed (if p.playing then resume_sleep_countdown armed else armed)
    started = if-Quiet p.playing (resume_sleep_countdown-Quiet armed) (Quiet-refl armed)

pub set_sleep_at_chapter_end-Quiet : (p : Player) → Quiet p (set_sleep_at_chapter_end p)
unfolding set_sleep_at_chapter_end
set_sleep_at_chapter_end-Quiet p0 = Quiet-trans (clear_sleep_timer-Quiet p0) (
    Quiet-trans {q = if p.active && not (is_empty p.chapters) then armed else p}
      (if-Quiet (p.active && not (is_empty p.chapters)) (ground arith) (Quiet-refl p))
      (with_notices-Quiet _))
  where
    p : Player
    p = clear_sleep_timer p0

    armed : Player
    armed = record p {
      sleep_at_chapter_end = true;
      sleep_chapter_end = chapter_end_for p.duration p.chapters p.global_position;
    }

pub cycle_sleep_timer-Quiet : (p : Player) → Quiet p (cycle_sleep_timer p)
unfolding cycle_sleep_timer
cycle_sleep_timer-Quiet p = if-Quiet _ (set_sleep_timer-Quiet 0 p) (
    if-Quiet _ (set_sleep_timer-Quiet 15 p) (
      if-Quiet _ (set_sleep_timer-Quiet 30 p) (
        if-Quiet _ (set_sleep_timer-Quiet 60 p)
          (if-Quiet _ (set_sleep_timer-Quiet 0 p) (set_sleep_at_chapter_end-Quiet p)))))

pub on_sleep_timeout-Quiet : (p : Player) → Quiet p (on_sleep_timeout p)
unfolding on_sleep_timeout
on_sleep_timeout-Quiet p =
    let fired = record p { sleep_timer = none } in
    Quiet-trans {q = fired} (ground arith)
      (Quiet-trans (clear_sleep_timer-Quiet fired) (pause-Quiet (clear_sleep_timer fired)))

pub toggle_play_pause-Quiet : (p : Player) → Quiet p (toggle_play_pause p)
unfolding toggle_play_pause
toggle_play_pause-Quiet p = if-Quiet _ (Quiet-refl p) (if-Quiet _ (play-Quiet p) (pause-Quiet p))

pub set_speed-Quiet : (s : ℤ) (p : Player) → Quiet p (set_speed s p)
unfolding set_speed Mpv.set_speed time_reported
set_speed-Quiet s p = ground arith

pub set_volume-Quiet : (v : ℤ) (p : Player) → Quiet p (set_volume v p)
unfolding set_volume Mpv.set_volume time_reported
set_volume-Quiet v p = ground arith

pub on_access_token-Quiet : (t : String) (p : Player) → Quiet p (on_access_token t p)
unfolding on_access_token Mpv.set_http_headers time_reported
on_access_token-Quiet t p = ground arith

pub file_loaded-Quiet : (p : Player) → Quiet p (with_mpv Mpv.on_file_loaded p)
unfolding Mpv.on_file_loaded time_reported
file_loaded-Quiet p = ground arith
