-- ===== src/Player/Quiet.antt =====
-- What the operations that only move through the book, drive mpv or set the sleep timer leave alone.
pub mod Moves
pub mod Commands
use shelf_remote.Player.Timeline.{Track}
-- The listening time that the requests in a log report.
use shelf_remote.Prelude.{
  [], ℤ, ◌≡◌, arith, List, Bool, ℕ, ◌+◌, ◌∷◌, refl, true, false, none, some, Option, ltb, length,
}
use shelf_remote.Player.Mpv
use shelf_remote.Player.Effects.{Effect, Signal, post_sync, post_close, post_close_blocking}
use shelf_remote.Player.State.{Player, emit, with_mpv}
use shelf_remote.Player.Sleep.{
  clear_sleep_timer, hold_sleep_countdown, resume_sleep_countdown, play, pause,
}
use shelf_remote.Player.Load.{update_chapter}

unfoldable pub time_reported : List Effect → ℕ
time_reported [] = 0
time_reported (post_sync r ∷ es) = r.time_listened + time_reported es
time_reported (post_close r ∷ es) = r.time_listened + time_reported es
time_reported (post_close_blocking r ∷ es) = r.time_listened + time_reported es
time_reported (e ∷ es) = time_reported es

-- The index of the current file is one of the files.
unfoldable pub in_range : Option ℕ → List Track → Bool
in_range none ts = false
in_range (some i) ts = ltb i (length ts)

-- The operation has left the accounting, the identity of the session and its files alone.
pub record Quiet (p q : Player) : Type 0 where
  pub same_now : q.now ≡ p.now
  pub same_listen : q.listen ≡ p.listen
  pub same_active : q.active ≡ p.active
  pub same_playing : q.playing ≡ p.playing
  pub same_session : q.session_id ≡ p.session_id
  pub same_generation : q.listen_generation ≡ p.listen_generation
  pub same_play_generation : q.play_generation ≡ p.play_generation
  pub same_duration : q.duration ≡ p.duration
  pub same_tracks : q.tracks ≡ p.tracks
  pub same_mpv_playing : q.mpv.playing ≡ p.mpv.playing
  pub keeps_range :
      in_range p.current_track p.tracks ≡ true → in_range q.current_track q.tracks ≡ true
  pub same_reported : time_reported q.out ≡ time_reported p.out

pub Quiet-refl : (p : Player) → Quiet p p
Quiet-refl p = ground arith

pub Quiet-trans : {p q r : Player} → Quiet p q → Quiet q r → Quiet p r
Quiet-trans a b = ground arith

pub emit-Quiet : (s : Signal) (p : Player) → Quiet p (emit s p)
unfolding time_reported
emit-Quiet s p = ground arith

pub clear_sleep_timer-Quiet : (p : Player) → Quiet p (clear_sleep_timer p)
unfolding clear_sleep_timer time_reported
clear_sleep_timer-Quiet p = ground arith

pub hold_sleep_countdown-Quiet : (p : Player) → Quiet p (hold_sleep_countdown p)
unfolding hold_sleep_countdown time_reported
hold_sleep_countdown-Quiet p = ground arith

pub resume_sleep_countdown-Quiet : (p : Player) → Quiet p (resume_sleep_countdown p)
unfolding resume_sleep_countdown time_reported
resume_sleep_countdown-Quiet p = ground arith

pub play-Quiet : (p : Player) → Quiet p (play p)
unfolding play time_reported
play-Quiet p = ground arith

pub pause-Quiet : (p : Player) → Quiet p (pause p)
unfolding pause time_reported
pause-Quiet p = ground arith

pub update_chapter-Quiet : (s : ℤ) (p : Player) → Quiet p (update_chapter s p)
unfolding update_chapter time_reported
update_chapter-Quiet s p = ground arith

pub seek-Quiet : (s : ℤ) (p : Player) → Quiet p (with_mpv (Mpv.seek s) p)
unfolding Mpv.seek time_reported
seek-Quiet s p = ground arith

pub stop-Quiet : (p : Player) → Quiet p (with_mpv Mpv.stop p)
unfolding Mpv.stop time_reported
stop-Quiet p = ground arith

pub request_paused-Quiet : (b : Bool) (p : Player) → Quiet p (with_mpv (Mpv.request_paused b) p)
unfolding Mpv.request_paused time_reported
request_paused-Quiet b p = ground arith
