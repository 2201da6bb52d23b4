-- ===== src/Player/Sleep.antt =====
-- The sleep timer of src/player/PlaybackSession.cpp. `static_cast<int>` of the countdown is taken as
-- exact: it is for countdowns below 2^31 ms, and the presets are at most an hour.
use shelf_remote.Prelude.{
  some, Bool, Option, ℕ, if◌then◌else◌, none, not, ◌&&◌, ◌-◌, ◌+◌, true, ◌==◌, false, is_empty,
  ◌||◌, ◌/◌, pos, ◌*◌, max,
}
use shelf_remote.Player.Mpv
use shelf_remote.Player.Effects.{sleep_timer_changed, sleep_remaining_changed}
use shelf_remote.Player.Timeline.{chapter_end_for}
use shelf_remote.Player.State.{Player, ◌▷◌, emit, with_mpv}

unfoldable pub play : Player → Player
unfolding Mpv.request_paused
play p = if p.active then with_mpv (Mpv.request_paused false) p else p

unfoldable pub pause : Player → Player
unfolding Mpv.request_paused
pause p = if p.active then with_mpv (Mpv.request_paused true) p else p

unfoldable pub toggle_play_pause : Player → Player
unfolding play pause
toggle_play_pause p = if not p.active then p else if p.mpv.paused then play p else pause p

abbrev pub is_running : Option ℕ → Bool
is_running none = false
is_running (some t) = true

-- `QTimer::remainingTime`: 0 when overdue.
abbrev pub remaining_time : Option ℕ → ℕ → ℕ
remaining_time none now = 0
remaining_time (some t) now = t - now

-- Whole seconds, rounded up.
unfoldable pub sleep_remaining : Player → ℕ
sleep_remaining p =
    ((if is_running p.sleep_timer then remaining_time p.sleep_timer p.now else p.sleep_remaining_ms)
      + 999)
    / 1000

unfoldable pub was_set : Player → Bool
was_set p = not (p.sleep_minutes == 0) || (p.sleep_at_chapter_end || is_running p.sleep_timer)

abbrev cleared : Player → Player
cleared p = record p {
  sleep_timer = none;
  sleep_tick = false;
  sleep_minutes = 0;
  sleep_remaining_ms = 0;
  sleep_at_chapter_end = false;
  sleep_chapter_end = pos 0;
}

unfoldable pub clear_sleep_timer : Player → Player
unfolding was_set
clear_sleep_timer p =
    if was_set p
    then cleared p ▷ emit sleep_timer_changed ▷ emit sleep_remaining_changed
    else cleared p

unfoldable pub hold_sleep_countdown : Player → Player
hold_sleep_countdown p =
    if not (is_running p.sleep_timer)
    then p
    else record p {
      sleep_remaining_ms = remaining_time p.sleep_timer p.now;
      sleep_timer = none;
      sleep_tick = false;
    }
      ▷ emit sleep_remaining_changed

unfoldable pub resume_sleep_countdown : Player → Player
resume_sleep_countdown p =
    if p.sleep_minutes == 0 || is_running p.sleep_timer
    then p
    else record p { sleep_timer = some (p.now + max 1 p.sleep_remaining_ms); sleep_tick = true }

-- A negative number of minutes counts as 0: the argument is `qMax(0, minutes)`.
unfoldable pub set_sleep_timer : ℕ → Player → Player
unfolding clear_sleep_timer resume_sleep_countdown
set_sleep_timer minutes p0 =
    let p = clear_sleep_timer p0 in
    if not p.active
    then p
    else let q = record p { sleep_minutes = minutes; sleep_remaining_ms = minutes * 60 * 1000 } in
      (if q.playing then resume_sleep_countdown q else q)
      ▷ emit sleep_timer_changed
      ▷ emit sleep_remaining_changed

unfoldable pub set_sleep_at_chapter_end : Player → Player
unfolding clear_sleep_timer
set_sleep_at_chapter_end p0 =
    let p = clear_sleep_timer p0 in
    (if p.active && not (is_empty p.chapters)
      then record p {
        sleep_at_chapter_end = true;
        sleep_chapter_end = chapter_end_for p.duration p.chapters p.global_position;
      }
      else p)
    ▷ emit sleep_timer_changed
    ▷ emit sleep_remaining_changed

unfoldable pub cycle_sleep_timer : Player → Player
unfolding set_sleep_timer set_sleep_at_chapter_end
cycle_sleep_timer p =
    if p.sleep_at_chapter_end
    then set_sleep_timer 0 p
    else if p.sleep_minutes == 0
    then set_sleep_timer 15 p
    else if p.sleep_minutes == 15
    then set_sleep_timer 30 p
    else if p.sleep_minutes == 30
    then set_sleep_timer 60 p
    else if is_empty p.chapters
    then set_sleep_timer 0 p
    else set_sleep_at_chapter_end p

-- `m_sleepTimer` fires.
unfoldable pub on_sleep_timeout : Player → Player
unfolding clear_sleep_timer pause
on_sleep_timeout p = record p { sleep_timer = none } ▷ clear_sleep_timer ▷ pause
