-- ===== src/Player/SleepLaws.antt =====
-- The sleep timer over its life: the countdown across a pause, the cycle of the key, the expiry.
use shelf_remote.Prelude.{
  ℕ, true, false, none, some, arith, Bool, ◌≡◌, is_empty, ◌<◌, if◌then◌else◌, not, ◌==◌, ◌≢◌, ◌+◌,
}
use shelf_remote.Player.State.{Player}
use shelf_remote.Player.Sleep.{
  hold_sleep_countdown, resume_sleep_countdown, set_sleep_timer, set_sleep_at_chapter_end,
  cycle_sleep_timer, clear_sleep_timer,
}

-- The countdown of a timer that is set and not yet due, held and resumed `d` ms later, ends exactly
-- `d` ms later than it would have.
pub held_resumed_deadline :
    (d deadline : ℕ) (p : Player)
    → p.sleep_timer ≡ some deadline
    → p.now < deadline
    → p.sleep_minutes ≢ 0
    → let held = hold_sleep_countdown p in
      (held.sleep_timer ≡ none)
      × ((resume_sleep_countdown (record held { now = held.now + d })).sleep_timer
          ≡ some (deadline + d))
unfolding hold_sleep_countdown resume_sleep_countdown
held_resumed_deadline d deadline p on early set = ground arith

-- What the sleep timer is set to.
pub data Setting : Type 0 where
  off chapter_end : Setting
  minutes : ℕ → Setting

unfoldable pub setting : Player → Setting
setting p =
    if p.sleep_at_chapter_end
    then chapter_end
    else if p.sleep_minutes == 0
    then off
    else minutes p.sleep_minutes

-- The order of the key, where there are chapters to stop at.
unfoldable pub after : Bool → Setting → Setting
after chapters off = minutes 15
after chapters chapter_end = off
after chapters (minutes n) =
    if n == 15
    then minutes 30
    else if n == 30
    then minutes 60
    else if chapters
    then chapter_end
    else off

set_sleep_timer-setting :
    (n : ℕ) (p : Player)
    → p.active ≡ true
    → setting (set_sleep_timer n p) ≡ (if n == 0 then off else minutes n)
unfolding setting set_sleep_timer clear_sleep_timer resume_sleep_countdown
set_sleep_timer-setting n p on = ground arith

set_sleep_at_chapter_end-setting :
    (p : Player)
    → p.active ≡ true
    → is_empty p.chapters ≡ false
    → setting (set_sleep_at_chapter_end p) ≡ chapter_end
unfolding setting set_sleep_at_chapter_end clear_sleep_timer
set_sleep_at_chapter_end-setting p on some_chapters = ground arith

-- While a session is open, the key takes the sleep timer through off, 15, 30 and 60 minutes, the end
-- of the chapter where the book has chapters, and off again.
pub cycle_sleep_timer-setting :
    (p : Player)
    → p.active ≡ true
    → setting (cycle_sleep_timer p) ≡ after (not (is_empty p.chapters)) (setting p)
unfolding setting cycle_sleep_timer after
cycle_sleep_timer-setting p on = ground (
  arith,
  set_sleep_timer-setting 0 p on,
  set_sleep_timer-setting 15 p on,
  set_sleep_timer-setting 30 p on,
  set_sleep_timer-setting 60 p on,
  set_sleep_at_chapter_end-setting p on,
)
