-- ===== src/Player/Syncer.antt =====
-- src/player/ProgressSyncer.h and .cpp: the accumulator of listening time. Times are milliseconds.
-- `now` is the reading of the monotonic clock behind `QElapsedTimer`; it is an argument of each
-- operation that reads it. `timer` holds the reading at `start()`, and `none` when invalidated.
pub mod Account
pub mod Examples
use shelf_remote.Prelude.{
  ℕ, ◌+◌, ◌-◌, ◌≡◌, Bool, true, false, ◌&&◌, Option, none, some, ltb, if◌then◌else◌,
}

pub record Syncer : Type 0 where
  pub playing : Bool
  pub accumulated : ℕ
  pub timer : Option ℕ

abbrev pub initial : Syncer
initial = record { playing = false; accumulated = 0; timer = none }

unfoldable pub reset : Syncer → Syncer
reset s = record { playing = false; accumulated = 0; timer = none }

-- The span since the timer was started, and 0 if it is not valid.
abbrev pub elapsed : Option ℕ → ℕ → ℕ
elapsed none now = 0
elapsed (some t) now = now - t

abbrev pub is_valid : Option ℕ → Bool
is_valid none = false
is_valid (some t) = true

unfoldable pub flush_into : ℕ → Syncer → Syncer
flush_into now s =
    if s.playing && is_valid s.timer
    then record s { accumulated = s.accumulated + elapsed s.timer now; timer = some now }
    else s

abbrev same : Bool → Bool → Bool
same true b = b
same false true = false
same false false = true

unfoldable pub set_playing : ℕ → Bool → Syncer → Syncer
unfolding flush_into
set_playing now playing s =
    if same playing s.playing
    then s
    else if playing
    then record s { timer = some now; playing = true }
    else record (flush_into now s) { playing = false; timer = none }

unfoldable pub pending_listened : ℕ → Syncer → ℕ
pending_listened now s =
    if s.playing && is_valid s.timer then s.accumulated + elapsed s.timer now else s.accumulated

unfoldable pub take_listened : ℕ → Syncer → ℕ × Syncer
unfolding flush_into
take_listened now s =
    let flushed = flush_into now s in (flushed.accumulated, record flushed { accumulated = 0 })

unfoldable pub rollback : ℕ → Syncer → Syncer
rollback seconds s = if ltb 0 seconds then record s { accumulated = s.accumulated + seconds } else s
