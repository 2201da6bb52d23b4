-- ===== src/Player/Sync.antt =====
-- Reports to the server in src/player/PlaybackSession.cpp: `scheduleSync`, `sync`, `flushAndClose`,
-- `stopAndClose` and the callbacks of their requests. What the slots of other components do with
-- the signals, and what the nested event loop of a blocking close lets happen, is not modelled.
-- An HTTP reply as the callbacks read it.
use shelf_remote.Prelude.{true, false, [], if◌then◌else◌, ℕ, Bool, ◌||◌, not, ◌==◌, is_empty}
use shelf_remote.Player.Mpv
use shelf_remote.Player.Syncer
use shelf_remote.Player.Effects.{Report, post_sync, post_close, post_close_blocking, active_changed}
use shelf_remote.Player.State.{Player, ◌▷◌, emit, perform, with_mpv}
use shelf_remote.Player.Sleep.{clear_sleep_timer}

pub record Reply : Type 0 where
  pub stale : Bool
  pub ok : Bool
  pub status : ℕ

unfoldable pub schedule_sync : Player → Player
schedule_sync p = if p.active then record p { seek_sync_timer = true } else p

unfoldable pub report : ℕ → Player → Report
report listened p = record {
  session_id = p.session_id;
  current_time = p.global_position;
  time_listened = listened;
  duration = p.duration;
  generation = p.listen_generation;
}

unfoldable pub sync : Player → Player
unfolding report
sync p =
    if not p.active || is_empty p.session_id
    then p
    else let (listened, s) = Syncer.take_listened p.now p.listen in
      let q = record p { seek_sync_timer = false; listen = s } in
      q ▷ perform (post_sync (report listened q))

-- The callback of a /sync request, and of a /close request that does not block.
unfoldable pub on_report_reply : ℕ → ℕ → Reply → Player → Player
on_report_reply listened generation res p =
    if res.stale || not (generation == p.listen_generation)
    then p
    else if not res.ok
    then record p { listen = Syncer.rollback listened p.listen }
    else p

-- `flushAndClose` after its guard and the call that drops the sleep timer.
unfoldable pub close_session : Bool → Player → Player
unfolding report
close_session blocking p1 =
    let (listened, s) = Syncer.take_listened p1.now (Syncer.set_playing p1.now false p1.listen) in
    let p2 = record p1 { sync_timer = false; seek_sync_timer = false; listen = s } in
    let p3 = record p2 { active = false; session_id = [] } ▷ emit active_changed in
    if is_empty p2.session_id
    then p3
    else p3
      ▷ perform (
          if blocking
          then post_close_blocking (report listened p2)
          else post_close (report listened p2))

unfoldable pub flush_and_close : Bool → Player → Player
flush_and_close blocking p =
    if not p.active then p else close_session blocking (clear_sleep_timer p)

unfoldable pub stop_and_close : Player → Player
unfolding flush_and_close
stop_and_close p = flush_and_close false p ▷ with_mpv Mpv.stop
