-- ===== src/Player/Examples.antt =====
-- Runs of the theorems on the player.
use shelf_remote.Player.Fixture.{listening_player, two_files}
use shelf_remote.Player.Effects.{bearer}
use shelf_remote.Player.Sleep.{clear_sleep_timer}
use shelf_remote.Player.Seeking.{HasStopped, sleep_if_ended-pauses, seek_global-lands}
use shelf_remote.Player.Quiet.{in_range}
use shelf_remote.Player.Ending.{is_last, on_end_of_file-IsFinished, IsFinished}
use shelf_remote.Player.Seek.{seek_global, sleep_if_ended}
use shelf_remote.Player.Accounting.Run.{total_dropped, total_played, run-balance}
use shelf_remote.Player.Replies.{superseded_by_item}
use shelf_remote.Player.Invariant.Inputs.{History, run-IsValid, next, done}
use shelf_remote.Player.Load.{queue, auth_header, content_url, same_origin, effective_port}
use shelf_remote.Player.Confinement.{IsOwn, queue-IsOwn}
use shelf_remote.Player.Invariant.{IsValid}
use shelf_remote.Player.Accounting.{accounted}
use shelf_remote.Player.Events.{
  step, Input, run, pass, interval_timeout, choose_item, play_reply, report_reply, on_end_of_file,
}
use shelf_remote.Player.Sync.{Reply, sync, close_session}
use shelf_remote.Player.Open.{PlayJson, on_play_reply, play_item}
use shelf_remote.Prelude.{
  refl, true, false, none, some, arith, pos, [], List, All, codes, ◌∷◌, ◌≡◌, ◌+◌, is_prefix, ◌≤ℤ◌,
  ◌-ℤ◌,
}
use shelf_remote.Net.Endpoints.{resolve_content_url}
use shelf_remote.Player.State.{Player}

pub listening_player-IsValid : IsValid listening_player
unfolding in_range
listening_player-IsValid = record {
  has_session = λ on e. cc;
  has_duration = λ on. omega arith;
  has_track = λ on. refl;
  mirrors = refl;
}

abbrev pub reply_ok : Reply
reply_ok = record { stale = false; ok = true; status = 200 }

abbrev pub play_json : PlayJson
play_json = record {
  id = some (codes "s2");
  duration = none;
  chapters = [];
  display_title = some "Next";
  metadata_title = none;
  display_author = none;
  metadata_author = none;
  audio_tracks =
      (record {
        index = some (pos 1);
        start_offset = none;
        duration = some (pos 90000);
        content_url = some (codes "/c");
        mime_type = none;
      })
      ∷ [];
  current_time = some (pos 2000);
  start_time = none;
}

-- Two seconds pass, the interval timer reports, another item is chosen and its session opens.
abbrev inputs : List Input
inputs =
    pass 2000
    ∷ interval_timeout
    ∷ choose_item (codes "i2")
    ∷ play_reply 2 reply_ok play_json
    ∷ report_reply 5500 1 (record reply_ok { ok = false })
    ∷ []

inputs-History : History inputs listening_player
unfolding step sync play_item close_session clear_sleep_timer
inputs-History = next tt (next tt (next tt (next (λ _. refl) (next tt done))))

run-balance_example :
    accounted (run inputs listening_player) + total_dropped inputs listening_player
    ≡ accounted listening_player + total_played true inputs listening_player
run-balance_example =
    run-balance true inputs-History listening_player-IsValid (refl, omega arith) refl

run-IsValid_example : IsValid (run inputs listening_player)
run-IsValid_example = run-IsValid inputs-History listening_player-IsValid

token_header : (queue listening_player.api two_files).1 ≡ bearer "token"
unfolding queue auth_header content_url same_origin effective_port resolve_content_url is_prefix
token_header = refl

queue-IsOwn_example :
    All (IsOwn listening_player.api two_files) (queue listening_player.api two_files).0
queue-IsOwn_example = queue-IsOwn listening_player.api two_files "token" token_header

superseded_by_item_example :
    on_play_reply 1 reply_ok play_json (play_item (codes "i2") listening_player)
    ≡ play_item (codes "i2") listening_player
superseded_by_item_example =
    superseded_by_item (codes "i2") 1 reply_ok play_json listening_player (omega arith)

abbrev sleepy : Player
sleepy = record listening_player {
  sleep_timer = some 9000;
  sleep_minutes = 15;
  sleep_remaining_ms = 5000;
}

seek_global-lands_example :
    let q = seek_global (pos 70000) listening_player in
    (pos 0 ≤ℤ q.global_position)
    × (q.global_position ≤ℤ pos 120000)
    × (pos 0 ≤ℤ pos 70000 → pos 70000 ≤ℤ pos 120000 → q.global_position ≡ pos 70000)
    × (pos 70000 ≤ℤ pos 0 → q.global_position ≡ pos 0)
    × (pos 120000 ≤ℤ pos 70000 → q.global_position ≡ pos 120000)
    × (q.seek_sync_timer ≡ true)
seek_global-lands_example =
    seek_global-lands (pos 70000) listening_player listening_player-IsValid refl

abbrev ending_chapter : Player
ending_chapter = record listening_player {
  sleep_at_chapter_end = true;
  sleep_chapter_end = pos 50000;
}

at_the_end : pos 50000 -ℤ pos 50 ≤ℤ pos 49960
unfolding ◌-ℤ◌
at_the_end = omega arith

sleep_if_ended-pauses_example : HasStopped (sleep_if_ended (pos 49960) ending_chapter)
sleep_if_ended-pauses_example =
    sleep_if_ended-pauses (pos 49960) ending_chapter refl refl refl at_the_end

abbrev in_second : Player
in_second = record listening_player { current_track = some 1; global_position = pos 65000 }

at_last : is_last in_second ≡ true
unfolding is_last
at_last = refl

on_end_of_file-IsFinished_example :
    IsFinished (record in_second { completed = true }) (on_end_of_file in_second)
on_end_of_file-IsFinished_example = on_end_of_file-IsFinished in_second refl (λ e. cc) at_last
