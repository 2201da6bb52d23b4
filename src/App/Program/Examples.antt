-- ===== src/App/Program/Examples.antt =====
-- Runs of the theorems on the signals between the components.
use shelf_remote.App.Program.SignOut.{IsEmptied, on_session_ending-IsEmptied, hear_all-inactive}
use shelf_remote.App.Program.{
  Parts, on_session_ending, hear_all, stop_playback, Program, state_changed, session_ending,
}
use shelf_remote.Prelude.{true, false, [], ◌∷◌, refl, pos, ◌≡◌, codes}
use shelf_remote.Player.Sync.{stop_and_close, flush_and_close, close_session}
use shelf_remote.Player.Open.{
  play_item, on_play_reply, start_session, apply_play_response, read_response, close_current,
  is_unusable, prepare_session, begin_session,
}
use shelf_remote.Player.Sleep.{clear_sleep_timer}
use shelf_remote.Player.Timeline.{
  sort_tracks, insert_track, track_index_for_global, find_track, track_has, chapter_index_from,
}
use shelf_remote.Player.Open.{read_track, duration_of}
use shelf_remote.Prelude.{◌+ℤ◌}
use shelf_remote.Player.Load.{load_track_for_global, load_file_at, update_chapter}
use shelf_remote.Player.Fixture.{listening_player}
use shelf_remote.Player.Examples.{reply_ok, play_json}
use shelf_remote.Server.Examples.{texts, no_rows}
use shelf_remote.App.Backend.Examples.{linked, start, linked-IsExact}

abbrev parts : Parts
parts = record { linked = linked; urls = texts; text = λ cs. ""; now = pos 9; seconds = 9 }

abbrev at_work : Program
at_work = record {
  player = listening_player;
  library = start;
  bookmarks = record { by_item = ("i1", []) ∷ []; out = [] };
  servers = record { db = no_rows; shown = [] };
}

on_session_ending-IsEmptied_example :
    let q = on_session_ending parts at_work in
    (q.player.active ≡ false)
    × IsEmptied q.library
    × (q.library.progress.by_item ≡ [])
    × (q.bookmarks.by_item ≡ [])
on_session_ending-IsEmptied_example = on_session_ending-IsEmptied parts at_work linked-IsExact

hear_all-inactive_example :
    (hear_all parts false (state_changed ∷ session_ending ∷ []) at_work).player.active ≡ false
hear_all-inactive_example =
    hear_all-inactive parts (state_changed ∷ session_ending ∷ []) at_work refl

-- A book that was asked for before the user signed out is opened by a reply that comes after.
late_book :
    let g =
      on_session_ending parts
        (record at_work { player = play_item (codes "i2") listening_player }) in
    (on_play_reply 2 reply_ok play_json g.player).active ≡ true
unfolding on_session_ending stop_playback stop_and_close flush_and_close close_session play_item
    close_current start_session on_play_reply apply_play_response is_unusable read_response
    prepare_session begin_session clear_sleep_timer sort_tracks insert_track track_index_for_global
    find_track track_has chapter_index_from read_track duration_of ◌+ℤ◌ load_track_for_global
    load_file_at update_chapter
late_book = refl
