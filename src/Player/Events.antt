-- ===== src/Player/Events.antt =====
-- What reaches the player from outside: the events of libmpv (`MpvController::handleEvents` with
-- the slots of `PlaybackSession` that its signals run at once), the timers, the HTTP replies and
-- the calls of the user interface, as one step function.
use shelf_remote.Prelude.{
  [], true, false, none, some, suc, pos, String, Bool, ◌+◌, List, ℤ, Option, if◌then◌else◌, ℕ, ◌∷◌,
  not, str_eq, leb, Chars, get_elem?, ◌&&◌, ltb, length, ◌+ℤ◌,
}
use shelf_remote.Player.Mpv
use shelf_remote.Player.Syncer
use shelf_remote.Player.Effects.{
  bearer, playback_error, playback_failed, playing_changed, paused_changed, duration_changed,
}
use shelf_remote.Player.State.{Player, ◌▷◌, emit, with_mpv}
use shelf_remote.Player.Sleep.{
  hold_sleep_countdown, resume_sleep_countdown, is_running, on_sleep_timeout, toggle_play_pause,
  play, pause, set_sleep_timer, set_sleep_at_chapter_end, cycle_sleep_timer,
}
use shelf_remote.Player.Load.{load_track_for_global, update_chapter}
use shelf_remote.Player.Sync.{Reply, sync, flush_and_close, stop_and_close, on_report_reply}
use shelf_remote.Player.Seek.{
  on_mpv_position, seek_global, skip, next_chapter, previous_chapter, set_speed, set_volume,
}
use shelf_remote.Player.Open.{PlayJson, on_play_reply, play_item, play_episode}

-- `nextTrack <= m_queuedThroughTrack`, with -1 for none.
abbrev pub within : ℕ → Option ℕ → Bool
within i none = false
within i (some q) = leb i q

unfoldable pub advance_track : ℕ → Player → Player
advance_track next p = elim (get_elem? p.tracks next) [
  | none ↦ p
  | some t ↦
      if within next p.queued_through
      then record p { current_track = some next } ▷ update_chapter (t.start_offset +ℤ pos 10)
      else load_track_for_global (t.start_offset +ℤ pos 10) true p
]

-- `m_currentTrack + 1`: an `int`, with -1 for none.
abbrev pub following : Option ℕ → ℕ
following none = 0
following (some i) = suc i

unfoldable pub on_end_of_file : Player → Player
unfolding stop_and_close advance_track
on_end_of_file p =
    if not p.active
    then p
    else if p.is_hls
    then record p { completed = true } ▷ stop_and_close
    else if ltb (following p.current_track) (length p.tracks)
    then p ▷ sync ▷ advance_track (following p.current_track)
    else record p { completed = true } ▷ stop_and_close

unfoldable pub on_playing_changed : Bool → Player → Player
unfolding hold_sleep_countdown resume_sleep_countdown
on_playing_changed playing p0 =
    let p = record p0 { playing = playing } in
    (if not p.active
      then p
      else let q = record p { listen = Syncer.set_playing p.now playing p.listen } in
        if playing
        then record q { sync_timer = true } ▷ resume_sleep_countdown
        else record q { sync_timer = false } ▷ hold_sleep_countdown ▷ sync)
    ▷ emit (playing_changed playing)

unfoldable pub on_mpv_error : String → Player → Player
unfolding flush_and_close
on_mpv_error message p =
    (if p.active then flush_and_close false p ▷ with_mpv Mpv.stop else p)
    ▷ emit (playback_error (playback_failed message))

-- `setAccessToken` of the HTTP client with the slot that is connected to its signal.
unfoldable pub on_access_token : String → Player → Player
on_access_token token p0 =
    let p = record p0 { api = record p0.api { access_token = token } } in
    if str_eq p0.api.access_token token
    then p0
    else if p.active && p.uses_auth
    then with_mpv (Mpv.set_http_headers (bearer token)) p
    else p

-- `MpvController::updatePlaying`, with the session's slot run at `playingChanged`. The signal that
-- is logged is the one that the session sends on.
unfoldable pub refresh_playing : Player → Player
refresh_playing p =
    if Mpv.same (Mpv.effective p.mpv) p.mpv.playing
    then p
    else let playing = Mpv.effective p.mpv in
      record p { mpv = record p.mpv { playing = playing } } ▷ on_playing_changed playing

unfoldable pub on_pause : Bool → Player → Player
unfolding refresh_playing
on_pause paused p =
    (if Mpv.same paused p.mpv.paused
      then p
      else record p { mpv = record p.mpv { paused = paused } } ▷ emit (paused_changed paused))
    ▷ refresh_playing

pub data EndReason : Type 0 where
  eof other_reason : EndReason
  error : String → EndReason

pub data MpvEvent : Type 0 where
  time_pos duration_is : ℤ → MpvEvent
  pause_is core_idle_is cache_pause_is : Bool → MpvEvent
  file_is_loaded : MpvEvent
  end_file : EndReason → MpvEvent

unfoldable pub on_mpv_event : MpvEvent → Player → Player
unfolding on_pause refresh_playing
on_mpv_event (time_pos s) p = record p { mpv = record p.mpv { position = s } } ▷ on_mpv_position s
on_mpv_event (duration_is s) p =
    record p { mpv = record p.mpv { duration = s } } ▷ emit (duration_changed s)
on_mpv_event (pause_is b) p = on_pause b p
on_mpv_event (core_idle_is b) p =
    record p { mpv = record p.mpv { core_idle = b } } ▷ refresh_playing
on_mpv_event (cache_pause_is b) p =
    record p { mpv = record p.mpv { paused_for_cache = b } } ▷ refresh_playing
on_mpv_event file_is_loaded p = with_mpv Mpv.on_file_loaded p
on_mpv_event (end_file eof) p = p ▷ on_end_of_file ▷ refresh_playing
on_mpv_event (end_file (error m)) p = p ▷ on_mpv_error m ▷ refresh_playing
on_mpv_event (end_file other_reason) p = refresh_playing p

-- Everything that can happen to a player.
pub data Input : Type 0 where
  pass : ℕ → Input
  mpv_event : MpvEvent → Input
  interval_timeout seek_sync_timeout sleep_timeout : Input
  play_reply : ℕ → Reply → PlayJson → Input
  report_reply : ℕ → ℕ → Reply → Input
  choose_item : Chars → Input
  choose_episode : Chars → Chars → Input
  press_toggle press_play press_pause press_next press_previous press_close : Input
  seek_to skip_by speed_to volume_to : ℤ → Input
  sleep_for : ℕ → Input
  sleep_chapter sleep_cycle : Input
  new_token : String → Input

unfoldable pub step : Input → Player → Player
step (pass d) p = record p { now = p.now + d }
step (mpv_event e) p = on_mpv_event e p
step interval_timeout p = if p.sync_timer then sync p else p
step seek_sync_timeout p =
    if p.seek_sync_timer then sync (record p { seek_sync_timer = false }) else p
step sleep_timeout p = if is_running p.sleep_timer then on_sleep_timeout p else p
step (play_reply g res json) p = on_play_reply g res json p
step (report_reply n g res) p = on_report_reply n g res p
step (choose_item i) p = play_item i p
step (choose_episode i e) p = play_episode i e p
step press_toggle p = toggle_play_pause p
step press_play p = play p
step press_pause p = pause p
step press_next p = next_chapter p
step press_previous p = previous_chapter p
step press_close p = stop_and_close p
step (seek_to s) p = seek_global s p
step (skip_by d) p = skip d p
step (speed_to s) p = set_speed s p
step (volume_to v) p = set_volume v p
step (sleep_for m) p = set_sleep_timer m p
step sleep_chapter p = set_sleep_at_chapter_end p
step sleep_cycle p = cycle_sleep_timer p
step (new_token t) p = on_access_token t p

unfoldable pub run : List Input → Player → Player
run [] p = p
run (i ∷ is) p = run is (step i p)
