-- ===== src/Player/Mpv.antt =====
-- src/player/MpvController.h and .cpp: the wrapper of libmpv. `handle` tells whether `init` has
-- succeeded. An operation gives the new state and what it did, newest first. libmpv itself is not
-- modelled: it answers by the events of
-- Player/Events, where `updatePlaying` stands with the slot that it runs.
use shelf_remote.Prelude.{
  true, false, pos, [], List, Chars, if◌then◌else◌, String, Bool, ℤ, ◌++◌, is_blank, not, ◌∷◌,
  ltb_ℤ, ◌&&◌,
}
use shelf_remote.Player.Effects.{
  Header, Effect, set_pause, set_speed_property, set_volume_property, seek_absolute, seek_relative,
  set_headers, set_device, load_file, stop_playback, signal, file_loaded, paused_changed,
}

pub record Mpv : Type 0 where
  pub handle : Bool
  pub position : ℤ
  pub duration : ℤ
  pub speed : ℤ
  pub volume : ℤ
  pub pending_seek : ℤ
  pub audio_device : String
  pub paused : Bool
  pub core_idle : Bool
  pub paused_for_cache : Bool
  pub playing : Bool

abbrev pub MpvStep : Type 0
MpvStep = Mpv × List Effect

-- `setProperty` and `command`: nothing without a handle.
abbrev pub when : Bool → Effect → List Effect
when true e = e ∷ []
when false e = []

abbrev pub same : Bool → Bool → Bool
same true b = b
same false true = false
same false false = true

unfoldable pub effective : Mpv → Bool
effective m = not m.paused && not m.core_idle && not m.paused_for_cache

unfoldable pub request_paused : Bool → Mpv → MpvStep
request_paused paused m =
    if not m.handle
    then (m, [])
    else if same paused m.paused
    then (m, set_pause paused ∷ [])
    else (record m { paused = paused }, signal (paused_changed paused) ∷ set_pause paused ∷ [])

unfoldable pub stop : Mpv → MpvStep
stop m = (m, when m.handle stop_playback)

unfoldable pub seek : ℤ → Mpv → MpvStep
seek seconds m = (m, when m.handle (seek_absolute seconds))

unfoldable pub seek_by : ℤ → Mpv → MpvStep
seek_by delta m = (m, when m.handle (seek_relative delta))

unfoldable pub set_speed : ℤ → Mpv → MpvStep
set_speed speed m = (record m { speed = speed }, when m.handle (set_speed_property speed))

unfoldable pub set_volume : ℤ → Mpv → MpvStep
set_volume percent m = (record m { volume = percent }, when m.handle (set_volume_property percent))

unfoldable pub set_http_headers : Header → Mpv → MpvStep
set_http_headers headers m = (m, when m.handle (set_headers headers))

unfoldable pub set_audio_device : String → Mpv → MpvStep
set_audio_device name m =
    let device = if is_blank name then "auto" else name in
    (record m { audio_device = device }, when m.handle (set_device device))

-- The "append" commands of `loadPlaylist`, newest first, on top of what was done before.
unfoldable pub append_files : List Chars → List Effect → List Effect
append_files [] done = done
append_files (url ∷ urls) done = append_files urls (load_file url true ∷ done)

unfoldable pub load_playlist : List Chars → Header → ℤ → Mpv → MpvStep
unfolding request_paused
load_playlist [] headers start m = (m, [])
load_playlist (url ∷ urls) headers start m =
    if not m.handle
    then (m, [])
    else let (m', resumed) = request_paused false (record m { pending_seek = start }) in
      (m', resumed ++ append_files urls (load_file url false ∷ set_headers headers ∷ []))

unfoldable pub load : Chars → Header → ℤ → Mpv → MpvStep
unfolding load_playlist
load url headers start m = load_playlist (url ∷ []) headers start m

-- MPV_EVENT_FILE_LOADED.
unfoldable pub on_file_loaded : Mpv → MpvStep
on_file_loaded m =
    if ltb_ℤ (pos 0) m.pending_seek
    then (
      record m { pending_seek = pos 0 },
      signal file_loaded ∷ when m.handle (seek_absolute m.pending_seek),
    )
    else (m, signal file_loaded ∷ [])
