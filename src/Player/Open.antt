-- ===== src/Player/Open.antt =====
-- Opening a session in src/player/PlaybackSession.cpp: `playItem`, `playEpisode`, `startSession`
-- and `applyPlayResponse`. A JSON reply is the record of the values that the code reads from it;
-- `none` is a value that is missing or of another type.
use shelf_remote.Prelude.{
  true, false, none, some, pos, [], if◌then◌else◌, List, ℕ, ℤ, Option, map, Chars, Bool, ◌+◌, ◌∷◌,
  ◌||◌, String, is_empty, not, ltb_ℤ, leb_ℤ, is_infix, ◌==◌, codes, ◌+ℤ◌,
}
use shelf_remote.Net.Endpoints.{play_path, play_episode_path}
use shelf_remote.Player.Mpv
use shelf_remote.Player.Syncer
use shelf_remote.Player.Effects.{
  active_changed, metadata_changed, speed_changed, playback_error, unusable_session, start_failed,
  post_play,
}
use shelf_remote.Player.Timeline.{Track, Chapter, sort_tracks}
use shelf_remote.Player.State.{Player, ◌▷◌, emit, perform, with_mpv}
use shelf_remote.Player.Load.{load_track_for_global}
use shelf_remote.Player.Sync.{Reply, flush_and_close}

pub record TrackJson : Type 0 where
  pub index : Option ℤ
  pub start_offset : Option ℤ
  pub duration : Option ℤ
  pub content_url : Option Chars
  pub mime_type : Option Chars

pub record ChapterJson : Type 0 where
  pub start : Option ℤ
  pub end : Option ℤ
  pub title : Option String

pub record PlayJson : Type 0 where
  pub id : Option Chars
  pub duration : Option ℤ
  pub chapters : List ChapterJson
  pub display_title : Option String
  pub metadata_title : Option String
  pub display_author : Option String
  pub metadata_author : Option String
  pub audio_tracks : List TrackJson
  pub current_time : Option ℤ
  pub start_time : Option ℤ

-- `value(key).toString(fallback)` and its kin.
abbrev pub or_else {ℓ} : {A : Type ℓ} → Option A → A → A
or_else none d = d
or_else (some a) d = a

unfoldable pub read_track : TrackJson → Track
read_track t = record {
  index = or_else t.index (pos 0);
  start_offset = or_else t.start_offset (pos 0);
  duration = or_else t.duration (pos 0);
  content_url = or_else t.content_url [];
  mime_type = or_else t.mime_type [];
}

unfoldable pub read_chapter : ChapterJson → Chapter
read_chapter c = record {
  start = or_else c.start (pos 0);
  end = or_else c.end (pos 0);
  title = or_else c.title "";
}

unfoldable pub is_hls_of : List Track → Bool
is_hls_of [] = false
is_hls_of (t ∷ []) = is_infix (codes "mpegurl") t.mime_type
is_hls_of (t ∷ u ∷ ts) = false

-- The end of the last track, where the server gives no duration.
unfoldable pub duration_of : ℤ → List Track → ℤ
duration_of duration [] = duration
duration_of duration (t ∷ []) =
    if leb_ℤ duration (pos 0) then t.start_offset +ℤ t.duration else duration
duration_of duration (t ∷ u ∷ ts) = duration_of duration (u ∷ ts)

-- The members as read from the reply, before it is validated.
unfoldable pub read_response : PlayJson → Player → Player
read_response json p =
    let tracks = sort_tracks (map read_track json.audio_tracks) in
    record p {
      session_id = or_else json.id [];
      chapters = map read_chapter json.chapters;
      title = or_else json.display_title (or_else json.metadata_title "");
      author = or_else json.display_author (or_else json.metadata_author "");
      tracks = tracks;
      is_hls = is_hls_of tracks;
      duration = duration_of (or_else json.duration (pos 0)) tracks;
    }

abbrev pub first_url_is_empty : List Track → Bool
first_url_is_empty [] = true
first_url_is_empty (t ∷ ts) = is_empty t.content_url

unfoldable pub is_unusable : Player → Bool
is_unusable p = is_empty p.session_id || (first_url_is_empty p.tracks || leb_ℤ p.duration (pos 0))

-- `applyPlayResponse` from the commit of the validated session on, up to the load.
unfoldable pub prepare_session : ℤ → Player → Player
unfolding Mpv.set_speed Syncer.reset
prepare_session resume p0 =
    let p1 =
      record p0 { global_position = resume; active = true; completed = false }
      ▷ emit active_changed
      ▷ emit metadata_changed in
    let p2 = record p1 {
      listen = Syncer.reset p1.listen;
      listen_generation = p1.listen_generation + 1;
    } in
    if ltb_ℤ (pos 0) p2.default_rate then with_mpv (Mpv.set_speed p2.default_rate) p2 else p2

unfoldable pub begin_session : ℤ → Player → Player
begin_session resume p =
    prepare_session resume p ▷ load_track_for_global resume true ▷ emit speed_changed

unfoldable pub apply_play_response : PlayJson → Player → Player
apply_play_response json p =
    let q = read_response json p in
    if is_unusable q
    then q ▷ emit (playback_error unusable_session)
    else begin_session (or_else json.current_time (or_else json.start_time (pos 0))) q

unfoldable pub start_session : Chars → Player → Player
start_session path p =
    let generation = p.play_generation + 1 in
    record p { play_generation = generation } ▷ perform (post_play path generation)

-- The callback of the play request.
unfoldable pub on_play_reply : ℕ → Reply → PlayJson → Player → Player
on_play_reply generation res json p =
    if res.stale || not (generation == p.play_generation)
    then p
    else if not res.ok
    then p ▷ emit (playback_error (start_failed res.status))
    else apply_play_response json p

unfoldable pub close_current : Player → Player
unfolding flush_and_close Mpv.stop
close_current p = if p.active then flush_and_close false p ▷ with_mpv Mpv.stop else p

unfoldable pub play_item : Chars → Player → Player
unfolding close_current start_session
play_item item p =
    record (close_current p) { item_id = item; episode_id = [] } ▷ start_session (play_path item)

unfoldable pub play_episode : Chars → Chars → Player → Player
unfolding close_current start_session
play_episode item episode p =
    record (close_current p) { item_id = item; episode_id = episode }
    ▷ start_session (play_episode_path item episode)
