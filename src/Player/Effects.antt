-- ===== src/Player/Effects.antt =====
-- What the player makes visible, as values in one log, newest first: the commands and properties
-- given to libmpv, the requests posted to the server, and the Qt signals of `PlaybackSession` and
-- `MpvController`.
use shelf_remote.Prelude.{Bool, ℤ, Chars, String, ℕ, true, str_eq, false}

-- The `http-header-fields` value: empty, or "Authorization: Bearer " and the token.
pub data Header : Type 0 where
  public : Header
  bearer : String → Header

abbrev pub same_header : Header → Header → Bool
same_header public public = true
same_header (bearer s) (bearer t) = str_eq s t
same_header _ _ = false

abbrev pub is_public : Header → Bool
is_public public = true
is_public (bearer t) = false

pub data Error : Type 0 where
  start_failed : ℕ → Error
  unusable_session : Error
  playback_failed : String → Error

pub data Signal : Type 0 where
  active_changed metadata_changed speed_changed volume_changed chapter_changed : Signal
  sleep_timer_changed sleep_remaining_changed file_loaded : Signal
  position_changed seeked duration_changed : ℤ → Signal
  playing_changed paused_changed : Bool → Signal
  playback_error : Error → Signal

-- The body of a /sync or /close request, and the accounting epoch that its reply is checked
-- against.
pub record Report : Type 0 where
  pub session_id : Chars
  pub current_time : ℤ
  pub time_listened : ℕ
  pub duration : ℤ
  pub generation : ℕ

pub data Effect : Type 0 where
  set_pause : Bool → Effect
  set_speed_property set_volume_property seek_absolute seek_relative : ℤ → Effect
  set_headers : Header → Effect
  set_device : String → Effect
  -- The second argument is true for "append" and false for "replace".
  load_file : Chars → Bool → Effect
  stop_playback : Effect
  post_play : Chars → ℕ → Effect
  post_sync post_close post_close_blocking : Report → Effect
  signal : Signal → Effect
