-- ===== src/Player/Mpris.antt =====
-- src/player/MprisAdapter.h and .cpp: the session on D-Bus. Positions on the bus are microseconds; what is
-- sought is the whole millisecond towards zero. `QString::toUtf8` is a parameter.
pub mod Paths
pub mod Calls
pub mod Examples
use shelf_remote.Player.Sync.{stop_and_close}
use shelf_remote.Player.Effects.{Signal}
use shelf_remote.Player.Sleep.{play, pause, toggle_play_pause}
use shelf_remote.Player.Seek.{
  skip, set_speed, seek_global, next_chapter, previous_chapter, set_volume,
}
use shelf_remote.Prelude.{
  none, some, true, false, [], ◌∷◌, pos, Chars, Bool, if◌then◌else◌, ℤ, List, ℕ, ltb, String, sub_ℕ,
  not, is_empty, ◌==◌, ◌/◌, leb_ℤ, ◌++◌, ◌%◌, codes, ◌||◌, ◌+◌, pos_part, same, ◌-◌, ◌*◌, neg_part,
  ltb_ℤ, bound,
}
use shelf_remote.Player.State.{Player}

abbrev pub Utf8 : Type 0
Utf8 = Chars → List ℕ

-- `QByteArray::toHex`: two digits for each byte.
abbrev pub hex_digit : ℕ → ℕ
hex_digit d = if ltb d 10 then b'0' + d else b'a' + (d - 10)

unfoldable pub to_hex : List ℕ → Chars
to_hex [] = []
to_hex (b ∷ bs) = hex_digit (b / 16) ∷ hex_digit (b % 16) ∷ to_hex bs

unfoldable pub path_element : Utf8 → Chars → Chars
path_element utf8 id = to_hex (utf8 id)

unfoldable pub replace_dots : Chars → Chars
replace_dots [] = []
replace_dots (c ∷ cs) = (if c == b'.' then b'/' else c) ∷ replace_dots cs

unfoldable pub track_element : Utf8 → Chars → Chars → Chars
track_element utf8 item episode =
    let track = if is_empty item then codes "none" else b'i' ∷ path_element utf8 item in
    if is_empty episode then track else track ++ (codes "_e" ++ path_element utf8 episode)

unfoldable pub track_object_path : Utf8 → Chars → Player → Chars
track_object_path utf8 app_id p =
    b'/' ∷ (replace_dots app_id ++ (codes "/track/" ++ track_element utf8 p.item_id p.episode_id))

pub data Status : Type 0 where
  playing_status paused_status stopped_status : Status

unfoldable pub playback_status : Player → Status
playback_status p =
    if not p.active then stopped_status else if p.mpv.paused then paused_status else playing_status

abbrev pub minimum_rate : ℤ
minimum_rate = pos 500

abbrev pub maximum_rate : ℤ
maximum_rate = pos 3000

unfoldable pub set_rate : ℤ → Player → Player
set_rate r p = if leb_ℤ r (pos 0) then pause p else set_speed (bound minimum_rate r maximum_rate) p

unfoldable pub times_1000 : ℤ → ℤ
times_1000 a = sub_ℕ (pos_part a * 1000) (neg_part a * 1000)

-- Whole milliseconds, towards zero.
unfoldable pub milliseconds : ℤ → ℤ
milliseconds a = sub_ℕ (pos_part a / 1000) (neg_part a / 1000)

pub position : Player → ℤ
position p = times_1000 p.global_position

abbrev pub can_act : Player → Bool
can_act p = p.active

pub record Metadata : Type 0 where
  pub track_id : Chars
  pub length_us : ℤ
  pub title : String
  pub artist : List String

pub metadata : Utf8 → Chars → Player → Metadata
metadata utf8 app_id p = record {
  track_id = track_object_path utf8 app_id p;
  length_us = times_1000 p.duration;
  title = p.title;
  artist = p.author ∷ [];
}

pub volume : Player → ℤ
volume p = sub_ℕ (pos_part p.mpv.volume / 100) (neg_part p.mpv.volume / 100)

unfoldable pub seek_by : ℤ → Player → Player
seek_by offset p = skip (milliseconds offset) p

unfoldable pub set_position : Utf8 → Chars → Chars → ℤ → Player → Player
set_position utf8 app_id track_id micros p =
    if not p.active || not (same track_id (track_object_path utf8 app_id p))
    then p
    else if ltb_ℤ micros (pos 0) || ltb_ℤ (times_1000 p.duration) micros
    then p
    else seek_global (milliseconds micros) p

-- The calls of `MprisPlayerAdaptor`, and the writes of its properties.
pub data Call : Type 0 where
  play_call pause_call play_pause_call stop_call next_call previous_call : Call
  seek_call : ℤ → Call
  set_position_call : Chars → ℤ → Call
  rate_is volume_is : ℤ → Call

unfoldable pub answer : Utf8 → Chars → Call → Player → Player
answer utf8 app_id play_call p = play p
answer utf8 app_id pause_call p = pause p
answer utf8 app_id play_pause_call p = toggle_play_pause p
answer utf8 app_id stop_call p = stop_and_close p
answer utf8 app_id next_call p = next_chapter p
answer utf8 app_id previous_call p = previous_chapter p
answer utf8 app_id (seek_call offset) p = seek_by offset p
answer utf8 app_id (set_position_call track_id micros) p =
    set_position utf8 app_id track_id micros p
answer utf8 app_id (rate_is r) p = set_rate r p
answer utf8 app_id (volume_is v) p = set_volume v p

-- What goes out on the bus after a signal of the session.
pub data Notice : Type 0 where
  status_is : Status → Notice
  metadata_is : Metadata → Notice
  can_go_next can_go_previous can_play can_pause can_seek : Bool → Notice
  rate_now volume_now : ℤ → Notice
  seeked_to : ℤ → Notice

pub notices : Utf8 → Chars → Signal → Player → List Notice
unfolding metadata
notices utf8 app_id (Signal.paused_changed b) p = status_is (playback_status p) ∷ []
notices utf8 app_id Signal.active_changed p =
    let can = can_act p in
    status_is (playback_status p)
    ∷ metadata_is (metadata utf8 app_id p)
    ∷ can_go_next can
    ∷ can_go_previous can
    ∷ can_play can
    ∷ can_pause can
    ∷ can_seek can
    ∷ []
notices utf8 app_id (Signal.seeked s) p = seeked_to (times_1000 s) ∷ []
notices utf8 app_id Signal.metadata_changed p =
    metadata_is (metadata utf8 app_id p) ∷ status_is (playback_status p) ∷ []
notices utf8 app_id Signal.speed_changed p = rate_now p.mpv.speed ∷ []
notices utf8 app_id Signal.volume_changed p = volume_now (volume p) ∷ []
notices utf8 app_id _ p = []
