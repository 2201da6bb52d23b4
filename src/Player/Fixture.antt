-- ===== src/Player/Fixture.antt =====
-- A player with two files and two chapters.
use shelf_remote.Player.Mpv.{Mpv}
use shelf_remote.Player.Timeline.{Track, Chapter}
use shelf_remote.Player.State.{Player}
use shelf_remote.Net.Endpoints.{Url, UrlLib}
use shelf_remote.Prelude.{
  true, false, none, some, pos, [], List, Chars, str_eq, codes, if◌then◌else◌, ◌∷◌, is_prefix,
}

abbrev pub home : Url
home = record {
  scheme = "https";
  host = "books";
  port = none;
  path = codes "/abs";
  query = [];
  fragment = [];
}

-- Text that begins with a slash is a path; any other text is taken to name another host.
abbrev pub parse_url : Chars → Url
parse_url text =
    if is_prefix (codes "/") text
    then record { scheme = ""; host = ""; port = none; path = text; query = []; fragment = [] }
    else record home { host = "elsewhere"; path = text }

abbrev pub urls : UrlLib
urls = record {
  parse = parse_url;
  print = λ u. u.path;
  lower = λ s. s;
  equal_fold = λ a b. str_eq a b;
}

abbrev pub first_file : Track
first_file = record {
  index = pos 1;
  start_offset = pos 0;
  duration = pos 60000;
  content_url = codes "/a";
  mime_type = codes "audio/mpeg";
}

abbrev pub second_file : Track
second_file = record first_file {
  index = pos 2;
  start_offset = pos 60000;
  content_url = codes "/b";
}

abbrev pub two_files : List Track
two_files = first_file ∷ second_file ∷ []

abbrev pub two_chapters : List Chapter
two_chapters =
    (record { start = pos 0; end = pos 50000; title = "One" })
    ∷ (record { start = pos 50000; end = pos 120000; title = "Two" })
    ∷ []

abbrev pub audio : Mpv
audio = record {
  handle = true;
  position = pos 0;
  duration = pos 60000;
  speed = pos 1000;
  volume = pos 100000;
  pending_seek = pos 0;
  audio_device = "auto";
  paused = false;
  core_idle = false;
  paused_for_cache = false;
  playing = true;
}

abbrev pub listening_player : Player
listening_player = record {
  active = true;
  playing = true;
  play_generation = 1;
  listen_generation = 1;
  session_id = codes "s1";
  item_id = codes "i1";
  episode_id = [];
  completed = false;
  title = "A book";
  author = "An author";
  duration = pos 120000;
  global_position = pos 10000;
  current_track = some 0;
  queued_through = some 1;
  uses_auth = true;
  tracks = two_files;
  chapters = two_chapters;
  chapter_index = some 0;
  is_hls = false;
  sync_timer = true;
  seek_sync_timer = false;
  sleep_timer = none;
  sleep_tick = false;
  sleep_minutes = 0;
  sleep_remaining_ms = 0;
  sleep_at_chapter_end = false;
  sleep_chapter_end = pos 0;
  listen = record { playing = true; accumulated = 500; timer = some 1000 };
  mpv = audio;
  api = record { lib = urls; base = home; access_token = "token" };
  default_rate = pos 1000;
  skip_setting = pos 30000;
  now = 4000;
  out = [];
}
