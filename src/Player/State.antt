-- ===== src/Player/State.antt =====
-- The members of `PlaybackSession` (src/player/PlaybackSession.h) with what it drives: the syncer,
-- the mpv controller, the parts of the HTTP client and of the settings that it reads, the clock and
-- the log of effects. A running single-shot `QTimer` is its deadline; of the interval timers only
-- whether they run is kept, since the environment chooses when they fire.
use shelf_remote.Prelude.{◌++◌, ◌∷◌, Bool, String, ℕ, Chars, ℤ, Option, List}
use shelf_remote.Net.Endpoints.{Url, UrlLib}
use shelf_remote.Player.Effects.{Effect, Signal, signal}
use shelf_remote.Player.Syncer.{Syncer}
use shelf_remote.Player.Timeline.{Track, Chapter}
use shelf_remote.Player.Mpv.{Mpv, MpvStep}

pub record Api : Type 0 where
  pub lib : UrlLib
  pub base : Url
  pub access_token : String

pub record Player : Type 0 where
  pub active : Bool
  pub playing : Bool
  pub play_generation : ℕ
  pub listen_generation : ℕ
  pub session_id : Chars
  pub item_id : Chars
  pub episode_id : Chars
  pub completed : Bool
  pub title : String
  pub author : String
  pub duration : ℤ
  pub global_position : ℤ
  pub current_track : Option ℕ
  pub queued_through : Option ℕ
  pub uses_auth : Bool
  pub tracks : List Track
  pub chapters : List Chapter
  pub chapter_index : Option ℕ
  pub is_hls : Bool
  pub sync_timer : Bool
  pub seek_sync_timer : Bool
  pub sleep_timer : Option ℕ
  pub sleep_tick : Bool
  pub sleep_minutes : ℕ
  pub sleep_remaining_ms : ℕ
  pub sleep_at_chapter_end : Bool
  pub sleep_chapter_end : ℤ
  pub listen : Syncer
  pub mpv : Mpv
  pub api : Api
  pub default_rate : ℤ
  pub skip_setting : ℤ
  pub now : ℕ
  pub out : List Effect

-- `p ▷ f` is `f p`: statements in the order of the source.
infixl 2 ◌▷◌
abbrev pub ◌▷◌ : Player → (Player → Player) → Player
p ▷ f = f p

abbrev pub emit : Signal → Player → Player
emit s p = record p { out = signal s ∷ p.out }

abbrev pub perform : Effect → Player → Player
perform e p = record p { out = e ∷ p.out }

-- A call on the mpv controller.
abbrev pub with_mpv : (Mpv → MpvStep) → Player → Player
with_mpv f p = let (m, done) = f p.mpv in record p { mpv = m; out = done ++ p.out }
