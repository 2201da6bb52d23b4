-- ===== src/App/Settings.antt =====
-- src/app/AppSettings.cpp: the preferences that outlive a run. Rates are thousandths; what `QString`
-- makes of a number is a parameter.
pub mod Restart
use shelf_remote.Storage.Database.{Db, get_setting, put_setting}
use shelf_remote.Player.Mpv
use shelf_remote.Prelude.{
  refl, arith, [], ◌∷◌, none, some, false, true, pos, String, ℤ, Bool, List, if◌then◌else◌, leb_ℤ,
  ◌≡◌, is_blank, ◌&&◌, str_eq, ◌||◌, ltb_ℤ, ◌+ℤ◌,
}

pub record Numbers : Type 0 where
  pub show_int : ℤ → String
  pub read_int : String → ℤ
  pub show_rate : ℤ → String
  pub read_rate : String → ℤ

-- A whole number that was written is read back, and so is a positive rate that six digits hold.
pub record IsReadBack (n : Numbers) : Type 0 where
  pub int_back : (i : ℤ) → n.read_int (n.show_int i) ≡ i
  pub rate_back :
      (r : ℤ)
      → leb_ℤ r (pos 0) ≡ false
      → leb_ℤ r (pos 999999) ≡ true
      → n.read_rate (n.show_rate r) ≡ r

pub record Settings : Type 0 where
  pub skip_seconds : ℤ
  pub default_rate : ℤ
  pub audio_device : String
  pub playlist_next_up : Bool
  pub db : Db

abbrev pub skip_default : ℤ
skip_default = pos 30

abbrev pub rate_default : ℤ
rate_default = pos 1000

unfoldable pub positive_or : ℤ → ℤ → ℤ
positive_or default i = if leb_ℤ i (pos 0) then default else i

unfoldable pub or_auto : String → String
or_auto name = if is_blank name then "auto" else name

-- The constructor.
unfoldable pub start : Numbers → Db → Settings
start n d = record {
  skip_seconds =
      positive_or skip_default (n.read_int (get_setting "skipSeconds" (n.show_int skip_default) d));
  default_rate =
      positive_or rate_default
        (n.read_rate (get_setting "defaultRate" (n.show_rate rate_default) d));
  audio_device = or_auto (get_setting "audioDevice" "auto" d);
  playlist_next_up = str_eq (get_setting "playlistNextUp" "" d) "1";
  db = d;
}

abbrev same_ℤ : ℤ → ℤ → Bool
same_ℤ a b = leb_ℤ a b && leb_ℤ b a

unfoldable pub set_skip_seconds : Numbers → ℤ → Settings → Settings
set_skip_seconds n seconds s =
    if leb_ℤ seconds (pos 0) || same_ℤ seconds s.skip_seconds then s else record s {
      skip_seconds = seconds;
      db = put_setting "skipSeconds" (n.show_int seconds) s.db;
    }

unfoldable pub set_default_rate : Numbers → ℤ → Settings → Settings
set_default_rate n rate s =
    if leb_ℤ rate (pos 0) || same_ℤ rate s.default_rate
    then s
    else record s { default_rate = rate; db = put_setting "defaultRate" (n.show_rate rate) s.db }

unfoldable pub set_audio_device : String → Settings → Settings
set_audio_device name s = if str_eq (or_auto name) s.audio_device then s else record s {
  audio_device = or_auto name;
  db = put_setting "audioDevice" (or_auto name) s.db;
}

unfoldable pub set_playlist_next_up : Bool → Settings → Settings
set_playlist_next_up enabled s = if Mpv.same enabled s.playlist_next_up then s else record s {
  playlist_next_up = enabled;
  db = put_setting "playlistNextUp" (if enabled then "1" else "0") s.db;
}

abbrev pub steps : List ℤ
steps =
    pos 750
    ∷ pos 1000
    ∷ pos 1250
    ∷ pos 1500
    ∷ pos 1750
    ∷ pos 2000
    ∷ pos 2250
    ∷ pos 2500
    ∷ pos 2750
    ∷ pos 3000
    ∷ []

unfoldable pub first_above : ℤ → List ℤ → ℤ
first_above current [] = pos 750
first_above current (step ∷ rest) =
    if ltb_ℤ (current +ℤ pos 1) step then step else first_above current rest

unfoldable pub next_rate : ℤ → ℤ
next_rate current = first_above current steps

pub data Change : Type 0 where
  skip_is rate_is : ℤ → Change
  device_is : String → Change
  next_up_is : Bool → Change

unfoldable pub step : Numbers → Change → Settings → Settings
step n (skip_is seconds) s = set_skip_seconds n seconds s
step n (rate_is rate) s = set_default_rate n rate s
step n (device_is name) s = set_audio_device name s
step n (next_up_is enabled) s = set_playlist_next_up enabled s

unfoldable pub run : Numbers → List Change → Settings → Settings
run n [] s = s
run n (c ∷ cs) s = run n cs (step n c s)
