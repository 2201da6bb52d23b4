-- ===== src/App/Settings/Restart.antt =====
-- The preferences of src/app/AppSettings.cpp after a restart of the program.
use shelf_remote.Storage.Database.{get-put_setting}
use shelf_remote.App.Settings.{
  or_auto, start, run, Change, step, Numbers, positive_or, Db, IsReadBack, Settings, skip_default,
  get_setting, set_default_rate, set_audio_device, set_playlist_next_up, set_skip_seconds, rate_is,
  skip_is, rate_default, put_setting, device_is, same_ℤ, next_up_is,
}
use shelf_remote.Player.Mpv
use shelf_remote.Prelude.{
  refl, arith, [], ◌∷◌, false, true, pos, List, String, Bool, ℤ, ◌≡◌, str_eq, ◌&&◌, leb_ℤ, if_elim,
  is_blank, ◌||◌, if◌then◌else◌, ◌∙◌, eq_iff,
}

-- What the constructor reads from the database is what is set.
record IsSaved (n : Numbers) (s : Settings) : Type 0 where
  skip :
      positive_or skip_default
        (n.read_int (get_setting "skipSeconds" (n.show_int skip_default) s.db))
      ≡ s.skip_seconds
  rate :
      positive_or rate_default
        (n.read_rate (get_setting "defaultRate" (n.show_rate rate_default) s.db))
      ≡ s.default_rate
  device : or_auto (get_setting "audioDevice" "auto" s.db) ≡ s.audio_device
  next_up : str_eq (get_setting "playlistNextUp" "" s.db) "1" ≡ s.playlist_next_up

other_setting :
    (key other value default : String) (d : Db)
    → str_eq key other ≡ false
    → get_setting other default (put_setting key value d) ≡ get_setting other default d
other_setting key other value default d h = get-put_setting key other value default d ∙ rw h refl

this_setting :
    (key value default : String) (d : Db)
    → get_setting key default (put_setting key value d) ≡ value
this_setting key value default d =
    get-put_setting key key value default d ∙ ground (arith, eq_iff key key)

positive_or-positive : (default i : ℤ) → leb_ℤ i (pos 0) ≡ false → positive_or default i ≡ i
unfolding positive_or
positive_or-positive default i h = rw h refl

or_auto-or_auto : (name : String) → or_auto (or_auto name) ≡ or_auto name
unfolding or_auto
or_auto-or_auto name = if_elim (λ a. or_auto a ≡ a) (is_blank name) (λ _. refl) (λ e. rw e refl)

flag_text : (flag : Bool) → str_eq (if flag then "1" else "0") "1" ≡ flag
flag_text true = refl
flag_text false = refl

module _ (n : Numbers) (b : IsReadBack n) where
  set_skip_seconds-IsSaved :
      (seconds : ℤ) (s : Settings) → IsSaved n s → IsSaved n (set_skip_seconds n seconds s)
  unfolding set_skip_seconds
  set_skip_seconds-IsSaved seconds s v =
      if_elim (IsSaved n) (leb_ℤ seconds (pos 0) || same_ℤ seconds s.skip_seconds) (λ _. v)
        λ e.
          let d = s.db in
          let shown = n.show_int seconds in
          record {
            skip =
                rw
                  (this_setting "skipSeconds" shown (n.show_int skip_default) d, b.int_back seconds)
                  (positive_or-positive skip_default seconds (ground (arith, e)));
            rate =
                rw
                  (other_setting "skipSeconds" "defaultRate" shown (n.show_rate rate_default) d
                    refl)
                  v.rate;
            device = rw (other_setting "skipSeconds" "audioDevice" shown "auto" d refl) v.device;
            next_up = rw (other_setting "skipSeconds" "playlistNextUp" shown "" d refl) v.next_up;
          }

  set_default_rate-IsSaved :
      (rate : ℤ) (s : Settings)
      → leb_ℤ rate (pos 999999) ≡ true
      → IsSaved n s
      → IsSaved n (set_default_rate n rate s)
  unfolding set_default_rate
  set_default_rate-IsSaved rate s h v =
      if_elim (IsSaved n) (leb_ℤ rate (pos 0) || same_ℤ rate s.default_rate) (λ _. v)
        λ e.
          let d = s.db in
          let shown = n.show_rate rate in
          record {
            skip =
                rw
                  (other_setting "defaultRate" "skipSeconds" shown (n.show_int skip_default) d refl)
                  v.skip;
            rate =
                rw
                  (
                    this_setting "defaultRate" shown (n.show_rate rate_default) d,
                    b.rate_back rate (ground (arith, e)) h,
                  )
                  (positive_or-positive rate_default rate (ground (arith, e)));
            device = rw (other_setting "defaultRate" "audioDevice" shown "auto" d refl) v.device;
            next_up = rw (other_setting "defaultRate" "playlistNextUp" shown "" d refl) v.next_up;
          }

  set_audio_device-IsSaved :
      (name : String) (s : Settings) → IsSaved n s → IsSaved n (set_audio_device name s)
  unfolding set_audio_device
  set_audio_device-IsSaved name s v =
      if_elim (IsSaved n) (str_eq (or_auto name) s.audio_device) (λ _. v)
        λ e.
          let d = s.db in
          let shown = or_auto name in
          record {
            skip =
                rw
                  (other_setting "audioDevice" "skipSeconds" shown (n.show_int skip_default) d refl)
                  v.skip;
            rate =
                rw
                  (other_setting "audioDevice" "defaultRate" shown (n.show_rate rate_default) d
                    refl)
                  v.rate;
            device = rw (this_setting "audioDevice" shown "auto" d) (or_auto-or_auto name);
            next_up = rw (other_setting "audioDevice" "playlistNextUp" shown "" d refl) v.next_up;
          }

  set_playlist_next_up-IsSaved :
      (enabled : Bool) (s : Settings) → IsSaved n s → IsSaved n (set_playlist_next_up enabled s)
  unfolding set_playlist_next_up
  set_playlist_next_up-IsSaved enabled s v =
      if_elim (IsSaved n) (Mpv.same enabled s.playlist_next_up) (λ _. v)
        λ e.
          let d = s.db in
          let shown : String = if enabled then "1" else "0" in
          record {
            skip =
                rw
                  (other_setting "playlistNextUp" "skipSeconds" shown (n.show_int skip_default) d
                    refl)
                  v.skip;
            rate =
                rw
                  (other_setting "playlistNextUp" "defaultRate" shown (n.show_rate rate_default) d
                    refl)
                  v.rate;
            device = rw (other_setting "playlistNextUp" "audioDevice" shown "auto" d refl) v.device;
            next_up = rw (this_setting "playlistNextUp" shown "" d) (flag_text enabled);
          }

-- `QString::number` writes six digits.
abbrev pub is_writable : Change → Bool
is_writable (rate_is rate) = leb_ℤ rate (pos 999999)
is_writable _ = true

unfoldable pub all_writable : List Change → Bool
all_writable [] = true
all_writable (c ∷ cs) = is_writable c && all_writable cs

step-IsSaved :
    (n : Numbers) (b : IsReadBack n) (c : Change) (s : Settings)
    → is_writable c ≡ true
    → IsSaved n s
    → IsSaved n (step n c s)
unfolding step
step-IsSaved n b (skip_is seconds) s h v = set_skip_seconds-IsSaved n b seconds s v
step-IsSaved n b (rate_is rate) s h v = set_default_rate-IsSaved n b rate s h v
step-IsSaved n b (device_is name) s h v = set_audio_device-IsSaved n b name s v
step-IsSaved n b (next_up_is enabled) s h v = set_playlist_next_up-IsSaved n b enabled s v

run-IsSaved :
    (n : Numbers) (b : IsReadBack n) (cs : List Change) (s : Settings)
    → all_writable cs ≡ true
    → IsSaved n s
    → IsSaved n (run n cs s)
unfolding run all_writable
run-IsSaved n b [] s h v = v
run-IsSaved n b (c ∷ cs) s h v =
    run-IsSaved n b cs (step n c s) (ground (arith, h)) (step-IsSaved n b c s (ground (arith, h)) v)

start-saved : (n : Numbers) (s : Settings) → IsSaved n s → start n s.db ≡ s
unfolding start
start-saved n s v = λ i. record {
  skip_seconds = v.skip i;
  default_rate = v.rate i;
  audio_device = v.device i;
  playlist_next_up = v.next_up i;
  db = s.db;
}

-- After any changes of the preferences, a restart of the program finds them as they were, whatever was
-- in the database before. Whole numbers, and positive rates of six digits, are read back as they were written.
pub start-run :
    (n : Numbers) (cs : List Change) (d : Db)
    → IsReadBack n
    → all_writable cs ≡ true
    → start n (run n cs (start n d)).db ≡ run n cs (start n d)
unfolding start
start-run n cs d b h = start-saved n (run n cs (start n d)) (
    run-IsSaved n b cs (start n d) h
      (record { skip = refl; rate = refl; device = refl; next_up = refl }))
