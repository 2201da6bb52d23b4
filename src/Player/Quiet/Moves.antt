-- ===== src/Player/Quiet/Moves.antt =====
-- The larger operations that leave the accounting alone: loads, seeks and the sleep timer's commands.
use shelf_remote.Player.Quiet.{in_range}
use shelf_remote.Player.Quiet.{
  request_paused-Quiet, update_chapter-Quiet, seek-Quiet, clear_sleep_timer-Quiet, pause-Quiet,
}
use shelf_remote.Player.Sleep.{clear_sleep_timer, pause}
use shelf_remote.Player.Seek.{
  seek_files, follow_chapter_end, seek_global, current, next_chapter, previous_chapter,
  sleep_if_ended, on_mpv_position, on_position,
}
use shelf_remote.Player.Sync.{schedule_sync}
use shelf_remote.Player.Load.{in_file, queue, update_chapter}
use shelf_remote.Player.State.{◌▷◌}
use shelf_remote.Player.Effects.{position_changed, seeked, is_public}
use shelf_remote.Player.Timeline.{track_index_for_global}
use shelf_remote.Prelude.{
  refl, true, false, arith, [], ℤ, List, Bool, Chars, ℕ, ◌∷◌, none, some, pos, drop, if◌then◌else◌,
  ◌++◌, bound, Option, not, is_empty, ◌+ℤ◌, get_elem?, ◌≡◌, ◌+◌, length, ◌-◌, zero, suc, ◌<◌,
}
use shelf_remote.Player.Mpv
use shelf_remote.Player.Effects.{Effect, Header, load_file, set_headers}
use shelf_remote.Player.Mpv.{append_files}
use shelf_remote.Player.State.{Player, emit, with_mpv}
use shelf_remote.Player.Load.{load_file_at, load_track_for_global}
use shelf_remote.Player.Timeline.{Track}
use shelf_remote.Player.Seek.{seek_in}
use shelf_remote.Player.Quiet.{time_reported, Quiet, Quiet-refl, Quiet-trans}

append_files-reported :
    (urls : List Chars) (done out : List Effect)
    → time_reported (append_files urls done ++ out) ≡ time_reported (done ++ out)
unfolding append_files time_reported
append_files-reported [] done out = refl
append_files-reported (u ∷ us) done out = append_files-reported us (load_file u true ∷ done) out

load_playlist-Quiet :
    (urls : List Chars) (h : Header) (s : ℤ) (p : Player)
    → Quiet p (with_mpv (Mpv.load_playlist urls h s) p)
unfolding Mpv.load_playlist time_reported
load_playlist-Quiet [] h s p = ground arith
load_playlist-Quiet (u ∷ us) h s p =
    ground (arith, append_files-reported us (load_file u false ∷ set_headers h ∷ []) p.out)

pub if-Quiet : {p q r : Player} (b : Bool) → Quiet p q → Quiet p r → Quiet p (if b then q else r)
if-Quiet true a c = a
if-Quiet false a c = c

lt_of_get_elem? : (ts : List Track) (i : ℕ) (t : Track) → get_elem? ts i ≡ some t → i < length ts
lt_of_get_elem? [] i t e = cc
lt_of_get_elem? (u ∷ ts) zero t e = omega arith
lt_of_get_elem? (u ∷ ts) (suc i) t e = omega (arith, lt_of_get_elem? ts i t e)

-- A file that is there may become the current one.
pub set_current-Quiet :
    (i : ℕ) (p : Player) (t : Track) (through : Option ℕ) (auth : Bool)
    → get_elem? p.tracks i ≡ some t
    → Quiet p (record p { current_track = some i; queued_through = through; uses_auth = auth })
unfolding in_range
set_current-Quiet i p t through auth e = ground (arith, lt_of_get_elem? p.tracks i t e)

-- The player as `loadTrackForGlobal` leaves it before it calls mpv.
abbrev pub pointed : ℕ → Player → Player
pointed i p = record p {
  current_track = some i;
  queued_through = some (i + length (queue p.api (drop i p.tracks)).0 - 1);
  uses_auth = not (is_public (queue p.api (drop i p.tracks)).1);
}

pub load_file_at-pointed-Quiet :
    (s : ℤ) (autoplay : Bool) (i : ℕ) (t : Track) (p : Player)
    → Quiet (pointed i p) (load_file_at s autoplay i t p)
unfolding load_file_at
load_file_at-pointed-Quiet s autoplay i t p =
    Quiet-trans
      (Quiet-trans (load_playlist-Quiet urls.0 urls.1 (in_file p.is_hls s t) (pointed i p))
        (if-Quiet autoplay (Quiet-refl loaded) (request_paused-Quiet true loaded)))
      (update_chapter-Quiet s _)
  where
    urls : List Chars × Header
    urls = queue p.api (drop i p.tracks)

    loaded : Player
    loaded = with_mpv (Mpv.load_playlist urls.0 urls.1 (in_file p.is_hls s t)) (pointed i p)

load_file_at-Quiet :
    (s : ℤ) (autoplay : Bool) (i : ℕ) (t : Track) (p : Player)
    → get_elem? p.tracks i ≡ some t
    → Quiet p (load_file_at s autoplay i t p)
load_file_at-Quiet s autoplay i t p e =
    let urls = queue p.api (drop i p.tracks) in
    Quiet-trans (set_current-Quiet i p t (some (i + length urls.0 - 1)) (not (is_public urls.1)) e)
      (load_file_at-pointed-Quiet s autoplay i t p)

pub load_track_for_global-Quiet :
    (s : ℤ) (autoplay : Bool) (p : Player) → Quiet p (load_track_for_global s autoplay p)
unfolding load_track_for_global
load_track_for_global-Quiet s autoplay p = by_index (track_index_for_global p.tracks s)
  where
    by_track :
        (i : ℕ) (o : Option Track)
        → get_elem? p.tracks i ≡ o
        → Quiet p (elim o [ none ↦ p | some t ↦ load_file_at s autoplay i t p ])
    by_track i none e = Quiet-refl p
    by_track i (some t) e = load_file_at-Quiet s autoplay i t p e

    by_index :
        (o : Option ℕ)
        → Quiet p (elim o [
          | none ↦ p
          | some i ↦ elim (get_elem? p.tracks i) [
            | none ↦ p
            | some t ↦ load_file_at s autoplay i t p
          ]
        ])
    by_index none = Quiet-refl p
    by_index (some i) = by_track i (get_elem? p.tracks i) refl

pub seek_files-Quiet : (s : ℤ) (i : ℕ) (t : Track) (p : Player) → Quiet p (seek_files s i t p)
unfolding seek_files
seek_files-Quiet s i t p =
    if-Quiet _ (seek-Quiet _ p) (load_track_for_global-Quiet s (not p.mpv.paused) p)

follow_chapter_end-Quiet : (s : ℤ) (p : Player) → Quiet p (follow_chapter_end s p)
unfolding follow_chapter_end
follow_chapter_end-Quiet s p = ground arith

schedule_sync-Quiet : (p : Player) → Quiet p (schedule_sync p)
unfolding schedule_sync
schedule_sync-Quiet p = ground arith

seek_in-Quiet : (s : ℤ) (i : ℕ) (t : Track) (p : Player) → Quiet p (seek_in s i t p)
unfolding seek_in
seek_in-Quiet s i t p = Quiet-trans (seek_files-Quiet to i t p) (
    Quiet-trans {q = moved} (unfold time_reported in ground arith) (
      Quiet-trans (follow_chapter_end-Quiet to moved)
        (schedule_sync-Quiet (follow_chapter_end to moved))))
  where
    to : ℤ
    to = bound (pos 0) s p.duration

    moved : Player
    moved =
        record (seek_files to i t p) { global_position = to }
        ▷ emit (position_changed to)
        ▷ emit (seeked to)

pub seek_global-Quiet : (s : ℤ) (p : Player) → Quiet p (seek_global s p)
unfolding seek_global
seek_global-Quiet s p = if-Quiet (not p.active) (Quiet-refl p) (at (current p))
  where
    at : (o : Option (ℕ × Track)) → Quiet p (elim o [ none ↦ p | some (i, t) ↦ seek_in s i t p ])
    at none = Quiet-refl p
    at (some (i, t)) = seek_in-Quiet s i t p

pub next_chapter-Quiet : (p : Player) → Quiet p (next_chapter p)
unfolding next_chapter
next_chapter-Quiet p = if-Quiet (not p.active) (Quiet-refl p) (
    if-Quiet (is_empty p.chapters) (seek_global-Quiet _ p)
      (if-Quiet _ (seek_global-Quiet _ p) (Quiet-refl p)))

pub previous_chapter-Quiet : (p : Player) → Quiet p (previous_chapter p)
unfolding previous_chapter
previous_chapter-Quiet p =
    if-Quiet (not p.active) (Quiet-refl p)
      (if-Quiet (is_empty p.chapters) (seek_global-Quiet _ p) (seek_global-Quiet _ p))

sleep_if_ended-Quiet : (s : ℤ) (p : Player) → Quiet p (sleep_if_ended s p)
unfolding sleep_if_ended
sleep_if_ended-Quiet s p = if-Quiet _ (Quiet-refl p) (
    Quiet-trans stopped
      (if-Quiet _ (seek_global-Quiet _ (pause (clear_sleep_timer p))) (Quiet-refl _)))
  where
    stopped : Quiet p (pause (clear_sleep_timer p))
    stopped = Quiet-trans (clear_sleep_timer-Quiet p) (pause-Quiet (clear_sleep_timer p))

pub on_mpv_position-Quiet : (s : ℤ) (p : Player) → Quiet p (on_mpv_position s p)
unfolding on_mpv_position
on_mpv_position-Quiet s p = if-Quiet (not p.active) (Quiet-refl p) (at (current p))
  where
    shown : ℤ → Player
    shown g = record p { global_position = g } ▷ emit (position_changed g)

    at :
        (o : Option (ℕ × Track))
        → Quiet p (elim o [ none ↦ p | some (i, t) ↦ on_position t.start_offset s p ])
    at none = Quiet-refl p
    at (some (i, t)) =
        let g = if p.is_hls then s else t.start_offset +ℤ s in
        Quiet-trans {q = shown g} (unfold time_reported in ground arith) (
          Quiet-trans (update_chapter-Quiet g (shown g))
            (sleep_if_ended-Quiet g (update_chapter g (shown g))))
