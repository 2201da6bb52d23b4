-- ===== src/Player/Invariant/Open.antt =====
-- A play reply opens a session that satisfies the invariant, or none.
use shelf_remote.Player.Mpv
use shelf_remote.Player.Open.{PlayJson, prepare_session, read_response, apply_play_response}
use shelf_remote.Player.Invariant.{Quiet-IsValid, Closed-IsValid}
use shelf_remote.Player.Quiet.{Quiet, emit-Quiet}
use shelf_remote.Player.Quiet.Moves.{load_track_for_global-Quiet}
use shelf_remote.Player.Effects.{speed_changed}
use shelf_remote.Player.Open.{is_unusable, begin_session}
use shelf_remote.Player.Invariant.{IsValid}
use shelf_remote.Prelude.{
  inl, inr, true, arith, [], ℤ, Bool, ℕ, ◌≢◌, ◌<◌, ◌≡◌, get_elem?_total, length, sym, subst, false,
  some, pos, ◌<ℤ◌, get_elem?, refl, ap, ◌∙◌, if_elim,
}
use shelf_remote.Player.State.{Player}
use shelf_remote.Player.Timeline.{Track, track_index_for_global}
use shelf_remote.Player.Timeline.Tracks.{track_index_for_global_lem}
use shelf_remote.Player.Load.{load_file_at, load_track_for_global}
use shelf_remote.Player.Quiet.{in_range}
use shelf_remote.Player.Quiet.Moves.{load_file_at-pointed-Quiet}

load_file_at-in_range :
    (s : ℤ) (autoplay : Bool) (i : ℕ) (t : Track) (p : Player)
    → i < length p.tracks
    → let q = load_file_at s autoplay i t p in in_range q.current_track q.tracks ≡ true
load_file_at-in_range s autoplay i t p lt =
    (load_file_at-pointed-Quiet s autoplay i t p).keeps_range (unfold in_range in ground arith)

pub load_track_for_global_found :
    (s : ℤ) (autoplay : Bool) (p : Player) (i : ℕ) (t : Track)
    → track_index_for_global p.tracks s ≡ some i
    → get_elem? p.tracks i ≡ some t
    → load_track_for_global s autoplay p ≡ load_file_at s autoplay i t p
unfolding load_track_for_global
load_track_for_global_found s autoplay p i t e f = ground arith

-- Whatever the position, a book with files has a current file after a load.
pub load_track_for_global-in_range :
    (s : ℤ) (autoplay : Bool) (p : Player)
    → p.tracks ≢ []
    → let q = load_track_for_global s autoplay p in in_range q.current_track q.tracks ≡ true
load_track_for_global-in_range s autoplay p n = elim (track_index_for_global_lem p.tracks s) [
  | inl (e, empty) ↦ absurd (n empty)
  | inr (i, e, lt, _) ↦
      let (t, there) = get_elem?_total p.tracks i lt in
      subst (λ q. in_range q.current_track q.tracks ≡ true)
        (sym (load_track_for_global_found s autoplay p i t e there))
        (load_file_at-in_range s autoplay i t p lt)
]

-- A usable reply has an id, a positive duration and files.
abbrev IsUsable : Player → Type 0
IsUsable p = (p.session_id ≢ []) × (pos 0 <ℤ p.duration) × (p.tracks ≢ [])

usable : (p : Player) → is_unusable p ≡ false → IsUsable p
unfolding is_unusable
usable p h = (λ e. ground arith, ground arith, λ e. ground arith)

record Prepared (p q : Player) : Type 0 where
  kept_session : q.session_id ≡ p.session_id
  kept_duration : q.duration ≡ p.duration
  kept_tracks : q.tracks ≡ p.tracks
  kept_mirror : p.playing ≡ p.mpv.playing → q.playing ≡ q.mpv.playing

prepare_session-Prepared : (resume : ℤ) (p : Player) → Prepared p (prepare_session resume p)
unfolding prepare_session
prepare_session-Prepared resume p = ground arith

begin_session-IsValid :
    (resume : ℤ) (p : Player)
    → IsUsable p
    → p.playing ≡ p.mpv.playing
    → IsValid (begin_session resume p)
unfolding begin_session
begin_session-IsValid resume p (id, long, files) m =
    Quiet-IsValid (emit-Quiet speed_changed (load_track_for_global resume true q)) (record {
      has_session = λ _ e. id (sym kept.kept_session ∙ (sym loaded.same_session ∙ e));
      has_duration =
          λ _. subst (λ d. pos 0 <ℤ d) (sym (loaded.same_duration ∙ kept.kept_duration)) long;
      has_track =
          λ _. load_track_for_global-in_range resume true q (λ e. files (sym kept.kept_tracks ∙ e));
      mirrors = loaded.same_playing ∙ (kept.kept_mirror m ∙ sym loaded.same_mpv_playing);
    })
  where
    q : Player
    q = prepare_session resume p

    kept : Prepared p q
    kept = prepare_session-Prepared resume p

    loaded : Quiet q (load_track_for_global resume true q)
    loaded = load_track_for_global-Quiet resume true q

read_response-mirror :
    (json : PlayJson) (p : Player)
    → ((read_response json p).playing ≡ p.playing)
      × ((read_response json p).mpv ≡ p.mpv)
      × ((read_response json p).active ≡ p.active)
unfolding read_response
read_response-mirror json p = (refl, refl, refl)

-- A reply that comes while no session is open either opens a valid one or reports an error.
pub apply_play_response-IsValid :
    (json : PlayJson) (p : Player)
    → p.active ≡ false
    → IsValid p
    → IsValid (apply_play_response json p)
unfolding apply_play_response
apply_play_response-IsValid json p off v =
    if_elim IsValid (is_unusable q)
      (λ _. Quiet-IsValid (emit-Quiet _ q) (Closed-IsValid q (same.2 ∙ off) mirror))
      λ good. begin_session-IsValid _ q (usable q good) mirror
  where
    q : Player
    q = read_response json p

    same : (q.playing ≡ p.playing) × (q.mpv ≡ p.mpv) × (q.active ≡ p.active)
    same = read_response-mirror json p

    mirror : q.playing ≡ q.mpv.playing
    mirror = same.0 ∙ (v.mirrors ∙ ap (λ (m : Mpv.Mpv). m.playing) (sym same.1))
