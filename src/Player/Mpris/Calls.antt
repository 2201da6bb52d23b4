-- ===== src/Player/Mpris/Calls.antt =====
-- The calls that reach src/player/MprisAdapter.cpp from D-Bus, on the session of Player/Events.
use shelf_remote.Player.Seeking.{seek_global-lands}
use shelf_remote.Player.Seek.{seek_global}
use shelf_remote.Player.Events.{
  press_play, press_pause, press_toggle, press_close, press_next, press_previous, skip_by, seek_to,
  speed_to, volume_to, Input, step,
}
use shelf_remote.Player.Invariant.Inputs.{step-IsValid, Fits}
use shelf_remote.Player.Invariant.{IsValid}
use shelf_remote.Player.Mpris.Paths.{IsUtf8, track_element_inj}
use shelf_remote.Player.Mpris.{
  answer, set_position, track_object_path, seek_by, Utf8, set_rate, Call, times_1000, milliseconds,
  replace_dots, seek_call, minimum_rate, maximum_rate,
}
use shelf_remote.Prelude.{
  subst, pos_part, ◌*◌, ◌+◌, ◌≤◌, ◌<◌, negsuc, pos, true, false, [], ◌∷◌, refl, arith, inl, inr,
  sym, ap, pos, Chars, ℤ, ◌++◌, leb_ℤ, ◌≡◌, drop-append, same, ◌&&◌, ◌∙◌, Bool-cases, codes, drop,
  same-eq, same_self, length, if_elim, not, ◌||◌, ltb_ℤ, ◌<ℤ◌, ◌≤ℤ◌, bound, List,
}
use shelf_remote.Player.State.{Player}
use shelf_remote.Player.Mpris.{
  play_call, pause_call, play_pause_call, stop_call, next_call, previous_call, seek_call,
  set_position_call, rate_is, volume_is,
}

append_cancel : (xs a b : Chars) → xs ++ a ≡ xs ++ b → a ≡ b
append_cancel xs a b h = sym (drop-append xs a) ∙ ap (drop (length xs)) h ∙ drop-append xs b

track_object_path_inj :
    (utf8 : Utf8) (u : IsUtf8 utf8) (app_id : Chars) (p q : Player)
    → track_object_path utf8 app_id p ≡ track_object_path utf8 app_id q
    → (p.item_id ≡ q.item_id) × (p.episode_id ≡ q.episode_id)
unfolding track_object_path
track_object_path_inj utf8 u app_id p q h =
    track_element_inj utf8 u p.item_id p.episode_id q.item_id q.episode_id (
      append_cancel (codes "/track/") _ _
        (append_cancel (replace_dots app_id) _ _ (append_cancel (b'/' ∷ []) _ _ h)))

-- A position for another track is ignored: when the item or the episode is not the one that the path was
-- made for, `SetPosition` leaves the player as it is, whatever the position. `toUtf8` keeps texts apart.
pub set_position-other_track :
    (utf8 : Utf8) (app_id : Chars) (micros : ℤ) (p q : Player)
    → IsUtf8 utf8
    → (same p.item_id q.item_id && same p.episode_id q.episode_id) ≡ false
    → set_position utf8 app_id (track_object_path utf8 app_id p) micros q ≡ q
unfolding set_position
set_position-other_track utf8 app_id micros p q u other =
    let path = track_object_path utf8 app_id p in
    let own = track_object_path utf8 app_id q in
    elim (Bool-cases (same path own)) [
      | inl e ↦
          let (items, episodes) = track_object_path_inj utf8 u app_id p q (same-eq path own e) in
          absurd (
            ground (
              arith,
              other,
              ap (same p.item_id) items,
              ap (same p.episode_id) episodes,
              same_self p.item_id,
              same_self p.episode_id,
            ))
      | inr e ↦
          if_elim (λ r. r ≡ q) (not q.active || not (same path own)) (λ _. refl)
            (λ f. absurd (ground (arith, e, f)))
    ]

milliseconds-inside :
    (micros d : ℤ)
    → pos 0 <ℤ d
    → pos 0 ≤ℤ micros
    → micros ≤ℤ times_1000 d
    → (pos 0 ≤ℤ milliseconds micros) × (milliseconds micros ≤ℤ d)
unfolding milliseconds times_1000
milliseconds-inside (pos m) (pos k) h lo hi = (ground arith, ground arith)
milliseconds-inside (pos m) (negsuc k) h lo hi = absurd (omega arith)
milliseconds-inside (negsuc m) d h lo hi = absurd (omega arith)

-- `a` is `micros`, less the part that is not a whole millisecond.
abbrev pub IsMillisecondOf : ℤ → ℤ → Type 0
IsMillisecondOf micros a =
    (pos 0 ≤ℤ a)
    × (pos_part a * 1000 ≤ pos_part micros)
    × (pos_part micros < pos_part a * 1000 + 1000)

milliseconds-IsMillisecondOf :
    (micros : ℤ) → pos 0 ≤ℤ micros → IsMillisecondOf micros (milliseconds micros)
unfolding milliseconds
milliseconds-IsMillisecondOf (pos m) lo = (ground arith, ground arith, ground arith)
milliseconds-IsMillisecondOf (negsuc m) lo = absurd (omega arith)

-- The position lies within the book, both ends included.
abbrev pub IsWithin : ℤ → Player → Type 0
IsWithin micros p = (pos 0 ≤ℤ micros) × (micros ≤ℤ times_1000 p.duration)

-- `SetPosition` for the track that is loaded, in an open session of a valid player. A position within the
-- book becomes the position of the session, cut to whole milliseconds, by the same step as a seek of the
-- user, and a report to the server is scheduled. For a position outside the book the whole player stays as
-- it is.
pub set_position-lands :
    (utf8 : Utf8) (app_id : Chars) (micros : ℤ) (p : Player)
    → IsValid p
    → p.active ≡ true
    → let q = set_position utf8 app_id (track_object_path utf8 app_id p) micros p in
      (IsWithin micros p
        → IsMillisecondOf micros q.global_position
          × (q.seek_sync_timer ≡ true)
          × (q ≡ step (seek_to q.global_position) p))
      × (¬ IsWithin micros p → q ≡ p)
unfolding set_position step
set_position-lands utf8 app_id micros p v on =
    let path = track_object_path utf8 app_id p in
    let wanted = milliseconds micros in
    let lands = seek_global-lands wanted p v on in
    if_elim {A = Player}
      (λ q.
        (IsWithin micros p
          → IsMillisecondOf micros q.global_position
            × (q.seek_sync_timer ≡ true)
            × (q ≡ seek_global q.global_position p))
        × (¬ IsWithin micros p → q ≡ p))
      (not p.active || not (same path path)) (λ e. absurd (ground (arith, e, on, same_self path)))
      λ _.
        if_elim {A = Player}
          (λ q.
            (IsWithin micros p
              → IsMillisecondOf micros q.global_position
                × (q.seek_sync_timer ≡ true)
                × (q ≡ seek_global q.global_position p))
            × (¬ IsWithin micros p → q ≡ p))
          (ltb_ℤ micros (pos 0) || ltb_ℤ (times_1000 p.duration) micros)
          (λ e. (λ w. absurd (ground (arith, e, w)), λ _. refl))
          λ e.
            let within : IsWithin micros p = (ground (arith, e), ground (arith, e)) in
            let (lo, hi) =
              milliseconds-inside micros p.duration (v.has_duration on) within.0 within.1 in
            let at : (seek_global wanted p).global_position ≡ wanted = lands.2 lo hi in
            (
              λ _. (
                subst (IsMillisecondOf micros) (sym at)
                    (milliseconds-IsMillisecondOf micros within.0),
                lands.5,
                ap (λ s. seek_global s p) (sym at),
              ),
              λ out. absurd (out within),
            )

answer-IsValid :
    (utf8 : Utf8) (app_id : Chars) (c : Call) (p : Player)
    → IsValid p
    → IsValid (answer utf8 app_id c p)
unfolding step answer seek_by set_position set_rate
answer-IsValid utf8 app_id play_call p v = step-IsValid press_play p tt v
answer-IsValid utf8 app_id pause_call p v = step-IsValid press_pause p tt v
answer-IsValid utf8 app_id play_pause_call p v = step-IsValid press_toggle p tt v
answer-IsValid utf8 app_id stop_call p v = step-IsValid press_close p tt v
answer-IsValid utf8 app_id next_call p v = step-IsValid press_next p tt v
answer-IsValid utf8 app_id previous_call p v = step-IsValid press_previous p tt v
answer-IsValid utf8 app_id (seek_call offset) p v =
    step-IsValid (skip_by (milliseconds offset)) p tt v
answer-IsValid utf8 app_id (set_position_call track_id micros) p v =
    if_elim IsValid (not p.active || not (same track_id (track_object_path utf8 app_id p))) (λ _. v)
      λ _.
        if_elim IsValid (ltb_ℤ micros (pos 0) || ltb_ℤ (times_1000 p.duration) micros) (λ _. v)
          λ _. step-IsValid (seek_to (milliseconds micros)) p tt v
answer-IsValid utf8 app_id (rate_is r) p v =
    if_elim IsValid (leb_ℤ r (pos 0)) (λ _. step-IsValid press_pause p tt v)
      λ _. step-IsValid (speed_to (bound minimum_rate r maximum_rate)) p tt v
answer-IsValid utf8 app_id (volume_is w) p v = step-IsValid (volume_to w) p tt v

-- What reaches the player from outside, and what D-Bus asks.
pub data Event : Type 0 where
  input : Input → Event
  call : Call → Event

unfoldable pub serve : Utf8 → Chars → Event → Player → Player
serve utf8 app_id (input i) p = step i p
serve utf8 app_id (call c) p = answer utf8 app_id c p

unfoldable pub serve_all : Utf8 → Chars → List Event → Player → Player
serve_all utf8 app_id [] p = p
serve_all utf8 app_id (e ∷ es) p = serve_all utf8 app_id es (serve utf8 app_id e p)

abbrev pub FitsEvent : Event → Player → Type 0
FitsEvent (input i) p = Fits i p
FitsEvent (call c) p = Unit {0}

-- Events of which the inputs fit the player that they reach.
pub data History (utf8 : Utf8) (app_id : Chars) : List Event → Player → Type 0 where
  done : {p : Player} → History utf8 app_id [] p
  next :
      {e : Event} {es : List Event} {p : Player}
      → FitsEvent e p
      → History utf8 app_id es (serve utf8 app_id e p)
      → History utf8 app_id (e ∷ es) p

serve-IsValid :
    (utf8 : Utf8) (app_id : Chars) (e : Event) (p : Player)
    → FitsEvent e p
    → IsValid p
    → IsValid (serve utf8 app_id e p)
unfolding serve
serve-IsValid utf8 app_id (input i) p f v = step-IsValid i p f v
serve-IsValid utf8 app_id (call c) p f v = answer-IsValid utf8 app_id c p v

-- Whatever calls of D-Bus come between the inputs of a player, in any order, a valid player stays valid,
-- provided that a play request is answered once.
pub serve_all-IsValid :
    (utf8 : Utf8) (app_id : Chars) {es : List Event} {p : Player}
    → History utf8 app_id es p
    → IsValid p
    → IsValid (serve_all utf8 app_id es p)
unfolding serve_all
serve_all-IsValid utf8 app_id done v = v
serve_all-IsValid utf8 app_id (next {e} {es} {p = q} f h) v =
    serve_all-IsValid utf8 app_id h (serve-IsValid utf8 app_id e q f v)
