-- ===== src/Player/Seeking.antt =====
-- Where a seek lands, what a position report of mpv means, and the stop at the end of a chapter.
use shelf_remote.Player.Mpv
use shelf_remote.Player.Sleep.{clear_sleep_timer, pause}
use shelf_remote.Player.Quiet.{in_range}
use shelf_remote.Player.Quiet.Moves.{seek_files-Quiet, seek_global-Quiet}
use shelf_remote.Player.Sync.{schedule_sync}
use shelf_remote.Player.Load.{in_file, update_chapter, load_track_for_global, load_file_at, queue}
use shelf_remote.Player.Invariant.{IsValid}
use shelf_remote.Player.Seek.{
  seek_in, sleep_if_ended, on_mpv_position, follow_chapter_end, on_position, seek_global, current,
  seek_files,
}
use shelf_remote.Prelude.{
  ℕ, arith, ℤ, ◌≡◌, true, ◌-ℤ◌, pos, ◌≤ℤ◌, false, bound, some, int_laws, inl, inr, Option-cases,
  get_elem?_total, bound_bounds, bound_inside, bound_below, bound_above, none, get_elem?, if_elim,
  not, refl, ◌∙◌, ◌&&◌, leb_ℤ, ltb_ℤ,
}
use shelf_remote.Player.State.{Player}
use shelf_remote.Player.Timeline.{Track, chapter_index_from, track_index_for_global}

-- The parts that `seek_in` sets last.
seek_in-lands :
    (wanted : ℤ) (i : ℕ) (t : Track) (p : Player)
    → p.active ≡ true
    → let q = seek_in wanted i t p in
      (q.global_position ≡ bound (pos 0) wanted p.duration) × (q.seek_sync_timer ≡ true)
unfolding seek_in follow_chapter_end schedule_sync
seek_in-lands wanted i t p on =
    ground (arith, (seek_files-Quiet (bound (pos 0) wanted p.duration) i t p).same_active)

current-found :
    (p : Player)
    → in_range p.current_track p.tracks ≡ true
    → (i : ℕ) × (t : Track) × (current p ≡ some (i, t))
unfolding in_range
current-found p h = elim (Option-cases p.current_track) [
  | inl none_ ↦ absurd (ground arith)
  | inr (i, e) ↦ let (t, at) = get_elem?_total p.tracks i (ground arith) in (i, t, ground arith)
]

-- In an open session of a valid player no seek is ignored: the position becomes the one wanted when
-- it lies within the book, the start of the book when it lies before, the end of the book when it lies
-- after, and a report to the server is scheduled.
pub seek_global-lands :
    (wanted : ℤ) (p : Player)
    → IsValid p
    → p.active ≡ true
    → let q = seek_global wanted p in
      (pos 0 ≤ℤ q.global_position)
      × (q.global_position ≤ℤ p.duration)
      × (pos 0 ≤ℤ wanted → wanted ≤ℤ p.duration → q.global_position ≡ wanted)
      × (wanted ≤ℤ pos 0 → q.global_position ≡ pos 0)
      × (p.duration ≤ℤ wanted → q.global_position ≡ p.duration)
      × (q.seek_sync_timer ≡ true)
unfolding seek_global
seek_global-lands wanted p v on =
    let (i, t, here) = current-found p (v.has_track on) in
    let d = v.has_duration on in
    let landed = seek_in-lands wanted i t p on in
    let b = bound_bounds (pos 0) wanted p.duration (ground arith) in
    ground (
      arith,
      landed,
      here,
      d,
      b,
      bound_inside (pos 0) wanted p.duration,
      bound_below (pos 0) wanted p.duration,
      bound_above (pos 0) wanted p.duration,
    )

-- mpv is there and paused.
abbrev IsPaused : Player → Type 0
IsPaused p = (p.mpv.handle ≡ true) × (p.mpv.paused ≡ true)

load_file_at-IsPaused :
    (s : ℤ) (i : ℕ) (t : Track) (p : Player) → IsPaused p → IsPaused (load_file_at s false i t p)
unfolding load_file_at update_chapter Mpv.load_playlist Mpv.request_paused queue
load_file_at-IsPaused s i t p h = ground arith

load_track_for_global-IsPaused :
    (s : ℤ) (p : Player) → IsPaused p → IsPaused (load_track_for_global s false p)
unfolding load_track_for_global
load_track_for_global-IsPaused s p h =
    elim (track_index_for_global p.tracks s)
      as (λ o. IsPaused (elim o [
        | none ↦ p
        | some i ↦ elim (get_elem? p.tracks i) [ none ↦ p | some t ↦ load_file_at s false i t p ]
      ])) [
        | none ↦ h
        | some i ↦
            elim (get_elem? p.tracks i)
              as (λ o. IsPaused (elim o [ none ↦ p | some t ↦ load_file_at s false i t p ])) [
                | none ↦ h
                | some t ↦ load_file_at-IsPaused s i t p h
              ]
      ]

seek_in-IsPaused :
    (s : ℤ) (i : ℕ) (t : Track) (p : Player) → IsPaused p → IsPaused (seek_in s i t p)
unfolding seek_in seek_files follow_chapter_end schedule_sync Mpv.seek
seek_in-IsPaused s i t p h =
    ground (arith, load_track_for_global-IsPaused (bound (pos 0) s p.duration) p h)

seek_global-IsPaused : (s : ℤ) (p : Player) → IsPaused p → IsPaused (seek_global s p)
unfolding seek_global
seek_global-IsPaused s p h =
    if_elim IsPaused (not p.active) (λ _. h)
      λ _.
        elim (current p) as (λ o. IsPaused (elim o [ none ↦ p | some (i, t) ↦ seek_in s i t p ])) [
          | none ↦ h
          | some (i, t) ↦ seek_in-IsPaused s i t p h
        ]

seek_in-awake :
    (s : ℤ) (i : ℕ) (t : Track) (p : Player)
    → (seek_in s i t p).sleep_at_chapter_end ≡ p.sleep_at_chapter_end
unfolding seek_in seek_files follow_chapter_end schedule_sync Mpv.seek load_track_for_global
    load_file_at update_chapter
seek_in-awake s i t p = ground arith

abbrev KeepsStop : Player → Player → Type 0
KeepsStop p q = q.sleep_at_chapter_end ≡ p.sleep_at_chapter_end

seek_global-awake :
    (s : ℤ) (p : Player) → (seek_global s p).sleep_at_chapter_end ≡ p.sleep_at_chapter_end
unfolding seek_global
seek_global-awake s p =
    if_elim (KeepsStop p) (not p.active) (λ _. refl)
      λ _.
        elim (current p)
          as (λ o. KeepsStop p (elim o [ none ↦ p | some (i, t) ↦ seek_in s i t p ])) [
            | none ↦ refl
            | some (i, t) ↦ seek_in-awake s i t p
          ]

-- What the stop leaves: mpv paused and no stop set, in an open session.
abbrev pub HasStopped : Player → Type 0
HasStopped q = (q.mpv.paused ≡ true) × (q.sleep_at_chapter_end ≡ false) × (q.active ≡ true)

stopped :
    (p : Player)
    → p.active ≡ true
    → p.mpv.handle ≡ true
    → let q = pause (clear_sleep_timer p) in HasStopped q × IsPaused q
unfolding clear_sleep_timer pause Mpv.request_paused
stopped p on handle = ground arith

seek_global-HasStopped :
    (s : ℤ) (p : Player) → HasStopped p → IsPaused p → HasStopped (seek_global s p)
seek_global-HasStopped s p (a, b, c) h = (
  (seek_global-IsPaused s p h).1,
  seek_global-awake s p ∙ b,
  (seek_global-Quiet s p).same_active ∙ c,
)

-- The end-of-chapter stop, in an open session while libmpv is there: once the position is within 50
-- ms of the chapter's end, the stop is cleared and mpv is paused, and the pause outlives the seek
-- to the boundary even when the boundary lies in another file.
pub sleep_if_ended-pauses :
    (global : ℤ) (p : Player)
    → p.active ≡ true
    → p.mpv.handle ≡ true
    → p.sleep_at_chapter_end ≡ true
    → p.sleep_chapter_end -ℤ pos 50 ≤ℤ global
    → HasStopped (sleep_if_ended global p)
unfolding sleep_if_ended
sleep_if_ended-pauses global p on handle set reached =
    let (s, h) = stopped p on handle in
    if_elim HasStopped
      (not (p.sleep_at_chapter_end && leb_ℤ (p.sleep_chapter_end -ℤ pos 50) global))
      (λ missed. absurd (ground arith))
      λ _.
        if_elim HasStopped (ltb_ℤ p.sleep_chapter_end (pause (clear_sleep_timer p)).duration)
          (λ _. seek_global-HasStopped p.sleep_chapter_end (pause (clear_sleep_timer p)) s h) λ _. s

-- In an open session with a current file, while no stop at the end of a chapter is set, the report
-- of mpv at the place in the file that a seek to `c` asks for puts the session at `c`, with the
-- chapter of `c`.
pub on_mpv_position-in_file :
    (c : ℤ) (i : ℕ) (t : Track) (p : Player)
    → p.active ≡ true
    → current p ≡ some (i, t)
    → p.sleep_at_chapter_end ≡ false
    → let q = on_mpv_position (in_file p.is_hls c t) p in
      (q.global_position ≡ c) × (q.chapter_index ≡ chapter_index_from c 0 p.chapters)
unfolding on_mpv_position on_position in_file update_chapter sleep_if_ended
on_mpv_position-in_file c i t p on here awake = grind int_laws
