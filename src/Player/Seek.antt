-- ===== src/Player/Seek.antt =====
-- Moving through the book in src/player/PlaybackSession.cpp: seeks, skips, the chapter keys, the
-- position reports of mpv, speed and volume.
-- A speed of 1.0 is 1000, and a volume of 1.0 is 1000 (100000 on mpv's scale).
use shelf_remote.Prelude.{
  false, none, some, pos, negsuc, if◌then◌else◌, ℤ, Option, ◌&&◌, ltb_ℤ, bound, sub_ℕ, ℕ, not, ◌+ℤ◌,
  Bool, pos_part, is_empty, ◌||◌, get_elem?, leb_ℤ, ◌-ℤ◌, neg_ℤ, ◌==◌, ◌*◌, neg_part,
}
use shelf_remote.Player.Mpv
use shelf_remote.Player.Effects.{position_changed, seeked, speed_changed, volume_changed}
use shelf_remote.Player.Timeline.{
  Track, track_index_for_global, chapter_end_for, next_target, previous_target,
}
use shelf_remote.Player.State.{Player, ◌▷◌, emit, with_mpv}
use shelf_remote.Player.Sleep.{clear_sleep_timer, pause}
use shelf_remote.Player.Load.{in_file, load_track_for_global, update_chapter}
use shelf_remote.Player.Sync.{schedule_sync}

abbrev pub holds_index : Option ℕ → ℕ → Bool
holds_index none i = false
holds_index (some j) i = j == i

-- The file part of `seekGlobal`: a seek in the loaded file, or the load of another.
unfoldable pub seek_files : ℤ → ℕ → Track → Player → Player
unfolding in_file Mpv.seek
seek_files seconds i t p =
    if p.is_hls || holds_index (track_index_for_global p.tracks seconds) i
    then with_mpv (Mpv.seek (in_file p.is_hls seconds t)) p
    else load_track_for_global seconds (not p.mpv.paused) p

unfoldable pub follow_chapter_end : ℤ → Player → Player
follow_chapter_end seconds p =
    if p.sleep_at_chapter_end
    then record p { sleep_chapter_end = chapter_end_for p.duration p.chapters seconds }
    else p

unfoldable pub seek_in : ℤ → ℕ → Track → Player → Player
unfolding seek_files follow_chapter_end schedule_sync
seek_in wanted i t p =
    let seconds = bound (pos 0) wanted p.duration in
    let q = seek_files seconds i t p in
    record q { global_position = seconds }
    ▷ emit (position_changed seconds)
    ▷ emit (seeked seconds)
    ▷ follow_chapter_end seconds
    ▷ schedule_sync

-- The current track, if the index is in range.
abbrev pub current : Player → Option (ℕ × Track)
current p = elim p.current_track [
  | none ↦ none
  | some i ↦ elim (get_elem? p.tracks i) [ none ↦ none | some t ↦ some (i, t) ]
]

unfoldable pub seek_global : ℤ → Player → Player
seek_global seconds p =
    if not p.active then p else elim (current p) [ none ↦ p | some (i, t) ↦ seek_in seconds i t p ]

unfoldable pub skip : ℤ → Player → Player
skip delta p = seek_global (p.global_position +ℤ delta) p

unfoldable pub fallback_skip_seconds : Player → ℤ
fallback_skip_seconds p = if ltb_ℤ (pos 0) p.skip_setting then p.skip_setting else pos 30000

unfoldable pub next_chapter : Player → Player
unfolding skip
next_chapter p =
    if not p.active
    then p
    else if is_empty p.chapters
    then skip (fallback_skip_seconds p) p
    else let target = next_target p.global_position (negsuc 999) p.chapters in
      if leb_ℤ (pos 0) target then seek_global target p else p

unfoldable pub previous_chapter : Player → Player
unfolding skip
previous_chapter p =
    if not p.active
    then p
    else if is_empty p.chapters
    then skip (neg_ℤ (fallback_skip_seconds p)) p
    else seek_global (previous_target p.chapters p.global_position) p

-- The test of the end-of-chapter sleep, and what it does.
unfoldable pub sleep_if_ended : ℤ → Player → Player
sleep_if_ended global p =
    if not (p.sleep_at_chapter_end && leb_ℤ (p.sleep_chapter_end -ℤ pos 50) global)
    then p
    else let boundary = p.sleep_chapter_end in
      let q = p ▷ clear_sleep_timer ▷ pause in
      if ltb_ℤ boundary q.duration then seek_global boundary q else q

unfoldable pub on_position : ℤ → ℤ → Player → Player
unfolding sleep_if_ended
on_position offset position p =
    let global = if p.is_hls then position else offset +ℤ position in
    record p { global_position = global }
    ▷ emit (position_changed global)
    ▷ update_chapter global
    ▷ sleep_if_ended global

unfoldable pub on_mpv_position : ℤ → Player → Player
unfolding on_position
on_mpv_position position p =
    if not p.active
    then p
    else elim (current p) [ none ↦ p | some (i, t) ↦ on_position t.start_offset position p ]

unfoldable pub set_speed : ℤ → Player → Player
set_speed speed p = p ▷ with_mpv (Mpv.set_speed speed) ▷ emit speed_changed

abbrev times_100 : ℤ → ℤ
times_100 a = sub_ℕ (pos_part a * 100) (neg_part a * 100)

unfoldable pub set_volume : ℤ → Player → Player
set_volume volume p =
    p
    ▷ with_mpv (Mpv.set_volume (times_100 (bound (pos 0) volume (pos 1000))))
    ▷ emit volume_changed
