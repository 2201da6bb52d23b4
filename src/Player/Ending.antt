-- ===== src/Player/Ending.antt =====
-- What the end of a file does.
use shelf_remote.Player.Effects.{stop_playback, post_close, signal, active_changed}
use shelf_remote.Player.Mpv
use shelf_remote.Player.Syncer.{pending_listened}
use shelf_remote.Player.Syncer
use shelf_remote.Player.Sleep.{clear_sleep_timer}
use shelf_remote.Player.Timeline.{Track, chapter_index_from}
use shelf_remote.Player.Load.{update_chapter}
use shelf_remote.Player.Sync.{stop_and_close, flush_and_close, close_session, sync, report}
use shelf_remote.Player.Events.{following, on_end_of_file, advance_track, within}
use shelf_remote.Prelude.{
  ℕ, true, false, none, some, arith, pos, [], Bool, ◌||◌, not, ltb, length, ◌≡◌, get_elem?, ◌+ℤ◌,
  get_elem?_bound, ◌≢◌, ◌++◌, ◌∷◌, refl, sym, subst, ◌∙◌, if_elim,
}
use shelf_remote.Player.State.{Player}

-- The last file, or the one stream of an HLS session, has been played.
unfoldable pub is_last : Player → Bool
is_last p = p.is_hls || not (ltb (following p.current_track) (length p.tracks))

-- The session `p` has ended in `q`: the log has grown by the notice, the report and the stop.
pub record IsFinished (p q : Player) : Type 0 where
  pub is_completed : q.completed ≡ true
  pub is_inactive : q.active ≡ false
  pub has_no_session : q.session_id ≡ []
  pub has_no_interval : q.sync_timer ≡ false
  pub has_no_sleep : q.sleep_timer ≡ none
  pub has_no_tick : q.sleep_tick ≡ false
  pub has_no_preset : q.sleep_minutes ≡ 0
  pub has_no_countdown : q.sleep_remaining_ms ≡ 0
  pub has_no_stop : q.sleep_at_chapter_end ≡ false
  pub has_reported :
      q.out
      ≡ Mpv.when p.mpv.handle stop_playback
        ++ post_close (report (pending_listened p.now p.listen) p)
          ∷ signal active_changed
          ∷ (clear_sleep_timer p).out

-- No timer runs, nothing is left to count down, and no preset or stop is chosen.
abbrev IsAwake : Player → Type 0
IsAwake q =
    (q.sleep_timer ≡ none)
    × (q.sleep_tick ≡ false)
    × (q.sleep_minutes ≡ 0)
    × (q.sleep_remaining_ms ≡ 0)
    × (q.sleep_at_chapter_end ≡ false)

taken :
    (p : Player)
    → (Syncer.take_listened p.now (Syncer.set_playing p.now false p.listen)).0
      ≡ pending_listened p.now p.listen
unfolding Syncer.take_listened Syncer.set_playing pending_listened
taken p = ground arith

cleared-cases :
    (n : ℕ) (p : Player)
    → let q = clear_sleep_timer p in
      IsAwake q
      × (q.now ≡ p.now)
      × (q.listen ≡ p.listen)
      × (q.completed ≡ p.completed)
      × (q.mpv ≡ p.mpv)
      × (q.active ≡ p.active)
      × (q.session_id ≡ p.session_id)
      × (report n q ≡ report n p)
unfolding clear_sleep_timer report
cleared-cases n p = ground arith

closed-cases :
    (q : Player)
    → q.session_id ≢ []
    → let r = close_session false q in
      (r.active ≡ false)
      × (r.session_id ≡ [])
      × (r.sync_timer ≡ false)
      × (IsAwake q → IsAwake r)
      × (r.completed ≡ q.completed)
      × (r.mpv ≡ q.mpv)
      × (r.out
          ≡ post_close (report (pending_listened q.now q.listen) q) ∷ signal active_changed ∷ q.out)
unfolding close_session report
closed-cases q has = ground (arith, taken q)

stopped-cases :
    (p : Player)
    → p.active ≡ true
    → let r = close_session false (clear_sleep_timer p) in
      stop_and_close p ≡ record r { out = Mpv.when r.mpv.handle stop_playback ++ r.out }
unfolding stop_and_close flush_and_close Mpv.stop
stopped-cases p on = rw on refl

stop_and_close-IsFinished :
    (p : Player)
    → p.active ≡ true
    → p.session_id ≢ []
    → p.completed ≡ true
    → IsFinished p (stop_and_close p)
stop_and_close-IsFinished p on has completed =
    let n = pending_listened p.now p.listen in
    let c = cleared-cases n p in
    let r = closed-cases (clear_sleep_timer p) (λ e. has (sym c.6 ∙ e)) in
    subst (IsFinished p) (sym (stopped-cases p on)) (ground (arith, c, r))

-- At the end of the last file of an open session that has an id the book counts as completed, the
-- session closes, the sleep timer is cleared with its preset, its countdown and the stop at the end of a
-- chapter, the last interval goes to the server under the old session's id, and mpv is stopped.
pub on_end_of_file-IsFinished :
    (p : Player)
    → p.active ≡ true
    → p.session_id ≢ []
    → is_last p ≡ true
    → IsFinished (record p { completed = true }) (on_end_of_file p)
unfolding on_end_of_file
on_end_of_file-IsFinished p on has last =
    let done = stop_and_close-IsFinished (record p { completed = true }) on has refl in
    if_elim (IsFinished (record p { completed = true })) (not p.active)
      (λ off. absurd (ground arith))
      λ _.
        if_elim (IsFinished (record p { completed = true })) p.is_hls (λ _. done)
          λ file.
            if_elim (IsFinished (record p { completed = true }))
              (ltb (following p.current_track) (length p.tracks))
              (λ more. absurd (unfold is_last in ground arith)) λ _. done

-- At the end of a file that another follows in mpv's playlist, in an open session of files and not
-- one stream, the session stays open, moves to the next file and its chapter, and leaves mpv as it
-- is, which has already moved on by itself.
pub on_end_of_file-gapless :
    (next : ℕ) (t : Track) (p : Player)
    → p.active ≡ true
    → p.is_hls ≡ false
    → following p.current_track ≡ next
    → get_elem? p.tracks next ≡ some t
    → within next p.queued_through ≡ true
    → let q = on_end_of_file p in
      (q.active ≡ true)
      × (q.completed ≡ p.completed)
      × (q.current_track ≡ some next)
      × (q.chapter_index ≡ chapter_index_from (t.start_offset +ℤ pos 10) 0 p.chapters)
      × (q.mpv ≡ p.mpv)
unfolding on_end_of_file advance_track update_chapter sync
on_end_of_file-gapless next t p on file e at queued =
    ground (arith, get_elem?_bound p.tracks next t at)
