-- ===== src/Player/Accounting/Steps.antt =====
-- Every input of the player, in terms of the accounting of listening time.
use shelf_remote.Net.Endpoints.{play_path, play_episode_path}
use shelf_remote.Player.Quiet.{update_chapter-Quiet}
use shelf_remote.Player.Quiet.Moves.{
  set_current-Quiet, if-Quiet, load_track_for_global-Quiet, on_mpv_position-Quiet,
}
use shelf_remote.Player.Quiet.Commands.{file_loaded-Quiet}
use shelf_remote.Player.Events.{
  within, on_pause, MpvEvent, on_mpv_event, time_pos, duration_is, pause_is, core_idle_is,
  cache_pause_is, file_is_loaded, end_file, eof, error, other_reason,
}
use shelf_remote.Player.Open.{play_item, play_episode, close_current}
use shelf_remote.Player.Effects.{paused_changed, duration_changed}
use shelf_remote.Player.Load.{update_chapter, load_track_for_global}
use shelf_remote.Player.Timeline.{Track}
use shelf_remote.Prelude.{
  refl, true, false, arith, [], if◌then◌else◌, ◌≡◌, String, Chars, ℕ, if_elim, not, ◌≢◌, ltb,
  length, none, some, pos, Bool, ℤ, ◌+ℤ◌, Option, get_elem?,
}
use shelf_remote.Player.Mpv
use shelf_remote.Player.State.{Player, with_mpv, ◌▷◌}
use shelf_remote.Player.Quiet.{time_reported, Quiet, Quiet-refl, Quiet-trans, stop-Quiet}
use shelf_remote.Player.Accounting.{
  IsClocked, Accounts, Accounts-trans, Quiet-Accounts, flush_and_close-Accounts, sync-Accounts,
  emit-Accounts, refresh_playing-Accounts,
}
use shelf_remote.Player.Sync.{sync, flush_and_close, stop_and_close}
use shelf_remote.Player.Events.{on_end_of_file, advance_track, following, on_mpv_error}
use shelf_remote.Player.Open.{start_session}

abbrev pub HasSession : Player → Type 0
HasSession p = p.active ≡ true → p.session_id ≢ []

pub stop_and_close-Accounts :
    (p : Player) → HasSession p → IsClocked p → Accounts p (stop_and_close p)
unfolding stop_and_close
stop_and_close-Accounts p n h =
    let closed = flush_and_close-Accounts false p n h in
    Accounts-trans closed (Quiet-Accounts (stop-Quiet (flush_and_close false p)) closed.clocked)

completed-Quiet : (p : Player) → Quiet p (record p { completed = true })
completed-Quiet p = ground arith

finished-Accounts :
    (p : Player)
    → HasSession p
    → IsClocked p
    → Accounts p (stop_and_close (record p { completed = true }))
finished-Accounts p n h =
    Accounts-trans (Quiet-Accounts (completed-Quiet p) h)
      (stop_and_close-Accounts (record p { completed = true }) n h)

pub advance_track-Quiet : (i : ℕ) (p : Player) → Quiet p (advance_track i p)
unfolding advance_track
advance_track-Quiet i p = at (get_elem? p.tracks i) refl
  where
    moved : Player
    moved = record p { current_track = some i }

    to : Track → ℤ
    to t = t.start_offset +ℤ pos 10

    at :
        (o : Option Track)
        → get_elem? p.tracks i ≡ o
        → Quiet p (elim o [
          | none ↦ p
          | some t ↦
              if within i p.queued_through
              then update_chapter (to t) moved
              else load_track_for_global (to t) true p
        ])
    at none e = Quiet-refl p
    at (some t) e =
        if-Quiet (within i p.queued_through)
          (Quiet-trans {q = moved} (set_current-Quiet i p t p.queued_through p.uses_auth e)
            (update_chapter-Quiet (to t) moved))
          (load_track_for_global-Quiet (to t) true p)

on_end_of_file-Accounts : (p : Player) → HasSession p → IsClocked p → Accounts p (on_end_of_file p)
unfolding on_end_of_file
on_end_of_file-Accounts p n h =
    if_elim (Accounts p) (not p.active) (λ _. Quiet-Accounts (Quiet-refl p) h)
      λ _.
        if_elim (Accounts p) p.is_hls (λ _. finished-Accounts p n h)
          λ _.
            if_elim (Accounts p) (ltb (following p.current_track) (length p.tracks))
              (λ _.
                let synced = sync-Accounts p h in
                Accounts-trans synced (
                  Quiet-Accounts (advance_track-Quiet (following p.current_track) (sync p))
                    synced.clocked))
              λ _. finished-Accounts p n h

closed_by-Accounts :
    (p : Player)
    → HasSession p
    → IsClocked p
    → Accounts p (if p.active then flush_and_close false p ▷ with_mpv Mpv.stop else p)
closed_by-Accounts p n h =
    if_elim (Accounts p) p.active (λ _. unfold stop_and_close in stop_and_close-Accounts p n h)
      λ _. Quiet-Accounts (Quiet-refl p) h

on_mpv_error-Accounts :
    (m : String) (p : Player) → HasSession p → IsClocked p → Accounts p (on_mpv_error m p)
unfolding on_mpv_error
on_mpv_error-Accounts m p n h = emit-Accounts _ (closed_by-Accounts p n h)

-- The request for a session reports no time.
requested-Accounts :
    (path item episode : Chars) {p q : Player}
    → Accounts p q
    → Accounts p (start_session path (record q { item_id = item; episode_id = episode }))
unfolding start_session time_reported
requested-Accounts path item episode a = ground arith

pub play_item-Accounts :
    (i : Chars) (p : Player) → HasSession p → IsClocked p → Accounts p (play_item i p)
unfolding play_item close_current
play_item-Accounts i p n h = requested-Accounts (play_path i) i [] (closed_by-Accounts p n h)

pub play_episode-Accounts :
    (i e : Chars) (p : Player) → HasSession p → IsClocked p → Accounts p (play_episode i e p)
unfolding play_episode close_current
play_episode-Accounts i e p n h =
    requested-Accounts (play_episode_path i e) i e (closed_by-Accounts p n h)

pub on_pause-Accounts : (b : Bool) (p : Player) → IsClocked p → Accounts p (on_pause b p)
unfolding on_pause
on_pause-Accounts b p h =
    let shown =
      if_elim (Accounts p) (Mpv.same b p.mpv.paused) (λ _. Quiet-Accounts (Quiet-refl p) h)
        λ _.
          emit-Accounts (paused_changed b) {q = record p { mpv = record p.mpv { paused = b } }}
            (record { conserved = refl; clocked = h }) in
    Accounts-trans shown (refresh_playing-Accounts _ shown.clocked)

-- A change of the mpv controller's own members.
in_mpv-Accounts : (m : Mpv.Mpv) (p : Player) → IsClocked p → Accounts p (record p { mpv = m })
in_mpv-Accounts m p h = record { conserved = refl; clocked = h }

pub on_mpv_event-Accounts :
    (e : MpvEvent) (p : Player) → HasSession p → IsClocked p → Accounts p (on_mpv_event e p)
unfolding on_mpv_event
on_mpv_event-Accounts (time_pos s) p n h =
    let q = record p { mpv = record p.mpv { position = s } } in
    Accounts-trans (in_mpv-Accounts q.mpv p h) (Quiet-Accounts (on_mpv_position-Quiet s q) h)
on_mpv_event-Accounts (duration_is s) p n h =
    emit-Accounts (duration_changed s) (in_mpv-Accounts (record p.mpv { duration = s }) p h)
on_mpv_event-Accounts (pause_is b) p n h = on_pause-Accounts b p h
on_mpv_event-Accounts (core_idle_is b) p n h =
    let q = record p { mpv = record p.mpv { core_idle = b } } in
    Accounts-trans (in_mpv-Accounts q.mpv p h) (refresh_playing-Accounts q h)
on_mpv_event-Accounts (cache_pause_is b) p n h =
    let q = record p { mpv = record p.mpv { paused_for_cache = b } } in
    Accounts-trans (in_mpv-Accounts q.mpv p h) (refresh_playing-Accounts q h)
on_mpv_event-Accounts file_is_loaded p n h = Quiet-Accounts (file_loaded-Quiet p) h
on_mpv_event-Accounts (end_file eof) p n h =
    let ended = on_end_of_file-Accounts p n h in
    Accounts-trans ended (refresh_playing-Accounts (on_end_of_file p) ended.clocked)
on_mpv_event-Accounts (end_file (error m)) p n h =
    let failed = on_mpv_error-Accounts m p n h in
    Accounts-trans failed (refresh_playing-Accounts (on_mpv_error m p) failed.clocked)
on_mpv_event-Accounts (end_file other_reason) p n h = refresh_playing-Accounts p h
