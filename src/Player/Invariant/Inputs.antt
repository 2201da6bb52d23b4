-- ===== src/Player/Invariant/Inputs.antt =====
-- The step function of the player keeps the invariant, along any history.
use shelf_remote.Prelude.{
  false, arith, [], Bool, Chars, ℕ, if_elim, String, List, ◌≡◌, ◌||◌, ◌∷◌, not, ◌==◌, ltb, length,
}
use shelf_remote.Net.Endpoints.{play_path, play_episode_path}
use shelf_remote.Player.Mpv
use shelf_remote.Player.State.{Player}
use shelf_remote.Player.Effects.{paused_changed, duration_changed}
use shelf_remote.Player.Sleep.{is_running}
use shelf_remote.Player.Sync.{Reply, sync, on_report_reply}
use shelf_remote.Player.Seek.{skip}
use shelf_remote.Player.Open.{
  PlayJson, on_play_reply, close_current, play_item, play_episode, start_session,
}
use shelf_remote.Player.Quiet.{emit-Quiet, play-Quiet, pause-Quiet}
use shelf_remote.Player.Quiet.Moves.{
  seek_global-Quiet, next_chapter-Quiet, previous_chapter-Quiet, on_mpv_position-Quiet,
}
use shelf_remote.Player.Quiet.Commands.{
  toggle_play_pause-Quiet, set_sleep_timer-Quiet, set_sleep_at_chapter_end-Quiet,
  cycle_sleep_timer-Quiet, on_sleep_timeout-Quiet, set_speed-Quiet, set_volume-Quiet,
  on_access_token-Quiet, file_loaded-Quiet,
}
use shelf_remote.Player.Accounting.Steps.{advance_track-Quiet}
use shelf_remote.Player.Invariant.{IsValid, Core-IsValid, Quiet-IsValid}
use shelf_remote.Player.Invariant.Open.{apply_play_response-IsValid}
use shelf_remote.Player.Invariant.Steps.{
  stop_and_close-IsValid, finished-IsValid, sync-IsValid, closed_by-IsValid,
  refresh_playing-IsValid,
}
use shelf_remote.Player.Events.{
  on_end_of_file, on_mpv_error, following, on_pause, MpvEvent, on_mpv_event, time_pos, duration_is,
  pause_is, core_idle_is, cache_pause_is, file_is_loaded, end_file, eof, error, other_reason, Input,
  pass, mpv_event, interval_timeout, seek_sync_timeout, sleep_timeout, play_reply, report_reply,
  choose_item, choose_episode, press_toggle, press_play, press_pause, press_next, press_previous,
  press_close, seek_to, skip_by, speed_to, volume_to, sleep_for, sleep_chapter, sleep_cycle,
  new_token, step, run,
}

on_end_of_file-IsValid : (p : Player) → IsValid p → IsValid (on_end_of_file p)
unfolding on_end_of_file
on_end_of_file-IsValid p v =
    if_elim IsValid (not p.active) (λ _. v)
      λ _.
        if_elim IsValid p.is_hls (λ _. finished-IsValid p v)
          λ _.
            if_elim IsValid (ltb (following p.current_track) (length p.tracks))
              (λ _.
                Quiet-IsValid (advance_track-Quiet (following p.current_track) (sync p))
                  (sync-IsValid p v))
              λ _. finished-IsValid p v

on_mpv_error-IsValid : (m : String) (p : Player) → IsValid p → IsValid (on_mpv_error m p)
unfolding on_mpv_error
on_mpv_error-IsValid m p v = Quiet-IsValid (emit-Quiet _ _) (closed_by-IsValid p v)

-- The request for a session changes the item and the generation alone.
requested-IsValid :
    (path item episode : Chars) (p : Player)
    → IsValid p
    → IsValid (start_session path (record p { item_id = item; episode_id = episode }))
unfolding start_session
requested-IsValid path item episode p v = Core-IsValid (ground arith) v v.mirrors

play_item-IsValid : (i : Chars) (p : Player) → IsValid p → IsValid (play_item i p)
unfolding play_item close_current
play_item-IsValid i p v = requested-IsValid (play_path i) i [] _ (closed_by-IsValid p v)

play_episode-IsValid : (i e : Chars) (p : Player) → IsValid p → IsValid (play_episode i e p)
unfolding play_episode close_current
play_episode-IsValid i e p v =
    requested-IsValid (play_episode_path i e) i e _ (closed_by-IsValid p v)

on_pause-IsValid : (b : Bool) (p : Player) → IsValid p → IsValid (on_pause b p)
unfolding on_pause
on_pause-IsValid b p v = refresh_playing-IsValid _ (
    if_elim IsValid (Mpv.same b p.mpv.paused) (λ _. v)
      λ _.
        let q = record p { mpv = record p.mpv { paused = b } } in
        Quiet-IsValid (emit-Quiet (paused_changed b) q) (Core-IsValid (ground arith) v v.mirrors))

on_mpv_event-IsValid : (e : MpvEvent) (p : Player) → IsValid p → IsValid (on_mpv_event e p)
unfolding on_mpv_event
on_mpv_event-IsValid (time_pos s) p v =
    let q = record p { mpv = record p.mpv { position = s } } in
    Quiet-IsValid (on_mpv_position-Quiet s q) (Core-IsValid (ground arith) v v.mirrors)
on_mpv_event-IsValid (duration_is s) p v =
    let q = record p { mpv = record p.mpv { duration = s } } in
    Quiet-IsValid (emit-Quiet (duration_changed s) q) (Core-IsValid (ground arith) v v.mirrors)
on_mpv_event-IsValid (pause_is b) p v = on_pause-IsValid b p v
on_mpv_event-IsValid (core_idle_is b) p v =
    refresh_playing-IsValid (record p { mpv = record p.mpv { core_idle = b } })
      (Core-IsValid (ground arith) v v.mirrors)
on_mpv_event-IsValid (cache_pause_is b) p v =
    refresh_playing-IsValid (record p { mpv = record p.mpv { paused_for_cache = b } })
      (Core-IsValid (ground arith) v v.mirrors)
on_mpv_event-IsValid file_is_loaded p v = Quiet-IsValid (file_loaded-Quiet p) v
on_mpv_event-IsValid (end_file eof) p v =
    refresh_playing-IsValid (on_end_of_file p) (on_end_of_file-IsValid p v)
on_mpv_event-IsValid (end_file (error m)) p v =
    refresh_playing-IsValid (on_mpv_error m p) (on_mpv_error-IsValid m p v)
on_mpv_event-IsValid (end_file other_reason) p v = refresh_playing-IsValid p v

-- A play reply of the current generation comes while no session is open: the request closed the
-- session that was open, and is answered once.
abbrev pub Fits : Input → Player → Type 0
Fits (play_reply g res json) p = g ≡ p.play_generation → p.active ≡ false
Fits _ p = Unit {0}

on_play_reply-IsValid :
    (g : ℕ) (res : Reply) (json : PlayJson) (p : Player)
    → (g ≡ p.play_generation → p.active ≡ false)
    → IsValid p
    → IsValid (on_play_reply g res json p)
unfolding on_play_reply
on_play_reply-IsValid g res json p once v =
    if_elim IsValid (res.stale || not (g == p.play_generation)) (λ _. v)
      λ current.
        if_elim IsValid (not res.ok) (λ _. Quiet-IsValid (emit-Quiet _ p) v)
          λ _. apply_play_response-IsValid json p (once (ground arith)) v

-- Every input keeps the invariant, provided that a play request is answered once.
pub step-IsValid : (i : Input) (p : Player) → Fits i p → IsValid p → IsValid (step i p)
unfolding step
step-IsValid (pass d) p f v = Core-IsValid (ground arith) v v.mirrors
step-IsValid (mpv_event e) p f v = on_mpv_event-IsValid e p v
step-IsValid interval_timeout p f v = if_elim IsValid p.sync_timer (λ _. sync-IsValid p v) (λ _. v)
step-IsValid seek_sync_timeout p f v =
    if_elim IsValid p.seek_sync_timer
      (λ _.
        sync-IsValid (record p { seek_sync_timer = false })
          (Core-IsValid (ground arith) v v.mirrors))
      (λ _. v)
step-IsValid sleep_timeout p f v =
    if_elim IsValid (is_running p.sleep_timer) (λ _. Quiet-IsValid (on_sleep_timeout-Quiet p) v)
      (λ _. v)
step-IsValid (play_reply g res json) p f v = on_play_reply-IsValid g res json p f v
step-IsValid (report_reply n g res) p f v =
    unfold on_report_reply in Core-IsValid (ground arith) v (ground arith)
step-IsValid (choose_item i) p f v = play_item-IsValid i p v
step-IsValid (choose_episode i e) p f v = play_episode-IsValid i e p v
step-IsValid press_toggle p f v = Quiet-IsValid (toggle_play_pause-Quiet p) v
step-IsValid press_play p f v = Quiet-IsValid (play-Quiet p) v
step-IsValid press_pause p f v = Quiet-IsValid (pause-Quiet p) v
step-IsValid press_next p f v = Quiet-IsValid (next_chapter-Quiet p) v
step-IsValid press_previous p f v = Quiet-IsValid (previous_chapter-Quiet p) v
step-IsValid press_close p f v = stop_and_close-IsValid p v
step-IsValid (seek_to s) p f v = Quiet-IsValid (seek_global-Quiet s p) v
step-IsValid (skip_by d) p f v = unfold skip in Quiet-IsValid (seek_global-Quiet _ p) v
step-IsValid (speed_to s) p f v = Quiet-IsValid (set_speed-Quiet s p) v
step-IsValid (volume_to x) p f v = Quiet-IsValid (set_volume-Quiet x p) v
step-IsValid (sleep_for m) p f v = Quiet-IsValid (set_sleep_timer-Quiet m p) v
step-IsValid sleep_chapter p f v = Quiet-IsValid (set_sleep_at_chapter_end-Quiet p) v
step-IsValid sleep_cycle p f v = Quiet-IsValid (cycle_sleep_timer-Quiet p) v
step-IsValid (new_token t) p f v = Quiet-IsValid (on_access_token-Quiet t p) v

-- A history in which every play request is answered once.
pub data History : List Input → Player → Type 0 where
  done : {p : Player} → History [] p
  next :
      {i : Input} {is : List Input} {p : Player}
      → Fits i p
      → History is (step i p)
      → History (i ∷ is) p

-- After any history in which a play request is answered once, a valid player is valid again: an
-- open session has an id, a positive duration and a current file that is one of its files, and the
-- session takes audio to be on exactly when the mpv controller does.
pub run-IsValid : {is : List Input} {p : Player} → History is p → IsValid p → IsValid (run is p)
unfolding run
run-IsValid done v = v
run-IsValid (next {i} {p = q} f h) v = run-IsValid h (step-IsValid i q f v)
