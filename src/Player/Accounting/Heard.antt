-- ===== src/Player/Accounting/Heard.antt =====
-- When the time of a session counts: while the mpv controller says that audio plays.
pub mod Steps
use shelf_remote.Prelude.{
  true, false, arith, [], List, ◌∷◌, Bool, ◌≡◌, ◌+◌, ℕ, ◌||◌, not, ◌&&◌, ◌==◌, if◌then◌else◌,
  if_elim, refl, ap, sym, ◌∙◌, Chars, String, ltb, length, subst, pos, ℤ, ◌+ℤ◌,
}
use shelf_remote.Player.Mpv
use shelf_remote.Player.Syncer
use shelf_remote.Player.State.{Player, emit, ◌▷◌, with_mpv}
use shelf_remote.Player.Effects.{
  Signal, playing_changed, paused_changed, duration_changed, speed_changed,
}
use shelf_remote.Net.Endpoints.{play_path, play_episode_path}
use shelf_remote.Player.Sleep.{is_running, hold_sleep_countdown, resume_sleep_countdown}
use shelf_remote.Player.Quiet.{
  Quiet, Quiet-trans, Quiet-refl, emit-Quiet, stop-Quiet, play-Quiet, pause-Quiet,
  clear_sleep_timer-Quiet, resume_sleep_countdown-Quiet, hold_sleep_countdown-Quiet,
}
use shelf_remote.Player.Quiet.Moves.{
  seek_global-Quiet, next_chapter-Quiet, previous_chapter-Quiet, on_mpv_position-Quiet,
  load_track_for_global-Quiet,
}
use shelf_remote.Player.Quiet.Commands.{
  toggle_play_pause-Quiet, set_sleep_timer-Quiet, set_sleep_at_chapter_end-Quiet,
  cycle_sleep_timer-Quiet, on_sleep_timeout-Quiet, set_speed-Quiet, set_volume-Quiet,
  on_access_token-Quiet, file_loaded-Quiet,
}
use shelf_remote.Player.Accounting.Steps.{advance_track-Quiet}
use shelf_remote.Player.Accounting.Balance.{opens, gained}
use shelf_remote.Player.Sleep.{clear_sleep_timer}
use shelf_remote.Player.Load.{load_track_for_global}
use shelf_remote.Player.Seek.{skip}
use shelf_remote.Player.Sync.{
  Reply, sync, flush_and_close, close_session, stop_and_close, on_report_reply,
}
use shelf_remote.Player.Open.{
  PlayJson, on_play_reply, play_item, play_episode, close_current, start_session,
  apply_play_response, begin_session, prepare_session, read_response, is_unusable, or_else,
}
use shelf_remote.Player.Events.{
  on_end_of_file, on_mpv_error, following, on_pause, on_mpv_event, time_pos, duration_is, pause_is,
  core_idle_is, cache_pause_is, file_is_loaded, end_file, eof, error, other_reason, Input, pass,
  mpv_event, interval_timeout, seek_sync_timeout, sleep_timeout, play_reply, report_reply,
  choose_item, choose_episode, press_toggle, press_play, press_pause, press_next, press_previous,
  press_close, seek_to, skip_by, speed_to, volume_to, sleep_for, sleep_chapter, sleep_cycle,
  new_token, step, MpvEvent, on_playing_changed, refresh_playing,
}

-- Whether what the mpv controller says of `playing` has reached the session that is open. The opening of
-- a session does not ask: what plays by then counts only once it has changed.
unfoldable pub heard : Bool → Input → Player → Bool
heard h (play_reply g res json) p = if opens g res json p then not p.mpv.playing else h
heard h i p = h || not (Mpv.same p.mpv.playing (step i p).mpv.playing)

-- The time that counts is that in which a session is open and audio plays, and the session has heard so;
-- and an interval that a failed request of the session gives back.
unfoldable pub played : Bool → Input → Player → ℕ
played h (pass d) p = if p.active && (h && p.mpv.playing) then d else 0
played h (report_reply n g res) p =
    if res.stale || not (g == p.listen_generation) then 0 else if res.ok then 0 else n
played h _ p = 0

-- The accumulator counts exactly while the time counts.
abbrev pub Tied : Bool → Player → Type 0
Tied h p = p.listen.playing ≡ (p.active && (h && p.mpv.playing))

pub gained-played : (h : Bool) (i : Input) (p : Player) → Tied h p → gained i p ≡ played h i p
unfolding gained played
gained-played h (pass d) p t = rw t refl
gained-played h (report_reply n g res) p t = refl
gained-played h i p t = refl

-- Nothing is said of `playing` meanwhile.
pub record Still (h : Bool) (p q : Player) : Type 0 where
  pub mpv : q.mpv.playing ≡ p.mpv.playing
  pub tied : Tied h p → Tied h q

-- The step says of `playing` what it makes of it.
abbrev pub Follows : Bool → Player → Player → Type 0
Follows h p q = Tied h p → Tied (h || not (Mpv.same p.mpv.playing q.mpv.playing)) q

same_playing : (a : Bool) → Mpv.same a a ≡ true
same_playing true = refl
same_playing false = refl

or_false : (h : Bool) → (h || false) ≡ h
or_false true = refl
or_false false = refl

unchanged : (h a b : Bool) → b ≡ a → (h || not (Mpv.same a b)) ≡ h
unchanged h a b e =
    ap (λ c. h || not (Mpv.same a c)) e ∙ ap (λ c. h || not c) (same_playing a) ∙ or_false h

module _ {h : Bool} where
  pub Quiet-Still : {p q : Player} → Quiet p q → Still h p q
  Quiet-Still a = record { mpv = a.same_mpv_playing; tied = λ t. ground (arith, a) }

  pub Still-trans : {p q r : Player} → Still h p q → Still h q r → Still h p r
  Still-trans a b = record { mpv = b.mpv ∙ a.mpv; tied = λ t. b.tied (a.tied t) }

  pub Still-Follows : {p q : Player} → Still h p q → Follows h p q
  Still-Follows {p} {q} a t =
      a.tied t
      ∙ ap (λ c. q.active && (c && q.mpv.playing))
          (sym (unchanged h p.mpv.playing q.mpv.playing a.mpv))

  pub then_Follows : {p q : Player} (r : Player) → Still h p q → Follows h q r → Follows h p r
  then_Follows {p} {q} r a b t =
      b (a.tied t)
      ∙ ap (λ c. r.active && ((h || not (Mpv.same c r.mpv.playing)) && r.mpv.playing)) a.mpv

  pub sync-Still : (p : Player) → Still h p (sync p)
  unfolding sync Syncer.take_listened
  sync-Still p = record { mpv = ground arith; tied = λ t. ground arith }

  -- A closed session does not count.
  close_session-Still : (b : Bool) (p : Player) → Still h p (close_session b p)
  unfolding close_session Syncer.set_playing Syncer.take_listened
  close_session-Still b p = record { mpv = ground arith; tied = λ t. ground arith }

  flush_and_close-Still : (b : Bool) (p : Player) → Still h p (flush_and_close b p)
  unfolding flush_and_close
  flush_and_close-Still b p =
      if_elim (Still h p) (not p.active) (λ _. Quiet-Still (Quiet-refl p))
        λ _.
          Still-trans (Quiet-Still (clear_sleep_timer-Quiet p))
            (close_session-Still b (clear_sleep_timer p))

  pub stop_and_close-Still : (p : Player) → Still h p (stop_and_close p)
  unfolding stop_and_close
  stop_and_close-Still p =
      Still-trans (flush_and_close-Still false p)
        (Quiet-Still (stop-Quiet (flush_and_close false p)))

  finished-Still : (p : Player) → Still h p (stop_and_close (record p { completed = true }))
  finished-Still p =
      let q = record p { completed = true } in
      let s : Still h p q = record { mpv = refl; tied = λ t. t } in
      Still-trans s (stop_and_close-Still q)

  pub on_end_of_file-Still : (p : Player) → Still h p (on_end_of_file p)
  unfolding on_end_of_file
  on_end_of_file-Still p =
      if_elim (Still h p) (not p.active) (λ _. Quiet-Still (Quiet-refl p))
        λ _.
          if_elim (Still h p) p.is_hls (λ _. finished-Still p)
            λ _.
              if_elim (Still h p) (ltb (following p.current_track) (length p.tracks))
                (λ _.
                  Still-trans (sync-Still p)
                    (Quiet-Still (advance_track-Quiet (following p.current_track) (sync p))))
                λ _. finished-Still p

  pub closed_by-Still :
      (p : Player) → Still h p (if p.active then flush_and_close false p ▷ with_mpv Mpv.stop else p)
  closed_by-Still p =
      if_elim (Still h p) p.active (λ _. unfold stop_and_close in stop_and_close-Still p)
        λ _. Quiet-Still (Quiet-refl p)

  pub on_mpv_error-Still : (m : String) (p : Player) → Still h p (on_mpv_error m p)
  unfolding on_mpv_error
  on_mpv_error-Still m p = Still-trans (closed_by-Still p) (Quiet-Still (emit-Quiet _ _))

  pub requested-Still :
      (path item episode : Chars) {p q : Player}
      → Still h p q
      → Still h p (start_session path (record q { item_id = item; episode_id = episode }))
  unfolding start_session
  requested-Still path item episode a = record { mpv = a.mpv; tied = λ t. a.tied t }

  told-Still :
      (b : Bool) (q : Player)
      → Still h q (
          if b
          then record q { sync_timer = true } ▷ resume_sleep_countdown
          else record q { sync_timer = false } ▷ hold_sleep_countdown ▷ sync)
  told-Still true q =
      let r = record q { sync_timer = true } in
      let s : Still h q r = record { mpv = refl; tied = λ t. t } in
      Still-trans s (Quiet-Still (resume_sleep_countdown-Quiet r))
  told-Still false q =
      let r = record q { sync_timer = false } in
      let s : Still h q r = record { mpv = refl; tied = λ t. t } in
      Still-trans (Still-trans s (Quiet-Still (hold_sleep_countdown-Quiet r)))
        (sync-Still (hold_sleep_countdown r))

set_playing-playing :
    (now : ℕ) (b : Bool) (s : Syncer.Syncer) → (Syncer.set_playing now b s).playing ≡ b
unfolding Syncer.set_playing
set_playing-playing now true s = ground arith
set_playing-playing now false s = ground arith

-- The session has heard that `playing` is now `b`.
record Hears (b : Bool) (q : Player) : Type 0 where
  pub mpv : q.mpv.playing ≡ b
  pub tied : Tied true q

Still-Hears : {b : Bool} {p q : Player} → Still true p q → Hears b p → Hears b q
Still-Hears a k = record { mpv = a.mpv ∙ k.mpv; tied = a.tied k.tied }

emit-Hears : (s : Signal) {b : Bool} {q : Player} → Hears b q → Hears b (emit s q)
emit-Hears s {b} {q} k = Still-Hears (Quiet-Still (emit-Quiet s q)) k

set_playing-Hears :
    (b : Bool) (p : Player)
    → p.active ≡ true
    → p.mpv.playing ≡ b
    → Hears b (record p { playing = b; listen = Syncer.set_playing p.now b p.listen })
set_playing-Hears b p on e = record {
  mpv = e;
  tied = ground (arith, on, e, set_playing-playing p.now b p.listen);
}

on_playing_changed-Hears :
    (b : Bool) (p : Player)
    → (p.active ≡ false → p.listen.playing ≡ false)
    → p.mpv.playing ≡ b
    → Hears b (on_playing_changed b p)
unfolding on_playing_changed
on_playing_changed-Hears b p off e =
    let closed : p.active ≡ false → Hears b (record p { playing = b }) =
      λ c. record { mpv = e; tied = ground (arith, off c, c) } in
    let q : Player = record p { playing = b; listen = Syncer.set_playing p.now b p.listen } in
    emit-Hears (playing_changed b) (
      if_elim (Hears b) (not p.active) (λ c. closed (ground (arith, c)))
        λ on. Still-Hears (told-Still b q) (set_playing-Hears b p (ground (arith, on)) e))

changed-differs : (a b : Bool) → Mpv.same b a ≡ false → not (Mpv.same a b) ≡ true
changed-differs true true h = absurd cc
changed-differs true false h = refl
changed-differs false true h = refl
changed-differs false false h = absurd cc

or_true : (h c : Bool) → c ≡ true → (h || c) ≡ true
or_true true c e = refl
or_true false c e = e

pub refresh_playing-Follows : (h : Bool) (p : Player) → Follows h p (refresh_playing p)
unfolding refresh_playing
refresh_playing-Follows h p t =
    let on = Mpv.effective p.mpv in
    if_elim (λ q. Tied (h || not (Mpv.same p.mpv.playing q.mpv.playing)) q)
      (Mpv.same on p.mpv.playing) (λ _. Still-Follows (Quiet-Still (Quiet-refl p)) t)
      λ e.
        let q = record p { mpv = record p.mpv { playing = on } } in
        let k = on_playing_changed-Hears on q (λ c. ground (arith, t, c)) refl in
        let r = on_playing_changed on q in
        let now_heard : (h || not (Mpv.same p.mpv.playing r.mpv.playing)) ≡ true =
          or_true h _
            (ap (λ c. not (Mpv.same p.mpv.playing c)) k.mpv ∙ changed-differs p.mpv.playing on e) in
        k.tied ∙ ap (λ c. r.active && (c && r.mpv.playing)) (sym now_heard)
