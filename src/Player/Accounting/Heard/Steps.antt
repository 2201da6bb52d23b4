-- ===== src/Player/Accounting/Heard/Steps.antt =====
-- Every input of the player, in terms of when the time counts.
use shelf_remote.Prelude.{
  true, false, arith, [], Bool, ◌≡◌, ◌+◌, ℕ, ◌||◌, not, ◌&&◌, ◌==◌, if◌then◌else◌, if_elim, refl,
  ap, sym, ◌∙◌, Chars, subst, pos, ℤ, ◌+ℤ◌,
}
use shelf_remote.Player.Mpv
use shelf_remote.Player.Syncer
use shelf_remote.Player.State.{Player, emit, ◌▷◌}
use shelf_remote.Player.Effects.{paused_changed, duration_changed, speed_changed}
use shelf_remote.Net.Endpoints.{play_path, play_episode_path}
use shelf_remote.Player.Sleep.{is_running}
use shelf_remote.Player.Quiet.{Quiet, Quiet-refl, emit-Quiet, play-Quiet, pause-Quiet}
use shelf_remote.Player.Quiet.Moves.{
  seek_global-Quiet, next_chapter-Quiet, previous_chapter-Quiet, on_mpv_position-Quiet,
  load_track_for_global-Quiet,
}
use shelf_remote.Player.Quiet.Commands.{
  toggle_play_pause-Quiet, set_sleep_timer-Quiet, set_sleep_at_chapter_end-Quiet,
  cycle_sleep_timer-Quiet, on_sleep_timeout-Quiet, set_speed-Quiet, set_volume-Quiet,
  on_access_token-Quiet, file_loaded-Quiet,
}
use shelf_remote.Player.Accounting.Balance.{opens}
use shelf_remote.Player.Load.{load_track_for_global}
use shelf_remote.Player.Seek.{skip}
use shelf_remote.Player.Sync.{Reply, on_report_reply}
use shelf_remote.Player.Open.{
  PlayJson, on_play_reply, play_item, play_episode, close_current, apply_play_response,
  begin_session, prepare_session, read_response, is_unusable, or_else,
}
use shelf_remote.Player.Events.{
  on_pause, on_mpv_event, time_pos, duration_is, pause_is, core_idle_is, cache_pause_is,
  file_is_loaded, end_file, eof, error, other_reason, Input, pass, mpv_event, interval_timeout,
  seek_sync_timeout, sleep_timeout, play_reply, report_reply, choose_item, choose_episode,
  press_toggle, press_play, press_pause, press_next, press_previous, press_close, seek_to, skip_by,
  speed_to, volume_to, sleep_for, sleep_chapter, sleep_cycle, new_token, step, MpvEvent,
  refresh_playing,
}
use shelf_remote.Player.Accounting.Heard.{
  heard, Tied, Still, Follows, Quiet-Still, Still-trans, Still-Follows, then_Follows, sync-Still,
  stop_and_close-Still, on_end_of_file-Still, closed_by-Still, on_mpv_error-Still, requested-Still,
  refresh_playing-Follows,
}

on_pause-Follows : (h b : Bool) (p : Player) → Follows h p (on_pause b p)
unfolding on_pause
on_pause-Follows h b p =
    let q =
      if Mpv.same b p.mpv.paused
      then p
      else record p { mpv = record p.mpv { paused = b } } ▷ emit (paused_changed b) in
    let r = record p { mpv = record p.mpv { paused = b } } in
    let s : Still h p r = record { mpv = refl; tied = λ t. t } in
    let a : Still h p q =
      if_elim (Still h p) (Mpv.same b p.mpv.paused) (λ _. Quiet-Still (Quiet-refl p))
        λ _. Still-trans s (Quiet-Still (emit-Quiet (paused_changed b) r)) in
    then_Follows (refresh_playing q) a (refresh_playing-Follows h q)

-- A change of the mpv controller's other members.
in_mpv-Still :
    {h : Bool} (m : Mpv.Mpv) (p : Player)
    → m.playing ≡ p.mpv.playing
    → Still h p (record p { mpv = m })
in_mpv-Still {h} m p e = record { mpv = e; tied = λ t. t ∙ ap (λ c. p.active && (h && c)) (sym e) }

refreshed : (h : Bool) {p q : Player} → Still h p q → Follows h p (refresh_playing q)
refreshed h {p} {q} a = then_Follows (refresh_playing q) a (refresh_playing-Follows h q)

on_mpv_event-Follows : (h : Bool) (e : MpvEvent) (p : Player) → Follows h p (on_mpv_event e p)
unfolding on_mpv_event
on_mpv_event-Follows h (time_pos s) p =
    let q = record p { mpv = record p.mpv { position = s } } in
    Still-Follows
      (Still-trans (in_mpv-Still q.mpv p refl) (Quiet-Still (on_mpv_position-Quiet s q)))
on_mpv_event-Follows h (duration_is s) p =
    let q = record p { mpv = record p.mpv { duration = s } } in
    Still-Follows
      (Still-trans (in_mpv-Still q.mpv p refl) (Quiet-Still (emit-Quiet (duration_changed s) q)))
on_mpv_event-Follows h (pause_is b) p = on_pause-Follows h b p
on_mpv_event-Follows h (core_idle_is b) p =
    refreshed h (in_mpv-Still (record p.mpv { core_idle = b }) p refl)
on_mpv_event-Follows h (cache_pause_is b) p =
    refreshed h (in_mpv-Still (record p.mpv { paused_for_cache = b }) p refl)
on_mpv_event-Follows h file_is_loaded p = Still-Follows (Quiet-Still (file_loaded-Quiet p))
on_mpv_event-Follows h (end_file eof) p = refreshed h (on_end_of_file-Still p)
on_mpv_event-Follows h (end_file (error m)) p = refreshed h (on_mpv_error-Still m p)
on_mpv_event-Follows h (end_file other_reason) p = refresh_playing-Follows h p

-- A session that was opened counts nothing yet.
record Starts (p q : Player) : Type 0 where
  mpv : q.mpv.playing ≡ p.mpv.playing
  counts_nothing : q.listen.playing ≡ false

Quiet-Starts : {p q r : Player} → Quiet q r → Starts p q → Starts p r
Quiet-Starts a s = record {
  mpv = a.same_mpv_playing ∙ s.mpv;
  counts_nothing = ap (λ (l : Syncer.Syncer). l.playing) a.same_listen ∙ s.counts_nothing;
}

prepare_session-Starts : (resume : ℤ) (p : Player) → Starts p (prepare_session resume p)
unfolding prepare_session
prepare_session-Starts resume p = record { mpv = ground arith; counts_nothing = ground arith }

begin_session-Starts : (resume : ℤ) (p : Player) → Starts p (begin_session resume p)
unfolding begin_session
begin_session-Starts resume p =
    let q = prepare_session resume p in
    let r = load_track_for_global resume true q in
    Quiet-Starts (emit-Quiet speed_changed r)
      (Quiet-Starts (load_track_for_global-Quiet resume true q) (prepare_session-Starts resume p))

never : (a b : Bool) → (a && (not b && b)) ≡ false
never true true = refl
never true false = refl
never false b = refl

Starts-Tied : {p q : Player} → Starts p q → Tied (not p.mpv.playing) q
Starts-Tied {p} {q} s =
    s.counts_nothing
    ∙ sym (ap (λ c. q.active && (not p.mpv.playing && c)) s.mpv ∙ never q.active p.mpv.playing)

-- What a play reply says, branch by branch.
heard_cases :
    (h : Bool) (g : ℕ) (res : Reply) (json : PlayJson) (p : Player)
    → heard h (play_reply g res json) p ≡ (
        if res.stale || not (g == p.play_generation)
        then h
        else if not res.ok
        then h
        else if is_unusable (read_response json p)
        then h
        else not p.mpv.playing)
unfolding heard opens
heard_cases h g res json p = ground arith

both-Tied :
    (b c d : Bool) (q r : Player)
    → (b ≡ true → Tied c q)
    → (b ≡ false → Tied d r)
    → Tied (if b then c else d) (if b then q else r)
both-Tied true c d q r f g = f refl
both-Tied false c d q r f g = g refl

apply_play_response-Tied :
    (h : Bool) (json : PlayJson) (p : Player)
    → Tied h p
    → Tied
        (if is_unusable (read_response json p) then h else not p.mpv.playing)
        (apply_play_response json p)
unfolding apply_play_response
apply_play_response-Tied h json p t =
    let q = read_response json p in
    both-Tied (is_unusable q) h (not p.mpv.playing) _ _ (λ _. unfold read_response in t)
      λ _.
        let resume = or_else json.current_time (or_else json.start_time (pos 0)) in
        unfold read_response in Starts-Tied (begin_session-Starts resume q)

on_play_reply-Tied :
    (h : Bool) (g : ℕ) (res : Reply) (json : PlayJson) (p : Player)
    → Tied h p
    → Tied (heard h (play_reply g res json) p) (on_play_reply g res json p)
unfolding on_play_reply
on_play_reply-Tied h g res json p t =
    subst (λ c. Tied c (on_play_reply g res json p)) (sym (heard_cases h g res json p))
      (both-Tied (res.stale || not (g == p.play_generation)) h _ p _ (λ _. t)
        λ _. both-Tied (not res.ok) h _ _ _ (λ _. t) λ _. apply_play_response-Tied h json p t)

play_item-Still : {h : Bool} (i : Chars) (p : Player) → Still h p (play_item i p)
unfolding play_item close_current
play_item-Still i p = requested-Still (play_path i) i [] (closed_by-Still p)

play_episode-Still : {h : Bool} (i e : Chars) (p : Player) → Still h p (play_episode i e p)
unfolding play_episode close_current
play_episode-Still i e p = requested-Still (play_episode_path i e) i e (closed_by-Still p)

on_report_reply-Still :
    {h : Bool} (n g : ℕ) (res : Reply) (p : Player) → Still h p (on_report_reply n g res p)
unfolding on_report_reply Syncer.rollback
on_report_reply-Still n g res p = record { mpv = ground arith; tied = λ t. ground arith }

timer-Still : {h : Bool} {p q : Player} (b : Bool) → Still h p q → Still h p (if b then q else p)
timer-Still true a = a
timer-Still false a = Quiet-Still (Quiet-refl _)

-- After every input the accumulator counts exactly while the session is open, the mpv controller says that
-- audio plays and the session has heard so.
pub step-Tied : (h : Bool) (i : Input) (p : Player) → Tied h p → Tied (heard h i p) (step i p)
unfolding heard step
step-Tied h (play_reply g res json) p = unfold heard in on_play_reply-Tied h g res json p
step-Tied h (pass d) p =
    let s : Still h p (record p { now = p.now + d }) = record { mpv = refl; tied = λ t. t } in
    Still-Follows s
step-Tied h (mpv_event e) p = on_mpv_event-Follows h e p
step-Tied h interval_timeout p = Still-Follows (timer-Still p.sync_timer (sync-Still p))
step-Tied h seek_sync_timeout p =
    let q = record p { seek_sync_timer = false } in
    let s : Still h p q = record { mpv = refl; tied = λ t. t } in
    Still-Follows (timer-Still p.seek_sync_timer (Still-trans s (sync-Still q)))
step-Tied h sleep_timeout p =
    Still-Follows (timer-Still (is_running p.sleep_timer) (Quiet-Still (on_sleep_timeout-Quiet p)))
step-Tied h (report_reply n g res) p = Still-Follows (on_report_reply-Still n g res p)
step-Tied h (choose_item i) p = Still-Follows (play_item-Still i p)
step-Tied h (choose_episode i e) p = Still-Follows (play_episode-Still i e p)
step-Tied h press_toggle p = Still-Follows (Quiet-Still (toggle_play_pause-Quiet p))
step-Tied h press_play p = Still-Follows (Quiet-Still (play-Quiet p))
step-Tied h press_pause p = Still-Follows (Quiet-Still (pause-Quiet p))
step-Tied h press_next p = Still-Follows (Quiet-Still (next_chapter-Quiet p))
step-Tied h press_previous p = Still-Follows (Quiet-Still (previous_chapter-Quiet p))
step-Tied h press_close p = Still-Follows (stop_and_close-Still p)
step-Tied h (seek_to s) p = Still-Follows (Quiet-Still (seek_global-Quiet s p))
step-Tied h (skip_by d) p =
    unfold skip in Still-Follows (Quiet-Still (seek_global-Quiet (p.global_position +ℤ d) p))
step-Tied h (speed_to s) p = Still-Follows (Quiet-Still (set_speed-Quiet s p))
step-Tied h (volume_to x) p = Still-Follows (Quiet-Still (set_volume-Quiet x p))
step-Tied h (sleep_for m) p = Still-Follows (Quiet-Still (set_sleep_timer-Quiet m p))
step-Tied h sleep_chapter p = Still-Follows (Quiet-Still (set_sleep_at_chapter_end-Quiet p))
step-Tied h sleep_cycle p = Still-Follows (Quiet-Still (cycle_sleep_timer-Quiet p))
step-Tied h (new_token t) p = Still-Follows (Quiet-Still (on_access_token-Quiet t p))
