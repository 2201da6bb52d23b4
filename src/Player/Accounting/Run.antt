-- ===== src/Player/Accounting/Run.antt =====
-- The balance along a whole history of the player.
use shelf_remote.Player.Quiet.{Quiet, Quiet-refl, play-Quiet, pause-Quiet}
use shelf_remote.Player.Sleep.{is_running}
use shelf_remote.Player.Seek.{skip}
use shelf_remote.Player.Quiet.Moves.{seek_global-Quiet, next_chapter-Quiet, previous_chapter-Quiet}
use shelf_remote.Player.Quiet.Commands.{
  toggle_play_pause-Quiet, set_sleep_timer-Quiet, set_sleep_at_chapter_end-Quiet,
  cycle_sleep_timer-Quiet, on_sleep_timeout-Quiet, set_speed-Quiet, set_volume-Quiet,
  on_access_token-Quiet,
}
use shelf_remote.Player.Accounting.{
  if-Accounts, Accounts-trans, sync-Accounts, Accounts, Quiet-Accounts,
}
use shelf_remote.Player.Accounting.Steps.{
  on_mpv_event-Accounts, play_item-Accounts, play_episode-Accounts, stop_and_close-Accounts,
}
use shelf_remote.Player.Invariant.{IsValid}
use shelf_remote.Player.Invariant.Inputs.{History, done, next, step-IsValid}
use shelf_remote.Player.Events.{
  mpv_event, interval_timeout, seek_sync_timeout, sleep_timeout, choose_item, choose_episode,
  press_toggle, press_play, press_pause, press_next, press_previous, press_close, seek_to, skip_by,
  speed_to, volume_to, sleep_for, sleep_chapter, sleep_cycle, new_token, step, run, Input,
}
use shelf_remote.Player.Syncer
use shelf_remote.Player.Syncer.{pending_listened}
use shelf_remote.Player.State.{emit}
use shelf_remote.Player.Effects.{Signal}
use shelf_remote.Player.Quiet.{time_reported}
use shelf_remote.Player.Sync.{on_report_reply}
use shelf_remote.Player.Open.{read_response, apply_play_response, is_unusable, or_else}
use shelf_remote.Player.Events.{pass, report_reply}
use shelf_remote.Prelude.{
  [], ◌≡◌, ℕ, ◌+◌, ◌||◌, not, ◌==◌, refl, sym, subst, true, false, arith, pos, Bool, if◌then◌else◌,
  List, ◌∷◌, ◌+ℤ◌,
}
use shelf_remote.Player.State.{Player}
use shelf_remote.Player.Accounting.{accounted, IsClocked}
use shelf_remote.Player.Accounting.Heard.{Tied, heard, played, gained-played}
use shelf_remote.Player.Accounting.Heard.Steps.{step-Tied}
use shelf_remote.Player.Accounting.Balance.{
  gained, dropped, opens, Balanced, begin_session-account, Accounts-Balanced,
}
use shelf_remote.Player.Sync.{Reply}
use shelf_remote.Player.Open.{PlayJson, on_play_reply}
use shelf_remote.Player.Events.{play_reply}

-- The account after a reply, against what it was.
abbrev Settles : Player → ℕ → Player → Type 0
Settles p lost q = (accounted q + lost ≡ accounted p) × IsClocked q

-- Two conditionals with one test.
both_if :
    (p : Player) (b : Bool) (q r : Player) (m n : ℕ)
    → (b ≡ true → Settles p m q)
    → (b ≡ false → Settles p n r)
    → Settles p (if b then m else n) (if b then q else r)
both_if p true q r m n f g = f refl
both_if p false q r m n f g = g refl

emitted-Settles : (s : Signal) (p : Player) → IsClocked p → Settles p 0 (emit s p)
unfolding time_reported
emitted-Settles s p h = ground arith

read_response-out :
    (json : PlayJson) (p : Player)
    → let q = read_response json p in (q.out ≡ p.out) × (q.listen ≡ p.listen) × (q.now ≡ p.now)
unfolding read_response
read_response-out json p = (refl, refl, refl)

apply_play_response-Settles :
    (json : PlayJson) (p : Player)
    → IsClocked p
    → Settles p
        (if is_unusable (read_response json p) then 0 else pending_listened p.now p.listen)
        (apply_play_response json p)
unfolding apply_play_response time_reported
apply_play_response-Settles json p h =
    let q = read_response json p in
    both_if p (is_unusable q) _ _ _ _ (λ _. ground (arith, read_response-out json p))
      λ _.
        let resume = or_else json.current_time (or_else json.start_time (pos 0)) in
        ground (arith, read_response-out json p, begin_session-account resume q)

-- Which part of the account a play reply drops, branch by branch.
dropped_cases :
    (g : ℕ) (res : Reply) (json : PlayJson) (p : Player)
    → dropped (play_reply g res json) p ≡ (
        if res.stale || not (g == p.play_generation)
        then 0
        else if not res.ok
        then 0
        else if is_unusable (read_response json p)
        then 0
        else pending_listened p.now p.listen)
unfolding dropped opens
dropped_cases g res json p = ground arith

on_play_reply-Settles :
    (g : ℕ) (res : Reply) (json : PlayJson) (p : Player)
    → IsClocked p
    → Settles p (dropped (play_reply g res json) p) (on_play_reply g res json p)
unfolding on_play_reply
on_play_reply-Settles g res json p h =
    subst (λ n. Settles p n (on_play_reply g res json p)) (sym (dropped_cases g res json p))
      (both_if p (res.stale || not (g == p.play_generation)) _ _ _ _ (λ _. (omega arith, h))
        λ _.
          both_if p (not res.ok) _ _ _ _ (λ _. emitted-Settles _ p h)
            λ _. apply_play_response-Settles json p h)

on_report_reply-Balanced :
    (n g : ℕ) (res : Reply) (p : Player)
    → IsClocked p
    → Balanced (report_reply n g res) p (on_report_reply n g res p)
unfolding on_report_reply Syncer.rollback gained dropped pending_listened
on_report_reply-Balanced n g res p h = ground arith

pass-Balanced :
    (d : ℕ) (p : Player) → IsClocked p → Balanced (pass d) p (record p { now = p.now + d })
unfolding gained dropped pending_listened
pass-Balanced d p h = ground arith

Quiet-Balanced :
    {i : Input} {p q : Player}
    → gained i p ≡ 0
    → dropped i p ≡ 0
    → Quiet p q
    → IsClocked p
    → Balanced i p q
Quiet-Balanced g d a h = Accounts-Balanced g d (Quiet-Accounts a h)

timer-Balanced :
    {i : Input} {p : Player} {q r : Player} (b : Bool)
    → gained i p ≡ 0
    → dropped i p ≡ 0
    → Accounts p q
    → Accounts p r
    → Balanced i p (if b then q else r)
timer-Balanced b g d a c = Accounts-Balanced g d (if-Accounts b a c)

-- No input loses listening time or reports it twice: the time reported and the time pending change
-- by the time that passes with audio on, by what a failed request gives back, and by what the opening
-- of a session drops.
pub step-Balanced : (i : Input) (p : Player) → IsValid p → IsClocked p → Balanced i p (step i p)
unfolding step gained dropped
step-Balanced (pass d) p v h = pass-Balanced d p h
step-Balanced (mpv_event e) p v h =
    Accounts-Balanced refl refl (on_mpv_event-Accounts e p v.has_session h)
step-Balanced interval_timeout p v h =
    timer-Balanced p.sync_timer refl refl (sync-Accounts p h) (Quiet-Accounts (Quiet-refl p) h)
step-Balanced seek_sync_timeout p v h =
    let q = record p { seek_sync_timer = false } in
    timer-Balanced p.seek_sync_timer refl refl
      (Accounts-trans {q = q} (record { conserved = refl; clocked = h }) (sync-Accounts q h))
      (Quiet-Accounts (Quiet-refl p) h)
step-Balanced sleep_timeout p v h =
    timer-Balanced (is_running p.sleep_timer) refl refl
      (Quiet-Accounts (on_sleep_timeout-Quiet p) h) (Quiet-Accounts (Quiet-refl p) h)
step-Balanced (play_reply g res json) p v h =
    let (a, c) = on_play_reply-Settles g res json p h in
    record { balance = omega (arith, a); sound = c }
step-Balanced (report_reply n g res) p v h = on_report_reply-Balanced n g res p h
step-Balanced (choose_item i) p v h =
    Accounts-Balanced refl refl (play_item-Accounts i p v.has_session h)
step-Balanced (choose_episode i e) p v h =
    Accounts-Balanced refl refl (play_episode-Accounts i e p v.has_session h)
step-Balanced press_toggle p v h = Quiet-Balanced refl refl (toggle_play_pause-Quiet p) h
step-Balanced press_play p v h = Quiet-Balanced refl refl (play-Quiet p) h
step-Balanced press_pause p v h = Quiet-Balanced refl refl (pause-Quiet p) h
step-Balanced press_next p v h = Quiet-Balanced refl refl (next_chapter-Quiet p) h
step-Balanced press_previous p v h = Quiet-Balanced refl refl (previous_chapter-Quiet p) h
step-Balanced press_close p v h =
    Accounts-Balanced refl refl (stop_and_close-Accounts p v.has_session h)
step-Balanced (seek_to s) p v h = Quiet-Balanced refl refl (seek_global-Quiet s p) h
step-Balanced (skip_by d) p v h =
    unfold skip in Quiet-Balanced refl refl (seek_global-Quiet (p.global_position +ℤ d) p) h
step-Balanced (speed_to s) p v h = Quiet-Balanced refl refl (set_speed-Quiet s p) h
step-Balanced (volume_to x) p v h = Quiet-Balanced refl refl (set_volume-Quiet x p) h
step-Balanced (sleep_for m) p v h = Quiet-Balanced refl refl (set_sleep_timer-Quiet m p) h
step-Balanced sleep_chapter p v h = Quiet-Balanced refl refl (set_sleep_at_chapter_end-Quiet p) h
step-Balanced sleep_cycle p v h = Quiet-Balanced refl refl (cycle_sleep_timer-Quiet p) h
step-Balanced (new_token t) p v h = Quiet-Balanced refl refl (on_access_token-Quiet t p) h

abbrev pub total_played : Bool → List Input → Player → ℕ
total_played h [] p = 0
total_played h (i ∷ is) p = played h i p + total_played (heard h i p) is (step i p)

abbrev pub total_dropped : List Input → Player → ℕ
total_dropped [] p = 0
total_dropped (i ∷ is) p = dropped i p + total_dropped is (step i p)

-- Over a whole history of a valid player with a sound clock, in which a play request is answered
-- once, the time reported to the server and the time still pending add up to what they were, and to
-- the time that passed while a session was open and the mpv controller said that audio plays, and the
-- intervals given back, less what the openings of sessions dropped. Time counts once the session has heard
-- of the audio, by the last change of the controller's `playing` since the session was opened; at the start
-- the accumulator counts just when time does.
pub run-balance :
    {is : List Input} {p : Player} (h : Bool)
    → History is p
    → IsValid p
    → IsClocked p
    → Tied h p
    → accounted (run is p) + total_dropped is p ≡ accounted p + total_played h is p
unfolding run
run-balance h done v c t = refl
run-balance h (next {i} {is} {p} f r) v c t =
    let b = step-Balanced i p v c in
    let rest = run-balance (heard h i p) r (step-IsValid i p f v) b.sound (step-Tied h i p t) in
    omega (arith, b.balance, rest, gained-played h i p t)
