-- ===== src/Player/Replies.antt =====
-- Replies that come too late.
use shelf_remote.Prelude.{
  refl, true, false, arith, ◌≡◌, Bool, ℤ, ℕ, Chars, if_elim, ◌+◌, ◌<◌, ◌≤◌, not, ◌∙◌,
}
use shelf_remote.Player.Effects.{speed_changed}
use shelf_remote.Player.State.{Player}
use shelf_remote.Player.Sleep.{clear_sleep_timer}
use shelf_remote.Player.Load.{load_track_for_global}
use shelf_remote.Player.Sync.{Reply, close_session, flush_and_close, on_report_reply}
use shelf_remote.Player.Open.{
  PlayJson, on_play_reply, play_item, play_episode, start_session, close_current, begin_session,
  prepare_session,
}
use shelf_remote.Player.Quiet.{Quiet, emit-Quiet, clear_sleep_timer-Quiet, stop-Quiet}
use shelf_remote.Player.Quiet.Moves.{load_track_for_global-Quiet}

closed-generation :
    (b : Bool) (p : Player) → (close_session b p).play_generation ≡ p.play_generation
unfolding close_session
closed-generation b p = ground arith

flushed-generation : (p : Player) → (flush_and_close false p).play_generation ≡ p.play_generation
unfolding flush_and_close
flushed-generation p =
    if_elim (λ (q : Player). q.play_generation ≡ p.play_generation) (not p.active) (λ _. refl)
      λ _.
        closed-generation false (clear_sleep_timer p)
        ∙ (clear_sleep_timer-Quiet p).same_play_generation

current-generation : (p : Player) → (close_current p).play_generation ≡ p.play_generation
unfolding close_current
current-generation p =
    if_elim (λ (q : Player). q.play_generation ≡ p.play_generation) p.active
      (λ _. (stop-Quiet (flush_and_close false p)).same_play_generation ∙ flushed-generation p)
      (λ _. refl)

ignored :
    (g : ℕ) (res : Reply) (json : PlayJson) (p : Player)
    → g < p.play_generation
    → on_play_reply g res json p ≡ p
unfolding on_play_reply
ignored g res json p h = ground arith

-- Once another item is chosen, the reply to any earlier play request changes nothing.
pub superseded_by_item :
    (i : Chars) (g : ℕ) (res : Reply) (json : PlayJson) (p : Player)
    → g ≤ p.play_generation
    → on_play_reply g res json (play_item i p) ≡ play_item i p
superseded_by_item i g res json p h =
    ignored g res json (play_item i p)
      (unfold play_item start_session in omega (arith, current-generation p))

-- So too when an episode is chosen.
pub superseded_by_episode :
    (i e : Chars) (g : ℕ) (res : Reply) (json : PlayJson) (p : Player)
    → g ≤ p.play_generation
    → on_play_reply g res json (play_episode i e p) ≡ play_episode i e p
superseded_by_episode i e g res json p h =
    ignored g res json (play_episode i e p)
      (unfold play_episode start_session in omega (arith, current-generation p))

opened-generation :
    (resume : ℤ) (p : Player) → (begin_session resume p).listen_generation ≡ p.listen_generation + 1
unfolding begin_session
opened-generation resume p =
    (emit-Quiet speed_changed (load_track_for_global resume true q)).same_generation
    ∙ (loaded.same_generation ∙ (unfold prepare_session in ground arith))
  where
    q : Player
    q = prepare_session resume p

    loaded : Quiet q (load_track_for_global resume true q)
    loaded = load_track_for_global-Quiet resume true q

-- Once a session has begun, the reply to a report of an earlier session changes nothing: its time
-- never enters the account of the new session.
pub late_report_reply :
    (resume : ℤ) (n g : ℕ) (res : Reply) (p : Player)
    → g ≤ p.listen_generation
    → on_report_reply n g res (begin_session resume p) ≡ begin_session resume p
unfolding on_report_reply
late_report_reply resume n g res p h = ground (arith, opened-generation resume p)
