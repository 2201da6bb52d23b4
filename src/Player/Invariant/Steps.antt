-- ===== src/Player/Invariant/Steps.antt =====
-- Every input keeps the invariant.
use shelf_remote.Prelude.{
  refl, sym, true, false, arith, if_elim, Bool, if◌then◌else◌, not, ◌≡◌, ◌∙◌,
}
use shelf_remote.Player.Mpv
use shelf_remote.Player.Syncer
use shelf_remote.Player.State.{Player, with_mpv, ◌▷◌}
use shelf_remote.Player.Quiet.{
  Quiet, Quiet-trans, emit-Quiet, stop-Quiet, clear_sleep_timer-Quiet, resume_sleep_countdown-Quiet,
  hold_sleep_countdown-Quiet,
}
use shelf_remote.Player.Sleep.{clear_sleep_timer, resume_sleep_countdown, hold_sleep_countdown}
use shelf_remote.Player.Sync.{sync, flush_and_close, stop_and_close}
use shelf_remote.Player.Events.{on_playing_changed, refresh_playing}
use shelf_remote.Player.Effects.{playing_changed}
use shelf_remote.Player.Invariant.{
  IsValid, Core, Core-IsValid, Core-trans, Quiet-Core, Quiet-IsValid, sync-Core, sync-mirror,
  close_session-IsValid,
}

pub flush_and_close-IsValid : (b : Bool) (p : Player) → IsValid p → IsValid (flush_and_close b p)
unfolding flush_and_close
flush_and_close-IsValid b p v =
    if_elim IsValid (not p.active) (λ _. v)
      λ _.
        close_session-IsValid b (clear_sleep_timer p)
          (Quiet-IsValid (clear_sleep_timer-Quiet p) v).mirrors

pub stop_and_close-IsValid : (p : Player) → IsValid p → IsValid (stop_and_close p)
unfolding stop_and_close
stop_and_close-IsValid p v =
    Quiet-IsValid (stop-Quiet (flush_and_close false p)) (flush_and_close-IsValid false p v)

pub finished-IsValid :
    (p : Player) → IsValid p → IsValid (stop_and_close (record p { completed = true }))
finished-IsValid p v =
    stop_and_close-IsValid (record p { completed = true }) (Core-IsValid (ground arith) v v.mirrors)

pub sync-IsValid : (p : Player) → IsValid p → IsValid (sync p)
sync-IsValid p v = Core-IsValid (sync-Core p) v (sync-mirror p v.mirrors)

pub closed_by-IsValid :
    (p : Player)
    → IsValid p
    → IsValid (if p.active then flush_and_close false p ▷ with_mpv Mpv.stop else p)
closed_by-IsValid p v =
    if_elim IsValid p.active (λ _. unfold stop_and_close in stop_and_close-IsValid p v) (λ _. v)

-- The handler of a change of `playing` makes the session's flag that change.
set_timer-Quiet : (b : Bool) (p : Player) → Quiet p (record p { sync_timer = b })
set_timer-Quiet b p = ground arith

told-Core :
    (b : Bool) (q : Player)
    → Core q (
        if b
        then record q { sync_timer = true } ▷ resume_sleep_countdown
        else record q { sync_timer = false } ▷ hold_sleep_countdown ▷ sync)
told-Core true q =
    let r = record q { sync_timer = true } in
    Quiet-Core (Quiet-trans (set_timer-Quiet true q) (resume_sleep_countdown-Quiet r))
told-Core false q =
    let r = record q { sync_timer = false } in
    Core-trans (Quiet-Core (Quiet-trans (set_timer-Quiet false q) (hold_sleep_countdown-Quiet r)))
      (sync-Core (hold_sleep_countdown r))

told-mirror :
    (b : Bool) (q : Player)
    → q.playing ≡ q.mpv.playing
    → let r =
        if b
        then record q { sync_timer = true } ▷ resume_sleep_countdown
        else record q { sync_timer = false } ▷ hold_sleep_countdown ▷ sync in
      r.playing ≡ r.mpv.playing
told-mirror true q m =
    let r = record q { sync_timer = true } in
    let a = resume_sleep_countdown-Quiet r in a.same_playing ∙ (m ∙ sym a.same_mpv_playing)
told-mirror false q m =
    let r = record q { sync_timer = false } in
    let a = hold_sleep_countdown-Quiet r in
    sync-mirror (hold_sleep_countdown r) (a.same_playing ∙ (m ∙ sym a.same_mpv_playing))

pub on_playing_changed-IsValid :
    (b : Bool) (p : Player)
    → Core p (record p { playing = b })
    → IsValid (record p { playing = p.mpv.playing })
    → b ≡ p.mpv.playing
    → IsValid (on_playing_changed b p)
unfolding on_playing_changed
on_playing_changed-IsValid b p c v e = Quiet-IsValid (emit-Quiet (playing_changed b) _) (
    if_elim IsValid (not p.active) (λ _. Core-IsValid (ground arith) v e)
      λ _.
        let q = record p { playing = b; listen = Syncer.set_playing p.now b p.listen } in
        Core-IsValid (Core-trans (ground arith) (told-Core b q)) v (told-mirror b q e))

pub refresh_playing-IsValid : (p : Player) → IsValid p → IsValid (refresh_playing p)
unfolding refresh_playing
refresh_playing-IsValid p v =
    if_elim IsValid (Mpv.same (Mpv.effective p.mpv) p.mpv.playing) (λ _. v)
      λ _.
        let on = Mpv.effective p.mpv in
        on_playing_changed-IsValid on (record p { mpv = record p.mpv { playing = on } })
          (ground arith) (Core-IsValid (ground arith) v refl) refl
