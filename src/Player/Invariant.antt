-- ===== src/Player/Invariant.antt =====
-- What holds of the player in every state: an active session is usable, and the session's `playing`
-- mirrors that of the mpv controller.
pub mod Open
pub mod Steps
pub mod Inputs
use shelf_remote.Prelude.{sym, subst, true, false, arith, pos, [], ◌∙◌, Bool, ◌≡◌, ◌≢◌, ◌<ℤ◌, refl}
use shelf_remote.Player.State.{Player}
use shelf_remote.Player.Quiet.{in_range, Quiet, Quiet-refl}
use shelf_remote.Player.Sync.{sync, close_session}

pub record IsValid (p : Player) : Type 0 where
  pub has_session : p.active ≡ true → p.session_id ≢ []
  pub has_duration : p.active ≡ true → pos 0 <ℤ p.duration
  pub has_track : p.active ≡ true → in_range p.current_track p.tracks ≡ true
  pub mirrors : p.playing ≡ p.mpv.playing

-- The operation leaves the parts of the invariant alone, or closes the session.
pub record Core (p q : Player) : Type 0 where
  pub activity : q.active ≡ true → p.active ≡ true
  pub session : q.active ≡ true → q.session_id ≡ p.session_id
  pub span : q.active ≡ true → q.duration ≡ p.duration
  pub range :
      q.active ≡ true
      → in_range p.current_track p.tracks ≡ true
      → in_range q.current_track q.tracks ≡ true

pub Core-IsValid : {p q : Player} → Core p q → IsValid p → q.playing ≡ q.mpv.playing → IsValid q
Core-IsValid c v m = record {
  has_session = λ on e. v.has_session (c.activity on) (sym (c.session on) ∙ e);
  has_duration = λ on. subst (λ d. pos 0 <ℤ d) (sym (c.span on)) (v.has_duration (c.activity on));
  has_track = λ on. c.range on (v.has_track (c.activity on));
  mirrors = m;
}

pub Quiet-Core : {p q : Player} → Quiet p q → Core p q
Quiet-Core a = record {
  activity = λ on. sym a.same_active ∙ on;
  session = λ _. a.same_session;
  span = λ _. a.same_duration;
  range = λ _. a.keeps_range;
}

pub Quiet-IsValid : {p q : Player} → Quiet p q → IsValid p → IsValid q
Quiet-IsValid a v =
    Core-IsValid (Quiet-Core a) v (a.same_playing ∙ (v.mirrors ∙ sym a.same_mpv_playing))

pub Core-refl : (p : Player) → Core p p
Core-refl p = Quiet-Core (Quiet-refl p)

pub Core-trans : {p q r : Player} → Core p q → Core q r → Core p r
Core-trans a b = record {
  activity = λ on. a.activity (b.activity on);
  session = λ on. b.session on ∙ a.session (b.activity on);
  span = λ on. b.span on ∙ a.span (b.activity on);
  range = λ on h. b.range on (a.range (b.activity on) h);
}

pub sync-Core : (p : Player) → Core p (sync p)
unfolding sync
sync-Core p = ground arith

pub sync-mirror : (p : Player) → p.playing ≡ p.mpv.playing → (sync p).playing ≡ (sync p).mpv.playing
unfolding sync
sync-mirror p h = ground arith

-- A closed session needs nothing but the mirror.
pub Closed-IsValid : (p : Player) → p.active ≡ false → p.playing ≡ p.mpv.playing → IsValid p
Closed-IsValid p off m = record {
  has_session = λ on. cc;
  has_duration = λ on. cc;
  has_track = λ on. cc;
  mirrors = m;
}

pub close_session-IsValid :
    (b : Bool) (p : Player) → p.playing ≡ p.mpv.playing → IsValid (close_session b p)
unfolding close_session
close_session-IsValid b p m = Closed-IsValid _ (ground arith) (ground arith)
