-- ===== src/Model/Progress.antt =====
-- src/model/ProgressStore.h and .cpp. A fraction is a quotient of an integer and a natural number: the
-- division of doubles is not carried out. `now` is the reading of the clock.
use shelf_remote.Prelude.{
  ℕ, true, false, none, some, arith, pos, [], Option, String, ◌≤ℤ◌, ℤ, List, if◌then◌else◌, Bool,
  lookup, ◌∷◌, leb_ℤ, ◌+◌, is_blank, is_empty, not, ltb_ℤ, ◌≡◌, ◌&&◌, insert, ◌||◌, eq_iff, ◌<ℤ◌,
  pos_part, str_eq, lookup-insert,
}

pub record Fraction : Type 0 where
  pub num : ℤ
  pub den : ℕ

abbrev pub nothing : Fraction
nothing = record { num = pos 0; den = 1 }

abbrev pub whole : Fraction
whole = record { num = pos 1; den = 1 }

-- `qBound(0.0, f, 1.0)`, for a positive denominator.
unfoldable pub bound_fraction : Fraction → Fraction
bound_fraction f =
    if leb_ℤ f.num (pos 0) then nothing else if ltb_ℤ (pos f.den) f.num then whole else f

pub record Rec : Type 0 where
  pub fraction : Fraction
  pub current_time : ℤ
  pub started_at : ℤ
  pub finished : Bool

abbrev pub fresh : Rec
fresh = record { fraction = nothing; current_time = pos 0; started_at = pos 0; finished = false }

pub record Progress : Type 0 where
  pub by_item : List (String × Rec)
  pub notices : ℕ

abbrev changed : List (String × Rec) → Progress → Progress
changed m p = record { by_item = m; notices = p.notices + 1 }

-- An entry of "mediaProgress".
pub record ProgressJson : Type 0 where
  pub episode : Option String
  pub item : Option String
  pub progress : Option Fraction
  pub current_time : Option ℤ
  pub started_at : Option ℤ
  pub finished : Option Bool

abbrev or_default {ℓ} : {A : Type ℓ} → Option A → A → A
or_default none d = d
or_default (some a) d = a

unfoldable pub read_progress : ProgressJson → Rec
read_progress p = record {
  fraction = or_default p.progress nothing;
  current_time = or_default p.current_time (pos 0);
  started_at = or_default p.started_at (pos 0);
  finished = or_default p.finished false;
}

unfoldable pub load_progress : List ProgressJson → List (String × Rec) → List (String × Rec)
load_progress [] m = m
load_progress (p ∷ ps) m =
    let item = or_default p.item "" in
    load_progress ps (
      if not (is_blank (or_default p.episode "")) || is_blank item
      then m
      else insert item (read_progress p) m)

unfoldable pub load_from_user : List ProgressJson → Progress → Progress
load_from_user ps p = changed (load_progress ps []) p

unfoldable pub clear : Progress → Progress
clear p = if is_empty p.by_item then p else changed [] p

unfoldable pub fraction : String → Progress → Fraction
fraction item p = elim (lookup item p.by_item) [
  | none ↦ nothing
  | some r ↦ if r.finished then whole else r.fraction
]

unfoldable pub is_finished : String → Progress → Bool
is_finished item p = elim (lookup item p.by_item) [ none ↦ false | some r ↦ r.finished ]

unfoldable pub current_time : String → Progress → ℤ
current_time item p = elim (lookup item p.by_item) [ none ↦ pos 0 | some r ↦ r.current_time ]

unfoldable pub started_at : String → Progress → ℤ
started_at item p = elim (lookup item p.by_item) [ none ↦ pos 0 | some r ↦ r.started_at ]

-- `m_byItem[itemId]`.
abbrev pub rec_of : String → Progress → Rec
rec_of item p = elim (lookup item p.by_item) [ none ↦ fresh | some r ↦ r ]

unfoldable pub set : ℤ → String → Fraction → ℤ → Bool → Progress → Progress
set now item fraction time finished p =
    if is_blank item
    then p
    else let r = rec_of item p in
      let begun = leb_ℤ r.started_at (pos 0) && (ltb_ℤ (pos 0) time || finished) in
      changed
        (insert item
          (record {
            fraction = bound_fraction fraction;
            current_time = time;
            finished = finished;
            started_at = if begun then now else r.started_at;
          })
          p.by_item)
        p

unfoldable pub set_finished : String → Bool → Progress → Progress
set_finished item finished p = if is_blank item then p else elim (lookup item p.by_item) [
  | none ↦
      changed
        (insert item
          (record fresh { finished = finished; fraction = if finished then whole else nothing })
          p.by_item)
        p
  | some r ↦
      if (r.finished && finished) || (not r.finished && not finished)
      then p
      else changed (insert item (record r { finished = finished }) p.by_item) p
]

-- `update`; the duration is in the unit of the time.
unfoldable pub update : ℤ → String → ℤ → ℤ → Bool → Progress → Progress
update now item time duration finished p =
    if is_blank item
    then p
    else let r = rec_of item p in
      changed
        (insert item
          (record {
            fraction =
                if ltb_ℤ (pos 0) duration
                then (if finished
                    then whole
                    else bound_fraction (record { num = time; den = pos_part duration }))
                else r.fraction;
            current_time = time;
            finished = finished;
            started_at = if leb_ℤ r.started_at (pos 0) then now else r.started_at;
          })
          p.by_item)
        p

-- From 0 to 1.
abbrev pub IsBounded : Fraction → Type 0
IsBounded f = (pos 0 ≤ℤ f.num) × (f.num ≤ℤ pos f.den)

bound_fraction-IsBounded : (f : Fraction) → IsBounded (bound_fraction f)
unfolding bound_fraction
bound_fraction-IsBounded f = ground arith

-- After an update with a positive duration, for an id that is not empty, the fraction that is shown
-- for the item lies from 0 to 1, it is 1 when the item is finished, the flag and the time are those
-- given, and the other items are as they were.
pub update-shown :
    (now : ℤ) (item other : String) (time duration : ℤ) (finished : Bool) (p : Progress)
    → is_blank item ≡ false
    → pos 0 <ℤ duration
    → let q = update now item time duration finished p in
      IsBounded (fraction item q)
      × (finished ≡ true → fraction item q ≡ whole)
      × (is_finished item q ≡ finished)
      × (current_time item q ≡ time)
      × (str_eq item other ≡ false → lookup other q.by_item ≡ lookup other p.by_item)
unfolding update fraction is_finished current_time
update-shown now item other time duration finished p named long =
    let r = rec_of item p in
    let f =
      if finished then whole else bound_fraction (record { num = time; den = pos_part duration }) in
    let new : Rec = record {
      fraction = f;
      current_time = time;
      finished = finished;
      started_at = if leb_ℤ r.started_at (pos 0) then now else r.started_at;
    } in
    ground (
      arith,
      eq_iff item item,
      lookup-insert item item new p.by_item,
      lookup-insert item other new p.by_item,
      bound_fraction-IsBounded (record { num = time; den = pos_part duration }),
    )

-- Marking an item, of an id that is not empty, that has a record and is not finished as finished
-- shows 1, and marking it as not finished again shows its old fraction: the mark hides the fraction
-- and does not lose it.
pub set_finished-roundtrip :
    (item : String) (r : Rec) (p : Progress)
    → is_blank item ≡ false
    → lookup item p.by_item ≡ some r
    → r.finished ≡ false
    → let q = set_finished item true p in
      (fraction item q ≡ whole) × (fraction item (set_finished item false q) ≡ fraction item p)
unfolding set_finished fraction
set_finished-roundtrip item r p named there open_ =
    let m = insert item (record r { finished = true }) p.by_item in
    ground (
      arith,
      eq_iff item item,
      lookup-insert item item (record r { finished = true }) p.by_item,
      lookup-insert item item (record r { finished = false }) m,
      lookup-insert item item (record r { finished = false }) p.by_item,
    )
