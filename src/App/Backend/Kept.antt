-- ===== src/App/Backend/Kept.antt =====
-- src/app/Backend.cpp: what every operation but the reset keeps: the generation of the server, and that
-- the next-up shelf shows what the playlists and the progress say.
use shelf_remote.Prelude.{
  refl, sym, ◌∙◌, ◌≡◌, none, some, arith, List, String, ℤ, Bool, if_elim, is_empty, ◌==◌, is_blank,
  empty_eq, ==_iff, ◌∷◌, lookup, insert, if◌then◌else◌, not, ◌+◌, ◌||◌, ◌&&◌,
}
use shelf_remote.App.Backend.{
  Backend, Linked, IsExact, next_up_cards, set_playlist_next_up, update_playlist_next_up,
  on_progress_changed, Progress, Fraction, Card, Shelves, Signal, tell,
}
use shelf_remote.Model.Shelves.{set_playlist_next_up, next_up_row, inserted, changed}
use shelf_remote.Model.Progress.{fresh, whole, nothing, set, set_finished, update}

-- The next-up shelf shows the cards of the playlists that are picked, by the progress.
abbrev pub IsFresh : Backend → Type 0
IsFresh b = b.home.next_up ≡ next_up_cards b

pub record Kept (b q : Backend) : Type 0 where
  pub generation : q.server_generation ≡ b.server_generation
  pub fresh : IsFresh b → IsFresh q

-- What the generation and the shelf rest on is as it was.
pub record IsSame (b q : Backend) : Type 0 where
  pub generation : q.server_generation ≡ b.server_generation
  pub enabled : q.next_up_enabled ≡ b.next_up_enabled
  pub ids : q.next_up_playlist_ids ≡ b.next_up_playlist_ids
  pub lists : q.playlists ≡ b.playlists
  pub progress : q.progress ≡ b.progress
  pub cards : q.home.next_up ≡ b.home.next_up

next_up_cards-same : (b q : Backend) → IsSame b q → next_up_cards q ≡ next_up_cards b
unfolding next_up_cards
next_up_cards-same b q s = rw (s.enabled, s.ids, s.lists, s.progress)

pub same-Kept : (b q : Backend) → IsSame b q → Kept b q
same-Kept b q s = record {
  generation = s.generation;
  fresh = λ h. s.cards ∙ h ∙ sym (next_up_cards-same b q s);
}

pub shown_alike :
    (b q : Backend)
    → q.server_generation ≡ b.server_generation
    → q.next_up_enabled ≡ b.next_up_enabled
    → q.next_up_playlist_ids ≡ b.next_up_playlist_ids
    → q.playlists ≡ b.playlists
    → q.progress ≡ b.progress
    → q.home.next_up ≡ b.home.next_up
    → Kept b q
shown_alike b q g n i l p c =
    same-Kept b q
      (record { generation = g; enabled = n; ids = i; lists = l; progress = p; cards = c })

pub Kept-trans : (b q r : Backend) → Kept b q → Kept q r → Kept b r
Kept-trans b q r h k = record {
  generation = k.generation ∙ h.generation;
  fresh = λ f. k.fresh (h.fresh f);
}

-- An operation that touches nothing of it.
abbrev untouched : (b : Backend) → IsSame b b
untouched b = record {
  generation = refl;
  enabled = refl;
  ids = refl;
  lists = refl;
  progress = refl;
  cards = refl;
}

pub set_playlist_next_up-shown :
    (x : Linked) (cards : List Card) (s : Shelves)
    → IsExact x
    → (set_playlist_next_up x.same_cards cards s).next_up ≡ cards
unfolding set_playlist_next_up
set_playlist_next_up-shown x cards s e =
    let shows = λ (r : Shelves). r.next_up ≡ cards in
    if_elim shows (x.same_cards cards s.next_up) (λ h. sym (e.exact cards s.next_up h))
      λ _.
        if_elim shows (is_empty cards) (λ h. sym (empty_eq cards h))
          λ _.
            elim (next_up_row s)
              as (λ o.
                (elim o as (λ p. Shelves) [
                  | none ↦ record s {
                    next_up = cards;
                    out = inserted (next_up_row (record s { next_up = cards })) ∷ s.out;
                  }
                  | some row ↦ record s { next_up = cards; out = changed row ∷ s.out }
                ]).next_up
                ≡ cards) [ none ↦ refl | some row ↦ refl ]

pub update-IsFresh : (x : Linked) (b : Backend) → IsExact x → IsFresh (update_playlist_next_up x b)
unfolding update_playlist_next_up next_up_cards
update-IsFresh x b e = set_playlist_next_up-shown x (next_up_cards b) b.home e

pub update-Kept :
    (x : Linked) (b q : Backend)
    → IsExact x
    → q.server_generation ≡ b.server_generation
    → Kept b (update_playlist_next_up x q)
update-Kept x b q e h = record {
  generation = unfold update_playlist_next_up in h;
  fresh = λ _. update-IsFresh x q e;
}

pub on_progress_changed-Kept :
    (x : Linked) (p : Progress) (b : Backend)
    → IsExact x
    → (p.notices ≡ b.progress.notices → p ≡ b.progress)
    → Kept b (on_progress_changed x p b)
unfolding on_progress_changed
on_progress_changed-Kept x p b e quiet =
    let q = record b { progress = p } in
    if_elim (Kept b) (p.notices == b.progress.notices)
      (λ h. same-Kept b q (record {
        generation = refl;
        enabled = refl;
        ids = refl;
        lists = refl;
        progress = quiet ((==_iff p.notices b.progress.notices).0 h);
        cards = refl;
      }))
      λ _. update-Kept x b q e refl

-- Without a signal, nothing has changed.
abbrev pub IsQuiet : Progress → Progress → Type 0
IsQuiet p q = q.notices ≡ p.notices → q ≡ p

pub set-IsQuiet :
    (now : ℤ) (item : String) (f : Fraction) (time : ℤ) (finished : Bool) (p : Progress)
    → (set now item f time finished p).notices ≡ p.notices
    → set now item f time finished p ≡ p
unfolding set
set-IsQuiet now item f time finished p =
    if_elim (IsQuiet p) (is_blank item) (λ _ h. refl) λ _ h. absurd (omega arith)

pub set_finished-IsQuiet :
    (item : String) (finished : Bool) (p : Progress)
    → (set_finished item finished p).notices ≡ p.notices
    → set_finished item finished p ≡ p
unfolding set_finished
set_finished-IsQuiet item finished p =
    if_elim (IsQuiet p) (is_blank item) (λ _ h. refl)
      λ _.
        elim (lookup item p.by_item)
          as (λ o. IsQuiet p (elim o as (λ r. Progress) [
            | none ↦ record {
              by_item =
                  insert item
                    (record fresh {
                      finished = finished;
                      fraction = if finished then whole else nothing;
                    })
                    p.by_item;
              notices = p.notices + 1;
            }
            | some r ↦
                if (r.finished && finished) || (not r.finished && not finished) then p else record {
                  by_item = insert item (record r { finished = finished }) p.by_item;
                  notices = p.notices + 1;
                }
          ])) [
            | none ↦ λ h. absurd (omega arith)
            | some r ↦
                if_elim (IsQuiet p) ((r.finished && finished) || (not r.finished && not finished))
                  (λ _ h. refl) λ _ h. absurd (omega arith)
          ]

pub update-IsQuiet :
    (now : ℤ) (item : String) (time duration : ℤ) (finished : Bool) (p : Progress)
    → (update now item time duration finished p).notices ≡ p.notices
    → update now item time duration finished p ≡ p
unfolding update
update-IsQuiet now item time duration finished p =
    if_elim (IsQuiet p) (is_blank item) (λ _ h. refl) λ _ h. absurd (omega arith)

-- An operation that touches nothing of it, and then emits a signal.
pub told-Kept : (n : Signal) (b : Backend) → Kept b (tell n b)
told-Kept n b = same-Kept b (tell n b) (record {
  generation = refl;
  enabled = refl;
  ids = refl;
  lists = refl;
  progress = refl;
  cards = refl;
})

pub self-Kept : (b : Backend) → Kept b b
self-Kept b = same-Kept b b (untouched b)
