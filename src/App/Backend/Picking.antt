-- ===== src/App/Backend/Picking.antt =====
-- src/app/Backend.cpp: which book of a playlist stands on the next-up shelf.
use shelf_remote.App.Backend.{pick, Progress, Card, is_begun, is_finished}
use shelf_remote.Prelude.{
  filter_by, refl, none, some, [], List, Option, ◌∷◌, ◌≡◌, Bool, if◌then◌else◌, str_eq, ◌&&◌, not,
  inl, inr, true, false, Bool-cases, ◌∙◌,
}

-- A book that is not finished.
unfoldable pub is_left : Progress → Card → Bool
is_left p e = str_eq e.kind "book" && not (is_finished e.item_id p)

unfoldable pub first_card : List Card → Option Card
first_card [] = none
first_card (e ∷ es) = some e

unfoldable pub first_begun : Progress → List Card → Option Card
first_begun p [] = none
first_begun p (e ∷ es) = if is_begun e.item_id p then some e else first_begun p es

unfoldable pub or_else : Option Card → Option Card → Option Card
or_else none o = o
or_else (some e) o = some e

kept_first :
    (begun : Option Card) (e : Card) (left : List Card) (unread : Option Card)
    → or_else begun (or_else (elim unread [ none ↦ some e | some u ↦ some u ]) (first_card left))
      ≡ or_else begun (or_else unread (some e))
unfolding or_else
kept_first begun e left none = refl
kept_first begun e left (some u) = refl

-- One turn of the loop at a card that is a book, is finished, and is begun, as the tests say.
turn :
    (p : Progress) (e : Card) (left : List Card) (book finished : Bool)
    (unread skipped passed : Option Card)
    → skipped ≡ or_else (first_begun p left) (or_else unread (first_card left))
    → passed
      ≡ or_else
          (first_begun p left)
          (or_else (elim unread [ none ↦ some e | some u ↦ some u ]) (first_card left))
    → let now_left = if book && not finished then e ∷ left else left in
      (if not book
        then skipped
        else if finished
        then skipped
        else if is_begun e.item_id p
        then some e
        else passed)
      ≡ or_else (first_begun p now_left) (or_else unread (first_card now_left))
unfolding first_card
turn p e left false finished unread skipped passed h k = h
turn p e left true true unread skipped passed h k = h
turn p e left true false unread skipped passed h k =
    unfold first_begun in
    elim (Bool-cases (is_begun e.item_id p)) [
      | inl b ↦ rw b (unfold or_else in refl)
      | inr b ↦ rw b (k ∙ kept_first (first_begun p left) e left unread)
    ]

pick-first :
    (p : Progress) (es : List Card) (unread : Option Card)
    → let left = filter_by (is_left p) es in
      pick p es unread ≡ or_else (first_begun p left) (or_else unread (first_card left))
unfolding pick filter_by is_left first_card first_begun
pick-first p [] none = unfold or_else in refl
pick-first p [] (some u) = unfold or_else in refl
pick-first p (e ∷ es) unread =
    turn p e (filter_by (is_left p) es) (str_eq e.kind "book") (is_finished e.item_id p) unread
      (pick p es unread) (pick p es (elim unread [ none ↦ some e | some u ↦ some u ]))
      (pick-first p es unread) (pick-first p es (elim unread [ none ↦ some e | some u ↦ some u ]))

-- Of a playlist, the next-up shelf shows the first unfinished book that was begun; if none was, the
-- first unfinished book; if there is none, nothing.
pub pick_lem :
    (p : Progress) (es : List Card)
    → let left = filter_by (is_left p) es in
      pick p es none ≡ or_else (first_begun p left) (first_card left)
pick_lem p es = unfold or_else in pick-first p es none
