-- ===== src/Model/Bookmarks/Order.antt =====
-- The bookmarks of an item as they are shown.
use shelf_remote.Prelude.{
  refl, ap, arith, [], List, Bool, ◌∷◌, ◌≡◌, ℤ, ◌≤ℤ◌, String, ◌||◌, if_elim, ◌∙◌, leb_ℤ, leb_ℤ→le,
  leb_ℤ→lt,
}
use shelf_remote.Model.Bookmarks.{
  Store, insert_mark, Bookmark, sort_marks, for_item, has_mark, has, eq_ℤ, key_of, marks_of,
}

abbrev pub IsAscending : List Bookmark → Type 0
IsAscending [] = Unit {0}
IsAscending (b ∷ []) = Unit {0}
IsAscending (b ∷ c ∷ cs) = (b.time ≤ℤ c.time) × IsAscending (c ∷ cs)

-- The bookmark is not later than the first of the list.
abbrev Below : Bookmark → List Bookmark → Type 0
Below b [] = Unit {0}
Below b (c ∷ cs) = b.time ≤ℤ c.time

IsAscending-cons :
    (b : Bookmark) (cs : List Bookmark) → Below b cs → IsAscending cs → IsAscending (b ∷ cs)
IsAscending-cons b [] h s = tt
IsAscending-cons b (c ∷ cs) h s = (h, s)

tail_of : (b : Bookmark) (cs : List Bookmark) → IsAscending (b ∷ cs) → IsAscending cs × Below b cs
tail_of b [] s = (tt, tt)
tail_of b (c ∷ cs) (h, s) = (s, h)

insert_mark-Below :
    (a b : Bookmark) (cs : List Bookmark)
    → a.time ≤ℤ b.time
    → Below a cs
    → Below a (insert_mark b cs)
unfolding insert_mark
insert_mark-Below a b [] h k = h
insert_mark-Below a b (c ∷ cs) h k = if_elim (Below a) (leb_ℤ b.time c.time) (λ _. h) (λ _. k)

insert_mark-IsAscending :
    (b : Bookmark) (cs : List Bookmark) → IsAscending cs → IsAscending (insert_mark b cs)
unfolding insert_mark
insert_mark-IsAscending b [] s = tt
insert_mark-IsAscending b (c ∷ cs) s =
    let (t, k) = tail_of c cs s in
    if_elim IsAscending (leb_ℤ b.time c.time) (λ e. (leb_ℤ→le b.time c.time e, s))
      λ e.
        IsAscending-cons c (insert_mark b cs)
          (insert_mark-Below c b cs (ground (arith, leb_ℤ→lt b.time c.time e)) k)
          (insert_mark-IsAscending b cs t)

sort_marks-IsAscending : (bs : List Bookmark) → IsAscending (sort_marks bs)
unfolding sort_marks
sort_marks-IsAscending [] = tt
sort_marks-IsAscending (b ∷ bs) =
    insert_mark-IsAscending b (sort_marks bs) (sort_marks-IsAscending bs)

or_swap : (c b h k : Bool) → k ≡ (b || h) → (c || k) ≡ (b || (c || h))
or_swap c b h k e = ground arith

has_mark-insert_mark :
    (t : ℤ) (b : Bookmark) (cs : List Bookmark)
    → has_mark t (insert_mark b cs) ≡ (eq_ℤ b.time t || has_mark t cs)
unfolding has_mark insert_mark
has_mark-insert_mark t b [] = refl
has_mark-insert_mark t b (c ∷ cs) =
    if_elim (λ l. has_mark t l ≡ (eq_ℤ b.time t || has_mark t (c ∷ cs))) (leb_ℤ b.time c.time)
      (λ _. refl)
      λ _.
        or_swap (eq_ℤ c.time t) (eq_ℤ b.time t) (has_mark t cs) (has_mark t (insert_mark b cs))
          (has_mark-insert_mark t b cs)

has_mark-sort_marks : (t : ℤ) (bs : List Bookmark) → has_mark t (sort_marks bs) ≡ has_mark t bs
unfolding has_mark sort_marks
has_mark-sort_marks t [] = refl
has_mark-sort_marks t (b ∷ bs) =
    has_mark-insert_mark t b (sort_marks bs)
    ∙ ap (λ h. eq_ℤ b.time t || h) (has_mark-sort_marks t bs)

-- The bookmarks of an item are shown in the order of their times, and one is shown at the second of a
-- position exactly when the store has a bookmark there.
pub for_item-IsAscending :
    (item : String) (position : ℤ) (s : Store)
    → IsAscending (for_item item s)
      × (has_mark (key_of position) (for_item item s) ≡ has item position s)
unfolding for_item has
for_item-IsAscending item position s = (
  sort_marks-IsAscending (marks_of item s.by_item),
  has_mark-sort_marks (key_of position) (marks_of item s.by_item),
)
