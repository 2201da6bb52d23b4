-- ===== src/Model/Bookmarks/Rollback.antt =====
-- A change that the server rejects is taken back.
use shelf_remote.Prelude.{
  true, false, some, arith, [], ℤ, String, List, ◌≡◌, ◌++◌, eq_iff, if◌then◌else◌, lookup, ◌∷◌,
  is_empty, ◌||◌, ◌≢◌, erase, is_blank, insert, lookup-insert, lookup-erase, str_eq,
}
use shelf_remote.Model.Bookmarks.{
  Store, drop_marks, has_mark, on_add_reply, drop_from, first_mark, add, push, Bookmark, has,
  marks_of, Reply, eq_ℤ, key_of, on_remove_reply, remove,
}

drop_marks-append :
    (t : ℤ) (title : String) (marks : List Bookmark)
    → has_mark t marks ≡ false
    → drop_marks t (marks ++ (record { time = t; title = title }) ∷ []) ≡ marks
unfolding drop_marks has_mark
drop_marks-append t title [] h = ground arith
drop_marks-append t title (b ∷ bs) h = ground (arith, drop_marks-append t title bs)

drop_marks-pushed :
    (item : String) (t : ℤ) (title : String) (m : List (String × List Bookmark))
    → has_mark t (marks_of item m) ≡ false
    → let b : Bookmark = record { time = t; title = title } in
      drop_from item t (push item b m) ≡ (
        if is_empty (marks_of item m)
        then erase item (push item b m)
        else insert item (marks_of item m) (push item b m))
unfolding drop_from push
drop_marks-pushed item t title m h = ground (
  arith,
  drop_marks-append t title (marks_of item m) h,
  eq_iff item item,
  lookup-insert item item (marks_of item m ++ (record { time = t; title = title }) ∷ []) m,
)

-- When the server rejects a new bookmark by a reply that is not stale, the bookmarks of every item
-- are what they were before it was added, where the id of the item is not empty, its entry is not
-- empty and had none at that second.
pub add-rejected :
    (item other : String) (position : ℤ) (title : String) (res : Reply) (s : Store)
    → lookup item s.by_item ≢ some []
    → res.stale ≡ false
    → res.ok ≡ false
    → is_blank item ≡ false
    → has item position s ≡ false
    → lookup other (on_add_reply item (key_of position) res (add item position title s)).by_item
      ≡ lookup other s.by_item
unfolding on_add_reply add has push
add-rejected item other position title res s full fresh failed named new = ground (
  arith,
  eq_iff item other,
  eq_iff item item,
  drop_marks-pushed item (key_of position) title s.by_item new,
  lookup-insert item other (marks_of item s.by_item)
      (push item (record { time = key_of position; title = title }) s.by_item),
  lookup-erase item other (push item (record { time = key_of position; title = title }) s.by_item),
  lookup-insert item other
      (marks_of item s.by_item ++ (record { time = key_of position; title = title }) ∷ [])
      s.by_item,
  lookup-insert item item
      (marks_of item s.by_item ++ (record { time = key_of position; title = title }) ∷ [])
      s.by_item,
)

has_mark-append :
    (u : ℤ) (b : Bookmark) (marks : List Bookmark)
    → has_mark u (marks ++ b ∷ []) ≡ (has_mark u marks || eq_ℤ b.time u)
unfolding has_mark
has_mark-append u b [] = ground arith
has_mark-append u b (c ∷ cs) = ground (arith, has_mark-append u b cs)

first_mark-has :
    (t : ℤ) (marks : List Bookmark) (b : Bookmark)
    → first_mark t marks ≡ some b
    → (eq_ℤ b.time t ≡ true) × (has_mark t marks ≡ true)
unfolding first_mark has_mark
first_mark-has t [] b h = cc
first_mark-has t (c ∷ cs) b h = ground (arith, first_mark-has t cs b)

drop_from-other :
    (item other : String) (t : ℤ) (m : List (String × List Bookmark))
    → str_eq item other ≡ false
    → lookup other (drop_from item t m) ≡ lookup other m
unfolding drop_from
drop_from-other item other t m ne =
    ground (
      arith,
      lookup-erase item other m,
      lookup-insert item other (drop_marks t (marks_of item m)) m,
    )

-- When the server rejects the removal of a bookmark that was there, of an item whose id is not
-- empty, by a reply that is not stale, a bookmark stands at that second again, and the bookmarks of
-- the other items are as they were.
pub remove-rejected :
    (item other : String) (position : ℤ) (b : Bookmark) (res : Reply) (s : Store)
    → first_mark (key_of position) (marks_of item s.by_item) ≡ some b
    → res.stale ≡ false
    → res.ok ≡ false
    → is_blank item ≡ false
    → let q = on_remove_reply item b res (remove item position s) in
      (has item position q ≡ true)
      × (str_eq item other ≡ false → lookup other q.by_item ≡ lookup other s.by_item)
unfolding on_remove_reply remove has push
remove-rejected item other position b res s there fresh failed named =
    let t = key_of position in
    let m = drop_from item t s.by_item in
    ground (
      arith,
      eq_iff item item,
      first_mark-has t (marks_of item s.by_item) b there,
      has_mark-append t b (marks_of item m),
      lookup-insert item item (marks_of item m ++ b ∷ []) m,
      lookup-insert item other (marks_of item m ++ b ∷ []) m,
      drop_from-other item other t s.by_item,
    )
