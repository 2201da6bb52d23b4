-- ===== src/Model/Bookmarks.antt =====
-- src/model/BookmarkStore.h and .cpp. A position is in milliseconds; a bookmark holds whole seconds. A
-- request is an entry of the log. The HTTP client is there.
pub mod Rollback
pub mod Order
use shelf_remote.Prelude.{
  ℕ, false, none, some, [], ℤ, List, if◌then◌else◌, Bool, String, Option, ◌||◌, lookup, leb_ℤ,
  is_blank, is_empty, ◌∷◌, sub_ℕ, insert, erase, pos_part, ◌++◌, ◌&&◌, ◌/◌, neg_part,
}

pub record Bookmark : Type 0 where
  pub time : ℤ
  pub title : String

pub data Notice : Type 0 where
  changed : Notice
  posted : String → Bookmark → Notice
  deleted : String → ℤ → Notice

pub record Store : Type 0 where
  pub by_item : List (String × List Bookmark)
  pub out : List Notice

-- `keyOf`: the conversion to an integer drops the fraction.
unfoldable pub key_of : ℤ → ℤ
key_of position = sub_ℕ (pos_part position / 1000) (neg_part position / 1000)

abbrev pub eq_ℤ : ℤ → ℤ → Bool
eq_ℤ a b = leb_ℤ a b && leb_ℤ b a

-- An entry of the array "bookmarks", with its time in milliseconds.
pub record BookmarkJson : Type 0 where
  pub item : String
  pub time : ℤ
  pub title : String

abbrev pub marks_of : String → List (String × List Bookmark) → List Bookmark
marks_of item m = elim (lookup item m) [ none ↦ [] | some marks ↦ marks ]

-- `m_byItem[itemId].push_back(bm)`.
unfoldable pub push :
    String → Bookmark → List (String × List Bookmark) → List (String × List Bookmark)
push item b m = insert item (marks_of item m ++ b ∷ []) m

unfoldable pub load_marks :
    List BookmarkJson → List (String × List Bookmark) → List (String × List Bookmark)
load_marks [] m = m
load_marks (b ∷ bs) m = load_marks bs (
    if is_blank b.item then m else push b.item (record { time = key_of b.time; title = b.title }) m)

unfoldable pub load_from_user : List BookmarkJson → Store → Store
load_from_user bs s = record s { by_item = load_marks bs []; out = changed ∷ s.out }

unfoldable pub clear : Store → Store
clear s = if is_empty s.by_item then s else record s { by_item = []; out = changed ∷ s.out }

-- The order of `forItem`: ascending by time.
unfoldable pub insert_mark : Bookmark → List Bookmark → List Bookmark
insert_mark b [] = b ∷ []
insert_mark b (c ∷ cs) =
    let rest = insert_mark b cs in if leb_ℤ b.time c.time then b ∷ c ∷ cs else c ∷ rest

unfoldable pub sort_marks : List Bookmark → List Bookmark
sort_marks [] = []
sort_marks (b ∷ bs) = insert_mark b (sort_marks bs)

unfoldable pub for_item : String → Store → List Bookmark
for_item item s = sort_marks (marks_of item s.by_item)

unfoldable pub has_mark : ℤ → List Bookmark → Bool
has_mark t [] = false
has_mark t (b ∷ bs) = eq_ℤ b.time t || has_mark t bs

unfoldable pub has : String → ℤ → Store → Bool
has item position s = has_mark (key_of position) (marks_of item s.by_item)

-- `remove_if` with `erase`.
unfoldable pub drop_marks : ℤ → List Bookmark → List Bookmark
drop_marks t [] = []
drop_marks t (b ∷ bs) = let rest = drop_marks t bs in if eq_ℤ b.time t then rest else b ∷ rest

-- The vector is left without the bookmark, and the entry goes when the vector is empty.
unfoldable pub drop_from :
    String → ℤ → List (String × List Bookmark) → List (String × List Bookmark)
drop_from item t m = elim (lookup item m) [
  | none ↦ m
  | some marks ↦
      let left = drop_marks t marks in if is_empty left then erase item m else insert item left m
]

unfoldable pub add : String → ℤ → String → Store → Store
add item position title s =
    let t = key_of position in
    if is_blank item || has_mark t (marks_of item s.by_item)
    then s
    else let b : Bookmark = record { time = t; title = title } in
      record s { by_item = push item b s.by_item; out = posted item b ∷ changed ∷ s.out }

-- A reply as the callbacks read it.
pub record Reply : Type 0 where
  pub stale : Bool
  pub ok : Bool

unfoldable pub on_add_reply : String → ℤ → Reply → Store → Store
on_add_reply item t res s = if res.stale || res.ok then s else elim (lookup item s.by_item) [
  | none ↦ s
  | some marks ↦ record s { by_item = drop_from item t s.by_item; out = changed ∷ s.out }
]

unfoldable pub first_mark : ℤ → List Bookmark → Option Bookmark
first_mark t [] = none
first_mark t (b ∷ bs) = let rest = first_mark t bs in if eq_ℤ b.time t then some b else rest

unfoldable pub remove : String → ℤ → Store → Store
remove item position s =
    let t = key_of position in
    if is_blank item then s else elim (first_mark t (marks_of item s.by_item)) [
      | none ↦ record s { by_item = drop_from item t s.by_item }
      | some b ↦ record s {
        by_item = drop_from item t s.by_item;
        out = deleted item t ∷ changed ∷ s.out;
      }
    ]

unfoldable pub on_remove_reply : String → Bookmark → Reply → Store → Store
on_remove_reply item removed res s =
    if res.stale || res.ok
    then s
    else record s { by_item = push item removed s.by_item; out = changed ∷ s.out }
