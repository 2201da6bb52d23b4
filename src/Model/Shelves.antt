-- ===== src/Model/Shelves.antt =====
-- src/model/ShelfModel.h and .cpp, and the rows of src/model/PlaylistModel.cpp. Roles are the fields
-- of a row. A JSON object is the record of what the code reads from it.
pub mod Rows
use shelf_remote.Prelude.{
  ℕ, false, none, some, [], List, Option, length, String, if◌then◌else◌, map, ◌∷◌, ◌+◌, Bool, ◌==◌,
  str_eq, leb, ltb, is_empty, is_blank, ◌||◌, ◌-◌, get_elem?,
}

pub record EntityJson : Type 0 where
  pub id : Option String
  pub name : Option String
  pub first_book : Option String
  pub books : ℕ
  pub media_type : Option String
  pub meta_title : Option String
  pub author_name : Option String
  pub meta_author : Option String
  pub has_episode : Bool
  pub episode_id : Option String
  pub episode_title : Option String

pub data Author : Type 0 where
  named : String → Author
  book_count : ℕ → Author

pub record Card : Type 0 where
  pub kind : String
  pub item_id : String
  pub episode_id : String
  pub cover_id : String
  pub cover_kind : String
  pub title : String
  pub author : Author

abbrev or_text : Option String → String → String
or_text none d = d
or_text (some s) d = s

unfoldable pub flatten_entity : String → EntityJson → Card
flatten_entity shelf e =
    let id = or_text e.id "" in
    if str_eq shelf "series"
    then record {
      kind = "series";
      item_id = id;
      episode_id = "";
      cover_kind = "item";
      title = or_text e.name "";
      cover_id = if e.books == 0 then "" else or_text e.first_book "";
      author = if e.books == 0 then named "" else book_count e.books;
    }
    else if str_eq shelf "authors"
    then record {
      kind = "author";
      item_id = id;
      episode_id = "";
      cover_id = id;
      cover_kind = "author";
      title = or_text e.name "";
      author = named "";
    }
    else if str_eq shelf "episode" || e.has_episode
    then record {
      kind = "episode";
      item_id = id;
      episode_id = or_text e.episode_id "";
      cover_id = id;
      cover_kind = "item";
      title = or_text e.episode_title (or_text e.meta_title "");
      author = named (or_text e.meta_title "");
    }
    else record {
      kind = or_text e.media_type "book";
      item_id = id;
      episode_id = "";
      cover_id = id;
      cover_kind = "item";
      title = or_text e.meta_title (or_text e.name "");
      author = named (or_text e.author_name (or_text e.meta_author ""));
    }

unfoldable pub flatten_entities : String → List EntityJson → List Card
flatten_entities shelf es = map (flatten_entity shelf) es

pub record ShelfJson : Type 0 where
  pub id : String
  pub label : String
  pub type_name : String
  pub entities : List EntityJson

-- A row: its label, its type and its items.
pub record Row : Type 0 where
  pub label : String
  pub shelf_type : String
  pub items : List Card

pub data Notice : Type 0 where
  model_reset : Notice
  inserted removed : Option ℕ → Notice
  changed : ℕ → Notice

pub record Shelves : Type 0 where
  pub shelves : List ShelfJson
  pub next_up : List Card
  pub out : List Notice

unfoldable pub row_count : Shelves → ℕ
row_count s = length s.shelves + (if is_empty s.next_up then 0 else 1)

-- The row after the shelf "continue-listening", counted from `i`, and 0 if there is none.
unfoldable pub row_after : ℕ → List ShelfJson → ℕ
row_after i [] = 0
row_after i (s ∷ ss) =
    let rest = row_after (i + 1) ss in if str_eq s.id "continue-listening" then i + 1 else rest

unfoldable pub next_up_row : Shelves → Option ℕ
next_up_row s = if is_empty s.next_up then none else some (row_after 0 s.shelves)

abbrev pub next_up_shelf : List Card → Row
next_up_shelf items = record {
  label = "Playlist Next Up";
  shelf_type = "playlistNextUp";
  items = items;
}

abbrev pub row_of : ShelfJson → Row
row_of s = record {
  label = s.label;
  shelf_type = s.type_name;
  items = flatten_entities s.type_name s.entities;
}

abbrev pub map_row : Option ShelfJson → Option Row
map_row none = none
map_row (some s) = some (row_of s)

-- The row of a shelf when the next-up shelf stands at `u`.
unfoldable pub shelf_row : Option ℕ → ℕ → ℕ
shelf_row none i = i
shelf_row (some u) i = if ltb u i then i - 1 else i

abbrev pub is_at : Option ℕ → ℕ → Bool
is_at none i = false
is_at (some u) i = i == u

unfoldable pub data_at : ℕ → Shelves → Option Row
data_at i s =
    if leb (row_count s) i
    then none
    else if is_at (next_up_row s) i
    then some (next_up_shelf s.next_up)
    else map_row (get_elem? s.shelves (shelf_row (next_up_row s) i))

unfoldable pub set_shelves : List ShelfJson → Shelves → Shelves
set_shelves shelves s = record s { shelves = shelves; out = model_reset ∷ s.out }

-- `same` is the comparison of `items` with the cards that are there.
unfoldable pub set_playlist_next_up : (List Card → List Card → Bool) → List Card → Shelves → Shelves
set_playlist_next_up same items s =
    if same items s.next_up
    then s
    else if is_empty items
    then record s { next_up = []; out = removed (next_up_row s) ∷ s.out }
    else elim (next_up_row s) [
      | none ↦
          let q = record s { next_up = items } in
          record q { out = inserted (next_up_row q) ∷ s.out }
      | some row ↦ record s { next_up = items; out = changed row ∷ s.out }
    ]

-- src/model/PlaylistModel.cpp: an entry of a playlist.
pub record EntryJson : Type 0 where
  pub library_item_id : Option String
  pub item_id : Option String
  pub item_title : Option String
  pub meta_title : Option String
  pub author_name : Option String
  pub meta_author : Option String
  pub episode_id : Option String
  pub episode_title : Option String

unfoldable pub flatten_entry : String → EntryJson → Card
flatten_entry id e =
    let episode = or_text e.episode_id "" in
    if is_blank episode
    then record {
      kind = "book";
      item_id = id;
      episode_id = episode;
      cover_id = id;
      cover_kind = "item";
      title = or_text e.meta_title (or_text e.item_title "");
      author = named (or_text e.author_name (or_text e.meta_author ""));
    }
    else record {
      kind = "episode";
      item_id = id;
      episode_id = episode;
      cover_id = id;
      cover_kind = "item";
      title = or_text e.episode_title (or_text e.meta_title "");
      author = named (or_text e.meta_title "");
    }

-- Entries without an item are left out.
unfoldable pub flatten_items : List EntryJson → List Card
flatten_items [] = []
flatten_items (e ∷ es) =
    let id = or_text e.library_item_id (or_text e.item_id "") in
    let rest = flatten_items es in if is_blank id then rest else flatten_entry id e ∷ rest
