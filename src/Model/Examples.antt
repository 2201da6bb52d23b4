-- ===== src/Model/Examples.antt =====
-- Runs of the theorems on the models.
use shelf_remote.Model.Shelves.Rows.{rows, data_at-rows}
use shelf_remote.Model.Bookmarks.Rollback.{remove-rejected, add-rejected}
use shelf_remote.Prelude.{
  refl, true, false, none, some, zero, suc, pos, [], ◌∷◌, ℕ, lookup, List, ◌≢◌, ◌≡◌, str_eq,
  get_elem?,
}
use shelf_remote.Model.Bookmarks
use shelf_remote.Model.Bookmarks.{
  Bookmark, Store, on_remove_reply, first_mark, has, on_add_reply, remove, key_of, add, has_mark,
  marks_of, for_item,
}
use shelf_remote.Model.Paging
use shelf_remote.Model.Paging.{ItemJson, Items, load_library, set_items, on_page_reply}
use shelf_remote.Model.Shelves.{Shelves, Card, named, data_at}
use shelf_remote.Model.Progress.{Rec, Progress}

abbrev mark : Bookmark
mark = record { time = pos 12; title = "Here" }

abbrev marked : Store
marked = record { by_item = ("i1", mark ∷ []) ∷ []; out = [] }

abbrev rejected : Bookmarks.Reply
rejected = record { stale = false; ok = false }

no_mark : has "i1" (pos 20500) marked ≡ false
unfolding has key_of has_mark lookup
no_mark = refl

not_empty : lookup "i1" marked.by_item ≢ some []
unfolding lookup
not_empty e = cc

add-rejected_example :
    lookup "i1"
      (on_add_reply "i1"
        (key_of (pos 20500))
        rejected
        (add "i1" (pos 20500) "There" marked)).by_item
    ≡ lookup "i1" marked.by_item
add-rejected_example =
    add-rejected "i1" "i1" (pos 20500) "There" rejected marked not_empty refl refl refl no_mark

mark_there : first_mark (key_of (pos 12300)) (marks_of "i1" marked.by_item) ≡ some mark
unfolding first_mark key_of lookup
mark_there = refl

remove-rejected_example :
    let q = on_remove_reply "i1" mark rejected (remove "i1" (pos 12300) marked) in
    (has "i1" (pos 12300) q ≡ true)
    × (str_eq "i1" "i2" ≡ false → lookup "i2" q.by_item ≡ lookup "i2" marked.by_item)
remove-rejected_example =
    remove-rejected "i1" "i2" (pos 12300) mark rejected marked mark_there refl refl refl

abbrev book : ItemJson
book = record {
  has_media = true;
  id = some "b1";
  meta_title = some "A book";
  raw_title = none;
  subtitle = none;
  author_name = none;
  meta_author = none;
  media_type = some "book";
  duration = none;
  progress = none;
  finished = none;
}

abbrev server : ℕ → List ItemJson
server zero = book ∷ book ∷ []
server (suc n) = book ∷ []

abbrev connected : Items
connected = record Paging.initial { has_api = true }

abbrev card : Card
card = record {
  kind = "book";
  item_id = "b1";
  episode_id = "";
  cover_id = "b1";
  cover_kind = "item";
  title = "A book";
  author = named "An author";
}

abbrev home : Shelves
home = record {
  shelves =
      (record { id = "continue-listening"; label = "Continue"; type_name = "book"; entities = [] })
      ∷ (record { id = "recent"; label = "Recent"; type_name = "book"; entities = [] })
      ∷ [];
  next_up = card ∷ [];
  out = [];
}

data_at-rows_example : data_at 1 home ≡ get_elem? (rows home) 1
data_at-rows_example = data_at-rows 1 home

abbrev begun : Rec
begun = record {
  fraction = record { num = pos 3; den = 10 };
  current_time = pos 300;
  started_at = pos 5;
  finished = false;
}

abbrev progress : Progress
progress = record { by_item = ("i1", begun) ∷ []; notices = 0 }

begun_there : lookup "i1" progress.by_item ≡ some begun
unfolding lookup
begun_there = refl

abbrev unordered : Store
unordered = record {
  by_item = ("i1", (record { time = pos 30; title = "Late" }) ∷ mark ∷ []) ∷ [];
  out = [];
}
