-- ===== src/App/Backend/Examples.antt =====
-- Runs of the theorems on the library. Two lists of cards compare equal when both are empty.
use shelf_remote.App.Backend.NextUp.{run-IsFresh}
use shelf_remote.App.Backend.Generations.{run-late_reply, captured}
use shelf_remote.App.Backend.Kept.{IsFresh}
use shelf_remote.App.Backend.{
  Backend, Linked, IsExact, set_playlists, update_playlist_next_up, next_up_cards,
}
use shelf_remote.App.Backend.Replies.{
  Reply, select_library, browse, refresh_home, refresh_playlists, on_home_reply, reset,
}
use shelf_remote.App.Backend.Steps.{
  Input, run, step, library_selected, home_replied, next_up_picked, playlists_replied, played,
}
use shelf_remote.Net.Endpoints.{Url}
use shelf_remote.Model.Progress.{Progress}
use shelf_remote.Prelude.{
  insert, refl, true, false, none, some, arith, pos, [], is_empty, ◌∷◌, String, List, ◌≡◌, ◌&&◌,
}
use shelf_remote.Model.Paging.{load_library, fetch_page, initial}
use shelf_remote.Model.Shelves.{set_playlist_next_up, EntryJson, Card, ShelfJson, set_shelves}

abbrev pub linked : Linked
linked = record {
  id_for_url = λ url. url.host;
  item_cache_key = λ url item. item;
  join = λ ids. "";
  split = λ s. [];
  trimmed = λ s. s;
  series_filter = λ s. s;
  author_filter = λ s. s;
  same_cards = λ a b. is_empty a && is_empty b;
}

both_empty : (a b : List Card) → (is_empty a && is_empty b) ≡ true → a ≡ b
both_empty [] [] h = refl
both_empty [] (y ∷ ys) h = ground arith
both_empty (x ∷ xs) ys h = ground arith

pub linked-IsExact : IsExact linked
linked-IsExact = record { exact = both_empty }

abbrev pub home_url : Url
home_url = record {
  scheme = "https";
  host = "h";
  port = none;
  path = [];
  query = [];
  fragment = [];
}

abbrev pub start : Backend
start = record {
  base = home_url;
  server_generation = 0;
  search_generation = 0;
  current_library_id = "";
  libraries = [];
  next_up_playlist_ids = [];
  next_up_enabled = true;
  home = record { shelves = []; next_up = []; out = [] };
  playlists = [];
  library_items = initial;
  search_results = initial;
  progress = record { by_item = []; notices = 0 };
  last_library = [];
  saved_next_up = [];
  cached = [];
  out = [];
}

abbrev fine : Reply
fine = record { stale = false; ok = true; status = 200 }

abbrev entry : String → EntryJson
entry id = record {
  library_item_id = some id;
  item_id = none;
  item_title = some id;
  meta_title = none;
  author_name = none;
  meta_author = none;
  episode_id = none;
  episode_title = none;
}

-- A playlist is picked, its first book is read to the end.
abbrev reading : List Input
reading =
    library_selected "l1"
    ∷ next_up_picked "p1" true
    ∷ playlists_replied "l1" 0 fine
        (record { id = "p1"; name = "n"; items = entry "i1" ∷ entry "i2" ∷ [] } ∷ [])
    ∷ played (pos 5) "i1" (pos 60) (pos 60) true
    ∷ []

run-IsFresh_example : IsFresh (run linked reading start)
run-IsFresh_example = run-IsFresh linked linked-IsExact reading start (unfold next_up_cards in refl)

run-late_reply_example :
    let q = run linked reading (reset linked start) in step linked (home_replied 0 fine []) q ≡ q
run-late_reply_example =
    run-late_reply linked linked-IsExact (home_replied 0 fine []) reading start 0
      (unfold captured in refl) (omega arith)

abbrev half_read : Progress
half_read = record {
  by_item =
      (
        "i2",
        record {
          fraction = record { num = pos 1; den = 2 };
          current_time = pos 30;
          started_at = pos 1;
          finished = false;
        },
      )
      ∷ [];
  notices = 1;
}

-- The shelves of a library come after another one was selected, and are shown under it.
abbrev other_shelf : ShelfJson
other_shelf = record { id = "s"; label = "of l1"; type_name = "book"; entities = [] }

abbrev switching : List Input
switching =
    library_selected "l1" ∷ library_selected "l2" ∷ home_replied 0 fine (other_shelf ∷ []) ∷ []

shelves_of_another :
    let q = run linked switching start in
    (q.current_library_id ≡ "l2") × (q.home.shelves ≡ other_shelf ∷ [])
unfolding run step select_library set_playlists update_playlist_next_up refresh_home
    refresh_playlists browse on_home_reply set_shelves load_library fetch_page insert next_up_cards
    set_playlist_next_up
shelves_of_another = (refl, refl)
