-- ===== src/App/Backend/Replies.antt =====
-- src/app/Backend.cpp: the requests and what their replies do.
use shelf_remote.Model.Shelves.{ShelfJson, set_shelves}
use shelf_remote.Prelude.{
  true, false, none, some, [], List, ℤ, ◌+◌, ℕ, Bool, if◌then◌else◌, String, Option, ◌||◌, is_empty,
  lookup, is_blank, ◌∷◌, str_eq, not, ◌==◌, ◌&&◌, insert, ◌++◌,
}
use shelf_remote.App.Backend.{
  Backend, Linked, tell, Library, Playlist, Detail, asked_item, asked_finished,
  update_playlist_next_up, Url, navigate_to_library, asked_home, asked_playlists,
  next_up_playlist_ids_changed, item_load_failed, search_finished, on_progress_changed,
  asked_libraries, set_playlists, item_failed, asked_search, search_failed, showing_saved,
  progress_failed, current_library_changed, item_loaded, libraries_failed, playlists_failed,
  libraries_changed,
}
use shelf_remote.Model.Paging.{load_library, set_items, Row, ItemJson}
use shelf_remote.Model.Progress.{Fraction, set, set_finished}

abbrev pub setting : String → List (String × String) → String
setting key m = elim (lookup key m) [ none ↦ "" | some s ↦ s ]

abbrev pub same_ids : List String → List String → Bool
same_ids [] [] = true
same_ids (a ∷ as') (b ∷ bs) = str_eq a b && same_ids as' bs
same_ids as' bs = false

unfoldable pub load_libraries : Linked → Backend → Backend
load_libraries x b =
    let next_up = x.split (setting (x.id_for_url b.base) b.saved_next_up) in
    let q =
      if same_ids next_up b.next_up_playlist_ids
      then b
      else update_playlist_next_up x
          (tell next_up_playlist_ids_changed (record b { next_up_playlist_ids = next_up })) in
    tell (asked_libraries q.server_generation) q

unfoldable pub refresh_home : Backend → Backend
refresh_home b =
    if is_blank b.current_library_id
    then b
    else tell (asked_home b.current_library_id b.server_generation) b

unfoldable pub refresh_playlists : Backend → Backend
refresh_playlists b =
    if is_blank b.current_library_id
    then b
    else tell (asked_playlists b.current_library_id b.server_generation) b

unfoldable pub browse : String → Bool → String → Backend → Backend
browse sort desc filter b = if is_blank b.current_library_id then b else record b {
  library_items = load_library b.current_library_id sort desc filter b.library_items;
}

unfoldable pub select_library : Linked → String → Backend → Backend
select_library x id b =
    if is_blank id
    then b
    else let q = if str_eq id b.current_library_id then b else set_playlists x [] b in
      let r = tell current_library_changed (record q {
        current_library_id = id;
        last_library = insert (x.id_for_url q.base) id q.last_library;
      }) in
      browse "media.metadata.title" false "" (refresh_playlists (refresh_home r))

abbrev has_library : String → List Library → Bool
has_library id [] = false
has_library id (l ∷ ls) = str_eq l.id id || has_library id ls

-- The library that was last used, if it is still there, or else the first.
unfoldable pub to_select : String → List Library → String
to_select last [] = ""
to_select last (l ∷ ls) = if not (is_blank last) && has_library last (l ∷ ls) then last else l.id

-- A reply: whether it is stale, whether it is a success, and its status.
pub record Reply : Type 0 where
  pub stale : Bool
  pub ok : Bool
  pub status : ℕ

unfoldable pub on_libraries_reply : Linked → ℕ → Reply → List Library → Backend → Backend
on_libraries_reply x gen res ls b =
    if res.stale || not (gen == b.server_generation)
    then b
    else if not res.ok
    then tell (libraries_failed res.status) b
    else let q = tell libraries_changed (record b { libraries = ls }) in
      if not (is_empty ls) && is_blank q.current_library_id
      then select_library x (to_select (setting (x.id_for_url q.base) q.last_library) ls) q
      else q

unfoldable pub on_home_reply : ℕ → Reply → List ShelfJson → Backend → Backend
on_home_reply gen res shelves b =
    if res.stale || not (gen == b.server_generation)
    then b
    else if res.ok
    then record b { home = set_shelves shelves b.home }
    else b

unfoldable pub on_playlists_reply : Linked → String → ℕ → Reply → List Playlist → Backend → Backend
on_playlists_reply x library gen res ls b =
    if res.stale || (not (gen == b.server_generation) || not (str_eq library b.current_library_id))
    then b
    else if not res.ok
    then tell (playlists_failed res.status) b
    else set_playlists x ls b

unfoldable pub clear_search : Backend → Backend
clear_search b = record b {
  search_generation = b.search_generation + 1;
  search_results = set_items [] b.search_results;
}

unfoldable pub search : Linked → String → Backend → Backend
search x query b =
    if is_blank b.current_library_id
    then tell (search_finished query false) b
    else if is_blank (x.trimmed query)
    then clear_search b
    else let q = record b { search_generation = b.search_generation + 1 } in
      tell
        (asked_search b.current_library_id (x.trimmed query) q.search_generation
          q.server_generation)
        q

-- The hits are those of books and then of podcasts.
unfoldable pub on_search_reply :
    String → ℕ → ℕ → Reply → List (ItemJson × Row) → List (ItemJson × Row) → Backend → Backend
on_search_reply query gen server_gen res books podcasts b =
    if res.stale || (not (gen == b.search_generation) || not (server_gen == b.server_generation))
    then b
    else if not res.ok
    then tell (search_finished query false) (tell search_failed b)
    else tell (search_finished query true)
        (record b { search_results = set_items (books ++ podcasts) b.search_results })

abbrev pub browse_filtered : String → Backend → Backend
browse_filtered filter b = tell navigate_to_library (record b {
  library_items =
      load_library b.current_library_id "media.metadata.title" false filter b.library_items;
})

unfoldable pub browse_series : Linked → String → Backend → Backend
browse_series x id b =
    if is_blank b.current_library_id || is_blank id
    then b
    else browse_filtered (x.series_filter id) b

unfoldable pub browse_author : Linked → String → Backend → Backend
browse_author x id b =
    if is_blank b.current_library_id || is_blank id
    then b
    else browse_filtered (x.author_filter id) b

unfoldable pub load_item : String → Backend → Backend
load_item item b = tell (asked_item item b.server_generation b.base) b

unfoldable pub apply_item_progress :
    Linked → ℤ → String → Option (Fraction × ℤ × Bool) → Backend → Backend
apply_item_progress x now item none b = b
apply_item_progress x now item (some (fraction, time, finished)) b =
    on_progress_changed x (set now item fraction time finished b.progress) b

abbrev pub saved_or_failed : String → Option Detail → Backend → Backend
saved_or_failed item none b = tell (item_load_failed item) (tell item_failed b)
saved_or_failed item (some d) b = tell showing_saved (tell (item_loaded d) b)

unfoldable pub on_item_reply : Linked → ℤ → String → ℕ → Url → Reply → Detail → Backend → Backend
on_item_reply x now item gen base res d b =
    if res.stale || not (gen == b.server_generation)
    then b
    else let key = x.item_cache_key base item in
      if not res.ok
      then saved_or_failed item (lookup key b.cached) b
      else tell (item_loaded d)
          (apply_item_progress x now item d.progress (record b { cached = insert key d b.cached }))

unfoldable pub mark_finished : String → Bool → Backend → Backend
mark_finished item finished b = tell (asked_finished item finished b.server_generation) b

unfoldable pub on_finished_reply : Linked → String → Bool → ℕ → Reply → Backend → Backend
on_finished_reply x item finished gen res b =
    if res.stale || not (gen == b.server_generation)
    then b
    else if not res.ok
    then tell progress_failed b
    else load_item item (on_progress_changed x (set_finished item finished b.progress) b)

-- The first half of `reset`: up to the shelves of the server.
unfoldable pub forget : Backend → Backend
forget b =
    let q = record b {
      server_generation = b.server_generation + 1;
      search_generation = b.search_generation + 1;
      current_library_id = "";
      libraries = [];
    } in
    let r =
      if is_empty q.next_up_playlist_ids
      then q
      else tell next_up_playlist_ids_changed (record q { next_up_playlist_ids = [] }) in
    record r { home = set_shelves [] r.home }

unfoldable pub reset : Linked → Backend → Backend
reset x b =
    let s = set_playlists x [] (forget b) in
    tell current_library_changed (
      tell libraries_changed (record s {
        library_items = set_items [] s.library_items;
        search_results = set_items [] s.search_results;
      }))
