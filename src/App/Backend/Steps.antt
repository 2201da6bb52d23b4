-- ===== src/App/Backend/Steps.antt =====
-- src/app/Backend.cpp: what can happen to the library, one step at a time. A change of the progress
-- that comes from elsewhere is one of the operations of its store.
use shelf_remote.Model.Shelves.{ShelfJson}
use shelf_remote.Prelude.{[], Bool, List, ◌∷◌, String, ℕ, ℤ}
use shelf_remote.App.Backend.{
  Backend, Linked, Library, Playlist, Detail, set_playlist_next_up_enabled, set_next_up_playlist,
  Url, on_progress_changed,
}
use shelf_remote.App.Backend.Replies.{
  browse_series, browse_author, Reply, search, reset, load_libraries, refresh_home,
  refresh_playlists, clear_search, on_libraries_reply, select_library, on_home_reply,
  on_playlists_reply, browse, browse_series, load_item, on_search_reply, on_item_reply,
  mark_finished, on_finished_reply,
}
use shelf_remote.Model.Paging.{ItemJson, Row}
use shelf_remote.Model.Progress.{load_from_user, ProgressJson, update}

pub data Input : Type 0 where
  next_up_switched : Bool → Input
  next_up_picked : String → Bool → Input
  libraries_asked home_asked playlists_asked search_cleared signed_off : Input
  libraries_replied : ℕ → Reply → List Library → Input
  library_selected : String → Input
  home_replied : ℕ → Reply → List ShelfJson → Input
  playlists_replied : String → ℕ → Reply → List Playlist → Input
  browsed : String → Bool → String → Input
  searched series_browsed author_browsed item_asked : String → Input
  search_replied : String → ℕ → ℕ → Reply → List (ItemJson × Row) → List (ItemJson × Row) → Input
  item_replied : ℤ → String → ℕ → Url → Reply → Detail → Input
  finish_asked : String → Bool → Input
  finish_replied : String → Bool → ℕ → Reply → Input
  played : ℤ → String → ℤ → ℤ → Bool → Input
  user_loaded : List ProgressJson → Input

unfoldable pub step : Linked → Input → Backend → Backend
step x (next_up_switched enabled) b = set_playlist_next_up_enabled x enabled b
step x (next_up_picked id enabled) b = set_next_up_playlist x id enabled b
step x libraries_asked b = load_libraries x b
step x home_asked b = refresh_home b
step x playlists_asked b = refresh_playlists b
step x search_cleared b = clear_search b
step x signed_off b = reset x b
step x (libraries_replied gen res ls) b = on_libraries_reply x gen res ls b
step x (library_selected id) b = select_library x id b
step x (home_replied gen res shelves) b = on_home_reply gen res shelves b
step x (playlists_replied library gen res ls) b = on_playlists_reply x library gen res ls b
step x (browsed sort desc filter) b = browse sort desc filter b
step x (searched query) b = search x query b
step x (series_browsed id) b = browse_series x id b
step x (author_browsed id) b = browse_author x id b
step x (item_asked item) b = load_item item b
step x (search_replied query gen server_gen res books podcasts) b =
    on_search_reply query gen server_gen res books podcasts b
step x (item_replied now item gen base res d) b = on_item_reply x now item gen base res d b
step x (finish_asked item finished) b = mark_finished item finished b
step x (finish_replied item finished gen res) b = on_finished_reply x item finished gen res b
step x (played now item time duration finished) b =
    on_progress_changed x (update now item time duration finished b.progress) b
step x (user_loaded ps) b = on_progress_changed x (load_from_user ps b.progress) b

unfoldable pub run : Linked → List Input → Backend → Backend
run x [] b = b
run x (i ∷ is) b = run x is (step x i b)
