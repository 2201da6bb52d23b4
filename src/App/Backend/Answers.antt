-- ===== src/App/Backend/Answers.antt =====
-- src/app/Backend.cpp: the replies keep the generation and the next-up shelf.
use shelf_remote.Model.Shelves.{ShelfJson, set_shelves}
use shelf_remote.App.Backend.Kept.{
  Kept, self-Kept, shown_alike, IsQuiet, on_progress_changed-Kept, set-IsQuiet, told-Kept,
  Kept-trans, set_finished-IsQuiet,
}
use shelf_remote.Prelude.{
  refl, false, none, some, arith, List, String, Option, ℕ, ℤ, Bool, insert, if_elim, is_blank, ◌||◌,
  not, ◌==◌, str_eq, lookup, is_empty, ◌&&◌,
}
use shelf_remote.App.Backend.{
  Backend, Linked, IsExact, Playlist, Library, Detail, Fraction, Url, Progress, tell,
  on_progress_changed, libraries_changed, search_finished, progress_failed, libraries_failed,
  playlists_failed, item_loaded,
}
use shelf_remote.App.Backend.Replies.{
  Reply, search, load_item, apply_item_progress, on_libraries_reply, on_search_reply, browse_series,
  on_playlists_reply, on_finished_reply, on_item_reply, browse_author, on_home_reply, clear_search,
  load_item, saved_or_failed,
}
use shelf_remote.Model.Paging.{ItemJson, Row}
use shelf_remote.Model.Progress.{set_finished, load_from_user, ProgressJson}
use shelf_remote.App.Backend.Calls.{select_library-Kept, set_playlists-Kept}

module _ (x : Linked) (e : IsExact x) where
  pub on_libraries_reply-Kept :
      (gen : ℕ) (res : Reply) (ls : List Library) (b : Backend)
      → Kept b (on_libraries_reply x gen res ls b)
  unfolding on_libraries_reply
  on_libraries_reply-Kept gen res ls b =
      let q = tell libraries_changed (record b { libraries = ls }) in
      let first : Kept b q = shown_alike b q refl refl refl refl refl refl in
      if_elim (Kept b) (res.stale || not (gen == b.server_generation)) (λ _. self-Kept b)
        λ _.
          if_elim (Kept b) (not res.ok) (λ _. told-Kept (libraries_failed res.status) b)
            λ _.
              if_elim (Kept b) (not (is_empty ls) && is_blank q.current_library_id)
                (λ _. Kept-trans b q _ first (select_library-Kept x e _ q)) λ _. first

  pub on_home_reply-Kept :
      (gen : ℕ) (res : Reply) (shelves : List ShelfJson) (b : Backend)
      → Kept b (on_home_reply gen res shelves b)
  unfolding on_home_reply
  on_home_reply-Kept gen res shelves b =
      if_elim (Kept b) (res.stale || not (gen == b.server_generation)) (λ _. self-Kept b)
        λ _.
          if_elim (Kept b) res.ok
            (λ _.
              shown_alike b (record b { home = set_shelves shelves b.home }) refl refl refl refl
                refl (unfold set_shelves in refl))
            λ _. self-Kept b

  pub on_playlists_reply-Kept :
      (library : String) (gen : ℕ) (res : Reply) (ls : List Playlist) (b : Backend)
      → Kept b (on_playlists_reply x library gen res ls b)
  unfolding on_playlists_reply
  on_playlists_reply-Kept library gen res ls b =
      if_elim (Kept b)
        (res.stale
          || (not (gen == b.server_generation) || not (str_eq library b.current_library_id)))
        (λ _. self-Kept b)
        λ _.
          if_elim (Kept b) (not res.ok) (λ _. told-Kept (playlists_failed res.status) b)
            λ _. set_playlists-Kept x e ls b b refl

  pub clear_search-Kept : (b : Backend) → Kept b (clear_search b)
  unfolding clear_search
  clear_search-Kept b = shown_alike b _ refl refl refl refl refl refl

  pub search-Kept : (query : String) (b : Backend) → Kept b (search x query b)
  unfolding search
  search-Kept query b =
      if_elim (Kept b) (is_blank b.current_library_id)
        (λ _. told-Kept (search_finished query false) b)
        λ _.
          if_elim (Kept b) (is_blank (x.trimmed query)) (λ _. clear_search-Kept b)
            λ _. shown_alike b _ refl refl refl refl refl refl

  pub on_search_reply-Kept :
      (query : String) (gen server_gen : ℕ) (res : Reply) (books podcasts : List (ItemJson × Row))
      (b : Backend)
      → Kept b (on_search_reply query gen server_gen res books podcasts b)
  unfolding on_search_reply
  on_search_reply-Kept query gen server_gen res books podcasts b =
      if_elim (Kept b)
        (res.stale || (not (gen == b.search_generation) || not (server_gen == b.server_generation)))
        (λ _. self-Kept b)
        λ _.
          if_elim (Kept b) (not res.ok) (λ _. shown_alike b _ refl refl refl refl refl refl)
            λ _. shown_alike b _ refl refl refl refl refl refl

  pub browse_series-Kept : (id : String) (b : Backend) → Kept b (browse_series x id b)
  unfolding browse_series
  browse_series-Kept id b =
      if_elim (Kept b) (is_blank b.current_library_id || is_blank id) (λ _. self-Kept b)
        λ _. shown_alike b _ refl refl refl refl refl refl

  pub browse_author-Kept : (id : String) (b : Backend) → Kept b (browse_author x id b)
  unfolding browse_author
  browse_author-Kept id b =
      if_elim (Kept b) (is_blank b.current_library_id || is_blank id) (λ _. self-Kept b)
        λ _. shown_alike b _ refl refl refl refl refl refl

  pub saved_or_failed-Kept :
      (item : String) (d : Option Detail) (b : Backend) → Kept b (saved_or_failed item d b)
  saved_or_failed-Kept item none b = shown_alike b _ refl refl refl refl refl refl
  saved_or_failed-Kept item (some d) b = shown_alike b _ refl refl refl refl refl refl

  pub apply_item_progress-Kept :
      (now : ℤ) (item : String) (p : Option (Fraction × ℤ × Bool)) (b : Backend)
      → Kept b (apply_item_progress x now item p b)
  unfolding apply_item_progress
  apply_item_progress-Kept now item none b = self-Kept b
  apply_item_progress-Kept now item (some (f, time, finished)) b =
      on_progress_changed-Kept x _ b e (set-IsQuiet now item f time finished b.progress)

  pub on_item_reply-Kept :
      (now : ℤ) (item : String) (gen : ℕ) (base : Url) (res : Reply) (d : Detail) (b : Backend)
      → Kept b (on_item_reply x now item gen base res d b)
  unfolding on_item_reply
  on_item_reply-Kept now item gen base res d b =
      let key = x.item_cache_key base item in
      let q = record b { cached = insert key d b.cached } in
      let r = apply_item_progress x now item d.progress q in
      if_elim (Kept b) (res.stale || not (gen == b.server_generation)) (λ _. self-Kept b)
        λ _.
          if_elim (Kept b) (not res.ok) (λ _. saved_or_failed-Kept item (lookup key b.cached) b)
            λ _. Kept-trans b q _ (shown_alike b q refl refl refl refl refl refl) (
              Kept-trans q r _ (apply_item_progress-Kept now item d.progress q)
                (told-Kept (item_loaded d) r))

  pub on_finished_reply-Kept :
      (item : String) (finished : Bool) (gen : ℕ) (res : Reply) (b : Backend)
      → Kept b (on_finished_reply x item finished gen res b)
  unfolding on_finished_reply load_item
  on_finished_reply-Kept item finished gen res b =
      let q = on_progress_changed x (set_finished item finished b.progress) b in
      if_elim (Kept b) (res.stale || not (gen == b.server_generation)) (λ _. self-Kept b)
        λ _.
          if_elim (Kept b) (not res.ok) (λ _. told-Kept progress_failed b)
            λ _.
              Kept-trans b q _
                (on_progress_changed-Kept x _ b e (set_finished-IsQuiet item finished b.progress))
                (told-Kept _ q)

  pub load_from_user-IsQuiet :
      (ps : List ProgressJson) (p : Progress) → IsQuiet p (load_from_user ps p)
  load_from_user-IsQuiet ps p h = absurd (unfold load_from_user in omega arith)
