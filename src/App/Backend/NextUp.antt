-- ===== src/App/Backend/NextUp.antt =====
-- src/app/Backend.cpp: the next-up shelf is up to date after anything that can happen.
use shelf_remote.App.Backend.Kept.{
  IsFresh, Kept, update-IsFresh, shown_alike, told-Kept, on_progress_changed-Kept, update-IsQuiet,
}
use shelf_remote.Prelude.{refl, true, false, arith, [], List, Bool, ◌≡◌, ◌∷◌, ◌+◌}
use shelf_remote.App.Backend.{
  Backend, Linked, IsExact, asked_item, asked_finished, set_playlists, update_playlist_next_up,
}
use shelf_remote.App.Backend.Replies.{reset, load_item, mark_finished, forget}
use shelf_remote.App.Backend.Steps.{
  next_up_switched, next_up_picked, libraries_replied, library_selected, home_replied,
  playlists_replied, browsed, searched, series_browsed, author_browsed, item_asked, search_replied,
  item_replied, finish_asked, finish_replied, played, user_loaded, Input, run, step, signed_off,
  next_up_switched, next_up_picked, libraries_replied, library_selected, home_replied,
  playlists_replied, browsed, searched, series_browsed, author_browsed, libraries_asked, home_asked,
  playlists_asked, search_cleared,
}
use shelf_remote.App.Backend.Answers.{
  on_libraries_reply-Kept, on_home_reply-Kept, on_playlists_reply-Kept, clear_search-Kept,
  search-Kept, on_search_reply-Kept, browse_series-Kept, browse_author-Kept, on_item_reply-Kept,
  on_finished_reply-Kept, load_from_user-IsQuiet,
}
use shelf_remote.App.Backend.Calls.{
  select_library-Kept, enabled-Kept, picked-Kept, load_libraries-Kept, refresh_home-Kept,
  refresh_playlists-Kept, browse-Kept,
}

module _ (x : Linked) (e : IsExact x) where
  forget-generation : (b : Backend) → (forget b).server_generation ≡ b.server_generation + 1
  unfolding forget
  forget-generation b = ground arith

  -- The reset starts a new generation.
  pub reset-generation : (b : Backend) → (reset x b).server_generation ≡ b.server_generation + 1
  unfolding reset set_playlists update_playlist_next_up
  reset-generation b = forget-generation b

  reset-IsFresh : (b : Backend) → IsFresh (reset x b)
  unfolding reset
  reset-IsFresh b =
      let s = set_playlists x [] (forget b) in
      let h : IsFresh s =
        unfold set_playlists in update-IsFresh x (record (forget b) { playlists = [] }) e in
      (shown_alike s _ refl refl refl refl refl refl).fresh h

  -- Whether an input is the reset.
  abbrev pub is_reset : Input → Bool
  is_reset signed_off = true
  is_reset i = false

  pub step-Kept : (i : Input) (b : Backend) → is_reset i ≡ false → Kept b (step x i b)
  unfolding step
  step-Kept (next_up_switched enabled) b h = enabled-Kept x e enabled b
  step-Kept (next_up_picked id enabled) b h = picked-Kept x e id enabled b
  step-Kept libraries_asked b h = load_libraries-Kept x e b
  step-Kept home_asked b h = refresh_home-Kept x e b
  step-Kept playlists_asked b h = refresh_playlists-Kept x e b
  step-Kept search_cleared b h = clear_search-Kept x e b
  step-Kept signed_off b h = absurd (ground arith)
  step-Kept (libraries_replied gen res ls) b h = on_libraries_reply-Kept x e gen res ls b
  step-Kept (library_selected id) b h = select_library-Kept x e id b
  step-Kept (home_replied gen res shelves) b h = on_home_reply-Kept x e gen res shelves b
  step-Kept (playlists_replied library gen res ls) b h =
      on_playlists_reply-Kept x e library gen res ls b
  step-Kept (browsed sort desc filter) b h = browse-Kept x e sort desc filter b
  step-Kept (searched query) b h = search-Kept x e query b
  step-Kept (series_browsed id) b h = browse_series-Kept x e id b
  step-Kept (author_browsed id) b h = browse_author-Kept x e id b
  step-Kept (item_asked item) b h =
      unfold load_item in told-Kept (asked_item item b.server_generation b.base) b
  step-Kept (search_replied query gen server_gen res books podcasts) b h =
      on_search_reply-Kept x e query gen server_gen res books podcasts b
  step-Kept (item_replied now item gen base res d) b h =
      on_item_reply-Kept x e now item gen base res d b
  step-Kept (finish_asked item finished) b h =
      unfold mark_finished in told-Kept (asked_finished item finished b.server_generation) b
  step-Kept (finish_replied item finished gen res) b h =
      on_finished_reply-Kept x e item finished gen res b
  step-Kept (played now item time duration finished) b h =
      on_progress_changed-Kept x _ b e (update-IsQuiet now item time duration finished b.progress)
  step-Kept (user_loaded ps) b h =
      on_progress_changed-Kept x _ b e (load_from_user-IsQuiet x e ps b.progress)

  step-IsFresh : (i : Input) (b : Backend) → IsFresh b → IsFresh (step x i b)
  unfolding step
  step-IsFresh signed_off b h = reset-IsFresh b
  step-IsFresh i b h = (step-Kept i b refl).fresh h

  -- After any history of calls, replies and changes of the progress, the next-up shelf of Home holds
  -- just the cards that the picked playlists and the progress then give, if it did before: no path that
  -- changes one of them forgets the shelf.
  pub run-IsFresh : (is : List Input) (b : Backend) → IsFresh b → IsFresh (run x is b)
  unfolding run
  run-IsFresh [] b h = h
  run-IsFresh (i ∷ is) b h = run-IsFresh is (step x i b) (step-IsFresh i b h)
