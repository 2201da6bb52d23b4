-- ===== src/App/Backend/Calls.antt =====
-- src/app/Backend.cpp: the calls keep the generation and the next-up shelf.
use shelf_remote.App.Backend.Kept.{Kept, same-Kept, update-Kept, self-Kept, Kept-trans, told-Kept}
use shelf_remote.Prelude.{
  refl, false, [], String, Bool, List, if◌then◌else◌, ◌≡◌, if_elim, contains, is_blank, str_eq, not,
  ◌||◌, insert,
}
use shelf_remote.App.Backend.{
  Backend, Linked, IsExact, set_playlist_next_up_enabled, Items, set_playlists,
  set_next_up_playlist, Playlist, tell, current_library_changed, update_playlist_next_up,
  next_up_playlist_ids_changed, asked_libraries,
}
use shelf_remote.App.Backend.Replies.{
  setting, same_ids, load_libraries, browse, refresh_playlists, select_library, refresh_home,
}

-- `Kept b` for the calls, in the order of the source.
module _ (x : Linked) (e : IsExact x) where
  pub set_playlists-Kept :
      (ls : List Playlist) (b q : Backend)
      → q.server_generation ≡ b.server_generation
      → Kept b (set_playlists x ls q)
  unfolding set_playlists
  set_playlists-Kept ls b q h = update-Kept x b (record q { playlists = ls }) e h

  pub enabled-Kept :
      (enabled : Bool) (b : Backend) → Kept b (set_playlist_next_up_enabled x enabled b)
  unfolding set_playlist_next_up_enabled
  enabled-Kept enabled b =
      if_elim (Kept b) (if enabled then b.next_up_enabled else not b.next_up_enabled)
        (λ _. self-Kept b) λ _. update-Kept x b (record b { next_up_enabled = enabled }) e refl

  pub picked-Kept :
      (id : String) (enabled : Bool) (b : Backend) → Kept b (set_next_up_playlist x id enabled b)
  unfolding set_next_up_playlist
  picked-Kept id enabled b =
      let there = contains b.next_up_playlist_ids id in
      if_elim (Kept b) (is_blank id || (if enabled then there else not there)) (λ _. self-Kept b)
        λ _. update-Kept x b _ e refl

  pub load_libraries-Kept : (b : Backend) → Kept b (load_libraries x b)
  unfolding load_libraries
  load_libraries-Kept b =
      let next_up = x.split (setting (x.id_for_url b.base) b.saved_next_up) in
      let q =
        if same_ids next_up b.next_up_playlist_ids
        then b
        else update_playlist_next_up x
            (tell next_up_playlist_ids_changed (record b { next_up_playlist_ids = next_up })) in
      let first =
        if_elim (Kept b) (same_ids next_up b.next_up_playlist_ids) (λ _. self-Kept b)
          λ _. update-Kept x b _ e refl in
      Kept-trans b q (tell (asked_libraries q.server_generation) q) first (told-Kept _ q)

  pub refresh_home-Kept : (b : Backend) → Kept b (refresh_home b)
  unfolding refresh_home
  refresh_home-Kept b =
      if_elim (Kept b) (is_blank b.current_library_id) (λ _. self-Kept b) λ _. told-Kept _ b

  pub refresh_playlists-Kept : (b : Backend) → Kept b (refresh_playlists b)
  unfolding refresh_playlists
  refresh_playlists-Kept b =
      if_elim (Kept b) (is_blank b.current_library_id) (λ _. self-Kept b) λ _. told-Kept _ b

  pub items-Kept : (m : Items) (b : Backend) → Kept b (record b { library_items = m })
  items-Kept m b = same-Kept b _ (record {
    generation = refl;
    enabled = refl;
    ids = refl;
    lists = refl;
    progress = refl;
    cards = refl;
  })

  pub browse-Kept :
      (sort : String) (desc : Bool) (filter : String) (b : Backend)
      → Kept b (browse sort desc filter b)
  unfolding browse
  browse-Kept sort desc filter b =
      if_elim (Kept b) (is_blank b.current_library_id) (λ _. self-Kept b) λ _. items-Kept _ b

  pub selected-Kept :
      (id : String) (q : Backend)
      → Kept q (
          tell current_library_changed (record q {
            current_library_id = id;
            last_library = insert (x.id_for_url q.base) id q.last_library;
          }))
  selected-Kept id q = same-Kept q _ (record {
    generation = refl;
    enabled = refl;
    ids = refl;
    lists = refl;
    progress = refl;
    cards = refl;
  })

  -- Selecting empties the playlists first, unless the library is the same.
  pub emptied-Kept :
      (id : String) (b : Backend)
      → Kept b (if str_eq id b.current_library_id then b else set_playlists x [] b)
  emptied-Kept id b =
      if_elim (Kept b) (str_eq id b.current_library_id) (λ _. self-Kept b)
        λ _. set_playlists-Kept [] b b refl

  pub select_library-Kept : (id : String) (b : Backend) → Kept b (select_library x id b)
  unfolding select_library
  select_library-Kept id b =
      let q = if str_eq id b.current_library_id then b else set_playlists x [] b in
      let r = tell current_library_changed (record q {
        current_library_id = id;
        last_library = insert (x.id_for_url q.base) id q.last_library;
      }) in
      let s = refresh_home r in
      let u = refresh_playlists s in
      if_elim (Kept b) (is_blank id) (λ _. self-Kept b)
        λ _. Kept-trans b q _ (emptied-Kept id b) (
          Kept-trans q r _ (selected-Kept id q) (
            Kept-trans r s _ (refresh_home-Kept r) (
              Kept-trans s u _ (refresh_playlists-Kept s)
                (browse-Kept "media.metadata.title" false "" u))))
