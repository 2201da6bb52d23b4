-- ===== src/App/Program/SignOut.antt =====
-- src/main.cpp: what is left when the user is signed out.
use shelf_remote.Model.Shelves.{Card, Shelves}
use shelf_remote.Model.Paging.{set_items, Items}
use shelf_remote.Prelude.{
  false, [], refl, arith, ◌≡◌, if_elim, List, ◌==◌, ◌∙◌, Bool, empty_eq, ap, true, ◌∷◌, ◌||◌, not,
  ◌&&◌,
}
use shelf_remote.App.Backend.{Backend, Linked, next_up_cards, cards_of, IsExact}
use shelf_remote.App.Backend.Kept.{set_playlist_next_up-shown}
use shelf_remote.Player.State.{Player}
use shelf_remote.App.Program.{
  Parts, Program, state_changed, session_ending, authenticated_as, stop_playback, hear, Heard,
  hear_all, on_session_ending, on_state_changed, on_authenticated,
}
use shelf_remote.Model.Bookmarks
use shelf_remote.Model.Shelves.{set_playlist_next_up, set_shelves}
use shelf_remote.Model.Progress
use shelf_remote.Model.Progress.{Progress}
use shelf_remote.Player.Sync.{flush_and_close, close_session, stop_and_close}
use shelf_remote.App.Backend.Replies.{reset, forget}
use shelf_remote.App.Backend.{set_playlists, on_progress_changed, update_playlist_next_up}

-- Nothing of a server is on display in the library.
pub record IsEmptied (b : Backend) : Type 0 where
  pub libraries : b.libraries ≡ []
  pub current_library_id : b.current_library_id ≡ ""
  pub playlists : b.playlists ≡ []
  pub next_up_playlist_ids : b.next_up_playlist_ids ≡ []
  pub shelves : b.home.shelves ≡ []
  pub next_up : b.home.next_up ≡ []
  pub library_items : b.library_items.rows ≡ []
  pub search_results : b.search_results.rows ≡ []

shelves-set_playlist_next_up :
    (same : List Card → List Card → Bool) (items : List Card) (s : Shelves)
    → (set_playlist_next_up same items s).shelves ≡ s.shelves
unfolding set_playlist_next_up
shelves-set_playlist_next_up same items s = ground arith

no_cards : (b : Backend) → b.playlists ≡ [] → next_up_cards b ≡ []
unfolding next_up_cards cards_of
no_cards b h = ground (arith, h)

update-IsEmptied :
    (x : Linked) (e : IsExact x) (b : Backend)
    → IsEmptied b
    → IsEmptied (update_playlist_next_up x b)
unfolding update_playlist_next_up
update-IsEmptied x exact b e = record {
  libraries = e.libraries;
  current_library_id = e.current_library_id;
  playlists = e.playlists;
  next_up_playlist_ids = e.next_up_playlist_ids;
  shelves = shelves-set_playlist_next_up x.same_cards (next_up_cards b) b.home ∙ e.shelves;
  next_up = set_playlist_next_up-shown x (next_up_cards b) b.home exact ∙ no_cards b e.playlists;
  library_items = e.library_items;
  search_results = e.search_results;
}

on_progress_changed-IsEmptied :
    (x : Linked) (e : IsExact x) (p : Progress) (b : Backend)
    → IsEmptied b
    → IsEmptied (on_progress_changed x p b)
unfolding on_progress_changed
on_progress_changed-IsEmptied x exact p b e =
    let q : Backend = record b { progress = p } in
    let k : IsEmptied q = record {
      libraries = e.libraries;
      current_library_id = e.current_library_id;
      playlists = e.playlists;
      next_up_playlist_ids = e.next_up_playlist_ids;
      shelves = e.shelves;
      next_up = e.next_up;
      library_items = e.library_items;
      search_results = e.search_results;
    } in
    if_elim IsEmptied (p.notices == b.progress.notices) (λ _. k) λ _. update-IsEmptied x exact q k

rows-set_items : (m : Items) → (set_items [] m).rows ≡ []
unfolding set_items
rows-set_items m = ground arith

reset-IsEmptied : (x : Linked) (e : IsExact x) (b : Backend) → IsEmptied (reset x b)
unfolding reset forget set_playlists update_playlist_next_up set_shelves
reset-IsEmptied x exact b = record {
  libraries = ground arith;
  current_library_id = ground arith;
  playlists = refl;
  next_up_playlist_ids = ground (arith, empty_eq b.next_up_playlist_ids);
  shelves = shelves-set_playlist_next_up x.same_cards _ _;
  next_up = set_playlist_next_up-shown x _ _ exact ∙ no_cards _ refl;
  library_items = rows-set_items _;
  search_results = rows-set_items _;
}

progress-on_progress_changed :
    (x : Linked) (p : Progress) (b : Backend) → (on_progress_changed x p b).progress ≡ p
unfolding on_progress_changed update_playlist_next_up
progress-on_progress_changed x p b = ground arith

cleared : (p : Progress) → (Progress.clear p).by_item ≡ []
unfolding Progress.clear
cleared p = ground (arith, empty_eq p.by_item)

forgotten : (s : Bookmarks.Store) → (Bookmarks.clear s).by_item ≡ []
unfolding Bookmarks.clear
forgotten s = ground (arith, empty_eq s.by_item)

pub stop_and_close-inactive : (p : Player) → (stop_and_close p).active ≡ false
unfolding stop_and_close flush_and_close close_session
stop_and_close-inactive p = ground arith

stop_playback-inactive : (x : Parts) (g : Program) → (stop_playback x g).player.active ≡ false
unfolding stop_playback
stop_playback-inactive x g = stop_and_close-inactive g.player

-- When the sign-in ends, whatever was on display or playing, no session is open, and nothing of the server
-- is left: no library, no playlist, no shelf, no card of the next-up shelf, no item and no result of a search, no
-- progress and no bookmark. The comparison of two lists of cards is exact.
pub on_session_ending-IsEmptied :
    (x : Parts) (g : Program)
    → IsExact x.linked
    → let q = on_session_ending x g in
      (q.player.active ≡ false)
      × IsEmptied q.library
      × (q.library.progress.by_item ≡ [])
      × (q.bookmarks.by_item ≡ [])
unfolding on_session_ending
on_session_ending-IsEmptied x g exact =
    let q = stop_playback x g in
    let b = reset x.linked q.library in
    (
      stop_playback-inactive x g,
      on_progress_changed-IsEmptied x.linked exact (Progress.clear b.progress) b
          (reset-IsEmptied x.linked exact q.library),
      ap (λ (p : Progress). p.by_item)
            (progress-on_progress_changed x.linked (Progress.clear b.progress) b)
          ∙ cleared b.progress,
      forgotten q.bookmarks,
    )

abbrev is_change : Heard → Bool
is_change state_changed = true
is_change session_ending = false
is_change (authenticated_as user) = false

abbrev pub any_change : List Heard → Bool
any_change [] = false
any_change (n ∷ ns) = is_change n || any_change ns

hear-inactive :
    (x : Parts) (n : Heard) (g : Program)
    → g.player.active ≡ false
    → (hear x false n g).player.active ≡ false
unfolding hear on_state_changed on_session_ending on_authenticated
hear-inactive x state_changed g h =
    if_elim (λ (q : Program). q.player.active ≡ false) (not false && g.player.active)
      (λ _. stop_playback-inactive x g) λ _. h
hear-inactive x session_ending g h = stop_playback-inactive x g
hear-inactive x (authenticated_as user) g h = h

change-inactive : (x : Parts) (g : Program) → (hear x false state_changed g).player.active ≡ false
unfolding hear on_state_changed
change-inactive x g =
    if_elim (λ (q : Program). q.player.active ≡ false) (not false && g.player.active)
      (λ _. stop_playback-inactive x g) λ e. e

-- Whatever else is heard from the sign-in, before or after, a change of its state that leaves the user not
-- signed in leaves no session open.
pub hear_all-inactive :
    (x : Parts) (ns : List Heard) (g : Program)
    → any_change ns ≡ true
    → (hear_all x false ns g).player.active ≡ false
unfolding hear_all
hear_all-inactive x [] g h = absurd cc
hear_all-inactive x (state_changed ∷ ns) g h = change-inactive x (hear_all x false ns g)
hear_all-inactive x (session_ending ∷ ns) g h =
    hear-inactive x session_ending (hear_all x false ns g) (hear_all-inactive x ns g h)
hear_all-inactive x (authenticated_as user ∷ ns) g h =
    hear-inactive x (authenticated_as user) (hear_all x false ns g) (hear_all-inactive x ns g h)
