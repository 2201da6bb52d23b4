-- ===== src/App/Backend.antt =====
-- src/app/Backend.h and .cpp: the libraries of a server, the home shelves, the search and the details of
-- an item. Requests are entries of a log, with what their callback captures; replies are inputs. The two
-- settings of a server are dictionaries keyed by the server, and so is the cache of items.
pub mod Replies
mod Steps
pub mod Kept
mod Calls
mod Answers
pub mod Picking
pub mod NextUp
pub mod Generations
pub mod Examples
use shelf_remote.Net.Endpoints.{Url}
use shelf_remote.Prelude.{
  ℕ, String, true, none, some, pos, [], ◌∷◌, Option, if◌then◌else◌, Bool, List, Chars, ◌&&◌, ◌≡◌,
  ◌==◌, ℤ, contains, not, ltb_ℤ, is_empty, str_eq, is_blank, ◌||◌, ◌++◌, remove_key, insert,
}
use shelf_remote.Model.Shelves.{
  Shelves, Card, set_playlist_next_up, named, EntryJson, flatten_items,
}
use shelf_remote.Model.Paging.{Items, Row}
use shelf_remote.Model.Progress.{Progress, Fraction, fraction, is_finished, current_time}

-- What the program is linked with: the key of a server and of an item in its cache, the join and the
-- split of a list of texts, the trimming of a text, the name of a filter, and the comparison of cards.
pub record Linked : Type 0 where
  pub id_for_url : Url → String
  pub item_cache_key : Url → String → String
  pub join : List String → String
  pub split : String → List String
  pub trimmed : String → String
  pub series_filter : String → String
  pub author_filter : String → String
  pub same_cards : List Card → List Card → Bool

-- That `==` of two lists of cards holds for equal ones alone.
pub record IsExact (x : Linked) : Type 0 where
  pub exact : (a b : List Card) → x.same_cards a b ≡ true → a ≡ b

pub record Library : Type 0 where
  pub id : String
  pub name : String
  pub media_type : String

pub record Playlist : Type 0 where
  pub id : String
  pub name : String
  pub items : List EntryJson

-- The details of an item, as they came, with the progress that they report.
pub record Detail : Type 0 where
  pub json : Chars
  pub progress : Option (Fraction × ℤ × Bool)

pub data Signal : Type 0 where
  libraries_changed current_library_changed next_up_playlist_ids_changed navigate_to_library :
      Signal
  libraries_failed : ℕ → Signal
  playlists_failed : ℕ → Signal
  search_failed showing_saved item_failed progress_failed : Signal
  search_finished : String → Bool → Signal
  item_loaded : Detail → Signal
  item_load_failed : String → Signal
  asked_libraries : ℕ → Signal
  asked_home : String → ℕ → Signal
  asked_playlists : String → ℕ → Signal
  asked_search : String → String → ℕ → ℕ → Signal
  asked_item : String → ℕ → Url → Signal
  asked_finished : String → Bool → ℕ → Signal

pub record Backend : Type 0 where
  pub base : Url
  pub server_generation : ℕ
  pub search_generation : ℕ
  pub current_library_id : String
  pub libraries : List Library
  pub next_up_playlist_ids : List String
  pub next_up_enabled : Bool
  pub home : Shelves
  pub playlists : List Playlist
  pub library_items : Items
  pub search_results : Items
  pub progress : Progress
  pub last_library : List (String × String)
  pub saved_next_up : List (String × String)
  pub cached : List (String × Detail)
  pub out : List Signal

abbrev pub tell : Signal → Backend → Backend
tell n b = record b { out = n ∷ b.out }

-- Whether a book was begun: by its fraction, or by its time.
unfoldable pub is_begun : String → Progress → Bool
is_begun item p = ltb_ℤ (pos 0) (fraction item p).num || ltb_ℤ (pos 0) (current_time item p)

-- The loop over the entries of a playlist, with the first unread book so far.
unfoldable pub pick : Progress → List Card → Option Card → Option Card
pick p [] unread = unread
pick p (e ∷ es) unread =
    let skipped = pick p es unread in
    let passed = pick p es (elim unread [ none ↦ some e | some u ↦ some u ]) in
    if not (str_eq e.kind "book")
    then skipped
    else if is_finished e.item_id p
    then skipped
    else if is_begun e.item_id p
    then some e
    else passed

abbrev with_name : String → Card → Card
with_name name card = record card { author = named name }

abbrev pub add_card : String → Option Card → List Card → List Card
add_card name none cards = cards
add_card name (some card) cards = with_name name card ∷ cards

unfoldable pub cards_of : Progress → List String → List Playlist → List Card
cards_of p ids [] = []
cards_of p ids (l ∷ ls) =
    let rest = cards_of p ids ls in
    if contains ids l.id then add_card l.name (pick p (flatten_items l.items) none) rest else rest

unfoldable pub next_up_cards : Backend → List Card
next_up_cards b =
    if b.next_up_enabled && not (is_empty b.next_up_playlist_ids)
    then cards_of b.progress b.next_up_playlist_ids b.playlists
    else []

unfoldable pub update_playlist_next_up : Linked → Backend → Backend
update_playlist_next_up x b = record b {
  home = set_playlist_next_up x.same_cards (next_up_cards b) b.home;
}

-- The reset of the model of the playlists, or a change of the progress, is heard.
unfoldable pub set_playlists : Linked → List Playlist → Backend → Backend
set_playlists x ls b = update_playlist_next_up x (record b { playlists = ls })

unfoldable pub on_progress_changed : Linked → Progress → Backend → Backend
on_progress_changed x p b =
    let q = record b { progress = p } in
    if p.notices == b.progress.notices then q else update_playlist_next_up x q

unfoldable pub set_playlist_next_up_enabled : Linked → Bool → Backend → Backend
set_playlist_next_up_enabled x enabled b =
    if (if enabled then b.next_up_enabled else not b.next_up_enabled)
    then b
    else update_playlist_next_up x (record b { next_up_enabled = enabled })

unfoldable pub set_next_up_playlist : Linked → String → Bool → Backend → Backend
set_next_up_playlist x id enabled b =
    let there = contains b.next_up_playlist_ids id in
    if is_blank id || (if enabled then there else not there)
    then b
    else let ids =
        if enabled
        then b.next_up_playlist_ids ++ id ∷ []
        else remove_key id b.next_up_playlist_ids in
      update_playlist_next_up x (
        tell next_up_playlist_ids_changed (record b {
          next_up_playlist_ids = ids;
          saved_next_up = insert (x.id_for_url b.base) (x.join ids) b.saved_next_up;
        }))
