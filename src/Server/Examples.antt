-- ===== src/Server/Examples.antt =====
-- Runs of the theorems on the saved servers and the cache of items.
use shelf_remote.Storage.Database.Keys.{is_hex}
use shelf_remote.Server.Listed.{IsDescending, run-shown}
use shelf_remote.Storage.Database.Servers.{servers}
use shelf_remote.Storage.Database.Newest.{prune_item_cache-keeps_newest}
use shelf_remote.Server.Refinement.{run-refines}
use shelf_remote.Net.Endpoints.{Url}
use shelf_remote.Storage.Database.{put_setting, Db, get_setting, remove_secret, remove_setting}
use shelf_remote.Server.Memory.{
  run, replay, view, Op, apply, save, update_of, nothing_kept, all_hex, write_tokens, keep_item,
  choose_library, forget,
}
use shelf_remote.Storage.Database.Items.{
  prune_item_cache, drop_rows, newest_first, place_newest, remove_cached_items_for_server,
}
use shelf_remote.Prelude.{
  refl, none, some, [], ◌∷◌, true, ◌≡◌, ◌≤◌, String, List, is_unique, lookup, codes, if◌then◌else◌,
  is_empty, contains, erase, insert,
}
use mathlib.Core.Option.{map as map_option}
use shelf_remote.Storage.Database.Servers
use shelf_remote.Server.Manager.{UrlTexts, start, profiles_of, remove_server, reload, base_url_for}

abbrev at_host : String → Url
at_host name = record {
  scheme = "https";
  host = name;
  port = none;
  path = [];
  query = [];
  fragment = [];
}

-- Hosts `ab` and `cd` stand for the servers with these hashes; the text of a URL is its host.
abbrev pub texts : UrlTexts
texts = record {
  id_for_url = λ url. url.host;
  text_of = λ url. codes url.host;
  parse = λ text. at_host (if is_empty text then "" else "ab");
}

abbrev pub no_rows : Db
no_rows = record { settings = []; secrets = []; server_rows = []; item_rows = [] }

abbrev history : List Op
history =
    save 5 (at_host "ab") "" "u1"
    ∷ write_tokens "ab" (1 ∷ 2 ∷ [])
    ∷ keep_item 6 "ab" "book" (codes "{}")
    ∷ keep_item 6 "cd" "book" (codes "{}")
    ∷ save 7 (at_host "cd") "Home" "u2"
    ∷ choose_library "ab" "lib"
    ∷ forget "ab"
    ∷ []

run-refines_example :
    view (run texts history (start texts no_rows)).db "ab"
    ≡ replay texts history (view (start texts no_rows).db) "ab"
run-refines_example =
    run-refines texts history (start texts no_rows) "ab" (unfold all_hex is_hex in refl)
      (unfold is_hex in refl)

-- Nothing of the forgotten server is left, and the other keeps its item.
forgotten :
    (replay texts history (view no_rows) "ab" ≡ nothing_kept)
    × ((replay texts history (view no_rows) "cd").item "book" ≡ some (codes "{}"))
unfolding replay apply update_of view
forgotten = (refl, refl)

-- The playlists that were chosen for its Next Up shelf stay, under the key of App/Backend.
playlists_stay :
    let d = put_setting "ab/nextUpPlaylists" "p1" no_rows in
    get_setting "ab/nextUpPlaylists" "" (remove_server texts "ab" (start texts d)).db ≡ "p1"
unfolding put_setting get_setting remove_server reload start Servers.remove_server remove_secret
    remove_setting remove_cached_items_for_server erase insert lookup
playlists_stay = refl

run-shown_example :
    let m = run texts history (start texts no_rows) in
    (m.shown ≡ profiles_of texts (servers m.db))
    × IsDescending (servers m.db)
    × (base_url_for "cd" m
        ≡ map_option (λ row. texts.parse row.base_url) (lookup "cd" m.db.server_rows))
run-shown_example = run-shown texts history no_rows "cd" (unfold is_unique in refl)

-- Three rows, two of them of the same second.
abbrev three_items : Db
three_items = record no_rows {
  item_rows =
      ("ab/1", record { json = codes "1"; updated = 4 })
      ∷ ("ab/2", record { json = codes "2"; updated = 9 })
      ∷ ("ab/3", record { json = codes "3"; updated = 4 })
      ∷ [];
}

three_items_unique : is_unique three_items.item_rows ≡ true
unfolding is_unique lookup
three_items_unique = refl

prune_item_cache-keeps_newest_example :
    (lookup "ab/3" three_items.item_rows ≡ some (record { json = codes "3"; updated = 4 }))
    × (4 ≤ 4)
unfolding prune_item_cache drop_rows newest_first place_newest contains lookup
prune_item_cache-keeps_newest_example =
    prune_item_cache-keeps_newest 2 three_items "ab/3" "ab/1"
      (record { json = codes "3"; updated = 4 }) (record { json = codes "1"; updated = 4 })
      three_items_unique refl refl refl
