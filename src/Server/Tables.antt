-- ===== src/Server/Tables.antt =====
-- What is read from the tables of src/storage/Database.cpp after a row is removed or written.
use shelf_remote.Storage.Database.Items.{
  cached_item, remove_cached_items_for_server, cache_item, of_server, lookup-drop_rows,
}
use shelf_remote.Storage.Database.{get_setting, get_secret, remove_secret, remove_setting, Db}
use shelf_remote.Prelude.{
  arith, [], none, some, ℕ, String, Chars, ◌≡◌, if◌then◌else◌, str_eq, lookup-insert, lookup-erase,
}

pub get-remove_secret :
    (key other : String) (d : Db)
    → get_secret other (remove_secret key d) ≡ (if str_eq key other then [] else get_secret other d)
unfolding get_secret remove_secret
get-remove_secret key other d = ground (arith, lookup-erase key other d.secrets)

pub get-remove_setting :
    (key other : String) (d : Db)
    → get_setting other "" (remove_setting key d)
      ≡ (if str_eq key other then "" else get_setting other "" d)
unfolding get_setting remove_setting
get-remove_setting key other d = ground (arith, lookup-erase key other d.settings)

pub cached-cache_item :
    (now : ℕ) (key other : String) (json : Chars) (d : Db)
    → cached_item other (cache_item now key json d)
      ≡ (if str_eq key other then some json else cached_item other d)
unfolding cached_item cache_item
cached-cache_item now key other json d =
    ground (arith, lookup-insert key other (record { json = json; updated = now }) d.item_rows)

pub cached-remove :
    (server key : String) (d : Db)
    → cached_item key (remove_cached_items_for_server server d)
      ≡ (if of_server server key then none else cached_item key d)
unfolding cached_item remove_cached_items_for_server
cached-remove server key d = ground (arith, lookup-drop_rows (of_server server) key d.item_rows)
