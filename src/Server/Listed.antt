-- ===== src/Server/Listed.antt =====
-- The list of src/server/ServerManager.cpp as it is shown.
use shelf_remote.Storage.Database.Items.{remove_cached_items_for_server, cache_item}
use shelf_remote.Storage.Database.{
  ServerRow, Db, remove_secret, remove_setting, put_secret, put_setting,
}
use shelf_remote.Storage.Database.Servers.{by_last_used, place_row, servers, upsert_server}
use shelf_remote.Server.Memory.{
  step, run, Op, save, forget, write_tokens, choose_library, keep_item,
}
use shelf_remote.Server.Manager.{
  UrlTexts, start, url_in, profiles_of, reload, save_server, Manager, remove_server, base_url_for,
  row_of,
}
use shelf_remote.Prelude.{
  refl, ap, arith, ap, ◌∷◌, List, ℕ, String, lookup, ◌≤◌, true, ◌≡◌, none, arith, if_elim, ltb,
  if◌then◌else◌, eq_iff, str_eq, some, is_unique, is_unique-insert, is_unique-erase,
}
use shelf_remote.Prelude.{refl, ap, arith, [], ◌∷◌, none, some, true}
use mathlib.Core.Option.{map as map_option}
use shelf_remote.Storage.Database.Servers

abbrev pub ServerTable : Type 0
ServerTable = List (String × ServerRow)

lookup-place_row :
    (id key : String) (row : ServerRow) (rows : ServerTable)
    → lookup key rows ≡ none
    → lookup id (place_row (key, row) rows) ≡ (if str_eq key id then some row else lookup id rows)
unfolding lookup place_row
lookup-place_row id key row [] h = refl
lookup-place_row id key row ((k, r) ∷ rest) h =
    ground (arith, h, lookup-place_row id key row rest, eq_iff k id, eq_iff key id, eq_iff k key)

lookup-by_last_used :
    (id : String) (rows : ServerTable)
    → is_unique rows ≡ true
    → lookup id (by_last_used rows) ≡ lookup id rows
unfolding lookup by_last_used is_unique
lookup-by_last_used id [] h = refl
lookup-by_last_used id ((key, row) ∷ rest) h = ground (
  arith,
  h,
  lookup-place_row id key row (by_last_used rest),
  lookup-by_last_used key rest,
  lookup-by_last_used id rest,
)

abbrev pub IsDescending : ServerTable → Type 0
IsDescending [] = Unit {0}
IsDescending (r ∷ []) = Unit {0}
IsDescending (r ∷ s ∷ rest) = (s.1.last_used ≤ r.1.last_used) × IsDescending (s ∷ rest)

abbrev Above : ℕ → ServerTable → Type 0
Above n [] = Unit {0}
Above n (r ∷ rest) = r.1.last_used ≤ n

IsDescending-cons :
    (r : String × ServerRow) (rest : ServerTable)
    → Above r.1.last_used rest
    → IsDescending rest
    → IsDescending (r ∷ rest)
IsDescending-cons r [] h s = tt
IsDescending-cons r (t ∷ rest) h s = (h, s)

below_first :
    (r : String × ServerRow) (rest : ServerTable)
    → IsDescending (r ∷ rest)
    → IsDescending rest × Above r.1.last_used rest
below_first r [] s = (tt, tt)
below_first r (t ∷ rest) (h, s) = (s, h)

place_row-Above :
    (n : ℕ) (r : String × ServerRow) (rows : ServerTable)
    → r.1.last_used ≤ n
    → Above n rows
    → Above n (place_row r rows)
unfolding place_row
place_row-Above n r [] h k = h
place_row-Above n r (s ∷ rest) h k =
    if_elim (Above n) (ltb r.1.last_used s.1.last_used) (λ _. k) (λ _. h)

place_row-IsDescending :
    (r : String × ServerRow) (rows : ServerTable)
    → IsDescending rows
    → IsDescending (place_row r rows)
unfolding place_row
place_row-IsDescending r [] s = tt
place_row-IsDescending r (t ∷ rest) s =
    let (d, a) = below_first t rest s in
    if_elim IsDescending (ltb r.1.last_used t.1.last_used)
      (λ e.
        IsDescending-cons t (place_row r rest)
          (place_row-Above t.1.last_used r rest (ground (arith, e)) a)
          (place_row-IsDescending r rest d))
      λ e. (ground (arith, e), s)

by_last_used-IsDescending : (rows : ServerTable) → IsDescending (by_last_used rows)
unfolding by_last_used
by_last_used-IsDescending [] = tt
by_last_used-IsDescending (r ∷ rest) =
    place_row-IsDescending r (by_last_used rest) (by_last_used-IsDescending rest)

url_in-profiles_of :
    (x : UrlTexts) (id : String) (rows : ServerTable)
    → url_in id (profiles_of x rows) ≡ map_option (λ row. x.parse row.base_url) (lookup id rows)
unfolding url_in profiles_of lookup
url_in-profiles_of x id [] = refl
url_in-profiles_of x id ((key, row) ∷ rest) = ground (arith, url_in-profiles_of x id rest)

-- What is shown is the table, read again after every change of it.
record IsListed (x : UrlTexts) (m : Manager) : Type 0 where
  shown : m.shown ≡ profiles_of x (servers m.db)
  unique : is_unique m.db.server_rows ≡ true

step-IsListed : (x : UrlTexts) (o : Op) (m : Manager) → IsListed x m → IsListed x (step x o m)
unfolding step save_server remove_server reload upsert_server Servers.remove_server remove_secret
    remove_setting remove_cached_items_for_server servers put_secret put_setting cache_item
step-IsListed x (save now url name user) m v = record {
  shown = refl;
  unique =
      is_unique-insert (x.id_for_url url) (row_of x now url name user) m.db.server_rows v.unique;
}
step-IsListed x (forget id) m v = record {
  shown = refl;
  unique = is_unique-erase id m.db.server_rows v.unique;
}
step-IsListed x (write_tokens id blob) m v = record { shown = v.shown; unique = v.unique }
step-IsListed x (choose_library id value) m v = record { shown = v.shown; unique = v.unique }
step-IsListed x (keep_item now id name json) m v = record { shown = v.shown; unique = v.unique }

run-IsListed :
    (x : UrlTexts) (ops : List Op) (m : Manager) → IsListed x m → IsListed x (run x ops m)
unfolding run
run-IsListed x [] m v = v
run-IsListed x (o ∷ ops) m v = run-IsListed x ops (step x o m) (step-IsListed x o m v)

-- After any operations on a database whose servers have keys of their own, the list shows the rows of
-- the table in the order of their last use, the latest first, and the URL that it finds for a server is
-- the one of the row with that key, and none where there is no such row.
pub run-shown :
    (x : UrlTexts) (ops : List Op) (d : Db) (id : String)
    → is_unique d.server_rows ≡ true
    → let m = run x ops (start x d) in
      (m.shown ≡ profiles_of x (servers m.db))
      × IsDescending (servers m.db)
      × (base_url_for id m ≡ map_option (λ row. x.parse row.base_url) (lookup id m.db.server_rows))
unfolding start reload servers base_url_for
run-shown x ops d id h =
    let m = run x ops (start x d) in
    let v = run-IsListed x ops (start x d) (record { shown = refl; unique = h }) in
    (
      v.shown,
      by_last_used-IsDescending m.db.server_rows,
      rw (v.shown, url_in-profiles_of x id (servers m.db))
          (ap (map_option (λ row. x.parse row.base_url))
            (lookup-by_last_used id m.db.server_rows v.unique)),
    )
