-- ===== src/Server/Memory.antt =====
-- What the program remembers of each server, as a function of the key of the server: the abstract
-- view of the four tables of src/storage/Database.cpp under the operations of
-- src/server/ServerManager.cpp and the writes of the other components.
use shelf_remote.Storage.Database.Items.{cached_item, cache_item}
use shelf_remote.Storage.Database.Keys.{is_hex, key_of}
use shelf_remote.Net.Endpoints.{Url}
use shelf_remote.Server.Manager.{UrlTexts, Manager, row_of, save_server, remove_server}
use shelf_remote.Storage.Database.{
  Db, ServerRow, Bytes, get_secret, put_secret, get_setting, put_setting,
}
use shelf_remote.Prelude.{
  true, none, some, [], String, ℕ, Option, lookup, if◌then◌else◌, List, str_eq, ◌∷◌, Bool, Chars,
  join, codes, ◌&&◌,
}

pub record Kept : Type 0 where
  pub row : Option ServerRow
  pub tokens : Bytes
  pub last_library : String
  pub item : String → Option Chars

abbrev pub Memory : Type 0
Memory = String → Kept

abbrev pub nothing_kept : Kept
nothing_kept = record { row = none; tokens = []; last_library = ""; item = λ _. none }

-- The rows of the tables that are about a server.
unfoldable pub view : Db → Memory
view d id = record {
  row = lookup id d.server_rows;
  tokens = get_secret (join id "/tokens") d;
  last_library = get_setting (join id "/lastLibraryId") "" d;
  item = λ name. cached_item (key_of id name) d;
}

pub data Op : Type 0 where
  save : ℕ → Url → String → String → Op
  forget : String → Op
  write_tokens : String → Bytes → Op
  choose_library : String → String → Op
  keep_item : ℕ → String → String → Chars → Op

unfoldable pub step : UrlTexts → Op → Manager → Manager
step x (save now url name user) m = save_server x now url name user m
step x (forget id) m = remove_server x id m
step x (write_tokens id blob) m = record m { db = put_secret (join id "/tokens") blob m.db }
step x (choose_library id value) m = record m {
  db = put_setting (join id "/lastLibraryId") value m.db;
}
step x (keep_item now id name json) m = record m { db = cache_item now (key_of id name) json m.db }

unfoldable pub run : UrlTexts → List Op → Manager → Manager
run x [] m = m
run x (o ∷ ops) m = run x ops (step x o m)

abbrev pub change : String → (Kept → Kept) → Memory → Memory
change id f m other = if str_eq id other then f (m other) else m other

-- The key of the server that an operation is about.
abbrev pub server_of : UrlTexts → Op → String
server_of x (save now url name user) = x.id_for_url url
server_of x (forget id) = id
server_of x (write_tokens id blob) = id
server_of x (choose_library id value) = id
server_of x (keep_item now id name json) = id

unfoldable pub update_of : UrlTexts → Op → Kept → Kept
update_of x (save now url name user) k = record k { row = some (row_of x now url name user) }
update_of x (forget id) k = nothing_kept
update_of x (write_tokens id blob) k = record k { tokens = blob }
update_of x (choose_library id value) k = record k { last_library = value }
update_of x (keep_item now id name json) k = record k {
  item = λ other. if str_eq name other then some json else k.item other;
}

-- The same operation on a memory: one server changes, and the others keep what they have.
unfoldable pub apply : UrlTexts → Op → Memory → Memory
apply x o m = change (server_of x o) (update_of x o) m

unfoldable pub replay : UrlTexts → List Op → Memory → Memory
replay x [] m = m
replay x (o ∷ ops) m = replay x ops (apply x o m)

-- The keys of servers are hexadecimal hashes.
unfoldable pub all_hex : UrlTexts → List Op → Bool
all_hex x [] = true
all_hex x (o ∷ ops) = is_hex (codes (server_of x o)) && all_hex x ops
