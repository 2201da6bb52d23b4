-- ===== src/Storage/Database.antt =====
-- src/storage/Database.cpp: the tables, and the statements on the settings and the secrets. A table whose key is unique is a
-- dictionary; SQLite carries out the statements, and a statement that fails is not modelled.
pub mod Servers
pub mod Items
pub mod Keys
pub mod Newest
pub mod Count
use shelf_remote.Prelude.{
  ℕ, String, List, none, some, arith, [], insert, lookup, erase, ◌≡◌, if◌then◌else◌, str_eq,
  lookup-insert, Chars,
}

abbrev pub Bytes : Type 0
Bytes = List ℕ

-- A row of the table of servers, without its key.
pub record ServerRow : Type 0 where
  pub name : String
  pub base_url : Chars
  pub last_user : String
  pub last_used : ℕ

-- A row of the cache of items: the text of the JSON, and the second it was written in.
pub record CachedRow : Type 0 where
  pub json : Chars
  pub updated : ℕ

-- A row that is inserted comes last: the order of a table is that of SQLite's `rowid`.
pub record Db : Type 0 where
  pub settings : List (String × String)
  pub secrets : List (String × Bytes)
  pub server_rows : List (String × ServerRow)
  pub item_rows : List (String × CachedRow)

unfoldable pub put_secret : String → Bytes → Db → Db
put_secret key blob d = record d { secrets = insert key blob d.secrets }

-- No row reads as an empty blob.
unfoldable pub get_secret : String → Db → Bytes
get_secret key d = elim (lookup key d.secrets) [ none ↦ [] | some blob ↦ blob ]

unfoldable pub remove_secret : String → Db → Db
remove_secret key d = record d { secrets = erase key d.secrets }

unfoldable pub remove_all_secrets : Db → Db
remove_all_secrets d = record d { secrets = [] }

unfoldable pub put_setting : String → String → Db → Db
put_setting key value d = record d { settings = insert key value d.settings }

unfoldable pub get_setting : String → String → Db → String
get_setting key default d = elim (lookup key d.settings) [ none ↦ default | some value ↦ value ]

unfoldable pub remove_setting : String → Db → Db
remove_setting key d = record d { settings = erase key d.settings }

pub get-put_setting :
    (key other value default : String) (d : Db)
    → get_setting other default (put_setting key value d)
      ≡ (if str_eq key other then value else get_setting other default d)
unfolding get_setting put_setting
get-put_setting key other value default d = ground (arith, lookup-insert key other value d.settings)

pub get-put_secret :
    (key other : String) (blob : Bytes) (d : Db)
    → get_secret other (put_secret key blob d)
      ≡ (if str_eq key other then blob else get_secret other d)
unfolding get_secret put_secret
get-put_secret key other blob d = ground (arith, lookup-insert key other blob d.secrets)
