-- ===== src/Storage/Database/Servers.antt =====
-- src/storage/Database.cpp: the statements on the table of servers.
use shelf_remote.Storage.Database.{Db, ServerRow}
use shelf_remote.Prelude.{[], String, List, erase, insert, ◌∷◌, if◌then◌else◌, ltb}

unfoldable pub upsert_server : String → ServerRow → Db → Db
upsert_server id row d = record d { server_rows = insert id row d.server_rows }

-- `ORDER BY last_used DESC`; rows used in the same second come in the order of the table.
unfoldable pub place_row :
    String × ServerRow → List (String × ServerRow) → List (String × ServerRow)
place_row r [] = r ∷ []
place_row r (s ∷ rest) =
    if ltb r.1.last_used s.1.last_used then s ∷ place_row r rest else r ∷ s ∷ rest

unfoldable pub by_last_used : List (String × ServerRow) → List (String × ServerRow)
by_last_used [] = []
by_last_used (r ∷ rest) = place_row r (by_last_used rest)

unfoldable pub servers : Db → List (String × ServerRow)
servers d = by_last_used d.server_rows

unfoldable pub remove_server : String → Db → Db
remove_server id d = record d { server_rows = erase id d.server_rows }
