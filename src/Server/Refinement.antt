-- ===== src/Server/Refinement.antt =====
-- The tables of src/storage/Database.cpp, under src/server/ServerManager.cpp and the other writers,
-- against the memory of Server/Memory.
use shelf_remote.Server.Tables.{
  cached-cache_item, get-remove_secret, get-remove_setting, cached-remove,
}
use shelf_remote.Net.Endpoints.{Url}
use shelf_remote.Storage.Database.Keys.{is_hex, key_of, key_of_inj, of_server-key_of}
use shelf_remote.Server.Memory.{
  Kept, apply, all_hex, Memory, view, Op, change, step, server_of, update_of, save, keep_item,
  forget, choose_library, write_tokens,
}
use shelf_remote.Storage.Database.Items.{cached_item, remove_cached_items_for_server, cache_item}
use shelf_remote.Server.Memory.{replay, run}
use shelf_remote.Storage.Database.{
  get_setting, get_secret, remove_setting, ServerRow, remove_secret, Db, put_secret, put_setting,
  Bytes, get-put_setting, get-put_secret,
}
use shelf_remote.Server.Manager.{UrlTexts, Manager, remove_server, save_server, reload, row_of}
use shelf_remote.Storage.Database.Servers.{upsert_server}
use shelf_remote.Prelude.{
  refl, ap, true, false, some, arith, [], String, lookup, ◌≡◌, List, str_eq, codes, ℕ, Chars,
  if◌then◌else◌, lookup-insert, if_elim, ◌∷◌, lookup-erase, ◌∙◌, eq_iff, join,
}
use shelf_remote.Storage.Database.Servers

record SameKept (a b : Kept) : Type 0 where
  row : a.row ≡ b.row
  tokens : a.tokens ≡ b.tokens
  last_library : a.last_library ≡ b.last_library
  item : (name : String) → a.item name ≡ b.item name

Kept-eq : {a b : Kept} → SameKept a b → a ≡ b
Kept-eq s = λ i. record {
  row = s.row i;
  tokens = s.tokens i;
  last_library = s.last_library i;
  item = λ name. s.item name i;
}

change-SameKept :
    (id other : String) (f : Kept → Kept) (m : Memory) (k : Kept)
    → (str_eq id other ≡ true → SameKept k (f (m other)))
    → (str_eq id other ≡ false → SameKept k (m other))
    → k ≡ change id f m other
change-SameKept id other f m k changed untouched =
    if_elim (λ a. k ≡ a) (str_eq id other) (λ e. Kept-eq (changed e)) (λ e. Kept-eq (untouched e))

row_here :
    (name : String) (s t : String)
    → is_hex (codes s) ≡ true
    → is_hex (codes t) ≡ true
    → str_eq (key_of s name) (key_of t name) ≡ str_eq s t
row_here name s t h k = key_of_inj s t name name h k ∙ ground (arith, eq_iff name name)

upsert-view :
    (id other : String) (row : ServerRow) (d : Db)
    → lookup other (upsert_server id row d).server_rows
      ≡ (if str_eq id other then some row else lookup other d.server_rows)
unfolding upsert_server
upsert-view id other row d = lookup-insert id other row d.server_rows

module _ (x : UrlTexts) (m : Manager) (id : String) (k : is_hex (codes id) ≡ true) where
  abbrev Follows : Op → Type 0
  Follows o = view (step x o m).db id ≡ apply x o (view m.db) id

  follows :
      (o : Op)
      → (str_eq (server_of x o) id ≡ true
          → SameKept (view (step x o m).db id) (update_of x o (view m.db id)))
      → (str_eq (server_of x o) id ≡ false → SameKept (view (step x o m).db id) (view m.db id))
      → Follows o
  unfolding apply
  follows o =
      change-SameKept (server_of x o) id (update_of x o) (view m.db) (view (step x o m).db id)

  save-Follows : (now : ℕ) (url : Url) (name user : String) → Follows (save now url name user)
  unfolding view step update_of save_server reload upsert_server get_secret get_setting cached_item
  save-Follows now url name user =
      let found =
        lookup-insert (x.id_for_url url) id (row_of x now url name user) m.db.server_rows in
      follows (save now url name user)
        (λ e. record {
          row = ground (arith, e, found);
          tokens = refl;
          last_library = refl;
          item = λ n. refl;
        })
        λ e. record {
          row = ground (arith, e, found);
          tokens = refl;
          last_library = refl;
          item = λ n. refl;
        }

  write_tokens-Follows :
      (server : String) (blob : Bytes)
      → is_hex (codes server) ≡ true
      → Follows (write_tokens server blob)
  unfolding view step update_of put_secret get_setting cached_item
  write_tokens-Follows server blob h =
      let found = get-put_secret (join server "/tokens") (join id "/tokens") blob m.db in
      let here = row_here "tokens" server id h k in
      follows (write_tokens server blob)
        (λ e. record {
          row = refl;
          tokens = ground (arith, e, found, here);
          last_library = refl;
          item = λ n. refl;
        })
        λ e. record {
          row = refl;
          tokens = ground (arith, e, found, here);
          last_library = refl;
          item = λ n. refl;
        }

  choose_library-Follows :
      (server value : String) → is_hex (codes server) ≡ true → Follows (choose_library server value)
  unfolding view step update_of put_setting get_secret cached_item
  choose_library-Follows server value h =
      let found =
        get-put_setting (join server "/lastLibraryId") (join id "/lastLibraryId") value "" m.db in
      let here = row_here "lastLibraryId" server id h k in
      follows (choose_library server value)
        (λ e. record {
          row = refl;
          tokens = refl;
          last_library = ground (arith, e, found, here);
          item = λ n. refl;
        })
        λ e. record {
          row = refl;
          tokens = refl;
          last_library = ground (arith, e, found, here);
          item = λ n. refl;
        }

  keep_item-Follows :
      (now : ℕ) (server name : String) (json : Chars)
      → is_hex (codes server) ≡ true
      → Follows (keep_item now server name json)
  unfolding view step update_of cache_item get_secret get_setting
  keep_item-Follows now server name json h =
      follows (keep_item now server name json)
        (λ e. record {
          row = refl;
          tokens = refl;
          last_library = refl;
          item = λ n. ground (
            arith,
            e,
            key_of_inj server id name n h k,
            cached-cache_item now (key_of server name) (key_of id n) json m.db,
          );
        })
        λ e. record {
          row = refl;
          tokens = refl;
          last_library = refl;
          item = λ n. ground (
            arith,
            e,
            key_of_inj server id name n h k,
            cached-cache_item now (key_of server name) (key_of id n) json m.db,
          );
        }

  forget-Follows : (server : String) → is_hex (codes server) ≡ true → Follows (forget server)
  unfolding get_secret get_setting cached_item view step update_of remove_server reload
      Servers.remove_server remove_secret remove_setting remove_cached_items_for_server
  forget-Follows server h =
      let row_gone = lookup-erase server id m.db.server_rows in
      let no_tokens = get-remove_secret (join server "/tokens") (join id "/tokens") m.db in
      let no_library =
        get-remove_setting (join server "/lastLibraryId") (join id "/lastLibraryId") m.db in
      follows (forget server)
        (λ e. record {
          row = ground (arith, e, row_gone);
          tokens = ground (arith, e, no_tokens, row_here "tokens" server id h k);
          last_library = ground (arith, e, no_library, row_here "lastLibraryId" server id h k);
          item = λ n.
              ground (
                arith,
                e,
                cached-remove server (key_of id n) m.db,
                of_server-key_of server id n h k,
              );
        })
        λ e. record {
          row = ground (arith, e, row_gone);
          tokens = ground (arith, e, no_tokens, row_here "tokens" server id h k);
          last_library = ground (arith, e, no_library, row_here "lastLibraryId" server id h k);
          item = λ n.
              ground (
                arith,
                e,
                cached-remove server (key_of id n) m.db,
                of_server-key_of server id n h k,
              );
        }

  step-Follows : (o : Op) → is_hex (codes (server_of x o)) ≡ true → Follows o
  step-Follows (save now url name user) h = save-Follows now url name user
  step-Follows (forget server) h = forget-Follows server h
  step-Follows (write_tokens server blob) h = write_tokens-Follows server blob h
  step-Follows (choose_library server value) h = choose_library-Follows server value h
  step-Follows (keep_item now server name json) h = keep_item-Follows now server name json h

replay_local :
    (x : UrlTexts) (ops : List Op) (f g : Memory) (id : String)
    → f id ≡ g id
    → replay x ops f id ≡ replay x ops g id
unfolding replay apply
replay_local x [] f g id h = h
replay_local x (o ∷ ops) f g id h =
    replay_local x ops (apply x o f) (apply x o g) id
      (ap (λ k. if str_eq (server_of x o) id then update_of x o k else k) h)

-- Whatever is saved, forgotten, written and cached for the servers, in any order, the tables hold for
-- each server exactly what a memory holds in which every operation is about one server alone:
-- forgetting a server leaves nothing of its row, its tokens, its last library and its cached items,
-- and no operation changes what is kept for another. The keys of servers are hexadecimal.
pub run-refines :
    (x : UrlTexts) (ops : List Op) (m : Manager) (id : String)
    → all_hex x ops ≡ true
    → is_hex (codes id) ≡ true
    → view (run x ops m).db id ≡ replay x ops (view m.db) id
unfolding run replay all_hex
run-refines x [] m id h k = refl
run-refines x (o ∷ ops) m id h k =
    run-refines x ops (step x o m) id (ground (arith, h)) k
    ∙ replay_local x ops (view (step x o m).db) (apply x o (view m.db)) id
        (step-Follows x m id k o (ground (arith, h)))
