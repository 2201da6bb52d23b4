-- ===== src/Server/Manager.antt =====
-- src/server/ServerManager.cpp: the list of saved servers over the database. What `QUrl` and the hash
-- make of a URL is a parameter; the clock is an argument.
use shelf_remote.Storage.Database.Servers
use shelf_remote.Storage.Database.Items.{remove_cached_items_for_server}
use shelf_remote.Net.Endpoints.{Url}
use shelf_remote.Storage.Database.{Db, ServerRow, remove_setting, remove_secret}
use shelf_remote.Storage.Database.Servers.{servers, upsert_server}
use shelf_remote.Prelude.{
  none, some, [], ℕ, String, List, length, get_elem?, Option, Chars, if◌then◌else◌, ◌∷◌, str_eq,
  is_blank, join,
}

-- `ServerProfile::idForUrl`, `QUrl::toString` and `QUrl(text)`.
pub record UrlTexts : Type 0 where
  pub id_for_url : Url → String
  pub text_of : Url → Chars
  pub parse : Chars → Url

pub record ServerProfile : Type 0 where
  pub id : String
  pub name : String
  pub base_url : Url
  pub last_user_id : String

pub record Manager : Type 0 where
  pub db : Db
  pub shown : List ServerProfile

pub profile_of : UrlTexts → String × ServerRow → ServerProfile
profile_of x (id, row) = record {
  id = id;
  name = row.name;
  base_url = x.parse row.base_url;
  last_user_id = row.last_user;
}

unfoldable pub profiles_of : UrlTexts → List (String × ServerRow) → List ServerProfile
unfolding profile_of
profiles_of x [] = []
profiles_of x (r ∷ rest) = profile_of x r ∷ profiles_of x rest

unfoldable pub reload : UrlTexts → Manager → Manager
reload x m = record m { shown = profiles_of x (servers m.db) }

-- The constructor.
unfoldable pub start : UrlTexts → Db → Manager
start x d = reload x (record { db = d; shown = [] })

unfoldable pub row_of : UrlTexts → ℕ → Url → String → String → ServerRow
row_of x now base_url name user = record {
  name = if is_blank name then base_url.host else name;
  base_url = x.text_of base_url;
  last_user = user;
  last_used = now;
}

unfoldable pub save_server : UrlTexts → ℕ → Url → String → String → Manager → Manager
save_server x now base_url name user m =
    reload x (record m {
      db = upsert_server (x.id_for_url base_url) (row_of x now base_url name user) m.db;
    })

unfoldable pub remove_server : UrlTexts → String → Manager → Manager
remove_server x id m = reload x (record m {
  db = remove_cached_items_for_server id (
      remove_setting (join id "/lastLibraryId")
        (remove_secret (join id "/tokens") (Servers.remove_server id m.db)));
})

unfoldable pub url_in : String → List ServerProfile → Option Url
url_in id [] = none
url_in id (s ∷ rest) = if str_eq s.id id then some s.base_url else url_in id rest

-- An id that is not there has the empty URL, here `none`.
unfoldable pub base_url_for : String → Manager → Option Url
base_url_for id m = url_in id m.shown

pub data Shown : Type 0 where
  text : String → Shown
  address : Chars → Shown
  nothing : Shown

pub data Role : Type 0 where
  id_role name_role base_url_role last_user_role other_role : Role

unfoldable pub field_of : UrlTexts → ServerProfile → Role → Shown
field_of x s id_role = text s.id
field_of x s name_role = text s.name
field_of x s base_url_role = address (x.text_of s.base_url)
field_of x s last_user_role = text s.last_user_id
field_of x s other_role = nothing

pub row_count : Manager → ℕ
row_count m = length m.shown

pub data_at : UrlTexts → ℕ → Role → Manager → Shown
data_at x i role m = elim (get_elem? m.shown i) [ none ↦ nothing | some s ↦ field_of x s role ]
