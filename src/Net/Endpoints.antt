-- ===== src/Net/Endpoints.antt =====
-- src/net/Endpoints.h and .cpp: URLs below a server's base URL. What `QUrl` does with a text is a
-- parameter: the functions `parse` and `print`, and the two comparisons of texts by case.
pub mod Paths
use shelf_remote.Prelude.{
  ℕ, ◌≡◌, Bool, true, false, Option, none, some, List, [], ◌∷◌, ◌++◌, String, is_blank, is_empty,
  Chars, codes, is_prefix, if◌then◌else◌, ◌==◌, ◌&&◌,
}

pub record Url : Type 0 where
  pub scheme : String
  pub host : String
  pub port : Option ℕ
  pub path : Chars
  pub query : Chars
  pub fragment : Chars

pub record UrlLib : Type 0 where
  pub parse : Chars → Url
  pub print : Url → Chars
  pub lower : String → String
  pub equal_fold : String → String → Bool

-- `QUrl::isRelative`: the scheme is missing.
abbrev pub is_relative : Url → Bool
is_relative u = is_blank u.scheme

-- The loop of `setBase`: chops every slash at the end.
unfoldable pub chop_slashes : Chars → Chars
chop_slashes [] = []
chop_slashes (c ∷ cs) =
    let rest = chop_slashes cs in if is_empty rest && c == b'/' then [] else c ∷ rest

unfoldable pub set_base : Url → Url
set_base base = record base { path = chop_slashes base.path; query = []; fragment = [] }

unfoldable pub build : Url → Chars → Chars → Url
build base path query =
    let url = record base { path = base.path ++ path } in
    if is_empty query then url else record url { query = query }

unfoldable pub resolve_content_url : UrlLib → Url → Chars → Url
unfolding build
resolve_content_url lib base content =
    let u = lib.parse content in
    if is_relative u
    then build base (if is_prefix (codes "/") content then content else b'/' ∷ content) []
    else u

-- The paths of the playback and account requests.
abbrev pub login_path : Chars
login_path = codes "/login"

abbrev pub session_path : Chars → Chars → Chars
session_path id action = codes "/api/session/" ++ (id ++ (b'/' ∷ action))

abbrev pub play_path : Chars → Chars
play_path item = codes "/api/items/" ++ (item ++ codes "/play")

abbrev pub play_episode_path : Chars → Chars → Chars
play_episode_path item episode = codes "/api/items/" ++ (item ++ (codes "/play/" ++ episode))
