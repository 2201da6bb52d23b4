-- ===== src/Model/Paging.antt =====
-- src/model/LibraryItemsModel.h and .cpp: the pages of a library, one request at a time. `row` is
-- what an item of the server is made into. The two parameters of the query that `fetchPage` adds are
-- the fields of the request.
pub mod Pages
use shelf_remote.Prelude.{
  ℕ, true, false, none, some, pos, [], String, List, Bool, if◌then◌else◌, ◌∷◌, Option, length, ◌+◌,
  ◌||◌, ℤ, ◌&&◌, is_blank, not, ◌-◌, ◌++◌, map, ◌==◌, ltb,
}

-- The fields of an item, as the code reads them.
pub record ItemJson : Type 0 where
  pub has_media : Bool
  pub id : Option String
  pub meta_title : Option String
  pub raw_title : Option String
  pub subtitle : Option String
  pub author_name : Option String
  pub meta_author : Option String
  pub media_type : Option String
  pub duration : Option ℤ
  pub progress : Option ℤ
  pub finished : Option Bool

pub record Row : Type 0 where
  pub id : String
  pub title : String
  pub subtitle : String
  pub author : String
  pub media_type : String
  pub duration : ℤ
  pub progress : ℤ
  pub finished : Bool

abbrev pub or_value {ℓ} : {A : Type ℓ} → Option A → A → A
or_value none d = d
or_value (some a) d = a

unfoldable pub normalise : ItemJson → Row
normalise raw = record {
  id = or_value raw.id "";
  title = or_value raw.meta_title (or_value raw.raw_title "");
  subtitle = or_value raw.subtitle "";
  author = or_value raw.author_name (or_value raw.meta_author "");
  media_type = or_value raw.media_type "";
  duration = or_value raw.duration (pos 0);
  progress = or_value raw.progress (pos 0);
  finished = or_value raw.finished false;
}

pub record Request : Type 0 where
  pub library : String
  pub query : List (String × String)
  pub limit : ℕ
  pub page : ℕ
  pub generation : ℕ

pub data Notice : Type 0 where
  loading_changed has_more_changed count_changed model_reset : Notice
  rows_inserted : ℕ → ℕ → Notice
  requested : Request → Notice

pub record Items : Type 0 where
  pub has_api : Bool
  pub rows : List Row
  pub library : String
  pub base_query : List (String × String)
  pub page : ℕ
  pub limit : ℕ
  pub loading : Bool
  pub has_more : Bool
  pub generation : ℕ
  pub out : List Notice

abbrev pub initial : Items
initial = record {
  has_api = false;
  rows = [];
  library = "";
  base_query = [];
  page = 0;
  limit = 50;
  loading = false;
  has_more = false;
  generation = 0;
  out = [];
}

abbrev pub tell : Notice → Items → Items
tell n m = record m { out = n ∷ m.out }

unfoldable pub fetch_page : ℕ → Items → Items
fetch_page page m =
    if not m.has_api || is_blank m.library
    then m
    else tell
        (requested (record {
          library = m.library;
          query = m.base_query;
          limit = m.limit;
          page = page;
          generation = m.generation;
        }))
        (tell loading_changed (record m { loading = true }))

unfoldable pub query_of : String → Bool → String → List (String × String)
query_of sort desc filter =
    ("minified", "1")
    ∷ ((if is_blank sort then [] else ("sort", sort) ∷ ("desc", if desc then "1" else "0") ∷ [])
        ++ (if is_blank filter then [] else ("filter", filter) ∷ []))

unfoldable pub load_library : String → String → Bool → String → Items → Items
unfolding fetch_page
load_library library sort desc filter m = fetch_page 0 (
    tell count_changed (
      tell model_reset (record m {
        library = library;
        base_query = query_of sort desc filter;
        generation = m.generation + 1;
        page = 0;
        has_more = false;
        rows = [];
      })))

unfoldable pub load_more : Items → Items
load_more m = if m.has_more && not m.loading then fetch_page (m.page + 1) m else m

-- A reply, with the values of "results" and "total".
pub record PageReply : Type 0 where
  pub stale : Bool
  pub ok : Bool
  pub results : List ItemJson
  pub total : ℕ

unfoldable pub append_rows : List ItemJson → Items → Items
append_rows [] m = m
append_rows (r ∷ rs) m =
    let first = length m.rows in
    tell (rows_inserted first (first + length (r ∷ rs) - 1))
      (record m { rows = m.rows ++ map normalise (r ∷ rs) })

unfoldable pub on_page_reply : ℕ → ℕ → PageReply → Items → Items
on_page_reply page generation res m =
    if res.stale || not (generation == m.generation)
    then m
    else let q = tell loading_changed (record m { loading = false }) in
      if not res.ok
      then q
      else let r = append_rows res.results q in
        tell count_changed (
          tell has_more_changed
            (record r { page = page; has_more = ltb (length r.rows) res.total }))

-- `flat` is the row that an item without "media" is: it is taken over as it stands.
unfoldable pub set_items : List (ItemJson × Row) → Items → Items
set_items items m =
    let p = record m { generation = m.generation + 1 } in
    let q = if p.loading then tell loading_changed (record p { loading = false }) else p in
    tell count_changed (
      tell has_more_changed (
        tell model_reset (record q {
          rows = map (λ (raw, flat). if raw.has_media then normalise raw else flat) items;
          has_more = false;
        })))
