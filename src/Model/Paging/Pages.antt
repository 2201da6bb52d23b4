-- ===== src/Model/Paging/Pages.antt =====
-- The rows are the pages of the server in order, whatever replies come late.
use shelf_remote.Prelude.{
  ℕ, true, false, zero, suc, List, ◌≡◌, is_blank, ◌++◌, ◌+◌, map, ltb, length, arith, String,
  if◌then◌else◌, Bool, ◌≤◌,
}
use shelf_remote.Model.Paging.{
  Items, ItemJson, PageReply, on_page_reply, Row, load_more, normalise, load_library, fetch_page,
  set_items,
}

-- The items of the pages 0 to `n`.
unfoldable pub pages : (ℕ → List ItemJson) → ℕ → List Row
pages server zero = map normalise (server zero)
pages server (suc n) = pages server n ++ map normalise (server (suc n))

-- The reply of a server to the request for a page.
abbrev pub reply_of : (ℕ → List ItemJson) → ℕ → ℕ → PageReply
reply_of server total n = record { stale = false; ok = true; results = server n; total = total }

-- A load of more with its reply, while there is more.
unfoldable pub round : (ℕ → List ItemJson) → ℕ → Items → Items
round server total m =
    if m.has_more
    then on_page_reply (m.page + 1) m.generation (reply_of server total (m.page + 1)) (load_more m)
    else m

-- A library is opened, and its first page comes.
unfoldable pub opened : (ℕ → List ItemJson) → ℕ → String → String → Bool → String → Items → Items
opened server total library sort desc filter m =
    on_page_reply 0 (m.generation + 1) (reply_of server total 0)
      (load_library library sort desc filter m)

unfoldable pub rounds : (ℕ → List ItemJson) → ℕ → ℕ → Items → Items
rounds server total zero m = m
rounds server total (suc n) m = rounds server total n (round server total m)

-- The model holds the pages up to its own, waits for nothing, and asks for more exactly while rows are
-- missing.
pub record Holds (server : ℕ → List ItemJson) (total : ℕ) (m : Items) : Type 0 where
  pub has_client : m.has_api ≡ true
  pub has_library : is_blank m.library ≡ false
  pub is_idle : m.loading ≡ false
  pub has_pages : m.rows ≡ pages server m.page
  pub knows_more : m.has_more ≡ ltb (length m.rows) total

-- Once a library is opened or items are set, the reply to any request made before changes nothing, and
-- with items set the model does not wait for it.
pub late_page_ignored :
    (page g : ℕ) (res : PageReply) (library sort : String) (desc : Bool) (filter : String)
    (items : List (ItemJson × Row)) (m : Items)
    → g ≤ m.generation
    → let q = load_library library sort desc filter m in
      let r = set_items items m in
      (on_page_reply page g res q ≡ q) × (on_page_reply page g res r ≡ r) × (r.loading ≡ false)
unfolding on_page_reply load_library set_items fetch_page
late_page_ignored page g res library sort desc filter items m h = ground arith
