-- ===== src/Storage/Database/Items.antt =====
-- src/storage/Database.cpp: the statements on the cache of items. The clock of SQLite is an argument.
use shelf_remote.Storage.Database.{CachedRow, Db}
use shelf_remote.Prelude.{
  true, false, none, some, [], ℕ, List, Chars, String, Option, if◌then◌else◌, Bool, insert, ◌∷◌,
  codes, not, leb, lookup, ◌==◌, ◌&&◌, contains, ◌||◌, ◌+◌, take, join, inl, inr, ap, arith, ◌≡◌,
  Bool-cases, str_eq, eq_iff,
}

unfoldable pub cache_item : ℕ → String → Chars → Db → Db
cache_item now item json d = record d {
  item_rows = insert item (record { json = json; updated = now }) d.item_rows;
}

unfoldable pub cached_item : String → Db → Option Chars
cached_item item d = elim (lookup item d.item_rows) [ none ↦ none | some row ↦ some row.json ]

-- SQLite's LIKE: `%` is any text, `_` any character, and letters of ASCII are compared without case.
abbrev pub fold_case : ℕ → ℕ
fold_case c = if leb b'A' c && leb c b'Z' then c + 32 else c

unfoldable pub any_tail : (Chars → Bool) → Chars → Bool
any_tail rest [] = rest []
any_tail rest (d ∷ ds) = rest (d ∷ ds) || any_tail rest ds

unfoldable pub like_one : ℕ → (Chars → Bool) → Chars → Bool
like_one c rest [] = false
like_one c rest (d ∷ ds) = (c == b'_' || fold_case c == fold_case d) && rest ds

unfoldable pub like : Chars → Chars → Bool
like [] [] = true
like [] (d ∷ ds) = false
like (c ∷ cs) s = if c == b'%' then any_tail (like cs) s else like_one c (like cs) s

unfoldable pub drop_rows : (String → Bool) → List (String × CachedRow) → List (String × CachedRow)
drop_rows out [] = []
drop_rows out ((item, row) ∷ rest) =
    if out item then drop_rows out rest else (item, row) ∷ drop_rows out rest

pub lookup-drop_rows :
    (out : String → Bool) (key : String) (rows : List (String × CachedRow))
    → lookup key (drop_rows out rows) ≡ (if out key then none else lookup key rows)
unfolding lookup drop_rows
lookup-drop_rows out key [] = ground arith
lookup-drop_rows out key ((item, row) ∷ rest) = elim (Bool-cases (str_eq item key)) [
  | inl e ↦ ground (arith, lookup-drop_rows out key rest, e, ap out ((eq_iff item key).0 e))
  | inr e ↦ ground (arith, lookup-drop_rows out key rest, e)
]

abbrev pub of_server : String → String → Bool
of_server server item = like (codes (join server "/%")) (codes item)

unfoldable pub remove_cached_items_for_server : String → Db → Db
remove_cached_items_for_server server d = record d {
  item_rows = drop_rows (of_server server) d.item_rows;
}

-- `ORDER BY updated DESC, rowid DESC`: of two rows of the same second the later one comes first.
unfoldable pub place_newest :
    String × CachedRow → List (String × CachedRow) → List (String × CachedRow)
place_newest r [] = r ∷ []
place_newest r (s ∷ rest) =
    if leb r.1.updated s.1.updated then s ∷ place_newest r rest else r ∷ s ∷ rest

unfoldable pub newest_first : List (String × CachedRow) → List (String × CachedRow)
newest_first [] = []
newest_first (r ∷ rest) = place_newest r (newest_first rest)

abbrev pub ids : List (String × CachedRow) → List String
ids [] = []
ids ((item, row) ∷ rest) = item ∷ ids rest

-- A negative number of rows, which the source takes as no limit, is `none`.
unfoldable pub prune_item_cache : Option ℕ → Db → Db
prune_item_cache none d = d
prune_item_cache (some n) d = record d {
  item_rows =
      drop_rows (λ item. not (contains (ids (take n (newest_first d.item_rows))) item)) d.item_rows;
}
