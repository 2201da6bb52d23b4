-- ===== src/Storage/Database/Count.antt =====
-- How many rows `pruneItemCache` of src/storage/Database.cpp leaves.
use shelf_remote.Storage.Database.{Db, CachedRow}
use shelf_remote.Storage.Database.Items.{
  drop_rows, prune_item_cache, newest_first, place_newest, ids,
}
use shelf_remote.Prelude.{
  refl, arith, [], ◌∷◌, none, some, true, zero, suc, length-take, sym, ap, List, String, ℕ, lookup,
  length, is_unique, contains, ◌≡◌, min, ◌∙◌, eq_iff, take,
}
use shelf_remote.Storage.Database.Newest.{ItemTable, keep, is_unique-newest_first}

length-keep-place_newest :
    (chosen : List String) (key : String) (row : CachedRow) (rows : ItemTable)
    → length (keep chosen (place_newest (key, row) rows)) ≡ length (keep chosen ((key, row) ∷ rows))
unfolding drop_rows place_newest
length-keep-place_newest chosen key row [] = refl
length-keep-place_newest chosen key row ((k, r) ∷ rest) =
    ground (arith, length-keep-place_newest chosen key row rest)

length-keep-newest_first :
    (chosen : List String) (rows : ItemTable)
    → length (keep chosen (newest_first rows)) ≡ length (keep chosen rows)
unfolding drop_rows newest_first
length-keep-newest_first chosen [] = refl
length-keep-newest_first chosen ((key, row) ∷ rest) =
    length-keep-place_newest chosen key row (newest_first rest)
    ∙ ground (arith, length-keep-newest_first chosen rest)

keep-absent :
    (key : String) (chosen : List String) (rows : ItemTable)
    → lookup key rows ≡ none
    → keep (key ∷ chosen) rows ≡ keep chosen rows
unfolding drop_rows lookup contains
keep-absent key chosen [] h = refl
keep-absent key chosen ((k, row) ∷ rest) h =
    ground (arith, h, keep-absent key chosen rest, eq_iff k key, eq_iff key k)

keep-take :
    (n : ℕ) (rows : ItemTable) → is_unique rows ≡ true → keep (ids (take n rows)) rows ≡ take n rows
unfolding drop_rows is_unique contains
keep-take zero [] h = refl
keep-take zero ((key, row) ∷ rest) h = keep-take zero rest (ground (arith, h))
keep-take (suc n) [] h = refl
keep-take (suc n) ((key, row) ∷ rest) h =
    ground (arith, h, keep-absent key (ids (take n rest)) rest, keep-take n rest, eq_iff key key)

length-place_newest :
    (r : String × CachedRow) (rows : ItemTable) → length (place_newest r rows) ≡ suc (length rows)
unfolding place_newest
length-place_newest r [] = refl
length-place_newest r (s ∷ rest) = ground (arith, length-place_newest r rest)

length-newest_first : (rows : ItemTable) → length (newest_first rows) ≡ length rows
unfolding newest_first
length-newest_first [] = refl
length-newest_first (r ∷ rest) =
    length-place_newest r (newest_first rest) ∙ ap suc (length-newest_first rest)

-- A prune to a number of rows leaves exactly that many, or all of them where there were fewer. The rows
-- of the cache have ids of their own.
pub prune_item_cache-length :
    (n : ℕ) (d : Db)
    → is_unique d.item_rows ≡ true
    → length (prune_item_cache (some n) d).item_rows ≡ min n (length d.item_rows)
unfolding prune_item_cache
prune_item_cache-length n d h =
    let sorted = newest_first d.item_rows in
    sym (length-keep-newest_first (ids (take n sorted)) d.item_rows)
    ∙ ap length (keep-take n sorted (is_unique-newest_first d.item_rows h))
    ∙ length-take n sorted
    ∙ ap (min n) (length-newest_first d.item_rows)
