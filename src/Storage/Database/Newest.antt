-- ===== src/Storage/Database/Newest.antt =====
-- What `pruneItemCache` of src/storage/Database.cpp leaves.
use shelf_remote.Storage.Database.{CachedRow, Db}
use shelf_remote.Storage.Database.Items.{
  drop_rows, newest_first, place_newest, ids, prune_item_cache, lookup-drop_rows,
}
use shelf_remote.Prelude.{
  refl, arith, [], ◌∷◌, none, some, false, true, zero, suc, List, is_unique, lookup, String, ◌≡◌,
  contains, ℕ, not, eq_iff, ◌∙◌, if◌then◌else◌, take, str_eq, if_elim, ◌≤◌, leb, leb→le, if_not,
}

abbrev pub ItemTable : Type 0
ItemTable = List (String × CachedRow)

abbrev pub keep : List String → ItemTable → ItemTable
keep chosen rows = drop_rows (λ item. not (contains chosen item)) rows

lookup-place_newest :
    (id key : String) (row : CachedRow) (rows : ItemTable)
    → lookup key rows ≡ none
    → lookup id (place_newest (key, row) rows)
      ≡ (if str_eq key id then some row else lookup id rows)
unfolding lookup place_newest
lookup-place_newest id key row [] h = refl
lookup-place_newest id key row ((k, r) ∷ rest) h =
    ground (arith, h, lookup-place_newest id key row rest, eq_iff k id, eq_iff key id, eq_iff k key)

pub lookup-newest_first :
    (id : String) (rows : ItemTable)
    → is_unique rows ≡ true
    → lookup id (newest_first rows) ≡ lookup id rows
unfolding lookup newest_first is_unique
lookup-newest_first id [] h = refl
lookup-newest_first id ((key, row) ∷ rest) h = ground (
  arith,
  h,
  lookup-place_newest id key row (newest_first rest),
  lookup-newest_first key rest,
  lookup-newest_first id rest,
)

is_unique-place_newest :
    (key : String) (row : CachedRow) (rows : ItemTable)
    → lookup key rows ≡ none
    → is_unique rows ≡ true
    → is_unique (place_newest (key, row) rows) ≡ true
unfolding is_unique place_newest lookup
is_unique-place_newest key row [] h u = refl
is_unique-place_newest key row ((k, r) ∷ rest) h u = ground (
  arith,
  h,
  u,
  is_unique-place_newest key row rest,
  lookup-place_newest k key row rest,
  eq_iff k key,
  eq_iff key k,
)

pub is_unique-newest_first :
    (rows : ItemTable) → is_unique rows ≡ true → is_unique (newest_first rows) ≡ true
unfolding is_unique newest_first
is_unique-newest_first [] h = refl
is_unique-newest_first ((key, row) ∷ rest) h =
    is_unique-place_newest key row (newest_first rest)
      (ground (arith, h, lookup-newest_first key rest))
      (is_unique-newest_first rest (ground (arith, h)))

abbrev NoneNewer : ℕ → ItemTable → Type 0
NoneNewer time [] = Unit {0}
NoneNewer time (r ∷ rest) = (r.1.updated ≤ time) × NoneNewer time rest

abbrev IsNewestFirst : ItemTable → Type 0
IsNewestFirst [] = Unit {0}
IsNewestFirst (r ∷ rest) = NoneNewer r.1.updated rest × IsNewestFirst rest

NoneNewer-later : (a b : ℕ) (rows : ItemTable) → a ≤ b → NoneNewer a rows → NoneNewer b rows
NoneNewer-later a b [] h k = tt
NoneNewer-later a b (r ∷ rest) h (k, ks) = (omega arith, NoneNewer-later a b rest h ks)

place_newest-NoneNewer :
    (time : ℕ) (r : String × CachedRow) (rows : ItemTable)
    → r.1.updated ≤ time
    → NoneNewer time rows
    → NoneNewer time (place_newest r rows)
unfolding place_newest
place_newest-NoneNewer time r [] h k = (h, tt)
place_newest-NoneNewer time r (s ∷ rest) h (k, ks) =
    if_elim (NoneNewer time) (leb r.1.updated s.1.updated)
      (λ _. (k, place_newest-NoneNewer time r rest h ks)) λ _. (h, (k, ks))

place_newest-IsNewestFirst :
    (r : String × CachedRow) (rows : ItemTable)
    → IsNewestFirst rows
    → IsNewestFirst (place_newest r rows)
unfolding place_newest
place_newest-IsNewestFirst r [] s = (tt, tt)
place_newest-IsNewestFirst r (t ∷ rest) (h, s) =
    if_elim IsNewestFirst (leb r.1.updated t.1.updated)
      (λ e. (
        place_newest-NoneNewer t.1.updated r rest (leb→le r.1.updated t.1.updated e) h,
        place_newest-IsNewestFirst r rest s,
      ))
      λ e. (
        (ground (arith, e), NoneNewer-later t.1.updated r.1.updated rest (ground (arith, e)) h),
        (h, s),
      )

newest_first-IsNewestFirst : (rows : ItemTable) → IsNewestFirst (newest_first rows)
unfolding newest_first
newest_first-IsNewestFirst [] = tt
newest_first-IsNewestFirst (r ∷ rest) =
    place_newest-IsNewestFirst r (newest_first rest) (newest_first-IsNewestFirst rest)

found_not_newer :
    (time : ℕ) (id : String) (s : CachedRow) (rows : ItemTable)
    → NoneNewer time rows
    → lookup id rows ≡ some s
    → s.updated ≤ time
unfolding lookup
found_not_newer time id s [] h e = absurd cc
found_not_newer time id s ((k, row) ∷ rest) (h, hs) e =
    ground (arith, h, e, found_not_newer time id s rest hs)

taken_not_older :
    (n : ℕ) (a b : String) (r s : CachedRow) (rows : ItemTable)
    → IsNewestFirst rows
    → contains (ids (take n rows)) a ≡ true
    → contains (ids (take n rows)) b ≡ false
    → lookup a rows ≡ some r
    → lookup b rows ≡ some s
    → s.updated ≤ r.updated
unfolding lookup contains
taken_not_older zero a b r s rows o h k e f = ground (arith, h)
taken_not_older (suc n) a b r s [] o h k e f = ground (arith, h)
taken_not_older (suc n) a b r s ((key, row) ∷ rest) (o, os) h k e f =
    ground
      (arith, h, k, e, f, found_not_newer row.updated b s rest o, taken_not_older n a b r s rest os)

lookup-keep :
    (chosen : List String) (key : String) (rows : ItemTable)
    → lookup key (keep chosen rows) ≡ (if contains chosen key then lookup key rows else none)
lookup-keep chosen key rows =
    lookup-drop_rows (λ item. not (contains chosen item)) key rows
    ∙ if_not (contains chosen key) none (lookup key rows)

-- A row that a prune leaves is as it was, and no row that the prune drops was written later than it.
-- The rows of the cache have ids of their own.
pub prune_item_cache-keeps_newest :
    (n : ℕ) (d : Db) (a b : String) (r s : CachedRow)
    → is_unique d.item_rows ≡ true
    → lookup a (prune_item_cache (some n) d).item_rows ≡ some r
    → lookup b (prune_item_cache (some n) d).item_rows ≡ none
    → lookup b d.item_rows ≡ some s
    → (lookup a d.item_rows ≡ some r) × (s.updated ≤ r.updated)
unfolding prune_item_cache
prune_item_cache-keeps_newest n d a b r s h kept dropped was =
    let sorted = newest_first d.item_rows in
    let chosen = ids (take n sorted) in
    let here : contains chosen a ≡ true = ground (arith, kept, lookup-keep chosen a d.item_rows) in
    let there : contains chosen b ≡ false =
      ground (arith, was, dropped, lookup-keep chosen b d.item_rows) in
    let same_row : lookup a d.item_rows ≡ some r =
      ground (arith, kept, here, lookup-keep chosen a d.item_rows) in
    (
      same_row,
      taken_not_older n a b r s sorted (newest_first-IsNewestFirst d.item_rows) here there
          (lookup-newest_first a d.item_rows h ∙ same_row)
          (lookup-newest_first b d.item_rows h ∙ was),
    )
