-- ===== src/Model/Shelves/Rows.antt =====
-- The rows that a view sees are the shelves with the next-up shelf put in.
use shelf_remote.Prelude.{
  ℕ, refl, sym, ap, inl, inr, true, false, Bool, Bool-cases, str_eq, ◌||◌, some, arith, zero, suc,
  [], List, if◌then◌else◌, ◌∷◌, is_empty, ◌≤◌, get_elem?, length, map, ◌+◌, ◌≡◌, ◌==◌, ltb, ◌-◌,
  none,
}
use shelf_remote.Model.Shelves.{
  Shelves, row_after, Row, ShelfJson, row_of, next_up_shelf, map_row, data_at, next_up_row,
  shelf_row, row_count,
}

-- `x` put in at place `i`.
unfoldable pub put_in {ℓ} : {A : Type ℓ} → ℕ → A → List A → List A
put_in zero x xs = x ∷ xs
put_in (suc i) x [] = x ∷ []
put_in (suc i) x (y ∷ ys) = y ∷ put_in i x ys

-- The user has a shelf of what is being listened to.
unfoldable pub has_listening : List ShelfJson → Bool
has_listening [] = false
has_listening (s ∷ ss) = str_eq s.id "continue-listening" || has_listening ss

-- The rows of the shelves, with `x` right behind the first such shelf.
unfoldable pub behind_listening : Row → List ShelfJson → List Row
behind_listening x [] = []
behind_listening x (s ∷ ss) =
    let rest = behind_listening x ss in
    if str_eq s.id "continue-listening" then row_of s ∷ x ∷ map row_of ss else row_of s ∷ rest

-- What the view should see.
unfoldable pub rows : Shelves → List Row
rows s =
    let x = next_up_shelf s.next_up in
    if is_empty s.next_up
    then map row_of s.shelves
    else if has_listening s.shelves
    then behind_listening x s.shelves
    else x ∷ map row_of s.shelves

row_after-found : (k : ℕ) (ss : List ShelfJson) → has_listening ss ≡ true → k + 1 ≤ row_after k ss
unfolding row_after has_listening
row_after-found k [] h = absurd cc
row_after-found k (s ∷ ss) h = ground (arith, row_after-found (k + 1) ss)

row_after-missing : (k : ℕ) (ss : List ShelfJson) → has_listening ss ≡ false → row_after k ss ≡ 0
unfolding row_after has_listening
row_after-missing k [] h = refl
row_after-missing k (s ∷ ss) h = ground (arith, row_after-missing (k + 1) ss)

put_in-behind :
    (k : ℕ) (x : Row) (ss : List ShelfJson)
    → has_listening ss ≡ true
    → put_in (row_after k ss - k) x (map row_of ss) ≡ behind_listening x ss
unfolding put_in behind_listening has_listening row_after
put_in-behind k x [] h = absurd cc
put_in-behind k x (s ∷ ss) h = elim (Bool-cases (str_eq s.id "continue-listening")) [
  | inl e ↦ let one : k + 1 - k ≡ 1 = omega arith in rw (e, one) refl
  | inr e ↦
      let later : has_listening ss ≡ true = ground (arith, h, e) in
      let at : row_after (k + 1) ss - k ≡ suc (row_after (k + 1) ss - (k + 1)) =
        omega (arith, row_after-found (k + 1) ss later) in
      rw (e, at) (ap (λ (l : List Row). row_of s ∷ l) (put_in-behind (k + 1) x ss later))
]

-- The same, with the next-up shelf put in where the code counts it.
rows-put_in :
    (s : Shelves)
    → rows s ≡ (
        if is_empty s.next_up
        then map row_of s.shelves
        else put_in (row_after 0 s.shelves) (next_up_shelf s.next_up) (map row_of s.shelves))
unfolding rows
rows-put_in s = elim (Bool-cases (has_listening s.shelves)) [
  | inl e ↦
      let at : row_after 0 s.shelves - 0 ≡ row_after 0 s.shelves = omega arith in
      let x = next_up_shelf s.next_up in rw (e, sym (put_in-behind 0 x s.shelves e), at) refl
  | inr e ↦ rw (e, row_after-missing 0 s.shelves e) (unfold put_in in refl)
]

row_after-bound : (k : ℕ) (ss : List ShelfJson) → row_after k ss ≤ k + length ss
unfolding row_after
row_after-bound k [] = omega arith
row_after-bound k (s ∷ ss) = ground (arith, row_after-bound (k + 1) ss)

get-map : (ss : List ShelfJson) (i : ℕ) → get_elem? (map row_of ss) i ≡ map_row (get_elem? ss i)
get-map [] i = refl
get-map (s ∷ ss) zero = refl
get-map (s ∷ ss) (suc i) = get-map ss i

get-put_in :
    (u i : ℕ) (x : Row) (ss : List ShelfJson)
    → u ≤ length ss
    → get_elem? (put_in u x (map row_of ss)) i
      ≡ (if i == u then some x else map_row (get_elem? ss (if ltb u i then i - 1 else i)))
unfolding put_in
get-put_in zero zero x ss h = refl
get-put_in zero (suc i) x ss h = ground (arith, get-map ss i)
get-put_in (suc u) i x [] h = absurd (omega (arith, h))
get-put_in (suc u) zero x (s ∷ ss) h = ground arith
get-put_in (suc u) (suc zero) x (s ∷ ss) h =
    ground (arith, get-put_in u zero x ss (omega (arith, h)))
get-put_in (suc u) (suc (suc i)) x (s ∷ ss) h =
    ground (arith, get-put_in u (suc i) x ss (omega (arith, h)))

length-map : (ss : List ShelfJson) → length (map row_of ss) ≡ length ss
length-map [] = refl
length-map (s ∷ ss) = omega (arith, length-map ss)

get-none : (ss : List ShelfJson) (i : ℕ) → length ss ≤ i → get_elem? ss i ≡ none
get-none [] i h = refl
get-none (s ∷ ss) zero h = absurd (omega (arith, h))
get-none (s ∷ ss) (suc i) h = get-none ss i (omega (arith, h))

-- For every index the data of the model is the row of the shelves in which the next-up shelf, unless
-- it is empty, stands right behind the first shelf "continue-listening", or first when there is no such shelf; past the
-- last row there is none.
pub data_at-rows : (i : ℕ) (s : Shelves) → data_at i s ≡ get_elem? (rows s) i
unfolding data_at next_up_row shelf_row row_count
data_at-rows i s = ground (
  arith,
  rows-put_in s,
  get-map s.shelves i,
  get-none s.shelves i,
  get-none s.shelves (i - 1),
  row_after-bound 0 s.shelves,
  get-put_in (row_after 0 s.shelves) i (next_up_shelf s.next_up) s.shelves,
)
