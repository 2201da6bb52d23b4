-- ===== src/Player/Timeline/Tracks.antt =====
-- Which file a position falls into.
use shelf_remote.Prelude.{
  ℕ, zero, suc, ◌+◌, ◌<◌, ◌≡◌, refl, ◌⊎◌, inl, inr, true, Option, none, some, List, [], ◌∷◌, arith,
  length, Bool-cases, ℤ, ◌+ℤ◌, ◌≤ℤ◌, ◌<ℤ◌, All,
}
use shelf_remote.Player.Timeline.{Track, track_has, find_track, track_index_for_global}

-- The position lies in the file.
abbrev pub Covers : ℤ → Track → Type 0
Covers seconds t = (t.start_offset ≤ℤ seconds) × (seconds <ℤ t.start_offset +ℤ t.duration)

track_has_iff_true : (s : ℤ) (t : Track) → track_has s t ≡ true → Covers s t
unfolding track_has
track_has_iff_true s t h = ground arith

track_has_of_Covers : (s : ℤ) (t : Track) → Covers s t → track_has s t ≡ true
unfolding track_has
track_has_of_Covers s t h = ground arith

-- Entry `i` covers the position, and no entry before it does.
abbrev pub IsFirst : ℤ → ℕ → List Track → Type 0
IsFirst seconds i [] = ⊥
IsFirst seconds zero (t ∷ ts) = Covers seconds t
IsFirst seconds (suc i) (t ∷ ts) = (¬ Covers seconds t) × IsFirst seconds i ts

abbrev pub Uncovered : ℤ → List Track → Type 0
Uncovered seconds = All λ t. ¬ Covers seconds t

abbrev Found : ℤ → ℕ → List Track → Option ℕ → Type 0
Found seconds k ts r =
    ((i : ℕ) × (r ≡ some (k + i)) × IsFirst seconds i ts × (i < length ts))
    ⊎ ((r ≡ none) × Uncovered seconds ts)

find_track-Found : (s : ℤ) (k : ℕ) (ts : List Track) → Found s k ts (find_track s k ts)
unfolding find_track
find_track-Found s k [] = inr (refl, tt)
find_track-Found s k (t ∷ ts) = elim (Bool-cases (track_has s t)) [
  | inl hit ↦ inl (zero, ground arith, track_has_iff_true s t hit, omega arith)
  | inr miss ↦ elim (find_track-Found s (k + 1) ts) [
    | inl (i, e, first, lt) ↦
        inl (
          suc i,
          ground arith,
          (λ c. ground (arith, track_has_of_Covers s t c), first),
          omega arith,
        )
    | inr (e, rest) ↦ inr (ground arith, (λ c. ground (arith, track_has_of_Covers s t c), rest))
  ]
]

-- `trackIndexForGlobal` gives the first file that covers the position, and the last file when
-- none does; only a book without files has no index.
pub track_index_for_global_lem :
    (ts : List Track) (seconds : ℤ)
    → ((track_index_for_global ts seconds ≡ none) × (ts ≡ []))
      ⊎ ((i : ℕ) × (track_index_for_global ts seconds ≡ some i)
          × (i < length ts)
          × (IsFirst seconds i ts ⊎ (Uncovered seconds ts × (i + 1 ≡ length ts))))
unfolding track_index_for_global
track_index_for_global_lem [] seconds = inl (unfold find_track in refl, refl)
track_index_for_global_lem (t ∷ ts) seconds = elim (find_track-Found seconds 0 (t ∷ ts)) [
  | inl (i, e, first, lt) ↦ inr (i, ground arith, lt, inl first)
  | inr (e, rest) ↦ inr (length ts, ground arith, omega arith, inr (rest, omega arith))
]
