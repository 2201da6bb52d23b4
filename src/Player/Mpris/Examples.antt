-- ===== src/Player/Mpris/Examples.antt =====
-- Runs of the theorems on D-Bus.
use shelf_remote.Player.Examples.{listening_player-IsValid}
use shelf_remote.Player.Fixture.{listening_player}
use shelf_remote.Player.Mpris.Paths.{
  all_bytes, IsUtf8, all_word, tail_eq, head_eq, track_element-IsWord,
}
use shelf_remote.Player.Mpris.{
  track_object_path, set_position, track_element, replace_dots, path_element, to_hex,
}
use shelf_remote.Player.Mpris.Calls.{
  set_position-other_track, set_position-lands, IsWithin, IsMillisecondOf,
}
use shelf_remote.Player.Events.{step, seek_to}
use shelf_remote.Prelude.{
  true, false, [], ◌∷◌, refl, arith, ◌≡◌, ap, zero, suc, pos, List, Chars, ℕ, is_empty, codes, same,
}

-- An encoding in bytes that keeps texts apart: every code point in ones, with a zero after it.
unfoldable ones : ℕ → List ℕ → List ℕ
ones zero rest = 0 ∷ rest
ones (suc n) rest = 1 ∷ ones n rest

unfoldable in_ones : Chars → List ℕ
in_ones [] = []
in_ones (c ∷ cs) = ones c (in_ones cs)

ones-bytes : (n : ℕ) (rest : List ℕ) → all_bytes rest ≡ true → all_bytes (ones n rest) ≡ true
unfolding ones all_bytes
ones-bytes zero rest h = h
ones-bytes (suc n) rest h = ones-bytes n rest h

in_ones-bytes : (id : Chars) → all_bytes (in_ones id) ≡ true
unfolding in_ones all_bytes
in_ones-bytes [] = refl
in_ones-bytes (c ∷ cs) = ones-bytes c (in_ones cs) (in_ones-bytes cs)

ones_inj : (m n : ℕ) (xs ys : List ℕ) → ones m xs ≡ ones n ys → (m ≡ n) × (xs ≡ ys)
unfolding ones
ones_inj zero zero xs ys h = (refl, tail_eq 0 0 xs ys h)
ones_inj zero (suc n) xs ys h = absurd (ground (arith, head_eq _ _ _ _ h))
ones_inj (suc m) zero xs ys h = absurd (ground (arith, head_eq _ _ _ _ h))
ones_inj (suc m) (suc n) xs ys h =
    let (e, f) = ones_inj m n xs ys (tail_eq _ _ _ _ h) in (ap suc e, f)

ones_some : (n : ℕ) (rest : List ℕ) → is_empty (ones n rest) ≡ false
unfolding ones
ones_some zero rest = refl
ones_some (suc n) rest = refl

in_ones_inj : (a b : Chars) → in_ones a ≡ in_ones b → a ≡ b
unfolding in_ones
in_ones_inj [] [] h = refl
in_ones_inj [] (d ∷ ds) h = absurd (ground (arith, ap is_empty h, ones_some d (in_ones ds)))
in_ones_inj (c ∷ cs) [] h = absurd (ground (arith, ap is_empty h, ones_some c (in_ones cs)))
in_ones_inj (c ∷ cs) (d ∷ ds) h =
    let (e, f) = ones_inj c d (in_ones cs) (in_ones ds) h in rw (e, in_ones_inj cs ds f) refl

in_ones-IsUtf8 : IsUtf8 in_ones
in_ones-IsUtf8 = record { bytes = in_ones-bytes; distinct = in_ones_inj }

abbrev app : Chars
app = codes "com.jw6ventures.ShelfRemote"

-- Another encoding, for a path that can be read: the bytes of a text of ASCII are its code points.
path_of_item :
    track_object_path (λ id. id) app (record listening_player { item_id = codes "b-1" })
    ≡ codes "/com/jw6ventures/ShelfRemote/track/i622d31"
unfolding track_object_path replace_dots track_element path_element to_hex
path_of_item = refl

track_element-IsWord_example :
    (all_word (track_element in_ones (codes "b-1") (codes "e/2")) ≡ true)
    × (is_empty (track_element in_ones (codes "b-1") (codes "e/2")) ≡ false)
track_element-IsWord_example =
    track_element-IsWord in_ones (codes "b-1") (codes "e/2") in_ones-IsUtf8

set_position-other_track_example :
    set_position in_ones app
      (track_object_path in_ones app (record listening_player { item_id = codes "other" }))
      (pos 5000000)
      listening_player
    ≡ listening_player
set_position-other_track_example =
    set_position-other_track in_ones app (pos 5000000)
      (record listening_player { item_id = codes "other" }) listening_player in_ones-IsUtf8
      (unfold same in refl)

set_position-lands_example :
    let q =
      set_position in_ones app
        (track_object_path in_ones app listening_player)
        (pos 70000500)
        listening_player in
    (IsWithin (pos 70000500) listening_player
      → IsMillisecondOf (pos 70000500) q.global_position
        × (q.seek_sync_timer ≡ true)
        × (q ≡ step (seek_to q.global_position) listening_player))
    × (¬ IsWithin (pos 70000500) listening_player → q ≡ listening_player)
set_position-lands_example =
    set_position-lands in_ones app (pos 70000500) listening_player listening_player-IsValid refl
