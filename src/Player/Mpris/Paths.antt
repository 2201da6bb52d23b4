-- ===== src/Player/Mpris/Paths.antt =====
-- The object paths that src/player/MprisAdapter.cpp makes of the ids of an item and an episode.
use shelf_remote.Player.Mpris.{Utf8, to_hex, track_element, path_element, hex_digit}
use shelf_remote.Prelude.{
  true, false, [], ◌∷◌, refl, arith, sym, ℕ, List, Chars, Bool, is_empty, ◌≡◌, if◌then◌else◌, ltb,
  ◌<◌, ◌/◌, codes, leb, ◌%◌, ◌++◌, ◌==◌, ◌∙◌, ◌&&◌, not, ◌||◌, if_elim, append_nil,
}

-- What D-Bus allows in an element of an object path.
abbrev pub is_word : ℕ → Bool
is_word c =
    (leb b'0' c && leb c b'9')
    || (leb b'A' c && leb c b'Z')
    || (leb b'a' c && leb c b'z')
    || c == b'_'

unfoldable pub all_word : Chars → Bool
all_word [] = true
all_word (c ∷ cs) = is_word c && all_word cs

unfoldable pub all_bytes : List ℕ → Bool
all_bytes [] = true
all_bytes (b ∷ ys) = ltb b 256 && all_bytes ys

-- `toUtf8` gives bytes, and other bytes for another text.
pub record IsUtf8 (utf8 : Utf8) : Type 0 where
  pub bytes : (id : Chars) → all_bytes (utf8 id) ≡ true
  pub distinct : (a b : Chars) → utf8 a ≡ utf8 b → a ≡ b

digit_bound : (b : ℕ) → ltb b 256 ≡ true → (b / 16 < 16) × (b % 16 < 16)
digit_bound b h = ground arith

hex_digit_inj : (a b : ℕ) → a < 16 → b < 16 → hex_digit a ≡ hex_digit b → a ≡ b
hex_digit_inj a b h k e = ground arith

byte_of_digits : (a b : ℕ) → a / 16 ≡ b / 16 → a % 16 ≡ b % 16 → a ≡ b
byte_of_digits a b h k = omega arith

pub head_eq : (a b : ℕ) (xs ys : Chars) → a ∷ xs ≡ b ∷ ys → a ≡ b
head_eq a b xs ys h = ground (arith, h)

pub tail_eq : (a b : ℕ) (xs ys : Chars) → a ∷ xs ≡ b ∷ ys → xs ≡ ys
tail_eq a b xs ys h = ground (arith, h)

to_hex_inj :
    (xs ys : List ℕ) → all_bytes xs ≡ true → all_bytes ys ≡ true → to_hex xs ≡ to_hex ys → xs ≡ ys
unfolding to_hex all_bytes
to_hex_inj [] [] h k e = refl
to_hex_inj [] (b ∷ ys) h k e = absurd cc
to_hex_inj (a ∷ xs) [] h k e = absurd cc
to_hex_inj (a ∷ xs) (b ∷ ys) h k e =
    let (a1, a2) = digit_bound a (ground (arith, h)) in
    let (b1, b2) = digit_bound b (ground (arith, k)) in
    let rest = tail_eq (hex_digit (a / 16)) (hex_digit (b / 16)) _ _ e in
    let high = hex_digit_inj (a / 16) (b / 16) a1 b1 (head_eq _ _ _ _ e) in
    let low = hex_digit_inj (a % 16) (b % 16) a2 b2 (head_eq _ _ _ _ rest) in
    rw
      (
        byte_of_digits a b high low,
        to_hex_inj xs ys (ground (arith, h)) (ground (arith, k)) (tail_eq _ _ _ _ rest),
      )
      refl

-- Digits and small letters: no underscore.
abbrev is_plain : ℕ → Bool
is_plain c = is_word c && not (c == b'_')

all_plain : Chars → Bool
all_plain [] = true
all_plain (c ∷ cs) = is_plain c && all_plain cs

hex_digit-plain : (d : ℕ) → d < 16 → is_plain (hex_digit d) ≡ true
hex_digit-plain d h = ground arith

to_hex-plain : (ys : List ℕ) → all_bytes ys ≡ true → all_plain (to_hex ys) ≡ true
unfolding to_hex all_bytes all_plain
to_hex-plain [] h = refl
to_hex-plain (b ∷ ys) h =
    let (high, low) = digit_bound b (ground (arith, h)) in
    rw
      (
        hex_digit-plain (b / 16) high,
        hex_digit-plain (b % 16) low,
        to_hex-plain ys (ground (arith, h)),
      )
      refl

all_plain-word : (cs : Chars) → all_plain cs ≡ true → all_word cs ≡ true
unfolding all_plain all_word
all_plain-word [] h = refl
all_plain-word (c ∷ cs) h = ground (arith, h, all_plain-word cs)

all_word-append :
    (xs ys : Chars) → all_word xs ≡ true → all_word ys ≡ true → all_word (xs ++ ys) ≡ true
unfolding all_word
all_word-append [] ys h k = k
all_word-append (a ∷ xs) ys h k = ground (arith, h, all_word-append xs ys)

-- Nothing, or an underscore first.
abbrev is_suffix : Chars → Bool
is_suffix [] = true
is_suffix (c ∷ cs) = c == b'_'

plain_split :
    (xs ys s t : Chars)
    → all_plain xs ≡ true
    → all_plain ys ≡ true
    → is_suffix s ≡ true
    → is_suffix t ≡ true
    → xs ++ s ≡ ys ++ t
    → (xs ≡ ys) × (s ≡ t)
unfolding all_plain
plain_split [] [] s t h k u v e = (refl, e)
plain_split [] (b ∷ ys) [] t h k u v e = absurd cc
plain_split [] (b ∷ ys) (c ∷ s) t h k u v e = absurd (ground (arith, k, u, head_eq _ _ _ _ e))
plain_split (a ∷ xs) [] s [] h k u v e = absurd cc
plain_split (a ∷ xs) [] s (c ∷ t) h k u v e = absurd (ground (arith, h, v, head_eq _ _ _ _ e))
plain_split (a ∷ xs) (b ∷ ys) s t h k u v e =
    let (front, back) =
      plain_split xs ys s t (ground (arith, h)) (ground (arith, k)) u v (tail_eq _ _ _ _ e) in
    (rw (head_eq _ _ _ _ e, front) refl, back)

module _ (utf8 : Utf8) (u : IsUtf8 utf8) where
  abbrev item_part : Chars → Chars
  item_part item = if is_empty item then codes "none" else b'i' ∷ path_element utf8 item

  abbrev episode_part : Chars → Chars
  episode_part episode = if is_empty episode then [] else codes "_e" ++ path_element utf8 episode

  parts :
      (item episode : Chars)
      → track_element utf8 item episode ≡ item_part item ++ episode_part episode
  unfolding track_element
  parts item episode =
      if_elim (λ cs. cs ≡ item_part item ++ episode_part episode) (is_empty episode)
        (λ e. rw e (sym (append_nil (item_part item)))) λ e. rw e refl

  path_element_inj : (a b : Chars) → path_element utf8 a ≡ path_element utf8 b → a ≡ b
  unfolding path_element
  path_element_inj a b h = u.distinct a b (to_hex_inj (utf8 a) (utf8 b) (u.bytes a) (u.bytes b) h)

  path_element-plain : (a : Chars) → all_plain (path_element utf8 a) ≡ true
  unfolding path_element
  path_element-plain a = to_hex-plain (utf8 a) (u.bytes a)

  item_part-plain : (item : Chars) → all_plain (item_part item) ≡ true
  unfolding all_plain
  item_part-plain [] = refl
  item_part-plain (c ∷ cs) = rw (path_element-plain (c ∷ cs)) refl

  episode_part-suffix : (episode : Chars) → is_suffix (episode_part episode) ≡ true
  episode_part-suffix [] = refl
  episode_part-suffix (c ∷ cs) = refl

  item_part_inj : (a b : Chars) → item_part a ≡ item_part b → a ≡ b
  item_part_inj [] [] h = refl
  item_part_inj [] (b ∷ ys) h = absurd (ground (arith, head_eq _ _ _ _ h))
  item_part_inj (a ∷ xs) [] h = absurd (ground (arith, head_eq _ _ _ _ h))
  item_part_inj (a ∷ xs) (b ∷ ys) h = path_element_inj (a ∷ xs) (b ∷ ys) (tail_eq _ _ _ _ h)

  episode_part_inj : (a b : Chars) → episode_part a ≡ episode_part b → a ≡ b
  episode_part_inj [] [] h = refl
  episode_part_inj [] (b ∷ ys) h = absurd cc
  episode_part_inj (a ∷ xs) [] h = absurd cc
  episode_part_inj (a ∷ xs) (b ∷ ys) h =
      path_element_inj (a ∷ xs) (b ∷ ys) (tail_eq _ _ _ _ (tail_eq _ _ _ _ h))

  pub track_element_inj :
      (a b c d : Chars) → track_element utf8 a b ≡ track_element utf8 c d → (a ≡ c) × (b ≡ d)
  track_element_inj a b c d h =
      let (front, back) =
        plain_split (item_part a) (item_part c) (episode_part b) (episode_part d)
          (item_part-plain a) (item_part-plain c) (episode_part-suffix b) (episode_part-suffix d)
          (sym (parts a b) ∙ h ∙ parts c d) in
      (item_part_inj a c front, episode_part_inj b d back)

  episode_part-word : (episode : Chars) → all_word (episode_part episode) ≡ true
  unfolding all_word
  episode_part-word [] = refl
  episode_part-word (c ∷ cs) =
      rw (all_plain-word (path_element utf8 (c ∷ cs)) (path_element-plain (c ∷ cs))) refl

  item_part-some : (item rest : Chars) → is_empty (item_part item ++ rest) ≡ false
  item_part-some [] rest = refl
  item_part-some (c ∷ cs) rest = refl

-- Whatever the ids of an item and an episode are, the last element of the object path is made of the
-- letters, digits and underscores that D-Bus allows, and it is not empty. `toUtf8` gives bytes.
pub track_element-IsWord :
    (utf8 : Utf8) (item episode : Chars)
    → IsUtf8 utf8
    → (all_word (track_element utf8 item episode) ≡ true)
      × (is_empty (track_element utf8 item episode) ≡ false)
track_element-IsWord utf8 item episode u = (
  rw (parts utf8 u item episode) (
      all_word-append (item_part utf8 u item) (episode_part utf8 u episode)
        (all_plain-word (item_part utf8 u item) (item_part-plain utf8 u item))
        (episode_part-word utf8 u episode)),
  rw (parts utf8 u item episode) (item_part-some utf8 u item (episode_part utf8 u episode)),
)
