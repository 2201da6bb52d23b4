-- ===== src/Prelude/Text.antt =====
-- Texts, and dictionaries keyed by a text (`QHash<QString, V>`) as association lists.
use Prim.Native.Nat.{ℕ}
use Prim.Native.Char.{Char, code}
use Prim.Native.String.append
use Prim.Native.String.{String, ◌++◌ as join}
use mathlib.Core.Path.{◌≡◌, refl, ap, ◌∙◌}
use mathlib.Core.Bool.{Bool, true, false, not, ◌&&◌, ◌||◌}
use mathlib.Core.Option.{Option, none, some}
use mathlib.Core.List.{List, [], ◌∷◌, ◌++◌}
use native.Mathlib.Omega.{arith}
use text.Mathlib.Text.{◌==◌ as str_eq}
use text.Mathlib.TextEquality.{eq_iff, Char-path}
use shelf_remote.Prelude.Tests.{if◌then◌else◌, ◌==◌}

abbrev pub is_blank : String → Bool
is_blank s = str_eq s ""

pub blank_self : is_blank "" ≡ true
blank_self = refl

-- `QSet<QString>::contains`.
unfoldable pub contains : List String → String → Bool
contains [] k = false
contains (j ∷ js) k = str_eq j k || contains js k

unfoldable pub remove_key : String → List String → List String
remove_key k [] = []
remove_key k (j ∷ js) = if str_eq j k then remove_key k js else j ∷ remove_key k js

pub contains-remove_key : (k : String) (js : List String) → contains (remove_key k js) k ≡ false
unfolding contains remove_key
contains-remove_key k [] = refl
contains-remove_key k (j ∷ js) = ground (arith, contains-remove_key k js)

pub contains-remove_key_ne :
    (k i : String) (js : List String)
    → str_eq k i ≡ false
    → contains (remove_key k js) i ≡ contains js i
unfolding contains remove_key
contains-remove_key_ne k i [] h = refl
contains-remove_key_ne k i (j ∷ js) h =
    ground (arith, eq_iff k i, eq_iff j k, eq_iff j i, contains-remove_key_ne k i js h)

module _ {ℓ} {V : Type ℓ} where
  -- `QHash::remove`.
  unfoldable pub erase : String → List (String × V) → List (String × V)
  erase key [] = []
  erase key ((k, value) ∷ rest) =
      if str_eq k key then erase key rest else (k, value) ∷ erase key rest

  -- `QHash::find`.
  unfoldable pub lookup : String → List (String × V) → Option V
  lookup key [] = none
  lookup key ((k, value) ∷ rest) = if str_eq k key then some value else lookup key rest

  -- `QHash::insert`: replaces the value of a key that is there.
  unfoldable pub insert : String → V → List (String × V) → List (String × V)
  insert key new [] = (key, new) ∷ []
  insert key new ((k, old) ∷ rest) =
      if str_eq k key then (key, new) ∷ rest else (k, old) ∷ insert key new rest

  pub lookup-erase :
      (key other : String) (m : List (String × V))
      → lookup other (erase key m) ≡ (if str_eq key other then none else lookup other m)
  unfolding lookup erase
  lookup-erase key other [] = ground arith
  lookup-erase key other ((k, value) ∷ rest) =
      ground (arith, lookup-erase key other rest, eq_iff k other, eq_iff k key, eq_iff key other)

  pub lookup-insert :
      (key other : String) (new : V) (m : List (String × V))
      → lookup other (insert key new m) ≡ (if str_eq key other then some new else lookup other m)
  unfolding insert lookup
  lookup-insert key other new [] = refl
  lookup-insert key other new ((k, old) ∷ rest) =
      ground
        (arith, lookup-insert key other new rest, eq_iff k other, eq_iff k key, eq_iff key other)

  abbrev pub has_key : String → List (String × V) → Bool
  has_key key m = elim (lookup key m) [ none ↦ false | some value ↦ true ]

  -- No key occurs twice.
  unfoldable pub is_unique : List (String × V) → Bool
  is_unique [] = true
  is_unique ((key, value) ∷ rest) = not (has_key key rest) && is_unique rest

  pub is_unique-insert :
      (key : String) (new : V) (m : List (String × V))
      → is_unique m ≡ true
      → is_unique (insert key new m) ≡ true
  unfolding is_unique insert lookup
  is_unique-insert key new [] h = refl
  is_unique-insert key new ((k, old) ∷ rest) h = ground (
    arith,
    h,
    is_unique-insert key new rest,
    lookup-insert key k new rest,
    eq_iff k key,
    eq_iff key k,
    eq_iff key key,
  )

  pub is_unique-erase :
      (key : String) (m : List (String × V)) → is_unique m ≡ true → is_unique (erase key m) ≡ true
  unfolding is_unique erase
  is_unique-erase key [] h = refl
  is_unique-erase key ((k, old) ∷ rest) h =
      ground (arith, h, is_unique-erase key rest, lookup-erase key k rest)

-- A text that the program takes apart is the list of its code points.
abbrev pub Chars : Type 0
Chars = List ℕ

abbrev pub codes : String → Chars
codes String.[] = []
codes (String.◌∷◌ c s) = code c ∷ codes s

pub codes-append : (s t : String) → codes (join s t) ≡ codes s ++ codes t
codes-append String.[] t = ap codes (append.nil t)
codes-append (String.◌∷◌ c s) t =
    ap codes (append.cons c s t) ∙ ap (λ cs. code c ∷ cs) (codes-append s t)

text_cons : (c d : Char) (s t : String) → c ≡ d → s ≡ t → String.◌∷◌ c s ≡ String.◌∷◌ d t
text_cons c d s t h k = rw (h, k)

pub codes_inj : (s t : String) → codes s ≡ codes t → s ≡ t
codes_inj String.[] String.[] h = refl
codes_inj String.[] (String.◌∷◌ c t) h = absurd cc
codes_inj (String.◌∷◌ c s) String.[] h = absurd cc
codes_inj (String.◌∷◌ c s) (String.◌∷◌ d t) h =
    text_cons c d s t (Char-path c d (ground (arith, h))) (codes_inj s t (ground (arith, h)))

-- `QString::startsWith` and `QString::contains`.
unfoldable pub is_prefix : Chars → Chars → Bool
is_prefix [] s = true
is_prefix (c ∷ cs) [] = false
is_prefix (c ∷ cs) (d ∷ ds) = c == d && is_prefix cs ds

pub is_infix : Chars → Chars → Bool
is_infix t [] = is_prefix t []
is_infix t (c ∷ s) = is_prefix t (c ∷ s) || is_infix t s
