-- ===== src/Storage/Database/Keys.antt =====
-- The keys "<server>/<name>" of the rows that src/storage/Database.cpp keeps for a server, whose own
-- key is a hexadecimal hash.
use shelf_remote.Storage.Database.Items.{like, any_tail, like_one, of_server, fold_case}
use shelf_remote.Prelude.{
  refl, inl, inr, sym, ap, true, false, arith, [], ℕ, String, same, Chars, Bool, ◌∷◌, join, codes,
  ◌≡◌, leb, ◌==◌, ◌++◌, str_eq, ◌&&◌, ◌∙◌, Bool-cases, ◌||◌, codes-append, eq_iff, codes_inj,
  same-eq, same-false,
}

abbrev pub key_of : String → String → String
key_of server name = join server (join "/" name)

abbrev hex_digit : ℕ → Bool
hex_digit c = (leb b'0' c && leb c b'9') || (leb b'a' c && leb c b'f')

unfoldable pub is_hex : Chars → Bool
is_hex [] = true
is_hex (c ∷ cs) = hex_digit c && is_hex cs

like_all : (s : Chars) → any_tail (like []) s ≡ true
unfolding any_tail like
like_all [] = refl
like_all (d ∷ ds) = like_all ds

digit_not_slash : (c : ℕ) → hex_digit c ≡ true → (b'/' == fold_case c) ≡ false
digit_not_slash c h = ground arith

slash_not_digit : (c : ℕ) → hex_digit c ≡ true → (c == b'_' || fold_case c == b'/') ≡ false
slash_not_digit c h = ground arith

digit_alone :
    (c d : ℕ)
    → hex_digit c ≡ true
    → hex_digit d ≡ true
    → (c == b'_' || fold_case c == fold_case d) ≡ (c == d)
digit_alone c d h k = ground arith

digit_not_percent : (c : ℕ) → hex_digit c ≡ true → (c == b'%') ≡ false
digit_not_percent c h = ground arith

first_digit : (c : ℕ) (cs : Chars) → is_hex (c ∷ cs) ≡ true → hex_digit c ≡ true
unfolding is_hex
first_digit c cs h = ground arith

other_digits : (c : ℕ) (cs : Chars) → is_hex (c ∷ cs) ≡ true → is_hex cs ≡ true
unfolding is_hex
other_digits c cs h = ground arith

like-same :
    (xs ys rest : Chars)
    → is_hex xs ≡ true
    → is_hex ys ≡ true
    → like (xs ++ codes "/%") (ys ++ b'/' ∷ rest) ≡ same xs ys
unfolding like like_one same
like-same [] [] rest h k = like_all rest
like-same [] (d ∷ ys) rest h k = rw (digit_not_slash d (first_digit d ys k)) refl
like-same (c ∷ xs) [] rest h k =
    rw (digit_not_percent c (first_digit c xs h), slash_not_digit c (first_digit c xs h)) refl
like-same (c ∷ xs) (d ∷ ys) rest h k =
    rw
      (
        digit_not_percent c (first_digit c xs h),
        digit_alone c d (first_digit c xs h) (first_digit d ys k),
        like-same xs ys rest (other_digits c xs h) (other_digits d ys k),
      )
      refl

same_split :
    (xs ys r s : Chars)
    → is_hex xs ≡ true
    → is_hex ys ≡ true
    → same (xs ++ b'/' ∷ r) (ys ++ b'/' ∷ s) ≡ (same xs ys && same r s)
unfolding same is_hex
same_split [] [] r s h k = refl
same_split [] (d ∷ ys) r s h k = ground arith
same_split (c ∷ xs) [] r s h k = ground arith
same_split (c ∷ xs) (d ∷ ys) r s h k =
    ground (arith, same_split xs ys r s (other_digits c xs h) (other_digits d ys k))

same-codes : (s t : String) → same (codes s) (codes t) ≡ str_eq s t
same-codes s t = elim (Bool-cases (same (codes s) (codes t))) [
  | inl e ↦ ground (arith, eq_iff s t, codes_inj s t (same-eq (codes s) (codes t) e))
  | inr e ↦ elim (Bool-cases (str_eq s t)) [
    | inl f ↦ absurd (same-false (codes s) (codes t) e (ap codes ((eq_iff s t).0 f)))
    | inr f ↦ e ∙ sym f
  ]
]

codes-key_of :
    (server name : String) → codes (key_of server name) ≡ codes server ++ b'/' ∷ codes name
codes-key_of server name =
    codes-append server (join "/" name) ∙ ap (λ cs. codes server ++ cs) (codes-append "/" name)

-- The rows of a server are the ones whose key begins with its own.
pub of_server-key_of :
    (s t name : String)
    → is_hex (codes s) ≡ true
    → is_hex (codes t) ≡ true
    → of_server s (key_of t name) ≡ str_eq s t
of_server-key_of s t name h k =
    rw (codes-append s "/%", codes-key_of t name)
      (like-same (codes s) (codes t) (codes name) h k ∙ same-codes s t)

pub key_of_inj :
    (s t name other : String)
    → is_hex (codes s) ≡ true
    → is_hex (codes t) ≡ true
    → str_eq (key_of s name) (key_of t other) ≡ (str_eq s t && str_eq name other)
key_of_inj s t name other h k =
    sym (same-codes (key_of s name) (key_of t other))
    ∙ rw (codes-key_of s name, codes-key_of t other, ← same-codes s t, ← same-codes name other)
        (same_split (codes s) (codes t) (codes name) (codes other) h k)
