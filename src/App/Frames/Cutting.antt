-- ===== src/App/Frames/Cutting.antt =====
-- src/app/Application.cpp: a frame stands at the front of a buffer as it was written, and more bytes
-- behind it do not change that.
use shelf_remote.Prelude.{
  ap, subst, false, arith, [], ℕ, List, ◌≡◌, ◌/◌, ◌≤◌, ◌<◌, ◌∷◌, ◌==◌, ◌*◌, ◌++◌, ◌%◌, length, ◌||◌,
  ltb, length-append, ◌+◌, if_elim, length-drop, ◌∙◌, take, drop, take-append_le, take-append,
  drop-append, drop-append_le,
}
use shelf_remote.App.Frames.{Front, bad, whole, cut, front, Bytes, frame, max_frame_bytes}

-- A payload that a frame can carry.
abbrev pub IsSized : Bytes → Type 0
IsSized p = (0 < length p) × (length p ≤ max_frame_bytes)

-- The bytes of a list of payloads.
unfoldable pub stream : List Bytes → Bytes
stream [] = []
stream (p ∷ ps) = frame p ++ stream ps

pub whole-parts : (p q r s : Bytes) → whole p r ≡ whole q s → (p ≡ q) × (r ≡ s)
whole-parts p q r s h = (ground arith, ground arith)

cut-whole :
    (len : ℕ) (rest : Bytes)
    → (len == 0 || ltb max_frame_bytes len) ≡ false
    → len ≤ length rest
    → cut len rest ≡ whole (take len rest) (drop len rest)
unfolding cut
cut-whole len rest h le = let fits : ltb (length rest) len ≡ false = ground arith in rw (h, fits)

cut-append :
    (len : ℕ) (rest more p r : Bytes)
    → cut len rest ≡ whole p r
    → cut len (rest ++ more) ≡ whole p (r ++ more)
unfolding cut
cut-append len rest more p r =
    if_elim (λ (f : Front). f ≡ whole p r → cut len (rest ++ more) ≡ whole p (r ++ more))
      (len == 0 || ltb max_frame_bytes len) (λ _ e. absurd (ground arith))
      λ sized.
        if_elim (λ (f : Front). f ≡ whole p r → cut len (rest ++ more) ≡ whole p (r ++ more))
          (ltb (length rest) len) (λ _ e. absurd (ground arith))
          λ there e.
            let le : len ≤ length rest = ground (arith, there) in
            let le2 : len ≤ length (rest ++ more) = omega (arith, length-append rest more) in
            let parts = whole-parts _ _ _ _ e in
            cut-whole len (rest ++ more) sized le2
            ∙ ap (λ q. whole q (drop len (rest ++ more)))
                (take-append_le len rest more le ∙ parts.0)
            ∙ ap (whole p) (drop-append_le len rest more le ∙ ap (λ s. s ++ more) parts.1)

cut-bad : (len : ℕ) (rest more : Bytes) → cut len rest ≡ bad → cut len (rest ++ more) ≡ bad
unfolding cut
cut-bad len rest more h = ground arith

pub front-append :
    (b more p r : Bytes) → front b ≡ whole p r → front (b ++ more) ≡ whole p (r ++ more)
unfolding front
front-append [] more p r e = absurd (ground arith)
front-append (x ∷ []) more p r e = absurd (ground arith)
front-append (x ∷ y ∷ []) more p r e = absurd (ground arith)
front-append (x ∷ y ∷ z ∷ []) more p r e = absurd (ground arith)
front-append (x ∷ y ∷ z ∷ w ∷ rest) more p r e = cut-append _ rest more p r e

pub front-bad : (b more : Bytes) → front b ≡ bad → front (b ++ more) ≡ bad
unfolding front
front-bad [] more e = absurd (ground arith)
front-bad (x ∷ []) more e = absurd (ground arith)
front-bad (x ∷ y ∷ []) more e = absurd (ground arith)
front-bad (x ∷ y ∷ z ∷ []) more e = absurd (ground arith)
front-bad (x ∷ y ∷ z ∷ w ∷ rest) more e = cut-bad _ rest more e

cut-shrinks : (len : ℕ) (rest p r : Bytes) → cut len rest ≡ whole p r → length r ≤ length rest
unfolding cut
cut-shrinks len rest p r =
    if_elim (λ (f : Front). f ≡ whole p r → length r ≤ length rest)
      (len == 0 || ltb max_frame_bytes len) (λ _ e. absurd (ground arith))
      λ _.
        if_elim (λ (f : Front). f ≡ whole p r → length r ≤ length rest) (ltb (length rest) len)
          (λ _ e. absurd (ground arith))
          λ _ e.
            subst (λ s. length s ≤ length rest) (whole-parts _ _ _ _ e).1 (length-drop len rest)

pub front-shrinks : (b p r : Bytes) → front b ≡ whole p r → length r < length b
unfolding front
front-shrinks [] p r e = absurd (ground arith)
front-shrinks (x ∷ []) p r e = absurd (ground arith)
front-shrinks (x ∷ y ∷ []) p r e = absurd (ground arith)
front-shrinks (x ∷ y ∷ z ∷ []) p r e = absurd (ground arith)
front-shrinks (x ∷ y ∷ z ∷ w ∷ rest) p r e = omega (arith, cut-shrinks _ rest p r e)

abbrev header : ℕ → ℕ
header n = ((n / 16777216 * 256 + n / 65536 % 256) * 256 + n / 256 % 256) * 256 + n % 256

header_lem : (n : ℕ) → n ≤ 65536 → header (n % 4294967296) ≡ n
header_lem n h = omega arith

pub front-frame : (p s : Bytes) → IsSized p → front (frame p ++ s) ≡ whole p s
unfolding front frame
front-frame p s h =
    let fits : length p ≤ length (p ++ s) = omega (arith, length-append p s) in
    let sized : (length p == 0 || ltb max_frame_bytes (length p)) ≡ false = ground (arith, h) in
    ap (λ n. cut n (p ++ s)) (header_lem (length p) h.1)
    ∙ cut-whole (length p) (p ++ s) sized fits
    ∙ ap (λ q. whole q (drop (length p) (p ++ s))) (take-append p s)
    ∙ ap (whole p) (drop-append p s)
