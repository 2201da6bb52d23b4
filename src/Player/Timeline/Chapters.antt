-- ===== src/Player/Timeline/Chapters.antt =====
-- Which chapter a position falls into, and where the chapter keys go.
use shelf_remote.Prelude.{
  ℕ, zero, suc, ◌+◌, ◌≡◌, refl, ◌⊎◌, inl, inr, Option, none, some, List, [], ◌∷◌, arith, get_elem?,
  Bool-cases, ℤ, pos, negsuc, ◌+ℤ◌, ◌≤ℤ◌, ◌<ℤ◌, All, subst, sym,
}
use shelf_remote.Player.Timeline.{
  Chapter, chapter_has, chapter_index_from, chapter_end_loop, chapter_end_for, next_target,
  better_target, sooner_start,
}

-- The index that `updateChapterForPosition` finds and the end that `chapterEndFor` gives are of one
-- chapter.
abbrev EndsWith : ℤ → List Chapter → ℕ → Option ℕ → ℤ → Type 0
EndsWith seconds cs k none end = Unit {0}
EndsWith seconds cs k (some j) end =
    (i : ℕ) × (c : Chapter) × (j ≡ k + i)
    × (get_elem? cs i ≡ some c)
    × (end ≡ c.end)
    × (c.start ≤ℤ seconds)
    × (seconds <ℤ c.end)

chapter_end_loop-EndsWith :
    (s nxt : ℤ) (k : ℕ) (cs : List Chapter)
    → EndsWith s cs k (chapter_index_from s k cs) (chapter_end_loop s nxt cs)
unfolding chapter_index_from chapter_end_loop
chapter_end_loop-EndsWith s nxt k [] = tt
chapter_end_loop-EndsWith s nxt k (c ∷ cs) = elim (Bool-cases (chapter_has s c)) [
  | inl hit ↦ rw hit (zero, c, omega arith, refl, refl, ground arith, ground arith)
  | inr miss ↦
      let nxt' = sooner_start s nxt c in
      rw miss (
        later (chapter_index_from s (k + 1) cs) (chapter_end_loop s nxt' cs)
          (chapter_end_loop-EndsWith s nxt' (k + 1) cs))
]
  where
    later : (o : Option ℕ) (e : ℤ) → EndsWith s cs (k + 1) o e → EndsWith s (c ∷ cs) k o e
    later none e h = tt
    later (some j) e h = (suc h.0, h.1, omega arith, h.3, h.4, h.5, h.6)

-- Inside a chapter, "end of chapter" is the end of that chapter: the one whose index the position
-- has.
pub chapter_end_inside :
    (duration seconds : ℤ) (cs : List Chapter) (i : ℕ)
    → chapter_index_from seconds 0 cs ≡ some i
    → (c : Chapter) × (get_elem? cs i ≡ some c)
      × (chapter_end_for duration cs seconds ≡ c.end)
      × (c.start ≤ℤ seconds)
      × (seconds <ℤ c.end)
unfolding chapter_end_for
chapter_end_inside duration seconds cs i e =
    let h : EndsWith seconds cs 0 (some i) (chapter_end_loop seconds duration cs) =
      rw e at (chapter_end_loop-EndsWith seconds duration 0 cs) in
    (h.1, ground arith, h.4, h.5, h.6)

-- Between chapters it is the first chapter start after the position, or the end of the book.
abbrev pub StartsFrom : ℤ → ℤ → List Chapter → Type 0
StartsFrom seconds end = All λ c. seconds <ℤ c.start → end ≤ℤ c.start

abbrev pub IsStart : ℤ → List Chapter → Type 0
IsStart x [] = ⊥
IsStart x (c ∷ cs) = (x ≡ c.start) ⊎ IsStart x cs

abbrev Ends : ℤ → ℤ → List Chapter → ℤ → Type 0
Ends s nxt cs end =
    (end ≤ℤ nxt) × StartsFrom s end cs × ((end ≡ nxt) ⊎ (IsStart end cs × (s <ℤ end)))

Ends-cons :
    (s nxt end : ℤ) (c : Chapter) (cs : List Chapter)
    → Ends s (sooner_start s nxt c) cs end
    → Ends s nxt (c ∷ cs) end
unfolding sooner_start
Ends-cons s nxt end c cs (a, b, d) = (ground arith, (λ h. ground arith, b), ground arith)

chapter_end_loop-Ends :
    (s nxt : ℤ) (k : ℕ) (cs : List Chapter)
    → chapter_index_from s k cs ≡ none
    → Ends s nxt cs (chapter_end_loop s nxt cs)
unfolding chapter_index_from chapter_end_loop
chapter_end_loop-Ends s nxt k [] e = (omega arith, tt, inl refl)
chapter_end_loop-Ends s nxt k (c ∷ cs) e = elim (Bool-cases (chapter_has s c)) [
  | inl hit ↦ absurd (ground arith)
  | inr miss ↦ subst (Ends s nxt (c ∷ cs)) (sym (rw miss)) (
      Ends-cons s nxt (chapter_end_loop s (sooner_start s nxt c) cs) c cs
        (chapter_end_loop-Ends s (sooner_start s nxt c) (k + 1) cs (rw miss at e)))
]

-- Outside every chapter, "end of chapter" is the earliest chapter start after the position, and
-- the end of the book when no chapter starts between the position and the end of the book.
pub chapter_end_outside :
    (duration seconds : ℤ) (cs : List Chapter)
    → chapter_index_from seconds 0 cs ≡ none
    → let end = chapter_end_for duration cs seconds in
      (end ≤ℤ duration)
      × StartsFrom seconds end cs
      × ((end ≡ duration) ⊎ (IsStart end cs × (seconds <ℤ end)))
unfolding chapter_end_for
chapter_end_outside duration seconds cs e = chapter_end_loop-Ends seconds duration 0 cs e

-- The start lies more than half a second after the position.
abbrev pub IsAfter : ℤ → ℤ → Type 0
IsAfter position start = position +ℤ pos 500 <ℤ start

abbrev pub Nonneg : List Chapter → Type 0
Nonneg = All λ c. pos 0 ≤ℤ c.start

-- No chapter starts after the position and before `target`.
abbrev pub IsNext : ℤ → ℤ → List Chapter → Type 0
IsNext position target = All λ c. IsAfter position c.start → target ≤ℤ c.start

-- `target` is what the loop of `nextChapter` makes of the chapters when it begins with `from`.
abbrev Improves : ℤ → ℤ → List Chapter → ℤ → Type 0
Improves p from cs r =
    ((r <ℤ pos 0) × (from <ℤ pos 0) × All (λ c. ¬ IsAfter p c.start) cs)
    ⊎ ((pos 0 ≤ℤ r)
        × (pos 0 ≤ℤ from → r ≤ℤ from)
        × IsNext p r cs
        × ((r ≡ from) ⊎ (IsStart r cs × IsAfter p r)))

Improves-cons :
    (p from r : ℤ) (c : Chapter) (cs : List Chapter)
    → pos 0 ≤ℤ c.start
    → Improves p (better_target p from c) cs r
    → Improves p from (c ∷ cs) r
unfolding better_target
Improves-cons p from r c cs n (inl (a, b, d)) = inl (a, ground arith, (λ h. ground arith, d))
Improves-cons p from r c cs n (inr (a, b, d, e)) =
    inr (a, ground arith, (λ h. ground arith, d), ground arith)

next_target-Improves :
    (p from : ℤ) (cs : List Chapter) → Nonneg cs → Improves p from cs (next_target p from cs)
unfolding next_target
next_target-Improves p from [] n = ground arith
next_target-Improves p from (c ∷ cs) n =
    Improves-cons p from _ c cs n.0 (next_target-Improves p (better_target p from c) cs n.1)

-- When no chapter starts before 0, the target of `nextChapter` is the earliest chapter start more
-- than half a second after the position, and negative exactly when there is no such start.
pub next_target_earliest :
    (position : ℤ) (cs : List Chapter)
    → Nonneg cs
    → let r = next_target position (negsuc 999) cs in
      ((r <ℤ pos 0) × All (λ c. ¬ IsAfter position c.start) cs)
      ⊎ ((pos 0 ≤ℤ r) × IsNext position r cs × IsStart r cs × IsAfter position r)
next_target_earliest position cs n = elim (next_target-Improves position (negsuc 999) cs n) [
  | inl (a, b, d) ↦ inl (a, d)
  | inr (a, b, d, e) ↦ elim e [ inl same ↦ absurd (ground arith) | inr (f, g) ↦ inr (a, d, f, g) ]
]
