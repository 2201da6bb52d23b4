-- ===== src/Player/Timeline.antt =====
-- The global timeline of src/player/PlaybackSession.h and .cpp: the audio files of a book, one after
-- the other, and its chapters. All times are in milliseconds of the whole book. An index that the
-- source holds as an `int` with -1 for "none" is an `Option ℕ`.
pub mod Tracks
pub mod Chapters
pub mod Examples
use shelf_remote.Prelude.{
  ℕ, ◌+◌, ◌-◌, ◌≡◌, Bool, ◌&&◌, ◌||◌, Option, none, some, List, [], ◌∷◌, String, length, is_empty,
  if◌then◌else◌, ℤ, pos, negsuc, ◌+ℤ◌, ◌-ℤ◌, ltb_ℤ, leb_ℤ, min_ℤ, max_ℤ, neg_ℤ, Chars,
}

pub record Track : Type 0 where
  pub index : ℤ
  pub start_offset : ℤ
  pub duration : ℤ
  pub content_url : Chars
  pub mime_type : Chars

pub record Chapter : Type 0 where
  pub start : ℤ
  pub end : ℤ
  pub title : String

unfoldable pub track_has : ℤ → Track → Bool
track_has seconds t = leb_ℤ t.start_offset seconds && ltb_ℤ seconds (t.start_offset +ℤ t.duration)

-- The loop of `trackIndexForGlobal`, from index `i` on.
unfoldable pub find_track : ℤ → ℕ → List Track → Option ℕ
find_track seconds i [] = none
find_track seconds i (t ∷ ts) =
    if track_has seconds t then some i else find_track seconds (i + 1) ts

unfoldable pub track_index_for_global : List Track → ℤ → Option ℕ
track_index_for_global tracks seconds = elim (find_track seconds 0 tracks) [
  | some i ↦ some i
  | none ↦ if is_empty tracks then none else some (length tracks - 1)
]

-- `std::sort` by start offset. (Of tracks that start together the order is not specified there.)
unfoldable pub insert_track : Track → List Track → List Track
insert_track t [] = t ∷ []
insert_track t (u ∷ us) =
    if ltb_ℤ u.start_offset t.start_offset then u ∷ insert_track t us else t ∷ u ∷ us

unfoldable pub sort_tracks : List Track → List Track
sort_tracks [] = []
sort_tracks (t ∷ ts) = insert_track t (sort_tracks ts)

abbrev pub chapter_has : ℤ → Chapter → Bool
chapter_has seconds c = leb_ℤ c.start seconds && ltb_ℤ seconds c.end

-- The loop of `updateChapterForPosition`, from index `i` on.
unfoldable pub chapter_index_from : ℤ → ℕ → List Chapter → Option ℕ
chapter_index_from seconds i [] = none
chapter_index_from seconds i (c ∷ cs) =
    if chapter_has seconds c then some i else chapter_index_from seconds (i + 1) cs

-- One round of the loop of `chapterEndFor` on its variable `nextStart`.
unfoldable pub sooner_start : ℤ → ℤ → Chapter → ℤ
unfolding min_ℤ
sooner_start seconds next_start c =
    if ltb_ℤ seconds c.start then min_ℤ next_start c.start else next_start

unfoldable pub chapter_end_loop : ℤ → ℤ → List Chapter → ℤ
chapter_end_loop seconds next_start [] = next_start
chapter_end_loop seconds next_start (c ∷ cs) =
    if chapter_has seconds c
    then c.end
    else chapter_end_loop seconds (sooner_start seconds next_start c) cs

unfoldable pub chapter_end_for : ℤ → List Chapter → ℤ → ℤ
chapter_end_for duration chapters seconds = chapter_end_loop seconds duration chapters

-- The loop of `nextChapter`, with its variable `target`; -1 stands for "none".
unfoldable pub better_target : ℤ → ℤ → Chapter → ℤ
better_target position target c =
    if ltb_ℤ (position +ℤ pos 500) c.start && (ltb_ℤ target (pos 0) || ltb_ℤ c.start target)
    then c.start
    else target

unfoldable pub next_target : ℤ → ℤ → List Chapter → ℤ
next_target position target [] = target
next_target position target (c ∷ cs) = next_target position (better_target position target c) cs

-- The two loops of `previousChapter`.
unfoldable pub keep_current : ℤ → ℤ → Chapter → ℤ
unfolding max_ℤ
keep_current position current c =
    if leb_ℤ c.start (position +ℤ pos 500) then max_ℤ current c.start else current

unfoldable pub current_start : ℤ → ℤ → List Chapter → ℤ
current_start position current [] = current
current_start position current (c ∷ cs) =
    current_start position (keep_current position current c) cs

unfoldable pub keep_previous : ℤ → ℤ → Chapter → ℤ
unfolding max_ℤ
keep_previous current previous c =
    if ltb_ℤ c.start current then max_ℤ previous c.start else previous

unfoldable pub previous_start : ℤ → ℤ → List Chapter → ℤ
previous_start current previous [] = previous
previous_start current previous (c ∷ cs) =
    previous_start current (keep_previous current previous c) cs

-- Where `previousChapter` seeks to.
unfoldable pub previous_target : List Chapter → ℤ → ℤ
previous_target chapters position =
    let current = current_start position (pos 0) chapters in
    let previous = previous_start current (neg_ℤ (pos 1000)) chapters in
    if ltb_ℤ (pos 3000) (position -ℤ current) || ltb_ℤ previous (pos 0) then current else previous
