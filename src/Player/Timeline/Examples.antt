-- ===== src/Player/Timeline/Examples.antt =====
-- Runs of the theorems on files and chapters.
use shelf_remote.Prelude.{refl, none, some, pos, [], List, ◌≡◌, ◌∷◌}
use shelf_remote.Player.Timeline.{Track, Chapter, chapter_index_from}

abbrev file : Track
file = record {
  index = pos 1;
  start_offset = pos 0;
  duration = pos 60000;
  content_url = [];
  mime_type = [];
}

abbrev files : List Track
files = file ∷ record file { index = pos 2; start_offset = pos 60000 } ∷ []

abbrev parts : List Chapter
parts =
    (record { start = pos 10; end = pos 50000; title = "One" })
    ∷ (record { start = pos 60000; end = pos 120000; title = "Two" })
    ∷ []

second_part : chapter_index_from (pos 70000) 0 parts ≡ some 1
unfolding chapter_index_from
second_part = refl

between_parts : chapter_index_from (pos 55000) 0 parts ≡ none
unfolding chapter_index_from
between_parts = refl
