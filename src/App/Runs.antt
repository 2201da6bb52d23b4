-- ===== src/App/Runs.antt =====
-- Runs of the theorems on the preferences, the log and the starts of the program.
use shelf_remote.Storage.Database.{Db}
use Prim.Native.Char.{code}
use shelf_remote.App.Start.Machine as Machine
use shelf_remote.App.Log.{log_all, log_line, rotate, Log}
use shelf_remote.App.Settings.{
  start, run, Numbers, IsReadBack, Change, next_rate, first_above, skip_is, rate_is, device_is,
  next_up_is,
}
use shelf_remote.App.Settings.Restart.{start-run, all_writable}
use shelf_remote.App.Start.Machine.{
  Event, launch, leave, run-at_most_one, at_rest, owner_alone, all_open,
}
use shelf_remote.App.Start.{no_answer, connected, handle}
use shelf_remote.Prelude.{
  ◌+ℤ◌, ℤ, String, ℕ, List, ◌≡◌, ◌≤◌, length, true, false, none, some, refl, [], ◌∷◌, zero, suc,
  pos, negsuc, ap, if◌then◌else◌, ◌==◌,
}

-- Numbers as strokes, with another letter in front of a negative one.
unfoldable strokes : ℕ → String
strokes zero = ""
strokes (suc n) = String.◌∷◌ "a" (strokes n)

unfoldable count_strokes : String → ℕ
count_strokes String.[] = 0
count_strokes (String.◌∷◌ c s) = suc (count_strokes s)

unfoldable show_number : ℤ → String
show_number (pos n) = strokes n
show_number (negsuc n) = String.◌∷◌ "b" (strokes n)

unfoldable read_number : String → ℤ
read_number String.[] = pos 0
read_number (String.◌∷◌ c s) =
    if code c == 98 then negsuc (count_strokes s) else pos (suc (count_strokes s))

count_strokes-strokes : (n : ℕ) → count_strokes (strokes n) ≡ n
unfolding count_strokes strokes
count_strokes-strokes zero = refl
count_strokes-strokes (suc n) = ap suc (count_strokes-strokes n)

read-show_number : (i : ℤ) → read_number (show_number i) ≡ i
unfolding read_number show_number strokes
read-show_number (pos zero) = refl
read-show_number (pos (suc n)) = ap (λ m. pos (suc m)) (count_strokes-strokes n)
read-show_number (negsuc n) = ap negsuc (count_strokes-strokes n)

abbrev in_strokes : Numbers
in_strokes = record {
  show_int = show_number;
  read_int = read_number;
  show_rate = show_number;
  read_rate = read_number;
}

in_strokes-IsReadBack : IsReadBack in_strokes
in_strokes-IsReadBack = record {
  int_back = read-show_number;
  rate_back = λ r k h. read-show_number r;
}

abbrev changes : List Change
changes = skip_is (pos 15) ∷ rate_is (pos 5) ∷ device_is "" ∷ next_up_is true ∷ []

abbrev no_rows : Db
no_rows = record { settings = []; secrets = []; server_rows = []; item_rows = [] }

start-run_example :
    start in_strokes (run in_strokes changes (start in_strokes no_rows)).db
    ≡ run in_strokes changes (start in_strokes no_rows)
start-run_example =
    start-run in_strokes changes no_rows in_strokes-IsReadBack (unfold all_writable in refl)

-- The rates come round.
rates : (next_rate (pos 1000) ≡ pos 1250) × (next_rate (pos 3000) ≡ pos 750)
unfolding next_rate first_above ◌+ℤ◌
rates = (refl, refl)

abbrev full_log : Log
full_log = record { file = some 1048570; backup = none }

-- A line that passes the limit turns the log over.
log_turns : log_all (100 ∷ 20 ∷ []) full_log ≡ record { file = some 20; backup = some 1048670 }
unfolding log_all log_line rotate
log_turns = refl

abbrev launches : List Event
launches =
    launch 1 true [] true
    ∷ launch 2 true (no_answer ∷ connected ∷ []) true
    ∷ leave 1
    ∷ launch 3 true [] false
    ∷ []

run-at_most_one_example :
    let m = Machine.run launches at_rest in
    (length m.running ≤ 1) × (m.running ≡ owner_alone m.owner)
run-at_most_one_example = run-at_most_one launches (unfold all_open in refl)

-- A callback of another program is left alone.
other_scheme :
    handle "jw6-shelfremote" (record { scheme = "https"; host = "oauth"; query_value = λ k. [] })
    ≡ none
unfolding handle
other_scheme = refl
