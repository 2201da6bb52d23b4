-- ===== src/Player/Syncer/Examples.antt =====
-- A run of the accounting theorem.
use shelf_remote.Prelude.{[], List, ◌∷◌}
use shelf_remote.Player.Syncer.Account.{Event, play, pass, take, fail, stop}

abbrev history : List Event
history = play ∷ pass 700 ∷ take ∷ fail 700 ∷ pass 50 ∷ stop ∷ pass 9 ∷ []
