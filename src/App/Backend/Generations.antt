-- ===== src/App/Backend/Generations.antt =====
-- src/app/Backend.cpp: a reply to a request of an earlier server is not heard.
use shelf_remote.Prelude.{
  refl, true, none, some, arith, [], Option, ◌≤◌, ℕ, List, ◌≡◌, ◌∷◌, ◌<◌, not, ◌==◌, str_eq, Bool,
  ◌||◌,
}
use shelf_remote.App.Backend.{Backend, Linked, IsExact}
use shelf_remote.App.Backend.Steps.{
  run, step, Input, signed_off, libraries_replied, home_replied, playlists_replied, search_replied,
  item_replied, finish_replied,
}
use shelf_remote.App.Backend.Replies.{
  reset, on_libraries_reply, on_home_reply, on_playlists_reply, on_search_reply, on_item_reply,
  on_finished_reply,
}
use shelf_remote.App.Backend.NextUp.{step-Kept, reset-generation}

-- The generation that a reply has captured, if the input is a reply.
unfoldable pub captured : Input → Option ℕ
captured (libraries_replied gen res ls) = some gen
captured (home_replied gen res shelves) = some gen
captured (playlists_replied library gen res ls) = some gen
captured (search_replied query gen server_gen res books podcasts) = some server_gen
captured (item_replied now item gen base res d) = some gen
captured (finish_replied item finished gen res) = some gen
captured i = none

-- The guards of the callbacks.
guarded : (stale : Bool) (gen g n : ℕ) → some gen ≡ some g → g < n → stale || not (gen == n) ≡ true
guarded stale gen g n h lt = ground (arith, h, lt)

guarded_first :
    (stale other : Bool) (gen g n : ℕ)
    → some gen ≡ some g
    → g < n
    → stale || (not (gen == n) || other) ≡ true
guarded_first stale other gen g n h lt = ground (arith, h, lt)

guarded_last :
    (stale other : Bool) (gen g n : ℕ)
    → some gen ≡ some g
    → g < n
    → stale || (other || not (gen == n)) ≡ true
guarded_last stale other gen g n h lt = ground (arith, h, lt)

old-ignored :
    (x : Linked) (i : Input) (b : Backend) (gen : ℕ)
    → captured i ≡ some gen
    → gen < b.server_generation
    → step x i b ≡ b
unfolding step captured on_libraries_reply on_home_reply on_playlists_reply on_search_reply
    on_item_reply on_finished_reply
old-ignored x (libraries_replied gen res ls) b g h lt =
    rw (guarded res.stale gen g b.server_generation h lt)
old-ignored x (home_replied gen res shelves) b g h lt =
    rw (guarded res.stale gen g b.server_generation h lt)
old-ignored x (playlists_replied library gen res ls) b g h lt = rw (
    guarded_first res.stale (not (str_eq library b.current_library_id)) gen g b.server_generation h
      lt)
old-ignored x (search_replied query gen server_gen res books podcasts) b g h lt = rw (
    guarded_last res.stale (not (gen == b.search_generation)) server_gen g b.server_generation h lt)
old-ignored x (item_replied now item gen base res d) b g h lt =
    rw (guarded res.stale gen g b.server_generation h lt)
old-ignored x (finish_replied item finished gen res) b g h lt =
    rw (guarded res.stale gen g b.server_generation h lt)
old-ignored x i b g h lt = absurd (ground arith)

module _ (x : Linked) (e : IsExact x) where
  step-generation : (i : Input) (b : Backend) → b.server_generation ≤ (step x i b).server_generation
  step-generation signed_off b = unfold step in omega (arith, reset-generation x e b)
  step-generation i b = omega (arith, (step-Kept x e i b refl).generation)

  run-generation :
      (is : List Input) (b : Backend) → b.server_generation ≤ (run x is b).server_generation
  unfolding run
  run-generation [] b = omega arith
  run-generation (i ∷ is) b = omega (arith, step-generation i b, run-generation is (step x i b))

  -- Once the content is reset, a reply to a request that was made before it changes nothing, whatever
  -- has happened in between: the libraries, shelves, playlists, search results, details and progress of
  -- one server never reach the session with the next.
  pub run-late_reply :
      (i : Input) (is : List Input) (b : Backend) (gen : ℕ)
      → captured i ≡ some gen
      → gen ≤ b.server_generation
      → let q = run x is (reset x b) in step x i q ≡ q
  run-late_reply i is b gen h le =
      old-ignored x i (run x is (reset x b)) gen h
        (omega (arith, reset-generation x e b, run-generation is (reset x b)))
