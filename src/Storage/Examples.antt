-- ===== src/Storage/Examples.antt =====
-- Runs of the cover cache.
use shelf_remote.Prelude.{true, refl, [], ◌∷◌, ◌≡◌}
use shelf_remote.Storage.CoverCache.{Cache, prune_to_limit, prune_loop, cache_size}

abbrev covers : Cache
covers = record {
  in_flight = [];
  missing = [];
  disk = (record { path = "p1"; size = 60 }) ∷ (record { path = "p2"; size = 50 }) ∷ [];
  out = [];
}

-- The older file goes, and what is left fits.
pruned_covers : cache_size (prune_to_limit (λ f. true) 55 covers).disk ≡ 50
unfolding prune_to_limit prune_loop cache_size
pruned_covers = refl
