-- ===== src/Bloom/Filter/Shared/Races.antt =====
-- bloom_get of src/module/bloomfilter/bloom_filter.cpp alone, and with another thread in between.
use bloom_server.Base.{ℕ, zero, suc, Bool, true, List, [], ◌∷◌}
use bloom_server.Bloom.Types.{Bloom}

-- The turns of a thread for so many rounds and its return.
abbrev pub rounds : ℕ → List Bool
rounds zero = true ∷ []
rounds (suc n) = true ∷ (true ∷ (true ∷ rounds n))
