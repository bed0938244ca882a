-- ===== src/Bloom/Chain/Sweep.antt =====
-- The inner loop of blooms_delete_all on one chain.
use bloom_server.Base.{◌%◌, ◌≤◌, ◌<◌, ◌≡◌, refl, List, [], ◌∷◌, length, arith}
use bloom_server.Base.Run.{ok, fault, null_pointer}
use bloom_server.Bloom.Types.{Bloom}
use bloom_server.Bloom.Chain.{sweep, sweep_from}

-- The first, third, fifth, … entry of a chain.
pub odd_entries : List Bloom → List Bloom
odd_entries [] = []
odd_entries (a ∷ []) = a ∷ []
odd_entries (a ∷ b ∷ rest) = a ∷ odd_entries rest

pub even_entries : List Bloom → List Bloom
even_entries [] = []
even_entries (a ∷ []) = []
even_entries (a ∷ b ∷ rest) = b ∷ even_entries rest

sweep_from-odd :
    (a : Bloom) (rest : List Bloom)
    → length rest % 2 ≡ 0
    → sweep_from a rest
      ≡ ok (record { kept = odd_entries (a ∷ rest); removed = even_entries (a ∷ rest) })
unfolding sweep_from odd_entries even_entries
sweep_from-odd a [] h = refl
sweep_from-odd a (b ∷ []) h = absurd (omega arith)
sweep_from-odd a (b ∷ c ∷ rest) h = rw (sweep_from-odd c rest (omega arith))

sweep_from-even :
    (a : Bloom) (rest : List Bloom) → length rest % 2 ≡ 1 → sweep_from a rest ≡ fault null_pointer
unfolding sweep_from
sweep_from-even a [] h = absurd (omega arith)
sweep_from-even a (b ∷ []) h = refl
sweep_from-even a (b ∷ c ∷ rest) h = rw (sweep_from-even c rest (omega arith))

-- On a chain of odd length the loop keeps every second entry, the first among them.
pub sweep-odd :
    (chain : List Bloom)
    → length chain % 2 ≡ 1
    → sweep chain ≡ ok (record { kept = odd_entries chain; removed = even_entries chain })
unfolding sweep
sweep-odd [] h = absurd (omega arith)
sweep-odd (a ∷ rest) h = sweep_from-odd a rest (omega arith)

-- On a chain of even length, but not an empty one, it reads through a null pointer.
pub sweep-even :
    (chain : List Bloom)
    → 0 < length chain
    → length chain % 2 ≡ 0
    → sweep chain ≡ fault null_pointer
unfolding sweep
sweep-even [] h e = absurd (omega arith)
sweep-even (a ∷ rest) h e = sweep_from-even a rest (omega arith)

-- A chain of one entry is left as it is.
pub sweep_short :
    (chain : List Bloom)
    → length chain ≤ 1
    → sweep chain ≡ ok (record { kept = chain; removed = [] })
unfolding sweep sweep_from
sweep_short [] h = refl
sweep_short (a ∷ []) h = refl
sweep_short (a ∷ b ∷ rest) h = absurd (omega arith)
