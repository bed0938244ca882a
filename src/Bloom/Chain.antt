-- ===== src/Bloom/Chain.antt =====
-- One chain of the hash table of src/module/bloomfilter/bloom_filter.cpp: the entries that the
-- `hash_next` pointers link, first to last. A pointer to an entry is the entry's place in its chain.
pub mod Laws
pub mod Unlink
pub mod Sweep
use bloom_server.Base.{Bool, Option, none, some, List, [], ◌∷◌, bytes_eq, if◌then◌else◌}
use bloom_server.Base.Run.{Run, ok, fault, null_pointer, ◌>>=◌}
use bloom_server.Bloom.Types.{Bloom, Bytes}

-- `while (bloom) { if (!strcmp(bloom->key, key)) break; bloom = bloom->hash_next; }`
unfoldable pub find : Bytes → List Bloom → Option Bloom
find key [] = none
find key (b ∷ rest) = if bytes_eq b.key key then some b else find key rest

-- A write through the pointer that the walk has found.
unfoldable pub replace : Bytes → Bloom → List Bloom → List Bloom
replace key c [] = []
replace key c (b ∷ rest) = if bytes_eq b.key key then c ∷ rest else b ∷ replace key c rest

-- What `blooms_delete` unlinks, and the chain that is left.
pub record Unlinked : Type 0 where
  pub removed : Bloom
  pub chain : List Bloom

keep : Bloom → Option Unlinked → Option Unlinked
keep b none = none
keep b (some u) = some (record u { chain = b ∷ u.chain })

-- The loop of `blooms_delete`: `bloom` stands before the entries that are left, `next` first.
pub unlink_after : Bytes → Bloom → List Bloom → Option Unlinked
unfolding keep
unlink_after key bloom [] = none
unlink_after key bloom (next ∷ rest) =
    if bytes_eq next.key key
    then some (record { removed = next; chain = bloom ∷ rest })
    else keep bloom (unlink_after key next rest)

-- The test of the first entry, and the loop.
unfoldable pub unlink : Bytes → List Bloom → Option Unlinked
unfolding unlink_after
unlink key [] = none
unlink key (bloom ∷ rest) =
    if bytes_eq bloom.key key
    then some (record { removed = bloom; chain = rest })
    else unlink_after key bloom rest

-- What the inner loop of `blooms_delete_all` leaves of a chain, and what it deletes.
pub record Swept : Type 0 where
  pub kept : List Bloom
  pub removed : List Bloom

-- `next` is unlinked, `bloom` moves to the entry after it, and `bloom->hash_next` is read.
pub sweep_from : Bloom → List Bloom → Run Swept
sweep_from bloom [] = ok (record { kept = bloom ∷ []; removed = [] })
sweep_from bloom (next ∷ []) = fault null_pointer
sweep_from bloom (next ∷ after ∷ rest) = do
  s ← sweep_from after rest
  ok (record { kept = bloom ∷ s.kept; removed = next ∷ s.removed })

unfoldable pub sweep : List Bloom → Run Swept
unfolding sweep_from
sweep [] = ok (record { kept = []; removed = [] })
sweep (bloom ∷ rest) = sweep_from bloom rest
