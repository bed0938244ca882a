-- ===== src/Bloom/Filter/Shared.antt =====
-- bloom_get of src/module/bloomfilter/bloom_filter.cpp in two threads at the same time: each write and
-- read of the variables bloom_get_iter and bloom_get_addr of the file, which they share, is a step of
-- its own. The maps do not change, since both have the lock of the table for reading; the counters are
-- left out.
pub mod Races
use bloom_server.Base.{
  ℕ, zero, suc, ◌+◌, Bool, true, false, List, [], ◌∷◌, ltb, ◌==◌, if◌then◌else◌,
}
use bloom_server.Base.Run.{Run, ok, ◌>>=◌}
use bloom_server.Bloom.Platform.{Murmur}
use bloom_server.Bloom.Types.{Bloom, Bytes}
use bloom_server.Bloom.Bitmap.{bitmap_check}
use bloom_server.Bloom.Filter.{checksum, hashes}

-- The maps that bloom_get_iter and bloom_get_addr point to.
pub record Pointers : Type 0 where
  pub bloom_get_iter : List ℕ
  pub bloom_get_addr : List ℕ

-- Where a thread stands in round `i`: at the test of the loop and the first assignment, at the second
-- one, at the test of the bit; or behind the return.
pub data Standing : Type 0 where
  to_begin to_address to_check returned : ℕ → Standing

module _ ⦃murmur : Murmur⦄ where
  -- The next step of a thread that looks for the key in the filter.
  unfoldable pub lookup_step : Bloom → Bytes → Standing → Pointers → Run (Standing × Pointers)
  lookup_step b key (to_begin i) v =
      if ltb i b.k
      then ok (to_address i, record v { bloom_get_iter = b.map })
      else ok (returned 1, v)
  lookup_step b key (to_address i) v =
      ok (to_check i, record v { bloom_get_addr = v.bloom_get_iter })
  lookup_step b key (to_check i) v = do
    p ← hashes b.m (checksum key) i
    w ← bitmap_check v.bloom_get_addr p
    ok (if w == 0 then returned 0 else to_begin (i + 1), v)
  lookup_step b key (returned r) v = ok (returned r, v)

  -- Two threads by turns, the first one where the schedule has `true`.
  unfoldable pub interleave :
      Bloom
      → Bytes
      → Bloom
      → Bytes
      → List Bool
      → Standing
      → Standing
      → Pointers
      → Run (Standing × Standing)
  interleave b key c other [] x y v = ok (x, y)
  interleave b key c other (true ∷ turns) x y v =
      lookup_step b key x v >>= (λ r. interleave b key c other turns r.0 y r.1)
  interleave b key c other (false ∷ turns) x y v =
      lookup_step c other y v >>= (λ r. interleave b key c other turns x r.0 r.1)
