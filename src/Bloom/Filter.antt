-- ===== src/Bloom/Filter.antt =====
-- bloom_set and bloom_get of src/module/bloomfilter/bloom_filter.cpp on one filter.
pub mod Bits
pub mod Laws
pub mod Shared
use bloom_server.Base.{
  ℕ, zero, suc, ◌+◌, ◌*◌, ◌%◌, Bool, true, false, List, u64, ◌==◌, if◌then◌else◌,
}
use bloom_server.Base.Run.{Run, ok, fault, division_by_zero, ◌>>=◌}
use bloom_server.Bloom.Platform.{Murmur, Hash}
use bloom_server.Bloom.Types.{Bloom, Totals, Bytes}
use bloom_server.Bloom.Bitmap.{bitmap_set, bitmap_check}

abbrev pub salt_constant : ℕ
salt_constant = 0x97c29b3a

module _ (m : ℕ) (h : Hash) where
  -- `(h1 + i * h2) % bloom->m`
  pub position : ℕ → ℕ
  position i = u64 (h.h1 + u64 (i * h.h2)) % m

  pub hashes : ℕ → Run ℕ
  unfolding position
  hashes i = if m == 0 then fault division_by_zero else ok (position i)

  -- The loop of `bloom_set` at round `i`, with `left` rounds to go.
  pub set_bits : ℕ → ℕ → List ℕ → Run (List ℕ)
  set_bits zero i map = ok map
  set_bits (suc left) i map = do p ← hashes i; map' ← bitmap_set map p; set_bits left (i + 1) map'

  -- The loop of `bloom_get`, which returns at the first bit that is clear.
  pub check_bits : ℕ → ℕ → List ℕ → Run Bool
  check_bits zero i map = ok true
  check_bits (suc left) i map =
      let rest = check_bits left (i + 1) map in
      do p ← hashes i; w ← bitmap_check map p; if w == 0 then ok false else rest

-- The result, the filter with its counters, and the counters over all filters.
pub record Got : Type 0 where
  pub result : ℕ
  pub bloom : Bloom
  pub totals : Totals

unfoldable pub hit : Bloom → Totals → Got
hit b t = record {
  result = 1;
  bloom = record b { get_count = u64 (b.get_count + 1) };
  totals = record t { get_count = u64 (t.get_count + 1) };
}

unfoldable pub miss : Bloom → Totals → Got
miss b t = record {
  result = 0;
  bloom = record b { get_miss_count = u64 (b.get_miss_count + 1) };
  totals = record t { get_miss_count = u64 (t.get_miss_count + 1) };
}

module _ ⦃murmur : Murmur⦄ where
  pub checksum : Bytes → Hash
  checksum key = murmur.murmur_hash3 key salt_constant

  unfoldable pub bloom_set : Bloom → Bytes → Run Bloom
  unfolding checksum hashes set_bits
  bloom_set b key = do
    map' ← set_bits b.m (checksum key) b.k 0 b.map
    ok (record b { map = map'; set_count = u64 (b.set_count + 1) })

  -- A lookup that runs alone; the two variables of the file that hold the begin of the vector are in the
  -- module Shared.
  unfoldable pub bloom_get : Bloom → Totals → Bytes → Run Got
  unfolding checksum hashes check_bits hit miss
  bloom_get b t key = do
    found ← check_bits b.m (checksum key) b.k 0 b.map
    ok (if found then hit b t else miss b t)
