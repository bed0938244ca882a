-- ===== src/Bloom/Create.antt =====
-- bloom_init of src/module/bloomfilter/bloom_filter.cpp.
use bloom_server.Bloom.Buckets.{max_key_len}
use bloom_server.Base.{
  ℕ, ◌-◌, ◌/◌, not, Option, none, some, length, replicate, sub64, ltb, if◌then◌else◌,
}
use bloom_server.Base.Run.{Run, ok, fault, buffer_overflow, bad_alloc}
use bloom_server.Bloom.Types.{Bloom, Blooms, Bytes, Double}
use bloom_server.Bloom.Platform.{Platform}
use bloom_server.Bloom.Size.{Size, sizeof_bloom, calculate}

-- The fields of a new entry; `new std::vector<int>` fills its words with 0.
abbrev pub fresh_bloom : Bytes → ℕ → Double → Size → Bloom
fresh_bloom key n e size = record {
  bytes = size.bytes;
  key = key;
  n = n;
  m = size.m;
  get_count = 0;
  set_count = 0;
  get_miss_count = 0;
  e = e;
  e2 = size.tmp_e;
  k = size.k;
  map = replicate ((size.bytes - sizeof_bloom) / 4) 0;
}

module _ (p : Platform) where
  -- What is stored into a new entry. `strcpy` of a key of 32 bytes or more runs over `key`.
  unfoldable pub new_bloom : Bytes → ℕ → Double → Size → Run (Option Bloom)
  new_bloom key n e size =
      if not (p.malloc sizeof_bloom)
      then ok none
      else if not (p.new_words ((size.bytes - sizeof_bloom) / 4))
      then fault bad_alloc
      else if ltb (length key) max_key_len
      then ok (some (fresh_bloom key n e size))
      else fault buffer_overflow

  -- `none` is NULL: a bad argument, a filter over the maximal size, or no memory.
  unfoldable pub bloom_init : Blooms → Bytes → ℕ → Double → Run (Option Bloom)
  unfolding new_bloom
  bloom_init bs key n e = elim (calculate p.libm n e) [
    | none ↦ ok none
    | some size ↦
        if ltb (sub64 bs.max_bytes bs.bytes) size.bytes then ok none else new_bloom key n e size
  ]
