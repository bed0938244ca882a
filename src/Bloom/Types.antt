-- ===== src/Bloom/Types.antt =====
-- bloom_t and blooms_t of src/module/bloomfilter/bloom_filter.h. A `double` is its 64-bit pattern.
-- The intrusive `list` fields are left out: no code links an entry into them.
use bloom_server.Base.{ℕ, List}

-- A C string: its bytes before the terminating zero.
abbrev pub Bytes : Type 0
Bytes = List ℕ

abbrev pub Double : Type 0
Double = ℕ

-- `map` is `v_hash`; the chain of `hash_next` pointers is the list that the entry stands in.
pub record Bloom : Type 0 where
  pub bytes : ℕ
  pub key : Bytes
  pub n : ℕ
  pub m : ℕ
  pub get_count : ℕ
  pub set_count : ℕ
  pub get_miss_count : ℕ
  pub e : Double
  pub e2 : Double
  pub k : ℕ
  pub map : List ℕ

-- The three counters that `blooms_t` keeps over all filters.
pub record Totals : Type 0 where
  pub get_count : ℕ
  pub set_count : ℕ
  pub get_miss_count : ℕ

-- `count` is the bit pattern of an `int`.
pub record Blooms : Type 0 where
  pub bytes : ℕ
  pub max_bytes : ℕ
  pub count : ℕ
  pub power : ℕ
  pub totals : Totals
  pub hashtable : ℕ → List Bloom
