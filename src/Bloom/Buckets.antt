-- ===== src/Bloom/Buckets.antt =====
-- The hash table of src/module/bloomfilter/bloom_filter.cpp: its sizes, the bucket of a key, and
-- reads and writes of one bucket.
use bloom_server.Base.{
  ℕ, ◌+◌, ◌-◌, ◌^◌, bit_and, List, [], ◌∷◌, u32, ◌<<<◌, ltb, ◌==◌, if◌then◌else◌,
}
use bloom_server.Base.Run.{Run, ok, fault, out_of_range}
use bloom_server.Bloom.Types.{Bloom, Blooms, Bytes}
use bloom_server.Bloom.Process.{M, ◌>>=◌, lift, deref, assign}

abbrev pub hash_power : ℕ
hash_power = 20

abbrev pub blooms_len : ℕ
blooms_len = 1048576

abbrev pub max_key_len : ℕ
max_key_len = 32

-- The loop of `dictGenHashFunction`.
hash_bytes : ℕ → Bytes → ℕ
hash_bytes hash [] = hash
hash_bytes hash (c ∷ buf) = hash_bytes (u32 (u32 (u32 (hash <<< 5) + hash) + c)) buf

unfoldable pub dict_gen_hash_function : Bytes → ℕ
unfolding hash_bytes
dict_gen_hash_function buf = hash_bytes 5381 buf

-- `hashmask(power)`
abbrev pub hashmask : ℕ → ℕ
hashmask power = u32 (u32 (1 <<< power) + 2 ^ 32 - 1)

-- `hv`, the bucket of a key.
unfoldable pub bucket : ℕ → Bytes → ℕ
unfolding dict_gen_hash_function
bucket power key = bit_and (dict_gen_hash_function key) (hashmask power)

-- `blooms->hashtable[hv]`
unfoldable pub chain_at : Blooms → ℕ → Run (List Bloom)
chain_at bs hv = if ltb hv blooms_len then ok (bs.hashtable hv) else fault out_of_range

abbrev pub write : (ℕ → List Bloom) → ℕ → List Bloom → ℕ → List Bloom
write table hv chain i = if hv == i then chain else table i

-- The read of the chain of a key, outside or under a lock.
abbrev pub load_chain : ℕ → M (List Bloom)
load_chain hv = do bs ← deref; lift (chain_at bs hv)

abbrev pub store_chain : ℕ → List Bloom → M (Unit {0})
store_chain hv chain = do bs ← deref; assign (record bs { hashtable = write bs.hashtable hv chain })
