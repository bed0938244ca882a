-- ===== src/Bloom/Store.antt =====
-- The operations of src/module/bloomfilter/bloom_filter.cpp on the table of all filters, with
-- their locks: bloom_delete, blooms_search, blooms_add, blooms_set, blooms_get,
-- bloom_status, blooms_delete, blooms_delete_all and blooms_init.
pub mod Table
pub mod Valid
pub mod Update
pub mod Set
pub mod Get
pub mod Fresh
pub mod Add
pub mod Delete
pub mod DeleteAll
pub mod Init
use bloom_server.Bloom.Buckets.{
  hash_power, blooms_len, bucket, chain_at, write, load_chain, store_chain,
}
use bloom_server.Bloom.Create.{bloom_init}
use bloom_server.Bloom.Platform.{Murmur}
use bloom_server.Base.{
  ℕ, zero, suc, ◌+◌, ◌-◌, ◌*◌, ◌/◌, ◌%◌, ◌^◌, bit_and, Bool, true, false, not, Option, none, some,
  List, [], ◌∷◌, length, replicate, u32, u64, sub64, ◌<<<◌, ltb, ◌==◌, if◌then◌else◌,
}
use bloom_server.Base.Run.{Run, ok, fault, out_of_range, buffer_overflow, bad_alloc}
use bloom_server.Bloom.Types.{Bloom, Blooms, Totals, Bytes, Double}
use bloom_server.Bloom.Platform.{Platform}
use bloom_server.Bloom.Size.{Size, sizeof_bloom, calculate}
use bloom_server.Bloom.Filter.{bloom_set, bloom_get, Got}
use bloom_server.Bloom.Chain
use bloom_server.Bloom.Chain.{Unlinked, Swept}
use bloom_server.Bloom.Process.{
  M, Globals, bloom_hash_lock, bloom_dlist_lock, dump_file_lock, ◌>>=◌, ◌>>◌, pure, lift, rd_lock,
  wr_lock, rw_unlock, lock_init, deref, assign,
}

module _ (p : Platform) where
  -- The code of `blooms_add` after the unlock.
  abbrev count_new : Bloom → M ℕ
  count_new b = do
    bs ← deref
    assign (record bs { count = u32 (bs.count + 1); bytes = u64 (bs.bytes + b.bytes) })
    wr_lock bloom_dlist_lock
    rw_unlock bloom_dlist_lock
    pure 0

  abbrev insert_new : ℕ → List Bloom → Option Bloom → M ℕ
  insert_new hv chain none = do rw_unlock bloom_hash_lock; pure 2
  insert_new hv chain (some b) = do
    store_chain hv (b ∷ chain)
    rw_unlock bloom_hash_lock
    count_new b

  -- 0 for success, 1 if the key exists, 2 if the filter cannot be made.
  unfoldable pub blooms_add : Bytes → ℕ → Double → M ℕ
  blooms_add key n e = do
    start ← deref
    wr_lock bloom_hash_lock
    chain ← load_chain (bucket start.power key)
    elim (Chain.find key chain) [
      | some b ↦ rw_unlock bloom_hash_lock >> pure 1
      | none ↦ do
        bs ← deref
        new ← lift (bloom_init p bs key n e)
        insert_new (bucket start.power key) chain new
    ]

module _ ⦃murmur : Murmur⦄ where
  -- 0 for success, 1 if there is no such filter.
  unfoldable pub blooms_set : Bytes → Bytes → M ℕ
  blooms_set key subkey = do
    start ← deref
    wr_lock bloom_hash_lock
    chain ← load_chain (bucket start.power key)
    elim (Chain.find key chain) [
      | none ↦ rw_unlock bloom_hash_lock >> pure 1
      | some b ↦ do
        b' ← lift (bloom_set b subkey)
        store_chain (bucket start.power key) (Chain.replace key b' chain)
        bs ← deref
        let t = bs.totals
        assign (record bs { totals = record t { set_count = u64 (t.set_count + 1) } })
        rw_unlock bloom_hash_lock
        pure 0
    ]

-- What `blooms_get` and `bloom_status` return; `no_filter` is -1.
pub data Answer : Type 0 where
  no_filter : Answer
  value : ℕ → Answer

module _ ⦃murmur : Murmur⦄ where
  unfoldable pub blooms_get : Bytes → Bytes → M Answer
  blooms_get key subkey = do
    start ← deref
    rd_lock bloom_hash_lock
    chain ← load_chain (bucket start.power key)
    elim (Chain.find key chain) [
      | none ↦ rw_unlock bloom_hash_lock >> pure no_filter
      | some b ↦ do
        bs ← deref
        got ← lift (bloom_get b bs.totals subkey)
        store_chain (bucket start.power key) (Chain.replace key got.bloom chain)
        bs' ← deref
        assign (record bs' { totals = got.totals })
        rw_unlock bloom_hash_lock
        pure (value got.result)
    ]

-- The search takes no lock.
pub blooms_search : Bytes → M (Option Bloom)
blooms_search key = do
  start ← deref
  chain ← load_chain (bucket start.power key)
  pure (Chain.find key chain)

-- The filter whose figures are printed, with the result 0, or -1.
pub bloom_status : Bytes → M (Option Bloom)
bloom_status key = do
  start ← deref
  rd_lock bloom_hash_lock
  chain ← load_chain (bucket start.power key)
  rw_unlock bloom_hash_lock
  pure (Chain.find key chain)

pub bloom_delete : Bloom → M (Unit {0})
bloom_delete b = do
  bs ← deref
  assign (record bs { bytes = sub64 bs.bytes b.bytes; count = u32 (bs.count + 2 ^ 32 - 1) })

-- 0 for success, 1 if there is no such filter.
unfoldable pub blooms_delete : Bytes → M ℕ
unfolding bloom_delete
blooms_delete key = do
  wr_lock bloom_hash_lock
  wr_lock bloom_dlist_lock
  start ← deref
  chain ← load_chain (bucket start.power key)
  elim (Chain.unlink key chain) [
    | none ↦ do rw_unlock bloom_hash_lock; rw_unlock bloom_dlist_lock; pure 1
    | some u ↦ do
      store_chain (bucket start.power key) u.chain
      bloom_delete u.removed
      rw_unlock bloom_hash_lock
      rw_unlock bloom_dlist_lock
      pure 0
  ]

pub delete_each : List Bloom → M (Unit {0})
unfolding bloom_delete
delete_each [] = pure tt
delete_each (b ∷ rest) = bloom_delete b >> delete_each rest

-- The loop of `blooms_delete_all` at bucket `hv`, with `left` buckets to go.
pub delete_buckets : ℕ → ℕ → M (Unit {0})
unfolding delete_each
delete_buckets zero hv = pure tt
delete_buckets (suc left) hv = do
  chain ← load_chain hv
  s ← lift (Chain.sweep chain)
  store_chain hv s.kept
  delete_each s.removed
  delete_buckets left (hv + 1)

pub blooms_delete_all : M (Unit {0})
blooms_delete_all = do
  wr_lock bloom_hash_lock
  wr_lock bloom_dlist_lock
  delete_buckets (u32 (1 <<< hash_power)) 0
  rw_unlock bloom_hash_lock
  rw_unlock bloom_dlist_lock

-- 0 for success, 1 if there is no memory; `sizeof(blooms_t)` is that of the x86-64 ABI.
abbrev pub sizeof_blooms : ℕ
sizeof_blooms = 64 + 8 * blooms_len

abbrev pub empty_blooms : ℕ → Blooms
empty_blooms max = record {
  bytes = 0;
  max_bytes = max;
  count = 0;
  power = hash_power;
  totals = record { get_count = 0; set_count = 0; get_miss_count = 0 };
  hashtable = λ hv. [];
}

start_empty : ℕ → M ℕ
start_empty max = do
  assign (empty_blooms max)
  lock_init bloom_hash_lock
  lock_init bloom_dlist_lock
  lock_init dump_file_lock
  pure 0

no_memory : M ℕ
no_memory s = pure 1 (record s { blooms = none })

unfoldable pub blooms_init : Platform → ℕ → M ℕ
unfolding start_empty no_memory
blooms_init p max = if p.malloc sizeof_blooms then start_empty max else no_memory
