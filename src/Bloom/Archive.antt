-- ===== src/Bloom/Archive.antt =====
-- The `serialize` members of src/module/bloomfilter/bloom_filter.h, and blooms_dump, blooms_dump1
-- and blooms_load of bloom_filter.cpp. What text boost writes for the saved values, and what it
-- reads from a text, are parameters.
pub mod Laws
use bloom_server.Base.{ℕ, Bool, Option, none, some, List, [], map, ltb, if◌then◌else◌}
use bloom_server.Base.Run.{archive_error}
use bloom_server.Bloom.Types.{Bloom, Blooms, Totals, Bytes, Double}
use bloom_server.Bloom.Platform.{Platform}
use bloom_server.Bloom.Process.{
  M, Globals, bloom_hash_lock, bloom_dlist_lock, dump_file_lock, ◌>>=◌, ◌>>◌, pure, rd_lock,
  wr_lock, rw_unlock, lock_init, deref, assign, crash,
}
use bloom_server.Bloom.Buckets.{blooms_len}
use bloom_server.Bloom.Store.{blooms_init}

-- The fields of `bloom_t` that its `serialize` names: all but `bytes`.
pub record SavedBloom : Type 0 where
  pub key : Bytes
  pub n : ℕ
  pub m : ℕ
  pub get_count : ℕ
  pub set_count : ℕ
  pub get_miss_count : ℕ
  pub e : Double
  pub e2 : Double
  pub k : ℕ
  pub map : List ℕ

pub record Saved : Type 0 where
  pub bytes : ℕ
  pub max_bytes : ℕ
  pub count : ℕ
  pub power : ℕ
  pub totals : Totals
  pub hashtable : ℕ → List SavedBloom

unfoldable pub save_bloom : Bloom → SavedBloom
save_bloom b = record {
  key = b.key;
  n = b.n;
  m = b.m;
  get_count = b.get_count;
  set_count = b.set_count;
  get_miss_count = b.get_miss_count;
  e = b.e;
  e2 = b.e2;
  k = b.k;
  map = b.map;
}

-- `for (size_t i = 0; i < blooms_len; i++) ar & hashtable[i];`
unfoldable pub save : Blooms → Saved
unfolding save_bloom
save bs = record {
  bytes = bs.bytes;
  max_bytes = bs.max_bytes;
  count = bs.count;
  power = bs.power;
  totals = bs.totals;
  hashtable = λ hv. if ltb hv blooms_len then map save_bloom (bs.hashtable hv) else [];
}

-- `left_over` is what the memory of a new `bloom_t` holds where nothing is read into it.
pub restore_bloom : (SavedBloom → ℕ) → SavedBloom → Bloom
restore_bloom left_over b = record {
  bytes = left_over b;
  key = b.key;
  n = b.n;
  m = b.m;
  get_count = b.get_count;
  set_count = b.set_count;
  get_miss_count = b.get_miss_count;
  e = b.e;
  e2 = b.e2;
  k = b.k;
  map = b.map;
}

unfoldable pub restore : (SavedBloom → ℕ) → Saved → Blooms
unfolding restore_bloom
restore left_over s = record {
  bytes = s.bytes;
  max_bytes = s.max_bytes;
  count = s.count;
  power = s.power;
  totals = s.totals;
  hashtable =
      λ hv. if ltb hv blooms_len then map (restore_bloom left_over) (s.hashtable hv) else [];
}

-- boost::archive::text_oarchive and text_iarchive; `none` is an exception.
pub record Boost : Type 0 where
  pub encode : Saved → Bytes
  pub decode : Bytes → Option Saved
  pub left_over : SavedBloom → ℕ

-- `std::ofstream fout("file.txt")` empties the file, and the closed file has the text.
abbrev pub write_file : Bytes → M (Unit {0})
write_file text s = pure tt (record s { file = some text })

module _ (boost : Boost) where
  -- The code of both dumps from the first lock to `fout.close()`.
  pub dump_locked : M (Unit {0})
  dump_locked = do
    wr_lock dump_file_lock
    write_file []
    rd_lock bloom_hash_lock
    bs ← deref
    rw_unlock bloom_hash_lock
    write_file (boost.encode (save bs))

  -- One round of the loop of `blooms_dump`, after its sleep.
  unfoldable pub blooms_dump : M (Unit {0})
  unfolding dump_locked
  blooms_dump = do dump_locked; rw_unlock dump_file_lock

  -- The dump of the signal handler keeps the lock of the file.
  pub blooms_dump1 : M (Unit {0})
  unfolding dump_locked
  blooms_dump1 = dump_locked

  abbrev read_file : M Saved
  read_file s = elim (s.file) [
    | none ↦ crash archive_error
    | some text ↦ elim (boost.decode text) [
      | none ↦ crash archive_error
      | some saved ↦ pure saved s
    ]
  ]

  unfoldable pub blooms_load : M ℕ
  blooms_load = do
    lock_init dump_file_lock
    wr_lock dump_file_lock
    wr_lock bloom_hash_lock
    saved ← read_file
    assign (restore boost.left_over saved)
    rw_unlock bloom_hash_lock
    rw_unlock dump_file_lock
    pure 0
