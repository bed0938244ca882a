-- ===== src/Server/Buffered.antt =====
-- The class `BloomFilter` of src/module/ThriftManager.cpp, over two global buffers of 128 bytes.
use bloom_server.Bloom.Platform.{Murmur}
use bloom_server.Base.{ℕ, length, ltb, ◌==◌, if◌then◌else◌}
use bloom_server.Base.Run.{buffer_overflow}
use bloom_server.Bloom.Types.{Bytes, Double}
use bloom_server.Bloom.Platform.{Platform}
use bloom_server.Bloom.Process.{M, ◌>>=◌, ◌>>◌, pure, crash}
use bloom_server.Bloom.Store.{blooms_add, blooms_set, blooms_get, blooms_delete, blooms_delete_all}
use bloom_server.Bloom.Archive.{Boost, blooms_dump1}
use bloom_server.Server.{to_i16, minus_one}

-- `bloom_key_str` and `bloom_key_str1`, and the class over them.
pub record Buffers : Type 0 where
  pub bloom_key_str : Bytes
  pub bloom_key_str1 : Bytes

-- `strcpy` into 128 bytes.
abbrev pub copied : {A : Type 0} → Bytes → M A → M A
copied text k s = if ltb (length text) 128 then k s else crash buffer_overflow

module _ ⦃murmur : Murmur⦄ where
  -- The arguments are not read.
  pub get : Buffers → Bytes → Bytes → M ℕ
  get buf bloom_key key = do
    ret ← blooms_get buf.bloom_key_str buf.bloom_key_str1
    pure (to_i16 ret)

pub add : Platform → Buffers → Bytes → ℕ → Double → M (Buffers × ℕ)
add p buf key n e =
    copied key (do ret ← blooms_add p key n e; pure (record buf { bloom_key_str = key }, ret))

abbrev verdict : ℕ → ℕ
verdict ret = if ret == 0 then 0 else minus_one

module _ ⦃murmur : Murmur⦄ where
  -- The second buffer of `set` is a local one, so the global keeps its text.
  pub set : Buffers → Bytes → Bytes → M (Buffers × ℕ)
  set buf bloom_key key = copied bloom_key (
      copied key (do
        ret ← blooms_set bloom_key key
        pure (record buf { bloom_key_str = bloom_key }, verdict ret)))

pub remove : Bytes → M ℕ
remove bloom_key = do ret ← blooms_delete bloom_key; pure (verdict ret)

pub remove_all : M ℕ
remove_all = do blooms_delete_all; pure 0

pub dump_to_file : Boost → M (Unit {0})
dump_to_file boost = blooms_dump1 boost
