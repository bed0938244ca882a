-- ===== src/Server.antt =====
-- The service of src/module/ThriftManager.cpp: the handlers of `ServHandler`. A
-- `std::string` is its bytes; an `int16_t` or `int32_t` is its bit pattern. Logging and the thrift server itself are left out.
pub mod Buffered
pub mod Laws
mod Tests
use bloom_server.Bloom.Platform.{Murmur}
use bloom_server.Base.{
  ℕ, zero, suc, ◌+◌, ◌-◌, ◌^◌, Option, none, some, List, [], ◌∷◌, ltb, ◌==◌, if◌then◌else◌,
}
use bloom_server.Bloom.Types.{Bytes, Double}
use bloom_server.Bloom.Platform.{Platform}
use bloom_server.Bloom.Process.{M, Globals, ◌>>=◌, ◌>>◌, pure}
use bloom_server.Bloom.Store.{
  Answer, no_filter, value, blooms_init, blooms_add, blooms_set, blooms_get, blooms_delete,
}
use bloom_server.Bloom.Archive.{Boost, blooms_load}

-- `c_str()`: the bytes before the first zero.
abbrev pub c_str : Bytes → Bytes
c_str [] = []
c_str (c ∷ rest) = let more = c_str rest in if c == 0 then [] else c ∷ more

-- An `int32_t` converted to `UINT64_RC`.
pub to_u64 : ℕ → ℕ
to_u64 x = if ltb x (2 ^ 31) then x else x + (2 ^ 64 - 2 ^ 32)

abbrev pub minus_one : ℕ
minus_one = 2 ^ 16 - 1

-- An `int` from -1 to 1 converted to `int16_t`.
abbrev pub to_i16 : Answer → ℕ
to_i16 no_filter = minus_one
to_i16 (value r) = r

-- `element`
pub record Element : Type 0 where
  pub is_exist : ℕ
  pub url : Bytes

pub add : Platform → Bytes → ℕ → Double → M ℕ
unfolding to_u64
add p key max_elements false_rate = blooms_add p (c_str key) (to_u64 max_elements) false_rate

-- What one round of the loop of `fill` appends.
abbrev filled : ℕ → Bytes → List Element → List Element
filled ret url rest =
    if ret == 0
    then record { is_exist = 0; url = url } ∷ rest
    else if ret == 1
    then record { is_exist = 1; url = url } ∷ rest
    else rest

module _ ⦃murmur : Murmur⦄ where
  pub fill : Bytes → List Bytes → M (List Element)
  fill key [] = pure []
  fill key (url ∷ urls) = do
    ret ← blooms_set (c_str key) (c_str url)
    rest ← fill key urls
    pure (filled ret url rest)

-- What one round of the loop of `get` appends.
abbrev looked_up : ℕ → Bytes → List Element → List Element
looked_up ret url rest =
    if ret == 1
    then record { is_exist = 1; url = url } ∷ rest
    else if ret == 0
    then record { is_exist = 0; url = url } ∷ rest
    else if ret == minus_one
    then record { is_exist = minus_one; url = url } ∷ rest
    else rest

module _ ⦃murmur : Murmur⦄ where
  pub get : Bytes → List Bytes → M (List Element)
  get key [] = pure []
  get key (url ∷ urls) = do
    ret ← blooms_get (c_str key) (c_str url)
    rest ← get key urls
    pure (looked_up (to_i16 ret) url rest)

  pub get_one : Bytes → Bytes → M ℕ
  get_one key url = do ret ← blooms_get (c_str key) (c_str url); pure (to_i16 ret)

  pub fill_one : Bytes → Bytes → M ℕ
  fill_one key url = blooms_set (c_str key) (c_str url)

pub delete_blooms : Bytes → M ℕ
delete_blooms key = blooms_delete (c_str key)

-- The handler prints its name and nothing else; what it returns is not defined.
pub delete_blooms_all : M (Unit {0})
delete_blooms_all = pure tt

-- `access("file.txt", R_OK) == -1`
choose_start : Platform → Boost → ℕ → Option Bytes → M ℕ
choose_start p boost size none = blooms_init p size
choose_start p boost size (some text) = blooms_load boost

-- `BloomFilter::initialize`, which drops the results and returns 0.
pub initialize : Platform → Boost → ℕ → M ℕ
unfolding choose_start
initialize p boost size s = (do r ← choose_start p boost size s.file; pure 0) s

-- The constructor of the handler, but for the thread that dumps.
pub serv_handler : Platform → Boost → M ℕ
serv_handler p boost = initialize p boost 4000000000
