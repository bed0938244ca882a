-- ===== src/Bloom/Platform.antt =====
-- What src/module/bloomfilter takes from elsewhere: the C mathematics library on `double`, the
-- allocator, and the hash function MurmurHash3 of another project. All of it is a parameter.
use bloom_server.Base.{ℕ, Bool}
use bloom_server.Bloom.Types.{Double, Bytes}

-- Arithmetic on `double`; `of_ℕ` converts an integer, and `to_int` casts a value that is not
-- negative to `int`.
pub record Libm : Type 0 where
  pub of_ℕ : ℕ → Double
  pub to_int : Double → ℕ
  pub mul : Double → Double → Double
  pub sub : Double → Double → Double
  pub div : Double → Double → Double
  pub pow : Double → Double → Double
  pub neg : Double → Double
  pub log : Double → Double
  pub exp : Double → Double
  pub ceil : Double → Double
  pub gt : Double → Double → Bool

-- `malloc` of so many bytes gives memory; `new std::vector<int>` of so many words does not throw.
pub record Platform : Type 0 where
  pub libm : Libm
  pub malloc : ℕ → Bool
  pub new_words : ℕ → Bool

-- The two halves of a digest.
pub record Hash : Type 0 where
  pub h1 : ℕ
  pub h2 : ℕ

-- MurmurHash3_x64_128 of a key with a seed, as the copy of that library in murmur.cpp computes it.
pub record Murmur : Type 0 where
  pub murmur_hash3 : Bytes → ℕ → Hash
