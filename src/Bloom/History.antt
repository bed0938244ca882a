-- ===== src/Bloom/History.antt =====
-- Sequences of requests to the table of filters of src/module/bloomfilter/bloom_filter.cpp, in the
-- order in which the locks let them through.
pub mod Laws
use bloom_server.Bloom.Platform.{Murmur}
use bloom_server.Base.{ℕ, List, [], ◌∷◌}
use bloom_server.Bloom.Types.{Bytes, Double}
use bloom_server.Bloom.Platform.{Platform}
use bloom_server.Bloom.Process.{M, ◌>>=◌, ◌>>◌, pure}
use bloom_server.Bloom.Store.{blooms_add, blooms_set, blooms_get, blooms_delete}

pub data Request : Type 0 where
  add : Bytes → ℕ → Double → Request
  fill get : Bytes → Bytes → Request
  delete : Bytes → Request

module _ ⦃murmur : Murmur⦄ where
  -- One request, its result dropped.
  pub serve : Platform → Request → M (Unit {0})
  serve p (add key n e) = blooms_add p key n e >>= λ r. pure tt
  serve p (fill key subkey) = blooms_set key subkey >>= λ r. pure tt
  serve p (get key subkey) = blooms_get key subkey >>= λ r. pure tt
  serve p (delete key) = blooms_delete key >>= λ r. pure tt

  pub serve_all : Platform → List Request → M (Unit {0})
  serve_all p [] = pure tt
  serve_all p (r ∷ rs) = serve p r >> serve_all p rs
