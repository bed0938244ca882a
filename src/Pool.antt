-- ===== src/Pool.antt =====
-- The client's connection pool, src/module/thrift_filter/BloomfilterConnectionPool.cpp and .h. Each
-- operation holds `mutex_connectionpool` from its first to its last access and frees it on every
-- path, so that an operation is one step; `getConnection` is one step for each try.
pub mod Counts
pub mod Steps
pub mod Laws
pub mod Opening
pub mod Waiting
mod Tests
use bloom_server.Base.{
  ℕ, zero, suc, ◌+◌, ◌-◌, ◌^◌, ◌%◌, Bool, true, false, ◌&&◌, not, Option, none, some, List, [], ◌∷◌,
  ◌++◌, length, ltb, leb, ◌==◌, if◌then◌else◌,
}
use bloom_server.Bloom.Types.{Bytes}

-- A `ServClient` is the number of the attempt that opened it.
pub record PooledConnection : Type 0 where
  pub connection : ℕ
  pub busy : Bool

pub record Pool : Type 0 where
  pub initial_connections : ℕ
  pub incremental_connections : ℕ
  pub max_connections : ℕ
  pub is_closing : ℕ
  pub connections : List PooledConnection

-- `attempts` counts the calls of `transport->open()`; `live` holds of a client that exists.
pub record World : Type 0 where
  pub pool : Pool
  pub attempts : ℕ
  pub live : ℕ → Bool

abbrev with_connections : World → List PooledConnection → World
with_connections w cs = record w { pool = record w.pool { connections = cs } }

-- The constructor of the pool, which leaves `incrementalConnections`, that nothing reads, unset.
unfoldable pub new_pool : ℕ → Pool
new_pool initial = record {
  initial_connections = initial;
  incremental_connections = 0;
  max_connections = 60000;
  is_closing = 0;
  connections = [];
}

pub set_initial_connections : ℕ → World → World
set_initial_connections n w = record w { pool = record w.pool { initial_connections = n } }

pub set_incremental_connections : ℕ → World → World
set_incremental_connections n w = record w {
  pool = record w.pool { incremental_connections = n % 2 ^ 16 };
}

-- Whether an attempt to open a connection to the address and port succeeds or throws.
abbrev pub Network : Type 0
Network = Bytes → ℕ → ℕ → Bool

-- The world, and whether an exception left the code.
pub record Created : Type 0 where
  pub world : World
  pub thrown : Bool

abbrev pub has_free_place : Pool → Bool
has_free_place p = not (ltb 0 p.max_connections && leb p.max_connections (length p.connections))

-- A new client at the end of the pool.
abbrev pub opened : World → World
opened w = record {
  pool = record w.pool {
    connections = w.pool.connections ++ (record { connection = w.attempts; busy = false } ∷ []);
  };
  attempts = suc w.attempts;
  live = λ h. if h == w.attempts then true else w.live h;
}

-- The return value -1 of type `uint16_t`.
abbrev pub failed : ℕ
failed = 2 ^ 16 - 1

abbrev pub is_empty : List PooledConnection → Bool
is_empty [] = true
is_empty (c ∷ cs) = false

module _ (network : Network) (ip : Bytes) (port : ℕ) where
  -- The loop with so many rounds to go.
  unfoldable pub create_connections : ℕ → World → Created
  create_connections zero w = record { world = w; thrown = false }
  create_connections (suc left) w =
      let rest = create_connections left (opened w) in
      if has_free_place w.pool
      then if network ip port w.attempts
        then rest
        else record { world = record w { attempts = suc w.attempts }; thrown = true }
      else record { world = w; thrown = false }

  unfoldable pub create_pool : World → World × ℕ
  unfolding create_connections
  create_pool w =
      let made = create_connections w.pool.initial_connections w in
      if is_empty w.pool.connections
      then (made.world, if made.thrown then failed else 0)
      else (w, 0)

abbrev past :
    PooledConnection → Option (ℕ × List PooledConnection) → Option (ℕ × List PooledConnection)
past c none = none
past c (some (h, cs)) = some (h, c ∷ cs)

-- The first connection that is not busy, and the pool with it set busy.
unfoldable pub find_free_connection : List PooledConnection → Option (ℕ × List PooledConnection)
find_free_connection [] = none
find_free_connection (c ∷ cs) =
    if c.busy
    then past c (find_free_connection cs)
    else some (c.connection, record c { busy = true } ∷ cs)

-- A call that has not returned yet is `waiting`.
pub data Reply : Type 0 where
  no_pool waiting : Reply
  got : ℕ → Reply

-- One try: the body of the loop, and the code before it.
unfoldable pub retry : World → World × Reply
unfolding find_free_connection
retry w = elim (find_free_connection w.pool.connections) [
  | none ↦ (w, waiting)
  | some (h, cs) ↦ (with_connections w cs, got h)
]

unfoldable pub get_connection : World → World × Reply
unfolding retry
get_connection w = if is_empty w.pool.connections then (w, no_pool) else retry w

-- The loop of `returnConnection`.
unfoldable pub release : ℕ → List PooledConnection → List PooledConnection
release h [] = []
release h (c ∷ cs) = if h == c.connection then record c { busy = false } ∷ cs else c ∷ release h cs

unfoldable pub return_connection : ℕ → World → World
unfolding release
return_connection h w = with_connections w (release h w.pool.connections)

-- `delete pConn->getConnection()` of each connection that is not busy.
unfoldable pub delete_free : List PooledConnection → (ℕ → Bool) → ℕ → Bool
delete_free [] live = live
delete_free (c ∷ cs) live =
    delete_free cs (if c.busy then live else λ h. if h == c.connection then false else live h)

unfoldable pub close_connection_pool : World → World
unfolding delete_free
close_connection_pool w = record (with_connections w []) {
  live = delete_free w.pool.connections w.live;
}

pub recycle_connection_pool : World → World
unfolding delete_free
recycle_connection_pool w = record (with_connections w []) {
  live = delete_free w.pool.connections w.live;
}
