-- ===== src/Pool/Opening.antt =====
-- How many connections createPool opens, and what it answers.
use bloom_server.Base.{
  ℕ, zero, suc, ◌+◌, ◌≤◌, ◌<◌, ◌≡◌, refl, true, false, List, [], ◌∷◌, length, length-append, min,
  arith, Bool-cases, inl, inr,
}
use bloom_server.Bloom.Types.{Bytes}
use bloom_server.Pool.{
  PooledConnection, World, Network, opened, failed, is_empty, has_free_place, create_connections,
  create_pool,
}

length-opened : (w : World) → length (opened w).pool.connections ≡ length w.pool.connections + 1
length-opened w =
    length-append w.pool.connections (record { connection = w.attempts; busy = false } ∷ [])

module _ (network : Network) (ip : Bytes) (port : ℕ) where
  fill_up :
      (left : ℕ) (w : World)
      → ((a : ℕ) → network ip port a ≡ true)
      → 0 < w.pool.max_connections
      → length w.pool.connections ≤ w.pool.max_connections
      → let r = create_connections network ip port left w in
        (r.thrown ≡ false)
        × (length r.world.pool.connections
            ≡ min w.pool.max_connections (length w.pool.connections + left))
  unfolding create_connections
  fill_up zero w up pos room = (refl, omega arith)
  fill_up (suc left) w up pos room = elim (Bool-cases (has_free_place w.pool)) [
    | inr full ↦ rw full (refl, ground arith)
    | inl place ↦
        let len = length-opened w in
        let (calm, size) = fill_up left (opened w) up pos (ground arith) in
        rw (place, up w.attempts) (calm, omega (arith, len, size))
  ]

  break_off :
      (k left : ℕ) (w : World)
      → ((a : ℕ) → a < k → network ip port (w.attempts + a) ≡ true)
      → network ip port (w.attempts + k) ≡ false
      → k < left
      → length w.pool.connections + k < w.pool.max_connections
      → let r = create_connections network ip port left w in
        (r.thrown ≡ true) × (length r.world.pool.connections ≡ length w.pool.connections + k)
  unfolding create_connections
  break_off k zero w up down less room = absurd (omega arith)
  break_off zero (suc left) w up down less room =
      let place : has_free_place w.pool ≡ true = ground arith in
      let same : w.attempts + 0 ≡ w.attempts = omega arith in
      rw (place, rw same at down) (refl, omega arith)
  break_off (suc k) (suc left) w up down less room =
      let place : has_free_place w.pool ≡ true = ground arith in
      let same : w.attempts + 0 ≡ w.attempts = omega arith in
      let len = length-opened w in
      let (thrown, size) =
        break_off k left (opened w) (λ a lt. rw (shift a) (up (suc a) (omega arith)))
          (rw (shift k) down) (omega arith) (omega (arith, len)) in
      rw (place, rw same at (up 0 (omega arith))) (thrown, omega (arith, len, size))
    where
      shift : (a : ℕ) → suc w.attempts + a ≡ w.attempts + suc a
      shift a = omega arith

  -- A pool of 60000 places that is empty and whose every attempt succeeds is filled with as
  -- many connections as were asked for, or 60000 of them, and the answer is 0.
  pub create_pool_full :
      (w : World)
      → ((a : ℕ) → network ip port a ≡ true)
      → w.pool.max_connections ≡ 60000
      → w.pool.connections ≡ []
      → let r = create_pool network ip port w in
        (r.1 ≡ 0) × (length r.0.pool.connections ≡ min 60000 w.pool.initial_connections)
  unfolding create_pool
  create_pool_full w up max empty =
      let len : length w.pool.connections ≡ 0 = rw empty in
      let (calm, size) = fill_up w.pool.initial_connections w up (omega arith) (omega arith) in
      let none_yet : is_empty w.pool.connections ≡ true = rw empty in
      rw (none_yet, calm) (refl, omega (arith, size))

  -- If an empty pool with room is asked for more than `k` connections, and the attempt after `k`
  -- successful ones fails, the answer is 65535, but the `k` connections stay
  -- in the pool: if there is one, a second call opens no more and answers 0.
  pub create_pool_broken :
      (w : World) (k : ℕ)
      → ((a : ℕ) → a < k → network ip port (w.attempts + a) ≡ true)
      → network ip port (w.attempts + k) ≡ false
      → k < w.pool.initial_connections
      → k < w.pool.max_connections
      → w.pool.connections ≡ []
      → let r = create_pool network ip port w in
        (r.1 ≡ failed)
        × (length r.0.pool.connections ≡ k)
        × (0 < k → create_pool network ip port r.0 ≡ (r.0, 0))
  unfolding create_pool
  create_pool_broken w k up down less room empty =
      let len : length w.pool.connections ≡ 0 = rw empty in
      let made = create_connections network ip port w.pool.initial_connections w in
      let (thrown, size) =
        break_off k w.pool.initial_connections w up down less (omega (arith, len)) in
      let size' : length made.world.pool.connections ≡ k = omega (arith, len, size) in
      let none_yet : is_empty w.pool.connections ≡ true = rw empty in
      rw (none_yet, thrown)
        (
          refl,
          size',
          λ pos. rw (holds_some made.world.pool.connections (omega (arith, size', pos))),
        )
    where
      holds_some : (cs : List PooledConnection) → 0 < length cs → is_empty cs ≡ false
      holds_some [] p = absurd (omega arith)
      holds_some (c ∷ cs) p = refl
