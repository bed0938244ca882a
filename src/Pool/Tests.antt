-- ===== src/Pool/Tests.antt =====
-- The theorems on the pool, at a pool of two connections.
use bloom_server.Base.{ℕ, zero, suc, ◌+◌, ◌<◌, ◌≡◌, refl, true, false, [], ◌∷◌, length, min, arith}
use bloom_server.Pool.{
  World, Network, got, waiting, new_pool, failed, create_connections, create_pool,
  find_free_connection, retry, get_connection, return_connection, close_connection_pool,
}
use bloom_server.Pool.Steps.{System, start, Reaches, created, taken, closed, here, step}
use bloom_server.Pool.Laws.{Safe, Reaches-start-Safe}
use bloom_server.Pool.Opening.{create_pool_full, create_pool_broken}
use bloom_server.Pool.Waiting.{get_connection-return_connection, retry_busy}

abbrev up : Network
up ip port a = true

-- The second attempt fails.
abbrev shaky : Network
shaky ip port a = elim a [ zero ↦ true | suc n ↦ false ]

abbrev before : World
before = (start 2).world

abbrev full : World
full = (create_pool up [] 9090 before).0

abbrev lent : World
lent = (get_connection full).0

abbrev closed_pool : World
closed_pool = close_connection_pool lent

abbrev still_lent : System
still_lent = record { world = closed_pool; held = 0 ∷ [] }

session : Reaches up (start 2) still_lent
unfolding new_pool create_connections create_pool find_free_connection retry get_connection
session = step _ _ _ (created (start 2) [] 9090) (
    step _ _ _ (taken (record { world = full; held = [] }) lent 0 refl)
      (step _ _ _ (closed (record { world = lent; held = 0 ∷ [] })) (here still_lent)))

Reaches-start-Safe_example : Safe closed_pool (0 ∷ [])
Reaches-start-Safe_example = Reaches-start-Safe up 2 still_lent session

create_pool_full_test :
    let r = create_pool up [] 9090 before in (r.1 ≡ 0) × (length r.0.pool.connections ≡ min 60000 2)
unfolding new_pool
create_pool_full_test = create_pool_full up [] 9090 before (λ a. refl) refl refl

create_pool_broken_example :
    let r = create_pool shaky [] 9090 before in
    (r.1 ≡ failed)
    × (length r.0.pool.connections ≡ 1)
    × (0 < 1 → create_pool shaky [] 9090 r.0 ≡ (r.0, 0))
unfolding new_pool
create_pool_broken_example =
    create_pool_broken shaky [] 9090 before 1 first refl (omega arith) (omega arith) refl
  where
    first : (a : ℕ) → a < 1 → shaky [] 9090 (0 + a) ≡ true
    first zero lt = refl
    first (suc a) lt = absurd (omega arith)

get_connection-return_connection_example :
    (k : ℕ) × (w' : World) × (get_connection (return_connection 0 lent) ≡ (w', got k))
unfolding new_pool create_connections create_pool find_free_connection retry get_connection
get_connection-return_connection_example = get_connection-return_connection lent 0 refl

retry_busy_test : retry closed_pool ≡ (closed_pool, waiting)
unfolding close_connection_pool
retry_busy_test = retry_busy closed_pool (λ h. refl)
