-- ===== src/Pool/Waiting.antt =====
-- When a client gets a connection and when it waits.
use bloom_server.Base.{
  ℕ, ◌<◌, ◌≡◌, refl, Bool, true, false, ◌||◌, List, [], ◌∷◌, ◌==◌, arith, Option-cases, inl, inr,
}
use bloom_server.Pool.{
  PooledConnection, World, got, waiting, is_empty, find_free_connection, release, retry,
  get_connection, return_connection,
}
use bloom_server.Pool.Counts.{
  free_count, free_count-find_free_connection, find_free_connection-none,
}

-- The handle stands in the pool, free or busy.
abbrev pub has : ℕ → List PooledConnection → Bool
has h [] = false
has h (c ∷ cs) = (h == c.connection) || has h cs

free_count-release_self :
    (h : ℕ) (cs : List PooledConnection) → has h cs ≡ true → 0 < free_count h (release h cs)
unfolding release
free_count-release_self h [] e = absurd (cc)
free_count-release_self h (c ∷ cs) e = ground (arith, free_count-release_self h cs)

not_empty : (h : ℕ) (cs : List PooledConnection) → 0 < free_count h cs → is_empty cs ≡ false
not_empty h [] p = absurd (omega arith)
not_empty h (c ∷ cs) p = refl

-- After a client gives back a handle of the pool, the next client that asks gets a connection at its
-- first try.
pub get_connection-return_connection :
    (w : World) (h : ℕ)
    → has h w.pool.connections ≡ true
    → (k : ℕ) × (w' : World) × (get_connection (return_connection h w) ≡ (w', got k))
unfolding get_connection return_connection retry
get_connection-return_connection w h e =
    let cs = release h w.pool.connections in
    let some_free = free_count-release_self h w.pool.connections e in
    elim (Option-cases (find_free_connection cs)) [
      | inl miss ↦ absurd (omega (arith, some_free, find_free_connection-none cs miss h))
      | inr ((k, ds), hit) ↦ (
        k,
        record w { pool = record w.pool { connections = ds } },
        rw (not_empty h cs some_free, hit, retry),
      )
    ]

-- A try on a pool in which no connection is free, for example one that has been closed, changes
-- nothing and leaves the client waiting.
pub retry_busy :
    (w : World) → ((h : ℕ) → free_count h w.pool.connections ≡ 0) → retry w ≡ (w, waiting)
unfolding retry
retry_busy w busy = elim (Option-cases (find_free_connection w.pool.connections)) [
  | inl miss ↦ rw (miss, retry)
  | inr ((k, cs), hit) ↦
      let moved = free_count-find_free_connection w.pool.connections hit k in
      absurd (ground (arith, moved, busy k))
]
