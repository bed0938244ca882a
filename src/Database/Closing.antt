-- ===== src/Database/Closing.antt =====
-- What closing the pool of data base connections leaves open.
use bloom_server.Base.{
  ℕ, ◌+◌, ◌≤◌, ◌<◌, ◌≡◌, refl, Bool, true, false, List, [], ◌∷◌, ltb, ◌==◌, if◌then◌else◌, arith,
  Option-cases, inl, inr,
}
use bloom_server.Base.Run.{Run, ok, ◌>>=◌}
use bloom_server.Database.{
  PooledConnection, Pool, with_connections, delete_connection, close_connection, same_handle,
  close_every_second, close_connection_pool, close_all, destroy,
}

-- How often a connection is in a list.
abbrev pub handle_count : ℕ → List PooledConnection → ℕ
handle_count h [] = 0
handle_count h (c ∷ cs) = (if same_handle h c then 1 else 0) + handle_count h cs

-- The entries at the even places, counted from 1.
abbrev pub seconds : List PooledConnection → List PooledConnection
seconds [] = []
seconds (c ∷ []) = []
seconds (c ∷ (d ∷ cs)) = d ∷ seconds cs

-- The connections of a list exist and are different.
pub record Proper (cs : List PooledConnection) (p : Pool) : Type 0 where
  pub one : (h : ℕ) → handle_count h cs ≤ 1
  pub exists : (h : ℕ) → 0 < handle_count h cs → p.live h ≡ true

-- One entry is closed.
record Closed (c : PooledConnection) (cs : List PooledConnection) (p : Pool) : Type 0 where
  pool : Pool
  returns : close_connection c.connection p ≡ ok pool
  live : (h : ℕ) → pool.live h ≡ (if same_handle h c then false else p.live h)
  same : pool.connections ≡ p.connections
  proper : Proper cs pool

close_connection-Closed :
    (c : PooledConnection) (cs : List PooledConnection) (p : Pool)
    → Proper (c ∷ cs) p
    → Closed c cs p
unfolding close_connection
close_connection-Closed c cs p v = elim (Option-cases c.connection) [
  | inl null ↦ record {
    pool = p;
    returns = rw null refl;
    live = λ h. rw null refl;
    same = refl;
    proper = record {
      one = λ h. omega (arith, v.one h);
      exists = λ h pos. v.exists h (omega arith);
    };
  }
  | inr (g, own) ↦
      let is_own : (h : ℕ) → same_handle h c ≡ (g == h) = λ h. rw own refl in
      let alive : p.live g ≡ true = v.exists g (ground (arith, is_own g)) in
      record {
        pool = delete_connection g p;
        returns = rw (own, alive) refl;
        live = λ h. ground (arith, is_own h);
        same = refl;
        proper = record {
          one = λ h. omega (arith, v.one h);
          exists = λ h pos.
              let old = v.exists h (omega arith) in
              let one = v.one h in ground (arith, is_own h, old, one);
        };
      }
]

-- A run that closes exactly the connections for which a test holds.
pub record Shuts (shut : ℕ → Bool) (p : Pool) (run : Run Pool) : Type 0 where
  pub pool : Pool
  pub returns : run ≡ ok pool
  pub live : (h : ℕ) → pool.live h ≡ (if shut h then false else p.live h)

abbrev pub at_odd_place : List PooledConnection → ℕ → Bool
at_odd_place cs h = ltb (handle_count h (seconds cs)) (handle_count h cs)

abbrev pub in_list : List PooledConnection → ℕ → Bool
in_list cs h = ltb 0 (handle_count h cs)

seconds-le : (h : ℕ) (cs : List PooledConnection) → handle_count h (seconds cs) ≤ handle_count h cs
seconds-le h [] = omega arith
seconds-le h (c ∷ []) = omega arith
seconds-le h (c ∷ (d ∷ cs)) = omega (arith, seconds-le h cs)

weaker :
    (c : PooledConnection) (cs : List PooledConnection) (p : Pool) → Proper (c ∷ cs) p → Proper cs p
weaker c cs p v = record {
  one = λ h. omega (arith, v.one h);
  exists = λ h pos. v.exists h (omega arith);
}

close_every_second-Shuts :
    (cs : List PooledConnection) (p : Pool)
    → Proper cs p
    → Shuts (at_odd_place cs) p (close_every_second cs p)
unfolding close_every_second
close_every_second-Shuts [] p v = record { pool = p; returns = refl; live = λ h. refl }
close_every_second-Shuts (c ∷ []) p v =
    let k = close_connection-Closed c [] p v in
    record { pool = k.pool; returns = k.returns; live = λ h. ground (arith, k.live h) }
close_every_second-Shuts (c ∷ (d ∷ cs)) p v =
    let k = close_connection-Closed c (d ∷ cs) p v in
    let r = close_every_second-Shuts cs k.pool (weaker d cs k.pool k.proper) in
    record {
      pool = r.pool;
      returns = rw (k.returns, ◌>>=◌) r.returns;
      live = λ h. ground (arith, k.live h, r.live h, v.one h, seconds-le h cs);
    }

close_all-Shuts :
    (cs : List PooledConnection) (p : Pool) → Proper cs p → Shuts (in_list cs) p (close_all cs p)
unfolding close_all
close_all-Shuts [] p v = record { pool = p; returns = refl; live = λ h. refl }
close_all-Shuts (c ∷ cs) p v =
    let k = close_connection-Closed c cs p v in
    let r = close_all-Shuts cs k.pool k.proper in
    record {
      pool = r.pool;
      returns = rw (k.returns, ◌>>=◌) r.returns;
      live = λ h. ground (arith, k.live h, r.live h);
    }

-- If the connections of the pool exist and are different, then `closeConnectionPool` returns and
-- deletes exactly the connections at the odd places, counted from 1, while `Destroy` deletes all
-- of them; a connection that is not in the pool stays as it is.
pub close_connection_pool-Shuts :
    (p : Pool)
    → Proper p.connections p
    → Shuts (at_odd_place p.connections) p (close_connection_pool p)
      × Shuts (in_list p.connections) p (destroy p)
unfolding close_connection_pool destroy
close_connection_pool-Shuts p v =
    let k = close_every_second-Shuts p.connections p v in
    let d = close_all-Shuts p.connections p v in
    (
      record { pool = with_connections [] k.pool; returns = rw k.returns refl; live = k.live },
      record { pool = with_connections [] d.pool; returns = rw d.returns refl; live = d.live },
    )
