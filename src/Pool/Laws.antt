-- ===== src/Pool/Laws.antt =====
-- A handle has one holder, and its client exists as long as somebody holds it.
use bloom_server.Base.{
  ℕ, zero, suc, ◌+◌, ◌≤◌, ◌<◌, ◌≡◌, ap, true, false, List, [], ◌∷◌, ◌++◌, ◌==◌, if◌then◌else◌,
  arith, Bool-cases, Option-cases, inl, inr,
}
use bloom_server.Bloom.Types.{Bytes}
use bloom_server.Pool.{
  new_pool, World, Network, Reply, got, opened, has_free_place, is_empty, create_connections,
  create_pool, find_free_connection, retry, get_connection, return_connection,
  close_connection_pool, recycle_connection_pool, set_initial_connections,
}
use bloom_server.Pool.Counts.{
  free_count, free_count-append, free_count-find_free_connection, free_count-release,
  delete_free-live,
}
use bloom_server.Pool.Steps.{
  System, start, Step, Reaches, sized, created, taken, retaken, returned, closed, recycled, here,
  step,
}

-- How often a handle is held.
abbrev pub held_count : ℕ → List ℕ → ℕ
held_count h [] = 0
held_count h (k ∷ ks) = (if h == k then 1 else 0) + held_count h ks

held_count-append :
    (h : ℕ) (xs ys : List ℕ) → held_count h (xs ++ ys) ≡ held_count h xs + held_count h ys
held_count-append h [] ys = omega arith
held_count-append h (x ∷ xs) ys = omega (arith, held_count-append h xs ys)

-- Nobody shares a handle with another client or with the free part of the pool, handles of later
-- attempts are unused, and every handle that is held or free is that of an existing client.
pub record Safe (w : World) (held : List ℕ) : Type 0 where
  pub one : (h : ℕ) → held_count h held + free_count h w.pool.connections ≤ 1
  pub fresh : (h : ℕ) → w.attempts ≤ h → held_count h held + free_count h w.pool.connections ≡ 0
  pub alive : (h : ℕ) → 0 < held_count h held + free_count h w.pool.connections → w.live h ≡ true

free_count-opened :
    (w : World) (h : ℕ)
    → free_count h (opened w).pool.connections
      ≡ free_count h w.pool.connections + (if h == w.attempts then 1 else 0)
free_count-opened w h = omega (
  arith,
  free_count-append h w.pool.connections (record { connection = w.attempts; busy = false } ∷ []),
)

opened-Safe : (w : World) (held : List ℕ) → Safe w held → Safe (opened w) held
opened-Safe w held v = record {
  one = λ h. ground (arith, free_count-opened w h, v.one h, v.fresh h);
  fresh = λ h le. ground (arith, free_count-opened w h, v.fresh h);
  alive = λ h pos. ground (arith, free_count-opened w h, v.alive h);
}

missed-Safe :
    (w : World) (held : List ℕ) → Safe w held → Safe (record w { attempts = suc w.attempts }) held
missed-Safe w held v = record {
  one = v.one;
  fresh = λ h le. v.fresh h (omega arith);
  alive = v.alive;
}

module _ (network : Network) (ip : Bytes) (port : ℕ) where
  create_connections-Safe :
      (left : ℕ) (w : World) (held : List ℕ)
      → Safe w held
      → Safe (create_connections network ip port left w).world held
  unfolding create_connections
  create_connections-Safe zero w held v = v
  create_connections-Safe (suc left) w held v = elim (Bool-cases (has_free_place w.pool)) [
    | inr full ↦ rw full v
    | inl place ↦ elim (Bool-cases (network ip port w.attempts)) [
      | inl up ↦
          rw (place, up) (create_connections-Safe left (opened w) held (opened-Safe w held v))
      | inr down ↦ rw (place, down) (missed-Safe w held v)
    ]
  ]

  create_pool-Safe :
      (w : World) (held : List ℕ) → Safe w held → Safe (create_pool network ip port w).0 held
  unfolding create_pool
  create_pool-Safe w held v = elim (Bool-cases (is_empty w.pool.connections)) [
    | inl e ↦ rw e (create_connections-Safe w.pool.initial_connections w held v)
    | inr e ↦ rw e v
  ]

retry-Safe :
    (w w' : World) (h : ℕ) (held : List ℕ)
    → Safe w held
    → retry w ≡ (w', got h)
    → Safe w' (h ∷ held)
unfolding retry
retry-Safe w w' h held v e = elim (Option-cases (find_free_connection w.pool.connections)) [
  | inl miss ↦ absurd (let x = ap (λ (r : World × Reply). r.1) (rw (miss, retry) at e) in cc)
  | inr ((k, cs), hit) ↦
      let x = rw (hit, retry) at e in
      let same : k ≡ h = let y = ap (λ (r : World × Reply). r.1) x in ground arith in
      let moved = λ (q : ℕ). free_count-find_free_connection w.pool.connections hit q in
      let left : Safe (record w { pool = record w.pool { connections = cs } }) (k ∷ held) = record {
        one = λ q. ground (arith, moved q, v.one q);
        fresh = λ q le. ground (arith, moved q, v.fresh q);
        alive = λ q pos. ground (arith, moved q, v.alive q);
      } in
      rw (← same, ← ap (λ (r : World × Reply). r.0) x) left
]

return_connection-Safe :
    (w : World) (before : List ℕ) (h : ℕ) (after : List ℕ)
    → Safe w (before ++ (h ∷ after))
    → Safe (return_connection h w) (before ++ after)
unfolding return_connection
return_connection-Safe w before h after v =
    let cs = w.pool.connections in
    let split = λ (x : ℕ). held_count-append x before (h ∷ after) in
    let join = λ (x : ℕ). held_count-append x before after in
    record {
      one = λ x. omega (arith, free_count-release h cs x, split x, join x, v.one x);
      fresh = λ x le. omega (arith, free_count-release h cs x, split x, join x, v.fresh x le);
      alive = λ x pos. v.alive x (omega (arith, free_count-release h cs x, split x, join x));
    }

close-Safe : (w : World) (held : List ℕ) → Safe w held → Safe (close_connection_pool w) held
unfolding close_connection_pool
close-Safe w held v = record {
  one = λ h. omega (arith, v.one h);
  fresh = λ h le. omega (arith, v.fresh h le);
  alive = λ h pos. ground (arith, delete_free-live w.pool.connections w.live h, v.one h, v.alive h);
}

get-Safe :
    (w w' : World) (h : ℕ) (held : List ℕ)
    → Safe w held
    → get_connection w ≡ (w', got h)
    → Safe w' (h ∷ held)
unfolding get_connection
get-Safe w w' h held v e = elim (Bool-cases (is_empty w.pool.connections)) [
  | inl x ↦ absurd (let y = ap (λ (r : World × Reply). r.1) (rw (x, get_connection) at e) in cc)
  | inr x ↦ retry-Safe w w' h held v (rw (x, get_connection) at e)
]

module _ (network : Network) where
  Step-Safe : (s t : System) → Step network s t → Safe s.world s.held → Safe t.world t.held
  unfolding set_initial_connections recycle_connection_pool close_connection_pool
  Step-Safe _ _ (sized s n) v = record { one = v.one; fresh = v.fresh; alive = v.alive }
  Step-Safe _ _ (created s ip port) v = create_pool-Safe network ip port s.world s.held v
  Step-Safe _ _ (taken s w h e) v = get-Safe s.world w h s.held v e
  Step-Safe _ _ (retaken s w h e) v = retry-Safe s.world w h s.held v e
  Step-Safe _ _ (returned w before h after) v = return_connection-Safe w before h after v
  Step-Safe _ _ (closed s) v = close-Safe s.world s.held v
  Step-Safe _ _ (recycled s) v = close-Safe s.world s.held v

  Reaches-Safe : (s t : System) → Reaches network s t → Safe s.world s.held → Safe t.world t.held
  Reaches-Safe _ _ (here s) v = v
  Reaches-Safe _ _ (step s t u a r) v = Reaches-Safe t u r (Step-Safe s t a v)

  -- Whatever the network does and in whatever order clients take connections, retry, give back what
  -- they hold, and the pool is opened, closed and recycled: no handle is held twice, no handle that
  -- is held stands in the pool as free, and the client of every handle that is held or free has not
  -- been deleted.
  pub Reaches-start-Safe :
      (initial : ℕ) (s : System) → Reaches network (start initial) s → Safe s.world s.held
  unfolding new_pool
  Reaches-start-Safe initial s r = Reaches-Safe (start initial) s r (record {
    one = λ h. omega arith;
    fresh = λ h le. omega arith;
    alive = λ h pos. absurd (omega arith);
  })
