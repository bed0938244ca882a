-- ===== src/Database/Dangling.antt =====
-- A connection that breaks while the data base cannot be reached.
use bloom_server.Base.{
  ℕ, zero, suc, ◌<◌, ◌≡◌, refl, sym, ap, ◌∙◌, true, false, none, some, List, [], ◌∷◌, ◌++◌,
  append_assoc, append_nil, All, ◌==◌, if◌then◌else◌, arith, Bool-cases, inl, inr,
}
use bloom_server.Base.Run.{ok, fault, dangling_pointer}
use bloom_server.Database.{
  PooledConnection, Pool, Database, with_connections, delete_connection, close_connection,
  new_connection, test_connection, has_room, create_connections, find_from, find_free_connection,
  get_free_connection,
}

module _ (db : Database) where
  -- What follows the free entry does not matter, nor do the busy entries before it.
  busy_before-ok :
      (before rest : List PooledConnection) (p q : Pool)
      → All (λ c. c.busy ≡ true) before
      → find_from db rest p ≡ ok (q, none)
      → find_from db (before ++ rest) p ≡ ok (with_connections (before ++ q.connections) q, none)
  unfolding find_from
  busy_before-ok [] rest p q h e = e
  busy_before-ok (c ∷ before) rest p q (b, bs) e = rw (b, busy_before-ok before rest p q bs e) refl

  busy_before-fault :
      (before rest : List PooledConnection) (p : Pool)
      → All (λ c. c.busy ≡ true) before
      → find_from db rest p ≡ fault dangling_pointer
      → find_from db (before ++ rest) p ≡ fault dangling_pointer
  unfolding find_from
  busy_before-fault [] rest p h e = e
  busy_before-fault (c ∷ before) rest p (b, bs) e =
      rw (b, busy_before-fault before rest p bs e) refl

  -- The first free entry is dead, and there is no new connection for it.
  broken : ℕ → List PooledConnection → Pool → Pool
  broken h cs p = record (delete_connection h p) {
    connections = cs;
    attempts = suc p.attempts;
    queries = suc p.queries;
  }

  find_from-broken :
      (cs : List PooledConnection) (h : ℕ) (p : Pool)
      → p.live h ≡ true
      → db.answers p.queries ≡ false
      → db.connects p.attempts ≡ false
      → let free = record { connection = some h; busy = false } ∷ cs in
        find_from db free p ≡ ok (broken h free p, none)
  unfolding find_from test_connection close_connection new_connection broken
  find_from-broken cs h p alive dead down = rw (alive, dead, down) refl

  find_from-gone :
      (cs : List PooledConnection) (h : ℕ) (p : Pool)
      → p.live h ≡ false
      → find_from db (record { connection = some h; busy = false } ∷ cs) p ≡ fault dangling_pointer
  unfolding find_from test_connection
  find_from-gone cs h p gone = rw gone refl

  -- New connections come behind the others, and an old number does not come back to life.
  record Extends (h : ℕ) (p q : Pool) : Type 0 where
    more : List PooledConnection
    behind : q.connections ≡ p.connections ++ more
    dead : q.live h ≡ false

  create_connections-Extends :
      (n h : ℕ) (p : Pool)
      → h < p.attempts
      → p.live h ≡ false
      → Extends h p (create_connections db n p)
  unfolding create_connections new_connection
  create_connections-Extends zero h p old gone = record {
    more = [];
    behind = sym (append_nil p.connections);
    dead = gone;
  }
  create_connections-Extends (suc n) h p old gone = elim (Bool-cases (has_room db p)) [
    | inr full ↦
        rw (create_connections, full)
          (record { more = []; behind = sym (append_nil p.connections); dead = gone })
    | inl room ↦ elim (Bool-cases (db.connects p.attempts)) [
      | inr down ↦
          let k =
            create_connections-Extends n h (record p { attempts = suc p.attempts }) (omega arith)
              gone in
          rw (create_connections, room, down)
            (record { more = k.more; behind = k.behind; dead = k.dead })
      | inl up ↦
          let entry : PooledConnection = record { connection = some p.attempts; busy = false } in
          let q : Pool = record p {
            connections = p.connections ++ (entry ∷ []);
            attempts = suc p.attempts;
            live = λ g. if g == p.attempts then true else p.live g;
          } in
          let still : q.live h ≡ false = ground (arith, gone) in
          let k = create_connections-Extends n h q (omega arith) still in
          rw (create_connections, room, up)
            (record {
              more = entry ∷ k.more;
              behind = k.behind ∙ append_assoc p.connections (entry ∷ []) k.more;
              dead = k.dead;
            })
    ]
  ]

-- If the first free connection of the pool is not answered any more and the data base refuses a new
-- one at that moment, then getFreeConnection asks for more connections and comes back to the
-- entry, which still has the connection that was deleted: it uses a deleted object, whatever the
-- data base does next.
pub get_free_connection-dangling :
    (db : Database) (p : Pool) (before after : List PooledConnection) (h : ℕ)
    → p.connections ≡ before ++ (record { connection = some h; busy = false } ∷ after)
    → All (λ c. c.busy ≡ true) before
    → h < p.attempts
    → p.live h ≡ true
    → db.answers p.queries ≡ false
    → db.connects p.attempts ≡ false
    → get_free_connection db p ≡ fault dangling_pointer
unfolding get_free_connection find_free_connection broken
get_free_connection-dangling db p before after h shape busy old alive dead down =
    let free = record { connection = some h; busy = false } ∷ after in
    let lost = record (broken db h free p) { connections = before ++ free } in
    let first : find_from db p.connections p ≡ ok (lost, none) =
      ap (λ (cs : List PooledConnection). find_from db cs p) shape
      ∙ busy_before-ok db before free p (broken db h free p) busy
          (find_from-broken db after h p alive dead down) in
    let gone : lost.live h ≡ false = ground arith in
    let k =
      create_connections-Extends db p.incremental_connections h lost (omega (arith, old)) gone in
    let q = create_connections db p.incremental_connections lost in
    let again : find_from db q.connections q ≡ fault dangling_pointer =
      ap (λ (cs : List PooledConnection). find_from db cs q)
        (k.behind ∙ append_assoc before free k.more)
      ∙ busy_before-fault db before (free ++ k.more) q busy
          (find_from-gone db (after ++ k.more) h q k.dead) in
    rw first again
