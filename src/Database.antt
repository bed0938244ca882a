-- ===== src/Database.antt =====
-- The pool of data base connections, src/tools/MySQLConnectionPool.cpp and .h. Each operation holds
-- `mutex_connectionpool` and is one step; `getConnection` is one step for each try.
pub mod Closing
pub mod Dangling
mod Tests
use bloom_server.Base.{
  ℕ, zero, suc, ◌+◌, ◌*◌, Bool, true, false, ◌&&◌, not, Option, none, some, List, [], ◌∷◌, ◌++◌,
  length, ltb, leb, ◌==◌, if◌then◌else◌,
}
use bloom_server.Base.Run.{Run, ok, fault, null_pointer, dangling_pointer, ◌>>=◌}

-- A connection of the MySQL client is the number of the attempt that opened it; none is null.
pub record PooledConnection : Type 0 where
  pub connection : Option ℕ
  pub busy : Bool

-- `attempts` and `queries` count the calls of the client; `live` holds of a connection that exists.
pub record Pool : Type 0 where
  pub initial_connections : ℕ
  pub incremental_connections : ℕ
  pub max_connections : ℕ
  pub connections : List PooledConnection
  pub attempts : ℕ
  pub queries : ℕ
  pub live : ℕ → Bool

-- The data base: whether an attempt to connect succeeds, and whether a query is answered.
pub record Database : Type 0 where
  pub connects : ℕ → Bool
  pub answers : ℕ → Bool

abbrev pub with_connections : List PooledConnection → Pool → Pool
with_connections cs p = record p { connections = cs }

abbrev pub delete_connection : ℕ → Pool → Pool
delete_connection h p = record p { live = λ g. if g == h then false else p.live g }

-- An exception of `close` is caught, and the object is deleted.
unfoldable pub close_connection : Option ℕ → Pool → Run Pool
close_connection none p = ok p
close_connection (some h) p =
    if p.live h then ok (delete_connection h p) else fault dangling_pointer

module _ (db : Database) where
  -- Null if an exception is thrown.
  unfoldable pub new_connection : Pool → Pool × Option ℕ
  new_connection p =
      let h = p.attempts in
      let tried = record p { attempts = suc h } in
      if db.connects h
      then (record tried { live = λ g. if g == h then true else p.live g }, some h)
      else (tried, none)

  -- A connection whose query fails is closed.
  unfoldable pub test_connection : Option ℕ → Pool → Run (Pool × Bool)
  test_connection none p = fault null_pointer
  test_connection (some h) p =
      let asked = record p { queries = suc p.queries } in
      if not (p.live h)
      then fault dangling_pointer
      else if db.answers p.queries
      then ok (asked, true)
      else (close_connection (some h) asked >>= (λ q. ok (q, false)))

  abbrev pub has_room : Pool → Bool
  has_room p = not (ltb 0 p.max_connections && leb p.max_connections (length p.connections))

  abbrev pub push_back : Option ℕ → Pool → Pool
  push_back none p = p
  push_back (some h) p =
      with_connections (p.connections ++ (record { connection = some h; busy = false } ∷ [])) p

  unfoldable pub create_connections : ℕ → Pool → Pool
  create_connections zero p = p
  create_connections (suc n) p =
      let r = new_connection p in
      let rest = create_connections n (push_back r.1 r.0) in if has_room p then rest else p

  unfoldable pub create_pool : Pool → Pool
  create_pool p = create_connections p.initial_connections p

  -- The entry that a dead connection leaves: a new connection, or itself if there is none.
  abbrev pub replaced : PooledConnection → List PooledConnection → Pool × Option ℕ → Pool × Option ℕ
  replaced c cs (p, none) = (with_connections (c ∷ cs) p, none)
  replaced c cs (p, some h) =
      (with_connections (record { connection = some h; busy = true } ∷ cs) p, some h)

  abbrev pub tested : PooledConnection → List PooledConnection → Pool × Bool → Pool × Option ℕ
  tested c cs (p, true) = (with_connections (record c { busy = true } ∷ cs) p, c.connection)
  tested c cs (p, false) = replaced c cs (new_connection p)

  -- The first free connection of a list; the pool that is left has the list changed.
  unfoldable pub find_from : List PooledConnection → Pool → Run (Pool × Option ℕ)
  find_from [] p = ok (with_connections [] p, none)
  find_from (c ∷ cs) p =
      let rest = find_from cs p in
      if c.busy
      then (rest >>= (λ r. ok (with_connections (c ∷ r.0.connections) r.0, r.1)))
      else (test_connection c.connection p >>= (λ t. ok (tested c cs t)))

  unfoldable pub find_free_connection : Pool → Run (Pool × Option ℕ)
  find_free_connection p = find_from p.connections p

  abbrev pub or_more : Pool × Option ℕ → Run (Pool × Option ℕ)
  or_more (p, some h) = ok (p, some h)
  or_more (p, none) = find_free_connection (create_connections p.incremental_connections p)

  unfoldable pub get_free_connection : Pool → Run (Pool × Option ℕ)
  get_free_connection p = find_free_connection p >>= or_more

  -- The first try; the later ones are `get_free_connection`.
  unfoldable pub get_connection : Pool → Run (Pool × Option ℕ)
  get_connection p = elim p.connections [ [] ↦ ok (p, none) | c ∷ cs ↦ get_free_connection p ]

  -- Each connection is closed and replaced, whether a client has it or not.
  unfoldable pub refresh_from : List PooledConnection → Pool → Run (Pool × List PooledConnection)
  refresh_from [] p = ok (p, [])
  refresh_from (c ∷ cs) p = close_connection c.connection p >>= (λ q.
      let r = new_connection q in
      refresh_from cs r.0 >>= (λ s. ok (s.0, record { connection = r.1; busy = false } ∷ s.1)))

  unfoldable pub refresh_connections : Pool → Run Pool
  refresh_connections p = refresh_from p.connections p >>= (λ r. ok (with_connections r.1 r.0))

abbrev pub same_handle : ℕ → PooledConnection → Bool
same_handle h c = elim c.connection [ none ↦ false | some g ↦ g == h ]

-- The first entry with the connection becomes free.
abbrev pub release : ℕ → List PooledConnection → List PooledConnection
release h [] = []
release h (c ∷ cs) =
    let rest = release h cs in if same_handle h c then record c { busy = false } ∷ cs else c ∷ rest

unfoldable pub return_connection : ℕ → Pool → Pool
return_connection h p = with_connections (release h p.connections) p

-- The loop erases the entry at `i` and then increments `i`, so that it passes over the next one:
-- it closes the first, the third and so on. The vector is cleared after it.
unfoldable pub close_every_second : List PooledConnection → Pool → Run Pool
close_every_second [] p = ok p
close_every_second (c ∷ []) p = close_connection c.connection p
close_every_second (c ∷ (d ∷ cs)) p = close_connection c.connection p >>= close_every_second cs

unfoldable pub close_connection_pool : Pool → Run Pool
close_connection_pool p = close_every_second p.connections p >>= (λ q. ok (with_connections [] q))

unfoldable pub close_all : List PooledConnection → Pool → Run Pool
close_all [] p = ok p
close_all (c ∷ cs) p = close_connection c.connection p >>= close_all cs

unfoldable pub destroy : Pool → Run Pool
destroy p = close_all p.connections p >>= (λ q. ok (with_connections [] q))
