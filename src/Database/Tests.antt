-- ===== src/Database/Tests.antt =====
-- The theorems on the pool of data base connections, at pools of one and three connections.
use bloom_server.Base.{ℕ, ◌≡◌, refl, true, false, some, [], ◌∷◌, ◌==◌, if◌then◌else◌, arith}
use bloom_server.Base.Run.{fault, dangling_pointer}
use bloom_server.Database.{
  PooledConnection, Pool, Database, new_connection, create_connections, create_pool,
  get_free_connection, close_connection_pool, destroy,
}
use bloom_server.Database.Closing.{
  Proper, Shuts, at_odd_place, in_list, close_connection_pool-Shuts,
}
use bloom_server.Database.Dangling.{get_free_connection-dangling}

-- The data base refuses the fourth attempt, and does not answer the first query.
abbrev shaky : Database
shaky = record {
  connects = λ a. if a == 3 then false else true;
  answers = λ q. if q == 0 then false else true;
}

abbrev new_pool : Pool
new_pool = record {
  initial_connections = 3;
  incremental_connections = 2;
  max_connections = 10;
  connections = [];
  attempts = 0;
  queries = 0;
  live = λ h. false;
}

abbrev entry : ℕ → PooledConnection
entry h = record { connection = some h; busy = false }

-- The pool that `createPool` makes, written out.
abbrev three : Pool
three = record new_pool {
  connections = entry 0 ∷ (entry 1 ∷ (entry 2 ∷ []));
  attempts = 3;
  live = λ h. if h == 2 then true else if h == 1 then true else if h == 0 then true else false;
}

create_pool_test : create_pool shaky new_pool ≡ three
unfolding create_pool create_connections new_connection
create_pool_test = refl

three-Proper : Proper three.connections three
three-Proper = record { one = λ h. ground arith; exists = λ h pos. ground arith }

close_connection_pool-Shuts_example :
    Shuts (at_odd_place three.connections) three (close_connection_pool three)
    × Shuts (in_list three.connections) three (destroy three)
close_connection_pool-Shuts_example = close_connection_pool-Shuts three three-Proper

-- The second of three connections is still open.
leak_test : (close_connection_pool-Shuts three three-Proper).0.pool.live 1 ≡ true
leak_test = (close_connection_pool-Shuts three three-Proper).0.live 1

get_free_connection-dangling_example : get_free_connection shaky three ≡ fault dangling_pointer
get_free_connection-dangling_example =
    get_free_connection-dangling shaky three [] (entry 1 ∷ (entry 2 ∷ [])) 0 refl tt (omega arith)
      refl refl refl
