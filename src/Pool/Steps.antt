-- ===== src/Pool/Steps.antt =====
-- Programs over the pool: any number of clients that take connections and give them back, and
-- calls that open, close and recycle the pool, in any order.
use bloom_server.Base.{ℕ, ◌≡◌, List, [], ◌∷◌, ◌++◌, false}
use bloom_server.Bloom.Types.{Bytes}
use bloom_server.Pool.{
  World, Network, got, new_pool, set_initial_connections, create_pool, retry, get_connection,
  return_connection, close_connection_pool, recycle_connection_pool,
}

-- `held` are the handles that clients have got and not given back.
pub record System : Type 0 where
  pub world : World
  pub held : List ℕ

abbrev pub start : ℕ → System
start initial = record {
  world = record { pool = new_pool initial; attempts = 0; live = λ h. false };
  held = [];
}

module _ (network : Network) where
  -- A client gives back only what it holds; a try that gets nothing changes nothing.
  pub data Step : System → System → Type 0 where
    sized : (s : System) (n : ℕ) → Step s (record s { world = set_initial_connections n s.world })
    created :
        (s : System) (ip : Bytes) (port : ℕ)
        → Step s (record s { world = (create_pool network ip port s.world).0 })
    taken :
        (s : System) (w : World) (h : ℕ)
        → get_connection s.world ≡ (w, got h)
        → Step s (record { world = w; held = h ∷ s.held })
    retaken :
        (s : System) (w : World) (h : ℕ)
        → retry s.world ≡ (w, got h)
        → Step s (record { world = w; held = h ∷ s.held })
    returned :
        (w : World) (before : List ℕ) (h : ℕ) (after : List ℕ)
        → Step
            (record { world = w; held = before ++ (h ∷ after) })
            (record { world = return_connection h w; held = before ++ after })
    closed : (s : System) → Step s (record s { world = close_connection_pool s.world })
    recycled : (s : System) → Step s (record s { world = recycle_connection_pool s.world })

  pub data Reaches : System → System → Type 0 where
    here : (s : System) → Reaches s s
    step : (s t u : System) → Step s t → Reaches t u → Reaches s u
