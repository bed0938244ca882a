-- ===== src/Pool/Counts.antt =====
-- How often a handle stands in the pool as free, through each operation of the pool.
use bloom_server.Base.{
  ℕ, ◌+◌, ◌≤◌, ◌≡◌, refl, Bool, false, none, some, List, [], ◌∷◌, ◌++◌, ◌==◌, if◌then◌else◌, arith,
  Bool-cases, Option-cases, inl, inr,
}
use bloom_server.Pool.{PooledConnection, find_free_connection, release, delete_free}

-- 1 if the connection is free and has the handle.
abbrev pub is_free : ℕ → PooledConnection → ℕ
is_free h c = if c.busy then 0 else if h == c.connection then 1 else 0

abbrev pub free_count : ℕ → List PooledConnection → ℕ
free_count h [] = 0
free_count h (c ∷ cs) = is_free h c + free_count h cs

pub free_count-append :
    (h : ℕ) (cs ds : List PooledConnection)
    → free_count h (cs ++ ds) ≡ free_count h cs + free_count h ds
free_count-append h [] ds = omega arith
free_count-append h (c ∷ cs) ds = omega (arith, free_count-append h cs ds)

-- Finding a connection takes it from the free ones.
pub free_count-find_free_connection :
    (cs : List PooledConnection) {k : ℕ} {ds : List PooledConnection}
    → find_free_connection cs ≡ some (k, ds)
    → (h : ℕ) → free_count h ds + (if h == k then 1 else 0) ≡ free_count h cs
unfolding find_free_connection
free_count-find_free_connection [] e h = absurd (cc)
free_count-find_free_connection (c ∷ cs) {k} {ds} e h = elim (Bool-cases c.busy) [
  | inr idle ↦ let same = rw idle at e in ground arith
  | inl busy ↦ elim (Option-cases (find_free_connection cs)) [
    | inl miss ↦ absurd (let x = rw (busy, miss) at e in cc)
    | inr ((l, es), hit) ↦
        let same = rw (busy, hit) at e in ground (arith, free_count-find_free_connection cs hit h)
  ]
]

-- Nothing is found exactly if nothing is free.
pub find_free_connection-none :
    (cs : List PooledConnection) → find_free_connection cs ≡ none → (h : ℕ) → free_count h cs ≡ 0
unfolding find_free_connection
find_free_connection-none [] e h = refl
find_free_connection-none (c ∷ cs) e h = elim (Bool-cases c.busy) [
  | inr idle ↦ absurd (let x = rw idle at e in cc)
  | inl busy ↦ elim (Option-cases (find_free_connection cs)) [
    | inl miss ↦ rw busy (omega (arith, find_free_connection-none cs miss h))
    | inr ((l, es), hit) ↦ absurd (let x = rw (busy, hit) at e in cc)
  ]
]

-- Giving one back adds it to the free ones at most.
pub free_count-release :
    (k : ℕ) (cs : List PooledConnection) (h : ℕ)
    → free_count h (release k cs) ≤ free_count h cs + (if h == k then 1 else 0)
unfolding release
free_count-release k [] h = omega arith
free_count-release k (c ∷ cs) h = ground (arith, free_count-release k cs h)

-- Exactly the free clients are deleted.
pub delete_free-live :
    (cs : List PooledConnection) (live : ℕ → Bool) (h : ℕ)
    → delete_free cs live h ≡ (if free_count h cs == 0 then live h else false)
unfolding delete_free
delete_free-live [] live h = refl
delete_free-live (c ∷ cs) live h = elim (Bool-cases c.busy) [
  | inl busy ↦ rw busy (ground (arith, delete_free-live cs live h))
  | inr idle ↦
      let rest = delete_free-live cs (λ x. if x == c.connection then false else live x) h in
      rw idle (ground (arith, rest))
]
