-- ===== src/Schedule/Heap.antt =====
-- `std::priority_queue<Task *, vector<Task *>, TaskLesser>`, of the C++ library, as a parameter: a
-- list of pointers whose first one is `top()`. `TaskLesser` puts the earliest time first, and the
-- queue reads the times through the pointers at each operation.
use bloom_server.Base.{ℕ, ◌+◌, ◌≤◌, ◌<◌, ◌≡◌, List, [], ◌∷◌, length, ◌==◌, if◌then◌else◌}

-- How often a pointer is in a queue.
abbrev pub count : ℕ → List ℕ → ℕ
count p [] = 0
count p (x ∷ xs) = (if p == x then 1 else 0) + count p xs

-- `push` and `pop` take the times of the tasks first.
pub record PriorityQueue : Type 0 where
  pub push : (ℕ → ℕ) → ℕ → List ℕ → List ℕ
  pub pop : (ℕ → ℕ) → List ℕ → List ℕ

-- Both rearrange the elements, whatever the times are.
pub record Rearranges (queue : PriorityQueue) : Type 0 where
  pub push_count :
      (time : ℕ → ℕ) (x p : ℕ) (xs : List ℕ) → count p (queue.push time x xs) ≡ count p (x ∷ xs)
  pub pop_count :
      (time : ℕ → ℕ) (x p : ℕ) (xs : List ℕ) → count p (queue.pop time (x ∷ xs)) ≡ count p xs
  pub pop_size : (time : ℕ → ℕ) (x : ℕ) (xs : List ℕ) → length (queue.pop time (x ∷ xs)) ≡ length xs

-- What the C++ library promises of a heap, for the times that it is one for: both operations keep it a
-- heap, its first element is an earliest one, `pop` removes that one, and `push` adds one. The order depends on the
-- times of the elements alone.
pub record Orders (queue : PriorityQueue) : Type 1 where
  pub IsHeap : (ℕ → ℕ) → List ℕ → Type 0
  pub empty : (time : ℕ → ℕ) → IsHeap time []
  pub top_first :
      (time : ℕ → ℕ) (x : ℕ) (xs : List ℕ)
      → IsHeap time (x ∷ xs)
      → (p : ℕ) → 0 < count p xs
      → time x ≤ time p
  pub same_times :
      (time new : ℕ → ℕ) (xs : List ℕ)
      → ((p : ℕ) → 0 < count p xs → new p ≡ time p)
      → IsHeap time xs
      → IsHeap new xs
  pub push_heap :
      (time : ℕ → ℕ) (x : ℕ) (xs : List ℕ) → IsHeap time xs → IsHeap time (queue.push time x xs)
  pub pop_heap :
      (time : ℕ → ℕ) (x : ℕ) (xs : List ℕ)
      → IsHeap time (x ∷ xs)
      → IsHeap time (queue.pop time (x ∷ xs))
  pub pop_removes :
      (time : ℕ → ℕ) (x p : ℕ) (xs : List ℕ)
      → IsHeap time (x ∷ xs)
      → count p (queue.pop time (x ∷ xs)) ≡ count p xs
  pub push_adds :
      (time : ℕ → ℕ) (x p : ℕ) (xs : List ℕ)
      → IsHeap time xs
      → count p (queue.push time x xs) ≡ count p (x ∷ xs)
