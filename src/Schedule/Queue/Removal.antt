-- ===== src/Schedule/Queue/Removal.antt =====
-- What `removeTaskFromPriorityQueue` leaves in the queue.
use bloom_server.Base.{
  ℕ, zero, suc, ◌+◌, ◌≤◌, ◌<◌, ◌≡◌, ◌≢◌, refl, ap, ◌∙◌, Bool, List, [], ◌∷◌, length, ◌==◌, ltb,
  if◌then◌else◌, arith, Bool-cases, inl, inr,
}
use bloom_server.Base.Run.{ok}
use bloom_server.Schedule.Heap.{PriorityQueue, Rearranges, count}
use bloom_server.Schedule.Queue.{Manager, fetch_time, drain, push_all, has_id, remove_from}

module _ {queue : PriorityQueue} (rearranges : Rearranges queue) where
  pub count-drain :
      (time : ℕ → ℕ) (drops : ℕ → Bool) (p : ℕ) (fuel : ℕ) (xs : List ℕ)
      → length xs ≤ fuel
      → count p (drain queue fuel time drops xs) ≡ (if drops p then 0 else count p xs)
  unfolding drain
  count-drain time drops p zero [] h = ground arith
  count-drain time drops p zero (x ∷ xs) h = absurd (omega arith)
  count-drain time drops p (suc fuel) [] h = ground arith
  count-drain time drops p (suc fuel) (x ∷ xs) h =
      let size = rearranges.pop_size time x xs in
      let rest = count-drain time drops p fuel (queue.pop time (x ∷ xs)) (omega (arith, size)) in
      let same = rearranges.pop_count time x p xs in
      elim (Bool-cases (p == x)) [
        | inl here ↦
            let e : p ≡ x = ground arith in
            elim (Bool-cases (drops x)) [
              | inl d ↦ let dp = ap drops e ∙ d in rw d (ground (arith, rest, same, dp))
              | inr k ↦ let kp = ap drops e ∙ k in rw k (ground (arith, rest, same, kp))
            ]
        | inr other ↦ elim (Bool-cases (drops x)) [
          | inl d ↦ rw d (ground (arith, rest, same))
          | inr k ↦ rw k (ground (arith, rest, same))
        ]
      ]

  pub count-push_all :
      (time : ℕ → ℕ) (p : ℕ) (ps xs : List ℕ)
      → count p (push_all queue time ps xs) ≡ count p ps + count p xs
  unfolding push_all
  count-push_all time p [] xs = omega arith
  count-push_all time p (x ∷ ps) xs =
      omega
        (arith, count-push_all time p ps (queue.push time x xs), rearranges.push_count time x p xs)

  -- A queue without the tasks of the number `i`.
  pub record Removed (i : ℕ) (s : Manager) (xs : List ℕ) : Type 0 where
    pub left : List ℕ
    pub returns : remove_from queue i s xs ≡ ok (record s { tasks = left })
    pub counts : (p : ℕ) → count p left ≡ (if (s.task p).id == i then 0 else count p xs)

  -- Only `q` has the number, and stands at the front.
  first_only :
      (i : ℕ) (s : Manager) (q x : ℕ) (xs : List ℕ)
      → ((p : ℕ) → 0 < count p (x ∷ xs) → (s.task p).id ≡ i → p ≡ q)
      → count q (x ∷ xs) ≡ 1
      → (s.task x).id ≡ i
      → (p : ℕ) → count p xs ≡ (if (s.task p).id == i then 0 else count p (x ∷ xs))
  first_only i s q x xs unique once first p =
      let front : x ≡ q = unique x (ground arith) first in
      let gone : count q xs ≡ 0 = ground arith in
      elim (Bool-cases ((s.task p).id == i)) [
        | inr other ↦
            let apart : p ≢ x = (λ e. absurd (let z = rw e at other in ground (arith, first))) in
            rw other (ground arith)
        | inl same ↦ elim (Bool-cases (ltb 0 (count p xs))) [
          | inl more ↦
              let e : p ≡ q = unique p (ground arith) (ground arith) in
              absurd (let z = rw e at more in ground arith)
          | inr none_left ↦ rw same (ground arith)
        ]
      ]

  remove_from-Removed :
      (i : ℕ) (s : Manager) (q : ℕ) (xs : List ℕ)
      → ((p : ℕ) → 0 < count p xs → (s.task p).id ≡ i → p ≡ q)
      → count q xs ≡ 1
      → Removed i s xs
  remove_from-Removed i s q [] unique once = absurd (omega arith)
  remove_from-Removed i s q (x ∷ xs) unique once = elim (Bool-cases (has_id i s x)) [
    | inl first ↦ record {
      left = queue.pop (fetch_time s) (x ∷ xs);
      returns = rw first refl;
      counts = λ p.
          rearranges.pop_count (fetch_time s) x p xs
          ∙ first_only i s q x xs unique once (ground arith) p;
    }
    | inr later ↦
        let kept = drain queue (length (x ∷ xs)) (fetch_time s) (has_id i s) (x ∷ xs) in
        record {
          left = push_all queue (fetch_time s) kept [];
          returns = rw later refl;
          counts = λ p. omega (
            arith,
            count-push_all (fetch_time s) p kept [],
            count-drain (fetch_time s) (has_id i s) p (length (x ∷ xs)) (x ∷ xs) (omega arith),
          );
        }
  ]

  -- If no task but `q` has the number `i`, and `q` is queued once, then exactly `q` is removed.
  pub remove_task_from_priority_queue-Removed :
      (i : ℕ) (s : Manager) (q : ℕ)
      → ((p : ℕ) → 0 < count p s.tasks → (s.task p).id ≡ i → p ≡ q)
      → count q s.tasks ≡ 1
      → Removed i s s.tasks
  remove_task_from_priority_queue-Removed i s q unique once =
      remove_from-Removed i s q s.tasks unique once
