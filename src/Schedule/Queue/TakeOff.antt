-- ===== src/Schedule/Queue/TakeOff.antt =====
-- `getNextTask` of src/module/TaskScheduleManager.cpp: a task whose source is not in use.
use bloom_server.Base.{
  ℕ, ◌<◌, ◌≡◌, ◌≢◌, refl, sym, ap, ◌∙◌, fun_ext, none, some, List, ◌∷◌, ◌==◌, arith, Bool-cases,
  inl, inr,
}
use bloom_server.Base.Run.{ok, ◌>>=◌}
use bloom_server.Schedule.{Task, Readings, retired, recalculate_time}
use bloom_server.Schedule.Heap.{PriorityQueue, Orders, count}
use bloom_server.Schedule.Queue.{Manager, pop_from, fetch_time, write, erase, pop, take_off}
use bloom_server.Schedule.Queue.Consistent.{Consistent}
use bloom_server.Schedule.Queue.Timetable.{
  timetable, updated, Ordered, rest_apart, front_listed, other_object, same_id, others,
}

retired_id : (c : Readings) (t : Task) → (retired c t).id ≡ t.id
unfolding recalculate_time
retired_id c t = ground arith

module _ {queue : PriorityQueue} (orders : Orders queue) where
  module _ (c : Readings) (p : ℕ) (rest : List ℕ) (s : Manager) (v : Consistent s) where
    abbrev pub taken_off : Manager
    taken_off = record s {
      task = (write p (retired c (s.task p)) s).task;
      tasks = queue.pop (fetch_time s) (p ∷ rest);
      tasksmap = erase (s.task p).id s.tasksmap;
    }

    pub take_off-eq : s.tasks ≡ p ∷ rest → take_off queue c s ≡ ok (taken_off, none, 1)
    unfolding take_off pop
    take_off-eq e =
        ap
          (λ (xs : List ℕ).
            pop_from queue s xs >>= (λ r. ok (write r.1 (retired c (r.0.task r.1)) r.0, none, 1)))
          e

    retired_own_id : (q : ℕ) → ((write p (retired c (s.task p)) s).task q).id ≡ (s.task q).id
    retired_own_id = same_id p s (retired c (s.task p)) (retired_id c (s.task p))

    erased :
        (i q : ℕ)
        → erase (s.task p).id s.tasksmap i ≡ some q
        → (i ≢ (s.task p).id) × (s.tasksmap i ≡ some q)
    erased i q h = elim (Bool-cases (i == (s.task p).id)) [
      | inl own ↦ absurd (let z = rw own at h in cc)
      | inr foreign ↦ ((λ z. absurd (ground (arith, z))), rw foreign at h)
    ]

    removed :
        s.tasks ≡ p ∷ rest
        → Ordered orders s
        → (q : ℕ) → count q (queue.pop (fetch_time s) (p ∷ rest)) ≡ count q rest
    removed e o q =
        let heap : orders.IsHeap (fetch_time s) (p ∷ rest) = rw e at o in
        orders.pop_removes (fetch_time s) p q rest heap

    pub taken_off-Consistent : s.tasks ≡ p ∷ rest → Ordered orders s → Consistent taken_off
    taken_off-Consistent e o = record {
      listed = λ i q h. retired_own_id q ∙ v.listed i q (erased i q h).1;
      once = λ i q h.
          let (apart, there) = erased i q h in
          let other : q ≢ p =
            λ z. apart (sym (v.listed i q there) ∙ ap (λ (x : ℕ). (s.task x).id) z) in
          let one : count q (p ∷ rest) ≡ 1 = rw e at v.once i q there in
          ground (arith, other, one, removed e o q);
      queued = λ q pos.
          let left : 0 < count q rest = ground (arith, removed e o q) in
          let there = v.queued q (rw e (ground arith)) in
          let apart : (s.task q).id ≢ (s.task p).id = λ z. rest_apart s p rest v e q left (
            let two : some q ≡ some p = sym there ∙ ap s.tasksmap z ∙ front_listed p s v e in
            ground (arith, two)) in
          ap (erase (s.task p).id s.tasksmap) (retired_own_id q) ∙ ground (arith, apart, there);
      fresh = λ q le.
          let none_there : count q (p ∷ rest) ≡ 0 = rw e at v.fresh q le in
          ground (arith, none_there, removed e o q);
    }

    pub taken_off-Ordered : s.tasks ≡ p ∷ rest → Ordered orders s → Ordered orders taken_off
    taken_off-Ordered e o =
        let heap : orders.IsHeap (fetch_time s) (p ∷ rest) = rw e at o in
        let k = fetch_time s in
        let kept = orders.pop_heap k p rest heap in
        orders.same_times k (fetch_time taken_off) (queue.pop k (p ∷ rest))
          (λ q pos.
            ap (λ (u : Task). u.time_to_fetch)
              (other_object p s (retired c (s.task p)) q
                (rest_apart s p rest v e q (rw (removed e o q) at pos))))
          kept

    pub taken_off-timetable :
        s.tasks ≡ p ∷ rest → timetable taken_off ≡ updated (s.task p).id none (timetable s)
    taken_off-timetable e = fun_ext λ i. elim (Bool-cases (i == (s.task p).id)) [
      | inl own ↦ rw own refl
      | inr foreign ↦ rw foreign (others p s v (retired c (s.task p)) i foreign)
    ]
