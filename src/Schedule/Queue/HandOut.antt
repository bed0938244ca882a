-- ===== src/Schedule/Queue/HandOut.antt =====
-- `getNextTask` of src/module/TaskScheduleManager.cpp: a task that is due. Its time changes while it is
-- in the queue, so that `pop` is called on what need not be a heap.
use bloom_server.Base.{
  ℕ, ◌+◌, ◌≡◌, refl, sym, ap, ◌∙◌, fun_ext, true, some, List, ◌∷◌, ◌==◌, if◌then◌else◌, arith,
  Bool-cases, inl, inr,
}
use bloom_server.Base.Run.{ok, ◌>>=◌}
use bloom_server.Schedule.{Task, Readings, rescheduled, recalculate_time}
use bloom_server.Schedule.Heap.{PriorityQueue, Orders, count}
use bloom_server.Schedule.Queue.{
  Manager, has_id, remove_from, fetch_time, write, push, put_task, requeue,
  remove_task_from_priority_queue, hand_out,
}
use bloom_server.Schedule.Queue.Consistent.{Consistent, alike-Consistent}
use bloom_server.Schedule.Queue.Timetable.{
  timetable, updated, Ordered, front_listed, own_object, same_id, others,
}

rescheduled_id : (c : Readings) (t : Task) → (rescheduled c t).id ≡ t.id
unfolding recalculate_time
rescheduled_id c t = ground arith

module _ (queue : PriorityQueue) where
  requeue-front :
      (i p : ℕ) (s : Manager) (rest : List ℕ)
      → s.tasks ≡ p ∷ rest
      → (s.task p).id ≡ i
      → requeue queue i p s
        ≡ ok (push queue p (record s { tasks = queue.pop (fetch_time s) (p ∷ rest) }), 0)
  unfolding requeue remove_task_from_priority_queue
  requeue-front i p s rest e same =
      let first : has_id i s p ≡ true = ground (arith, same) in
      ap (λ (xs : List ℕ). remove_from queue i s xs >>= (λ r. ok (push queue p r, 0))) e
      ∙ rw first refl

  put_task-listed :
      (p q : ℕ) (s : Manager)
      → s.tasksmap (s.task p).id ≡ some q
      → put_task queue p 2 s ≡ requeue queue (s.task p).id q s
  unfolding put_task
  put_task-listed p q s e = rw (put_task, e) refl

  -- The state in which a task has been handed out.
  abbrev pub handed_out : Readings → ℕ → List ℕ → Manager → Manager
  handed_out c p rest s =
      let t = write p (rescheduled c (s.task p)) s in
      push queue p (record t { tasks = queue.pop (fetch_time t) (p ∷ rest) })

  module _ (c : Readings) (p : ℕ) (rest : List ℕ) (s : Manager) (v : Consistent s) where
    own_id : (q : ℕ) → ((write p (rescheduled c (s.task p)) s).task q).id ≡ (s.task q).id
    own_id = same_id p s (rescheduled c (s.task p)) (rescheduled_id c (s.task p))

    pub hand_out-eq :
        s.tasks ≡ p ∷ rest → hand_out queue c p s ≡ ok (handed_out c p rest s, some p, 1)
    unfolding hand_out
    hand_out-eq e =
        let t = write p (rescheduled c (s.task p)) s in
        let name = own_id p in
        let there : t.tasksmap (t.task p).id ≡ some p = ap s.tasksmap name ∙ front_listed p s v e in
        rw (put_task-listed p p t there, requeue-front (t.task p).id p t rest e refl) refl

    -- Where the queue is still a heap for the times with the new one, `pop` may be called.
    pub handed_out-kept :
        (orders : Orders queue)
        → s.tasks ≡ p ∷ rest
        → orders.IsHeap (fetch_time (handed_out c p rest s)) (p ∷ rest)
        → Consistent (handed_out c p rest s) × Ordered orders (handed_out c p rest s)
    handed_out-kept orders e heap =
        let k = fetch_time (write p (rescheduled c (s.task p)) s) in
        let left = orders.pop_heap k p rest heap in
        (
          alike-Consistent s (handed_out c p rest s) own_id
              (λ q.
                orders.push_adds k p q (queue.pop k (p ∷ rest)) left
                ∙ ap (λ (n : ℕ). (if q == p then 1 else 0) + n) (orders.pop_removes k p q rest heap)
                ∙ ap (count q) (sym e))
              refl refl v,
          orders.push_heap k p (queue.pop k (p ∷ rest)) left,
        )

    pub handed_out-timetable :
        s.tasks ≡ p ∷ rest
        → timetable (handed_out c p rest s)
          ≡ updated (s.task p).id (some (rescheduled c (s.task p))) (timetable s)
    handed_out-timetable e = fun_ext λ i. elim (Bool-cases (i == (s.task p).id)) [
      | inl own ↦
          let there : s.tasksmap i ≡ some p =
            ap s.tasksmap (let x : i ≡ (s.task p).id = ground arith in x) ∙ front_listed p s v e in
          rw (there, own) (ap some (own_object p s (rescheduled c (s.task p))))
      | inr foreign ↦ rw foreign (others p s v (rescheduled c (s.task p)) i foreign)
    ]
