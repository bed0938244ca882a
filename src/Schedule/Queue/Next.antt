-- ===== src/Schedule/Queue/Next.antt =====
-- `getNextTask` of src/module/TaskScheduleManager.cpp: all its branches against the timetable.
use bloom_server.Base.{
  ℕ, ◌≡◌, refl, Option, none, some, List, [], ◌∷◌, leb, ◌==◌, arith, Bool-cases, Option-cases, inl,
  inr,
}
use bloom_server.Base.Run.{Run, ok}
use bloom_server.Schedule.{char_1, Readings, rescheduled}
use bloom_server.Schedule.Heap.{PriorityQueue, Orders}
use bloom_server.Schedule.Queue.{Manager, fetch_time, next_from, get_next_task}
use bloom_server.Schedule.Queue.Consistent.{Consistent}
use bloom_server.Schedule.Queue.Timetable.{
  object, timetable, Taking, vacant, early, due, unused, Ordered, front_Earliest, own_object,
}
use bloom_server.Schedule.Queue.HandOut.{
  handed_out, hand_out-eq, handed_out-kept, handed_out-timetable,
}
use bloom_server.Schedule.Queue.TakeOff.{
  taken_off, take_off-eq, taken_off-Consistent, taken_off-Ordered, taken_off-timetable,
}

module _ {queue : PriorityQueue} (orders : Orders queue) where
  -- A call that returns, and does what the timetable does; one that hands out no task keeps the queue.
  pub record Refines (c : Readings) (s : Manager) (run : Run (Manager × Option ℕ × ℕ))
      : Type 0 where
    pub state : Manager
    pub task : Option ℕ
    pub next_time : ℕ
    pub returns : run ≡ ok (state, task, next_time)
    pub taking : Taking c (timetable s) (object state.task task) next_time (timetable state)
    pub kept : task ≡ none → Consistent state × Ordered orders state
    pub kept_after :
        (p : ℕ)
        → task ≡ some p
        → orders.IsHeap (fetch_time state) s.tasks
        → Consistent state × Ordered orders state

  next_from-Refines :
      (c : Readings) (s : Manager) (xs : List ℕ)
      → s.tasks ≡ xs
      → Consistent s
      → Ordered orders s
      → Refines c s (next_from queue c s xs)
  next_from-Refines c s [] e v o = record {
    state = s;
    task = none;
    next_time = 10;
    returns = refl;
    taking = vacant (λ i. elim (Option-cases (s.tasksmap i)) [
      | inl none_there ↦ rw none_there refl
      | inr (q, there) ↦ absurd (let one = v.once i q there in let z = rw e at one in omega arith)
    ]);
    kept = λ _. (v, o);
    kept_after = λ p z heap. absurd (cc);
  }
  next_from-Refines c s (p ∷ rest) e v o =
      let front = front_Earliest orders s p rest v e o in
      elim (Bool-cases ((s.task p).sourcestate_0 == char_1)) [
        | inr closed ↦ record {
          state = taken_off orders c p rest s v;
          task = none;
          next_time = 1;
          returns = rw closed (take_off-eq orders c p rest s v e);
          taking =
              rw (taken_off-timetable orders c p rest s v e)
                (unused (s.task p) front (ground (arith, closed)));
          kept = λ _. (
            taken_off-Consistent orders c p rest s v e o,
            taken_off-Ordered orders c p rest s v e o,
          );
          kept_after = λ q z heap. absurd (cc);
        }
        | inl usable ↦ elim (Bool-cases (leb (s.task p).time_to_fetch c.at_test)) [
          | inr future ↦ record {
            state = s;
            task = none;
            next_time = 10;
            returns = rw (usable, future) refl;
            taking = early (s.task p) front (ground (arith, usable)) (ground (arith, future));
            kept = λ _. (v, o);
            kept_after = λ q z heap. absurd (cc);
          }
          | inl now ↦ record {
            state = handed_out queue c p rest s;
            task = some p;
            next_time = 1;
            returns = rw (usable, now) (hand_out-eq queue c p rest s v e);
            taking =
                rw
                  (
                    handed_out-timetable queue c p rest s v e,
                    own_object p s (rescheduled c (s.task p)),
                  )
                  (due (s.task p) front (ground (arith, usable)) (ground (arith, now)));
            kept = λ z. absurd (cc);
            kept_after = λ q z heap. handed_out-kept queue c p rest s v orders e (rw e at heap);
          }
        ]
      ]

  -- If the map and the queue agree, the queue is a heap for the times of its tasks and the priority
  -- queue keeps what the C++ library promises of heaps, then `getNextTask` takes the step of the
  -- timetable, the tasks by their numbers: nothing if there is no task, nothing if an earliest task is in
  -- use and not due, an earliest task with its next time set if it is in use and due, and nothing with
  -- that task dropped if it is not in use. Where it hands out no task, the map and the queue agree
  -- afterwards and the queue is a heap; where it hands one out, whose time it has changed before `pop`
  -- takes it off, this is so if the queue is still a heap for the changed times, as `pop` requires.
  pub get_next_task-Refines :
      (c : Readings) (s : Manager)
      → Consistent s
      → Ordered orders s
      → Refines c s (get_next_task queue c s)
  unfolding get_next_task
  get_next_task-Refines c s v o = next_from-Refines c s s.tasks refl v o
