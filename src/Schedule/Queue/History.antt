-- ===== src/Schedule/Queue/History.antt =====
-- `putTask`, `retrieve` and `increaseFetchNum` of src/module/TaskScheduleManager.cpp, from an empty
-- manager on.
use bloom_server.Base.{
  ℕ, suc, ◌<◌, ◌≡◌, refl, ap, ◌∙◌, none, some, List, true, [], ◌∷◌, length, ◌==◌, All, u32, arith,
  Bool-cases, Option-cases, inl, inr,
}
use bloom_server.Base.Run.{Run, ok, fault, ◌>>=◌}
use bloom_server.Schedule.{Task, blank_task, char_1}
use bloom_server.Schedule.Heap.{PriorityQueue, Rearranges, Orders, count}
use bloom_server.Schedule.Queue.{
  Manager, SiteSourceInfo, source_task, fetch_time, write, has_id, allocate, increase_fetch_num,
  drain, push_all, push, remove_from, put_task, requeue, remove_task_from_priority_queue, retrieve,
  strings_fit,
}
use bloom_server.Schedule.Queue.Consistent.{Consistent, alike-Consistent, put_task-Consistent}
use bloom_server.Schedule.Queue.Timetable.{Ordered}

abbrev pub empty_manager : Manager
empty_manager = record { task = λ p. blank_task; allocated = 0; tasks = []; tasksmap = λ i. none }

abbrev state_of : Run (Manager × ℕ) → Run Manager
state_of r = r >>= (λ x. ok x.0)

-- The invariant of the manager.
pub record Sound {queue : PriorityQueue} (orders : Orders queue) (s : Manager) : Type 0 where
  pub consistent : Consistent s
  pub ordered : Ordered orders s

pub empty_manager-Sound :
    {queue : PriorityQueue} (orders : Orders queue) → Sound orders empty_manager
empty_manager-Sound orders = record {
  consistent = record {
    listed = λ i p e. absurd (cc);
    once = λ i p e. absurd (cc);
    queued = λ p pos. absurd (omega arith);
    fresh = λ p le. refl;
  };
  ordered = orders.empty (fetch_time empty_manager);
}

module _ {queue : PriorityQueue} (rearranges : Rearranges queue) (orders : Orders queue) where
  -- A call that returns with the invariant.
  pub record Returns (run : Run Manager) : Type 0 where
    pub state : Manager
    pub returns : run ≡ ok state
    pub sound : Sound orders state

  push_all_heap :
      (time : ℕ → ℕ) (ps xs : List ℕ)
      → orders.IsHeap time xs
      → orders.IsHeap time (push_all queue time ps xs)
  unfolding push_all
  push_all_heap time [] xs h = h
  push_all_heap time (p ∷ ps) xs h =
      push_all_heap time ps (queue.push time p xs) (orders.push_heap time p xs h)

  -- The state that a call returns, if it does, has an ordered queue.
  OrderedAfter : Run Manager → Type 0
  OrderedAfter (ok t) = Ordered orders t
  OrderedAfter (fault e) = Unit

  remove_from-Ordered :
      (i : ℕ) (s : Manager) (xs : List ℕ)
      → orders.IsHeap (fetch_time s) xs
      → OrderedAfter (remove_from queue i s xs)
  unfolding OrderedAfter
  remove_from-Ordered i s [] h = tt
  remove_from-Ordered i s (x ∷ xs) h = elim (Bool-cases (has_id i s x)) [
    | inl first ↦ rw first (orders.pop_heap (fetch_time s) x xs h)
    | inr later ↦
        let kept = drain queue (length (x ∷ xs)) (fetch_time s) (has_id i s) (x ∷ xs) in
        rw later (push_all_heap (fetch_time s) kept [] (orders.empty (fetch_time s)))
  ]

  requeue-Ordered :
      (i q : ℕ) (s : Manager) → Ordered orders s → OrderedAfter (state_of (requeue queue i q s))
  unfolding requeue remove_task_from_priority_queue OrderedAfter
  requeue-Ordered i q s o = go (remove_from queue i s s.tasks) (remove_from-Ordered i s s.tasks o)
    where
      pushed : Manager → Run (Manager × ℕ)
      pushed t = ok (push queue q t, 0)

      go : (r : Run Manager) → OrderedAfter r → OrderedAfter (state_of (r >>= pushed))
      go (ok t) h = orders.push_heap (fetch_time t) q t.tasks h
      go (fault e) h = tt

  put_task-Ordered :
      (p : ℕ) (s : Manager) → Ordered orders s → OrderedAfter (state_of (put_task queue p 2 s))
  unfolding put_task OrderedAfter
  put_task-Ordered p s o = elim (Option-cases (s.tasksmap (s.task p).id)) [
    | inl e ↦ elim (Bool-cases ((s.task p).sourcestate_0 == char_1)) [
      | inl usable ↦ rw (put_task, e, usable) (orders.push_heap (fetch_time s) p s.tasks o)
      | inr closed ↦ rw (put_task, e, closed) o
    ]
    | inr (q, e) ↦ rw (put_task, e) (requeue-Ordered (s.task p).id q s o)
  ]

  -- A call of `putTask` that returns with the invariant.
  record Puts (p : ℕ) (s : Manager) : Type 0 where
    state : Manager
    answer : ℕ
    returns : put_task queue p 2 s ≡ ok (state, answer)
    sound : Sound orders state

  put_task-Sound : (p : ℕ) (s : Manager) → Sound orders s → p < s.allocated → Puts p s
  unfolding OrderedAfter
  put_task-Sound p s v lt =
      let k = put_task-Consistent rearranges p 2 s v.consistent lt in
      let o = put_task-Ordered p s v.ordered in
      let kept = rw k.returns at o in
      record {
        state = k.state;
        answer = k.answer;
        returns = k.returns;
        sound = record { consistent = k.consistent; ordered = kept };
      }

  allocate-Sound : (t : Task) (s : Manager) → Sound orders s → Sound orders (allocate t s)
  allocate-Sound t s v =
      let old : (p : ℕ) → 0 < count p s.tasks → (allocate t s).task p ≡ s.task p =
        λ p pos. let new = v.consistent.fresh p in ground (arith) in
      record {
        consistent = record {
          listed = λ i p e.
              ap (λ (u : Task). u.id) (old p (let z = v.consistent.once i p e in omega arith))
              ∙ v.consistent.listed i p e;
          once = v.consistent.once;
          queued = λ p pos.
              ap s.tasksmap (ap (λ (u : Task). u.id) (old p pos)) ∙ v.consistent.queued p pos;
          fresh = λ p le. v.consistent.fresh p (omega arith);
        };
        ordered =
            orders.same_times (fetch_time s) (fetch_time (allocate t s)) s.tasks
              (λ p pos. ap (λ (u : Task). u.time_to_fetch) (old p pos)) v.ordered;
      }

  -- From a manager whose map and queue have the same tasks, each once, and whose queue is a heap, and for
  -- rows whose strings have room in the arrays of a task, `retrieve` returns without a fault and leaves
  -- such a manager, if the priority queue rearranges its elements and keeps heaps.
  pub retrieve-Sound :
      (rows : List (ℕ × SiteSourceInfo)) (s : Manager)
      → All (λ r. strings_fit (r.1) ≡ true) rows
      → Sound orders s
      → Returns (retrieve queue rows s)
  unfolding retrieve
  retrieve-Sound [] s _ v = record { state = s; returns = refl; sound = v }
  retrieve-Sound ((now, i) ∷ rows) s (short, shorts) v =
      let t = allocate (source_task now i) s in
      let k = put_task-Sound s.allocated t (allocate-Sound (source_task now i) s v) (omega arith) in
      rw (short, k.returns) (retrieve-Sound rows k.state shorts k.sound)

  counted-Sound : (p : ℕ) (s : Manager) → Sound orders s → Returns (increase_fetch_num (some p) s)
  unfolding increase_fetch_num
  counted-Sound p s v =
      let t = record (s.task p) { last_fetch_num = u32 (suc (s.task p).last_fetch_num) } in
      let same : (q : ℕ)
          → (fetch_time (write p t s) q ≡ fetch_time s q)
            × (((write p t s).task q).id ≡ (s.task q).id) =
        λ q. ground arith in
      record {
        state = write p t s;
        returns = refl;
        sound = record {
          consistent =
              alike-Consistent s (write p t s) (λ q. (same q).1) (λ q. refl) refl refl v.consistent;
          ordered =
              orders.same_times (fetch_time s) (fetch_time (write p t s)) s.tasks
                (λ q pos. (same q).0) v.ordered;
        };
      }
