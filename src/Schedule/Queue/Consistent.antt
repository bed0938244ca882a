-- ===== src/Schedule/Queue/Consistent.antt =====
-- The invariant of the queue and the map of src/module/TaskScheduleManager.cpp, and putTask.
use bloom_server.Base.{
  ℕ, ◌≤◌, ◌<◌, ◌≡◌, ◌≢◌, ◌⊎◌, refl, sym, ap, ◌∙◌, Option, none, some, List, ltb, ◌==◌,
  if◌then◌else◌, arith, Bool-cases, Option-cases, inl, inr,
}
use bloom_server.Base.Run.{Run, ok}
use bloom_server.Schedule.{char_1, combine_task}
use bloom_server.Schedule.Heap.{PriorityQueue, Rearranges, count}
use bloom_server.Schedule.Queue.{
  Manager, combined, fetch_time, insert, push, remove_task_from_priority_queue, requeue, put_task,
}
use bloom_server.Schedule.Queue.Removal.{remove_task_from_priority_queue-Removed}

-- The map has each queued task under its number and nothing else, and each is queued once.
pub record Consistent (s : Manager) : Type 0 where
  pub listed : (i p : ℕ) → s.tasksmap i ≡ some p → (s.task p).id ≡ i
  pub once : (i p : ℕ) → s.tasksmap i ≡ some p → count p s.tasks ≡ 1
  pub queued : (p : ℕ) → 0 < count p s.tasks → s.tasksmap (s.task p).id ≡ some p
  pub fresh : (p : ℕ) → s.allocated ≤ p → count p s.tasks ≡ 0

insert-cases :
    (i p j q : ℕ) (map : ℕ → Option ℕ)
    → insert i p map j ≡ some q
    → ((j ≡ i) × (q ≡ p)) ⊎ ((j ≢ i) × (map j ≡ some q))
insert-cases i p j q map e = elim (Bool-cases (j == i)) [
  | inl same ↦ let x : some p ≡ some q = rw same at e in inl (ground arith, ground (arith, x))
  | inr apart ↦ inr ((λ h. absurd (ground (arith, apart))), rw apart at e)
]

-- Other fields of the tasks, and the order of the queue, do not matter.
pub alike-Consistent :
    (s t : Manager)
    → ((p : ℕ) → (t.task p).id ≡ (s.task p).id)
    → ((p : ℕ) → count p t.tasks ≡ count p s.tasks)
    → t.tasksmap ≡ s.tasksmap
    → t.allocated ≡ s.allocated
    → Consistent s
    → Consistent t
alike-Consistent s t ids counts map bound v = record {
  listed = λ i p e. ids p ∙ v.listed i p (ap (λ (m : ℕ → Option ℕ). m i) (sym map) ∙ e);
  once = λ i p e. counts p ∙ v.once i p (ap (λ (m : ℕ → Option ℕ). m i) (sym map) ∙ e);
  queued = λ p pos. rw (map, ids p) (v.queued p (rw (counts p) at pos));
  fresh = λ p le. counts p ∙ v.fresh p (rw bound at le);
}

-- A task is put in the queue that is not in it yet, or is taken out and put back.
module _ {queue : PriorityQueue} (rearranges : Rearranges queue) where
  -- A call of an operation ends without a fault in a consistent state.
  pub record Keeps {A : Type 0} (run : Run (Manager × A)) : Type 0 where
    pub state : Manager
    pub answer : A
    pub returns : run ≡ ok (state, answer)
    pub consistent : Consistent state

  only_listed :
      (i q : ℕ) (s : Manager)
      → Consistent s
      → s.tasksmap i ≡ some q
      → (p : ℕ) → 0 < count p s.tasks
      → (s.task p).id ≡ i
      → p ≡ q
  only_listed i q s v e p pos same =
      let there = v.queued p pos in
      let both : some p ≡ some q = sym there ∙ ap s.tasksmap same ∙ e in ground (arith, both)

  count-requeue :
      (i q : ℕ) (s : Manager)
      → Consistent s
      → s.tasksmap i ≡ some q
      → (time : ℕ → ℕ) (left : List ℕ)
      → ((p : ℕ) → count p left ≡ (if (s.task p).id == i then 0 else count p s.tasks))
      → (p : ℕ) → count p (queue.push time q left) ≡ count p s.tasks
  count-requeue i q s v e time left counts p =
      let pushed = rearranges.push_count time q p left in
      let one = v.once i q e in
      let name = v.listed i q e in
      elim (Bool-cases (p == q)) [
        | inl here ↦
            let same : p ≡ q = ground arith in
            ground (
              arith,
              pushed,
              counts p,
              ap (λ (x : ℕ). (s.task x).id) same,
              ap (λ (x : ℕ). count x s.tasks) same,
            )
        | inr other ↦ elim (Bool-cases ((s.task p).id == i)) [
          | inr else_where ↦ ground (arith, pushed, counts p)
          | inl named ↦ elim (Bool-cases (ltb 0 (count p s.tasks))) [
            | inl more ↦
                let same = only_listed i q s v e p (ground arith) (ground arith) in
                absurd (ground arith)
            | inr no_more ↦ ground (arith, pushed, counts p)
          ]
        ]
      ]

  pub requeue-Consistent :
      (i q : ℕ) (s : Manager) → Consistent s → s.tasksmap i ≡ some q → Keeps (requeue queue i q s)
  unfolding requeue remove_task_from_priority_queue
  requeue-Consistent i q s v e =
      let r =
        remove_task_from_priority_queue-Removed rearranges i s q (only_listed i q s v e)
          (v.once i q e) in
      let t = push queue q (record s { tasks = r.left }) in
      record {
        state = t;
        answer = 0;
        returns = rw r.returns refl;
        consistent =
            alike-Consistent s t (λ p. refl)
              (count-requeue i q s v e (fetch_time s) r.left r.counts) refl refl v;
      }

  absent :
      (p : ℕ) (s : Manager) → Consistent s → s.tasksmap (s.task p).id ≡ none → count p s.tasks ≡ 0
  absent p s v e = elim (Bool-cases (ltb 0 (count p s.tasks))) [
    | inl more ↦ absurd (let z = v.queued p (ground arith) in let y = rw e at z in cc)
    | inr gone ↦ ground arith
  ]

  -- `p` is the pointer of a task that is not in the map, under a number that is not in it.
  inserted-Consistent :
      (p : ℕ) (s : Manager)
      → Consistent s
      → p < s.allocated
      → s.tasksmap (s.task p).id ≡ none
      → Consistent (push queue p (record s { tasksmap = insert (s.task p).id p s.tasksmap }))
  inserted-Consistent p s v lt e = record {
    listed = λ i q h. elim (insert-cases (s.task p).id p i q s.tasksmap h) [
      | inl (same, own) ↦ rw (own, same) refl
      | inr (apart, old) ↦ v.listed i q old
    ];
    once = λ i q h.
        let pushed = rearranges.push_count (fetch_time s) p q s.tasks in
        elim (insert-cases (s.task p).id p i q s.tasksmap h) [
          | inl (same, own) ↦
              let gone = absent p s v e in
              ground (arith, pushed, ap (λ (x : ℕ). count x s.tasks) own)
          | inr (apart, old) ↦
              let one = v.once i q old in
              let name = v.listed i q old in
              let other : q ≢ p = λ z. apart (sym name ∙ ap (λ (x : ℕ). (s.task x).id) z) in
              ground (arith, pushed, one, other)
        ];
    queued = λ q pos.
        let pushed = rearranges.push_count (fetch_time s) p q s.tasks in
        elim (Bool-cases (q == p)) [
          | inl own ↦ ground arith
          | inr other ↦
              let old = v.queued q (ground (arith, pushed)) in
              let apart : (s.task q).id ≢ (s.task p).id =
                λ h. absurd (let z = rw (h, e) at old in cc) in
              ground (arith, old)
        ];
    fresh = λ q le. ground (arith, rearranges.push_count (fetch_time s) p q s.tasks, v.fresh q le);
  }

  combined-Consistent : (q p : ℕ) (s : Manager) → Consistent s → Consistent (combined queue q p s)
  unfolding combine_task
  combined-Consistent q p s v =
      alike-Consistent s (combined queue q p s) (λ r. ground arith) (λ r. refl) refl refl v

  pub put_task-Consistent :
      (p from : ℕ) (s : Manager) → Consistent s → p < s.allocated → Keeps (put_task queue p from s)
  unfolding put_task
  put_task-Consistent p from s v lt = elim (Option-cases (s.tasksmap (s.task p).id)) [
    | inl e ↦ elim (Bool-cases ((s.task p).sourcestate_0 == char_1)) [
      | inr closed ↦ record {
        state = s;
        answer = 0;
        returns = rw (put_task, e, closed) refl;
        consistent = v;
      }
      | inl usable ↦ record {
        state = push queue p (record s { tasksmap = insert (s.task p).id p s.tasksmap });
        answer = 1;
        returns = rw (put_task, e, usable) refl;
        consistent = inserted-Consistent p s v lt e;
      }
    ]
    | inr (q, e) ↦
        let c = combined queue q p s in
        let same = combined-Consistent q p s v in
        elim (Bool-cases (from == 1)) [
          | inr source ↦
              let k = requeue-Consistent (s.task p).id q s v e in rw (put_task, e, source) k
          | inl source ↦ elim (Bool-cases ((s.task p).time_to_fetch == 1)) [
            | inl at_once ↦
                let k = requeue-Consistent (s.task p).id q c same e in
                rw (put_task, e, source, at_once) k
            | inr later ↦ record {
              state = c;
              answer = 0;
              returns = rw (put_task, e, source, later) refl;
              consistent = same;
            }
          ]
        ]
  ]
