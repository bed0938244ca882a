-- ===== src/Schedule/Queue/Timetable.antt =====
-- What `getNextTask` of src/module/TaskScheduleManager.cpp does for its callers, as steps of a
-- timetable, which has no queue and no pointers; and what a state shows of its timetable.
use bloom_server.Base.{
  ℕ, ◌≤◌, ◌<◌, ◌≡◌, ◌≢◌, refl, ap, ◌∙◌, false, Option, none, some, List, ◌∷◌, ◌==◌, if◌then◌else◌,
  arith, Bool-cases, Option-cases, inl, inr,
}
use bloom_server.Schedule.{Task, char_1, Readings, rescheduled}
use bloom_server.Schedule.Heap.{PriorityQueue, Orders, count}
use bloom_server.Schedule.Queue.{Manager, fetch_time, write}
use bloom_server.Schedule.Queue.Consistent.{Consistent}

-- The task of each number.
abbrev pub Timetable : Type 0
Timetable = ℕ → Option Task

abbrev pub object : (ℕ → Task) → Option ℕ → Option Task
object task none = none
object task (some p) = some (task p)

abbrev pub timetable : Manager → Timetable
timetable s i = object s.task (s.tasksmap i)

abbrev time_of : Option Task → ℕ
time_of none = 0
time_of (some t) = t.time_to_fetch

abbrev pub updated : ℕ → Option Task → Timetable → Timetable
updated i o v j = if j == i then o else v j

-- A task with the least time of all.
pub record Earliest (v : Timetable) (t : Task) : Type 0 where
  pub listed : v t.id ≡ some t
  pub first : (i : ℕ) (u : Task) → v i ≡ some u → t.time_to_fetch ≤ u.time_to_fetch

-- One request to a timetable: it takes an earliest task. One that is due is handed out, with its
-- next time; one whose source is not in use is dropped.
pub data Taking (c : Readings) (v : Timetable) : Option Task → ℕ → Timetable → Type 0 where
  vacant : ((i : ℕ) → v i ≡ none) → Taking c v none 10 v
  early :
      (t : Task)
      → Earliest v t
      → t.sourcestate_0 ≡ char_1
      → c.at_test < t.time_to_fetch
      → Taking c v none 10 v
  due :
      (t : Task)
      → Earliest v t
      → t.sourcestate_0 ≡ char_1
      → t.time_to_fetch ≤ c.at_test
      → Taking c v (some (rescheduled c t)) 1 (updated t.id (some (rescheduled c t)) v)
  unused :
      (t : Task) → Earliest v t → t.sourcestate_0 ≢ char_1 → Taking c v none 1 (updated t.id none v)

module _ {queue : PriorityQueue} (orders : Orders queue) where
  -- The queue is a heap for the times of its tasks.
  abbrev pub Ordered : Manager → Type 0
  Ordered s = orders.IsHeap (fetch_time s) s.tasks

  -- The front of a heap is an earliest task.
  pub front_Earliest :
      (s : Manager) (p : ℕ) (rest : List ℕ)
      → Consistent s
      → s.tasks ≡ p ∷ rest
      → Ordered s
      → Earliest (timetable s) (s.task p)
  front_Earliest s p rest v e o = record {
    listed = let here = v.queued p (rw e (ground arith)) in rw here refl;
    first = λ i u h. elim (Option-cases (s.tasksmap i)) [
      | inl none_there ↦ absurd (let z = rw none_there at h in cc)
      | inr (q, there) ↦
          let z : some (s.task q) ≡ some u = rw there at h in
          let time : (s.task q).time_to_fetch ≡ u.time_to_fetch = ap time_of z in
          let one : count q (p ∷ rest) ≡ 1 = rw e at v.once i q there in
          let heap : orders.IsHeap (fetch_time s) (p ∷ rest) = rw e at o in
          elim (Bool-cases (q == p)) [
            | inl same ↦ ground (arith, time, ap (fetch_time s) (let x : q ≡ p = ground arith in x))
            | inr other ↦
                let le = orders.top_first (fetch_time s) p rest heap q (ground arith) in
                ground (arith, time, le)
          ]
    ];
  }

pub rest_apart :
    (s : Manager) (p : ℕ) (rest : List ℕ)
    → Consistent s
    → s.tasks ≡ p ∷ rest
    → (q : ℕ) → 0 < count q rest
    → q ≢ p
rest_apart s p rest v e q pos same =
    let there = v.queued p (rw e (ground arith)) in
    let one : count p (p ∷ rest) ≡ 1 = rw e at v.once (s.task p).id p there in
    ground (arith, one, ap (λ (x : ℕ). count x rest) same)

module _ (p : ℕ) (s : Manager) where
  pub own_object : (t : Task) → (write p t s).task p ≡ t
  own_object t = ground arith

  pub other_object : (t : Task) (q : ℕ) → q ≢ p → (write p t s).task q ≡ s.task q
  other_object t q other = ground (arith, other)

  pub same_id :
      (t : Task) → t.id ≡ (s.task p).id → (q : ℕ) → ((write p t s).task q).id ≡ (s.task q).id
  same_id t own q = elim (Bool-cases (q == p)) [
    | inl same ↦ let e : q ≡ p = ground arith in rw e (ap (λ (u : Task). u.id) (own_object t) ∙ own)
    | inr other ↦ rw other refl
  ]

module _ (p : ℕ) (s : Manager) (v : Consistent s) where
  pub others :
      (t : Task) (i : ℕ)
      → (i == (s.task p).id) ≡ false
      → object (write p t s).task (s.tasksmap i) ≡ timetable s i
  others t i foreign = elim (Option-cases (s.tasksmap i)) [
    | inl none_there ↦ rw none_there refl
    | inr (q, there) ↦
        let apart : q ≢ p = λ h.
          absurd (
            let z = v.listed i q there in
            let y = ap (λ (x : ℕ). (s.task x).id) h in ground arith) in
        rw there (ap some (other_object p s t q apart))
  ]

  pub front_listed : {rest : List ℕ} → s.tasks ≡ p ∷ rest → s.tasksmap (s.task p).id ≡ some p
  front_listed e = v.queued p (rw e (ground arith))
