-- ===== src/Schedule/Tests.antt =====
-- The theorems on tasks, with a queue that is a sorted list, at small sets of tasks.
use bloom_server.Base.{
  ℕ, suc, ◌*◌, ◌/◌, ◌^◌, ◌≤◌, ◌<◌, ◌≡◌, refl, Option, none, some, List, [], ◌∷◌, leb, ◌==◌,
  if◌then◌else◌, min, max, replicate, arith, Bool-cases, inl, inr,
}
use bloom_server.Base.Run.{Run, ok, fault, buffer_overflow}
use bloom_server.Schedule.{blank_task, LocalTime, Readings, recalculate_time}
use bloom_server.Schedule.Heap.{PriorityQueue, Rearranges, Orders, count}
use bloom_server.Schedule.Backoff.{rounds, recalculate_time-backoff}
use bloom_server.Schedule.Queue.{
  Manager, SiteSourceInfo, put_task, requeue, push_all, drain, hand_out, get_next_task,
  remove_task_from_priority_queue, retrieve,
}
use bloom_server.Schedule.Queue.Next.{Refines, get_next_task-Refines}
use bloom_server.Schedule.Queue.History.{
  empty_manager, empty_manager-Sound, Sound, Returns, retrieve-Sound,
}

abbrev sorted_push : (ℕ → ℕ) → ℕ → List ℕ → List ℕ
sorted_push time x [] = x ∷ []
sorted_push time x (y ∷ ys) =
    let rest = sorted_push time x ys in if leb (time x) (time y) then x ∷ (y ∷ ys) else y ∷ rest

abbrev sorted_pop : (ℕ → ℕ) → List ℕ → List ℕ
sorted_pop time [] = []
sorted_pop time (x ∷ xs) = xs

abbrev sorted : PriorityQueue
sorted = record { push = sorted_push; pop = sorted_pop }

count-sorted_push :
    (time : ℕ → ℕ) (x p : ℕ) (xs : List ℕ) → count p (sorted_push time x xs) ≡ count p (x ∷ xs)
count-sorted_push time x p [] = refl
count-sorted_push time x p (y ∷ ys) = ground (arith, count-sorted_push time x p ys)

sorted-Rearranges : Rearranges sorted
sorted-Rearranges = record {
  push_count = count-sorted_push;
  pop_count = λ time x p xs. refl;
  pop_size = λ time x xs. refl;
}

-- Every element is at most as late as those behind it.
IsSorted : (ℕ → ℕ) → List ℕ → Type 0
IsSorted time [] = Unit
IsSorted time (x ∷ xs) = ((p : ℕ) → 0 < count p xs → time x ≤ time p) × IsSorted time xs

IsSorted-same :
    (time new : ℕ → ℕ) (xs : List ℕ)
    → ((p : ℕ) → 0 < count p xs → new p ≡ time p)
    → IsSorted time xs
    → IsSorted new xs
unfolding IsSorted
IsSorted-same time new [] same h = tt
IsSorted-same time new (x ∷ xs) same (first, rest) = (
  λ p pos. omega (arith, first p pos, same x (ground arith), same p (ground arith)),
  IsSorted-same time new xs (λ p pos. same p (ground arith)) rest,
)

sorted_push-IsSorted :
    (time : ℕ → ℕ) (x : ℕ) (xs : List ℕ) → IsSorted time xs → IsSorted time (sorted_push time x xs)
unfolding IsSorted
sorted_push-IsSorted time x [] h = (λ p pos. absurd (omega arith), tt)
sorted_push-IsSorted time x (y ∷ ys) (first, rest) = elim (Bool-cases (leb (time x) (time y))) [
  | inl before ↦
      let least : (p : ℕ) → 0 < count p (y ∷ ys) → time x ≤ time p = λ p pos.
        elim (Bool-cases (p == y)) [
          | inl same ↦ let e : p ≡ y = ground arith in rw e (ground arith)
          | inr other ↦ let le = first p (ground arith) in ground (arith, le)
        ] in
      rw before (least, (first, rest))
  | inr after ↦
      let least : (p : ℕ) → 0 < count p (sorted_push time x ys) → time y ≤ time p = λ p pos.
        elim (Bool-cases (p == x)) [
          | inl same ↦ let e : p ≡ x = ground arith in rw e (ground arith)
          | inr other ↦ let c = count-sorted_push time x p ys in first p (ground (arith, c))
        ] in
      rw after (least, sorted_push-IsSorted time x ys rest)
]

sorted-Orders : Orders sorted
unfolding IsSorted
sorted-Orders = record {
  IsHeap = IsSorted;
  empty = λ time. tt;
  top_first = λ time x xs h. h.0;
  same_times = IsSorted-same;
  push_heap = sorted_push-IsSorted;
  pop_heap = λ time x xs h. h.1;
  pop_removes = λ time x p xs h. refl;
  push_adds = λ time x p xs h. count-sorted_push time x p xs;
}

abbrev row : ℕ → SiteSourceInfo
row i = record {
  id = i;
  source_id = i;
  fetch_interval = 60;
  name = [];
  host = [];
  homeurl = [];
  ultimatepageurl = [];
  pageurl = [];
  intxt = [];
}

-- Tasks 7 and 9 are due at 101 and 51; the second row of number 7 is dropped.
abbrev rows : List (ℕ × SiteSourceInfo)
rows = (100, row 7) ∷ ((50, row 9) ∷ ((60, row 7) ∷ []))

abbrev monday_noon : LocalTime
monday_noon = record { hour = 12; wday = 1 }

abbrev at_60 : Readings
at_60 = record { at_test = 60; at_recalculation = monday_noon; at_ratio = monday_noon; at_end = 61 }

abbrev state_or_empty : Run Manager → Manager
state_or_empty (ok s) = s
state_or_empty (fault e) = empty_manager

state_or_empty-Sound :
    (run : Run Manager)
    → Returns sorted-Rearranges sorted-Orders run
    → Sound sorted-Orders (state_or_empty run)
state_or_empty-Sound run k = rw k.returns k.sound

-- Both tasks are queued, and task 9 is in front.
abbrev two_tasks : Manager
two_tasks = state_or_empty (retrieve sorted rows empty_manager)

two_tasks-Sound : Sound sorted-Orders two_tasks
two_tasks-Sound = state_or_empty-Sound (retrieve sorted rows empty_manager) (
    retrieve-Sound sorted-Rearranges sorted-Orders rows empty_manager (refl, (refl, (refl, tt)))
      (empty_manager-Sound sorted-Orders))

retrieve-Sound_example :
    Returns sorted-Rearranges sorted-Orders (retrieve sorted rows empty_manager)
retrieve-Sound_example =
    retrieve-Sound sorted-Rearranges sorted-Orders rows empty_manager (refl, (refl, (refl, tt)))
      (empty_manager-Sound sorted-Orders)

-- A name of 64 bytes for the host runs over the field.
long_host_test :
    retrieve sorted ((100, record (row 7) { host = replicate 64 97 }) ∷ []) empty_manager
    ≡ fault buffer_overflow
unfolding retrieve
long_host_test = refl

two_tasks_test : two_tasks.tasks ≡ 1 ∷ (0 ∷ [])
unfolding retrieve put_task requeue remove_task_from_priority_queue push_all drain
two_tasks_test = refl

get_next_task-Refines_example :
    Refines sorted-Orders at_60 two_tasks (get_next_task sorted at_60 two_tasks)
get_next_task-Refines_example =
    get_next_task-Refines sorted-Orders at_60 two_tasks two_tasks-Sound.consistent
      two_tasks-Sound.ordered

-- What was handed out, the queue, and the next time of the task in front.
abbrev outcome : Run (Manager × Option ℕ × ℕ) → Option ℕ × List ℕ × ℕ
outcome (ok (s, o, n)) = (o, s.tasks, (s.task 1).time_to_fetch)
outcome (fault e) = (none, [], 0)

-- Task 9 is handed out; its next time is 61 + 60, after that of task 7.
next_test :
    ◌≡◌ {A = Option ℕ × List ℕ × ℕ}
      (outcome (get_next_task sorted at_60 two_tasks))
      (some 1, 0 ∷ (1 ∷ []), 121)
unfolding retrieve put_task requeue remove_task_from_priority_queue push_all drain get_next_task
    hand_out recalculate_time
next_test = refl

recalculate_time-backoff_example :
    let t = record blank_task { interval = 60; current_interval = 100 } in
    ((rounds 5 monday_noon 0 t).current_interval ≡ min 604800 (100 * 2 ^ 5))
    × ((rounds 5 monday_noon (suc 3) t).current_interval ≡ max 60 (100 / 2 ^ 5))
recalculate_time-backoff_example =
    recalculate_time-backoff monday_noon refl
      (record blank_task { interval = 60; current_interval = 100 }) (omega arith) (omega arith) 5 3
