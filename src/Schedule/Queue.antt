-- ===== src/Schedule/Queue.antt =====
-- The queue and the map of tasks of src/module/TaskScheduleManager.cpp: push, pop, getNextTask,
-- putTask, remove, removeTaskFromPriorityQueue, getTaskClone, getTask, increaseFetchNum, retrieve.
-- Each operation frees the locks it takes on every path and is one step. A pointer is a number.
pub mod Removal
pub mod Consistent
pub mod Timetable
pub mod HandOut
pub mod TakeOff
pub mod Next
pub mod Kept
pub mod History
use bloom_server.Base.{
  ℕ, zero, suc, ◌+◌, Bool, true, false, Option, none, some, List, [], ◌∷◌, length, leb, ◌==◌,
  if◌then◌else◌, not, ◌&&◌, ltb, u32,
}
use bloom_server.Base.Run.{Run, ok, fault, out_of_range, null_pointer, buffer_overflow, ◌>>=◌}
use bloom_server.Bloom.Types.{Bytes}
use bloom_server.Schedule.{Task, blank_task, char_1, Readings, rescheduled, retired, combine_task}
use bloom_server.Schedule.Heap.{PriorityQueue}

-- `task` holds the object of each pointer; `new` gives the pointer `allocated` and the ones above.
pub record Manager : Type 0 where
  pub task : ℕ → Task
  pub allocated : ℕ
  pub tasks : List ℕ
  pub tasksmap : ℕ → Option ℕ

abbrev pub write : ℕ → Task → Manager → Manager
write p t s = record s { task = λ q. if q == p then t else s.task q }

abbrev pub insert : ℕ → ℕ → (ℕ → Option ℕ) → ℕ → Option ℕ
insert i p map j = if j == i then some p else map j

abbrev pub erase : ℕ → (ℕ → Option ℕ) → ℕ → Option ℕ
erase i map j = if j == i then none else map j

abbrev pub fetch_time : Manager → ℕ → ℕ
fetch_time s p = (s.task p).time_to_fetch

-- `new Task` with the fields that the caller sets.
abbrev pub allocate : Task → Manager → Manager
allocate t s = record (write s.allocated t s) { allocated = suc s.allocated }

abbrev pub has_id : ℕ → Manager → ℕ → Bool
has_id i s p = (s.task p).id == i

pub get_task : ℕ → Manager → Option ℕ
get_task i s = s.tasksmap i

-- The clone is in a variable of the inner block; the outer one, which is returned, stays null.
pub get_task_clone : ℕ → Manager → Manager × Option ℕ
get_task_clone i s = elim (s.tasksmap i) [
  | some p ↦ (allocate (s.task p) s, none)
  | none ↦ (s, none)
]

-- An `int` that overflows is wrapped. For a null pointer the message about it reads the id of the task.
pub increase_fetch_num : Option ℕ → Manager → Run Manager
increase_fetch_num none s = fault null_pointer
increase_fetch_num (some p) s =
    let t = s.task p in ok (write p (record t { last_fetch_num = u32 (suc t.last_fetch_num) }) s)

-- A row of the data base, as `GetSourceInfo` returns it.
pub record SiteSourceInfo : Type 0 where
  pub id : ℕ
  pub source_id : ℕ
  pub fetch_interval : ℕ
  pub name : Bytes
  pub host : Bytes
  pub homeurl : Bytes
  pub ultimatepageurl : Bytes
  pub pageurl : Bytes
  pub intxt : Bytes

-- The strings of the row, each with its zero byte, have room in the arrays of the task.
abbrev pub strings_fit : SiteSourceInfo → Bool
strings_fit i =
    ltb (length i.name) 400
    && ltb (length i.host) 64
    && ltb (length i.homeurl) 8192
    && ltb (length i.ultimatepageurl) 8192
    && ltb (length i.pageurl) 8192
    && ltb (length i.intxt) 32

-- SOURCE_TYPE_COMPANY is 6.
abbrev pub source_task : ℕ → SiteSourceInfo → Task
source_task now i = record blank_task {
  id = i.id;
  name = i.name;
  host = i.host;
  homeurl = i.homeurl;
  ultimatepageurl = i.ultimatepageurl;
  pageurl = i.pageurl;
  intxt = i.intxt;
  time_to_fetch = now + 1;
  interval = 60;
  current_interval = 60;
  noaccess_interval = 2;
  sourcestate_0 = char_1;
  depth = 5;
  sourcetype = 6;
}

module _ (queue : PriorityQueue) where
  abbrev pub push : ℕ → Manager → Manager
  push p s = record s { tasks = queue.push (fetch_time s) p s.tasks }

  -- `pop`, on a queue that is named for its first pointer.
  abbrev pub pop_from : Manager → List ℕ → Run (Manager × ℕ)
  pop_from s [] = fault out_of_range
  pop_from s (p ∷ rest) =
      let popped = record s { tasks = queue.pop (fetch_time s) (p ∷ rest) } in
      ok (record popped { tasksmap = erase (s.task p).id s.tasksmap }, p)

  unfoldable pub pop : Manager → Run (Manager × ℕ)
  pop s = pop_from s s.tasks

  -- The loop that empties the queue: the pointers it keeps, in the order in which they come out.
  unfoldable pub drain : ℕ → (ℕ → ℕ) → (ℕ → Bool) → List ℕ → List ℕ
  drain zero time drops xs = []
  drain (suc fuel) time drops [] = []
  drain (suc fuel) time drops (p ∷ xs) =
      let rest = drain fuel time drops (queue.pop time (p ∷ xs)) in
      if drops p then rest else p ∷ rest

  unfoldable pub push_all : (ℕ → ℕ) → List ℕ → List ℕ → List ℕ
  push_all time [] xs = xs
  push_all time (p ∷ ps) xs = push_all time ps (queue.push time p xs)

  abbrev pub remove_from : ℕ → Manager → List ℕ → Run Manager
  remove_from i s [] = fault out_of_range
  remove_from i s (p ∷ rest) =
      let xs = p ∷ rest in
      let kept = drain (length xs) (fetch_time s) (has_id i s) xs in
      if has_id i s p
      then ok (record s { tasks = queue.pop (fetch_time s) xs })
      else ok (record s { tasks = push_all (fetch_time s) kept [] })

  unfoldable pub remove_task_from_priority_queue : ℕ → Manager → Run Manager
  remove_task_from_priority_queue i s = remove_from i s s.tasks

  -- The test is the wrong way round: a task that is in the map stays.
  unfoldable pub remove : ℕ → Manager → Run Manager
  remove i s = elim (s.tasksmap i) [
    | none ↦ remove_task_from_priority_queue i (record s { tasksmap = erase i s.tasksmap })
    | some p ↦ ok s
  ]

  -- `removeTaskFromPriorityQueue` and then `push`.
  unfoldable pub requeue : ℕ → ℕ → Manager → Run (Manager × ℕ)
  requeue i q s = remove_task_from_priority_queue i s >>= (λ r. ok (push q r, 0))

  abbrev pub combined : ℕ → ℕ → Manager → Manager
  combined q p s = write q (combine_task (s.task q) (s.task p)) s

  -- TASK_FROM_DB is 1; callers that do not name a value pass TASK_UNFROM_DB, 2.
  unfoldable pub put_task : ℕ → ℕ → Manager → Run (Manager × ℕ)
  put_task p from s =
      let i = (s.task p).id in
      elim (s.tasksmap i) [
        | none ↦
            if (s.task p).sourcestate_0 == char_1
            then ok (push p (record s { tasksmap = insert i p s.tasksmap }), 1)
            else ok (s, 0)
        | some q ↦
            if from == 1
            then if (s.task p).time_to_fetch == 1
              then requeue i q (combined q p s)
              else ok (combined q p s, 0)
            else requeue i q s
      ]

  unfoldable pub hand_out : Readings → ℕ → Manager → Run (Manager × Option ℕ × ℕ)
  hand_out c p s =
      put_task p 2 (write p (rescheduled c (s.task p)) s) >>= (λ r. ok (r.0, some p, 1))

  unfoldable pub take_off : Readings → Manager → Run (Manager × Option ℕ × ℕ)
  take_off c s = pop s >>= (λ r. ok (write r.1 (retired c (r.0.task r.1)) r.0, none, 1))

  abbrev pub next_from : Readings → Manager → List ℕ → Run (Manager × Option ℕ × ℕ)
  next_from c s [] = ok (s, none, 10)
  next_from c s (p ∷ rest) =
      if (s.task p).sourcestate_0 == char_1
      then if leb (s.task p).time_to_fetch c.at_test then hand_out c p s else ok (s, none, 10)
      else take_off c s

  -- The task to fetch, if there is one, and `*nexttime`.
  unfoldable pub get_next_task : Readings → Manager → Run (Manager × Option ℕ × ℕ)
  get_next_task c s = next_from c s s.tasks

  -- `now` is the clock at each row, whose strings are copied without a look at their lengths. A task that is not put is deleted, and nothing refers to it.
  unfoldable pub retrieve : List (ℕ × SiteSourceInfo) → Manager → Run Manager
  retrieve [] s = ok s
  retrieve ((now, i) ∷ rows) s =
      if not (strings_fit i)
      then fault buffer_overflow
      else put_task s.allocated 2 (allocate (source_task now i) s) >>= λ r. retrieve rows r.0
