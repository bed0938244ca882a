-- ===== src/Schedule/Queue/Kept.antt =====
-- `remove` of src/module/TaskScheduleManager.cpp, whose test is the wrong way round.
use bloom_server.Base.{ℕ, ◌≡◌}
use bloom_server.Base.Run.{Run, ok}
use bloom_server.Schedule.Heap.{PriorityQueue, Rearranges, count}
use bloom_server.Schedule.Queue.{Manager}
use bloom_server.Schedule.Queue.Consistent.{Consistent}

module _ {queue : PriorityQueue} (rearranges : Rearranges queue) where
  -- A call that changes neither what the map says nor how often a task is queued.
  pub record Idle (s : Manager) (run : Run Manager) : Type 0 where
    pub state : Manager
    pub returns : run ≡ ok state
    pub map : (i : ℕ) → state.tasksmap i ≡ s.tasksmap i
    pub counts : (p : ℕ) → count p state.tasks ≡ count p s.tasks
