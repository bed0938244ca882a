-- ===== src/Schedule/Running/Stuck.antt =====
-- A task whose last url is finished while a thread inserts its urls.
use bloom_server.Base.{ℕ, ◌≡◌, true, false, none, some, List, [], ◌∷◌}
use bloom_server.Base.Run.{ok}
use bloom_server.Schedule.{Task}
use bloom_server.Schedule.Running.{Others, begin_round}

-- Rounds for the task at these times all return, and end without a url inserted.
pub data Skips (reinsert : ℕ) (t : Task) : List ℕ → Others → Type 0 where
  over : (s : Others) → Skips reinsert t [] s
  next :
      (now : ℕ) (ns : List ℕ) (s r : Others)
      → begin_round now reinsert t s ≡ ok (r, none)
      → Skips reinsert t ns r
      → Skips reinsert t (now ∷ ns) s

-- The object runs, and no url of it is left that could end it.
record Stuck (i p : ℕ) (s : Others) : Type 0 where
  there : s.tasksothermap i ≡ some p
  free : (s.info p).alreadyused ≡ false
  busy : (s.info p).running ≡ true
