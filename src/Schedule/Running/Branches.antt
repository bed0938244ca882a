-- ===== src/Schedule/Running/Branches.antt =====
-- The branches of getTaskOtherInfo, putTaskOtherInfo and poptaskother of
-- src/module/TaskScheduleManager.cpp.
use bloom_server.Base.{ℕ, ◌≡◌, refl, Bool, true, false, Option, none, some, ◌==◌, arith}
use bloom_server.Schedule.Running.{
  Others, mark_used, enter, get_task_other_info, pop_task_other, put_task_other_info,
}

pub self : (p : ℕ) → (p == p) ≡ true
self p = ground arith

pub get_none :
    (i : ℕ) (s : Others)
    → s.tasksothermap i ≡ none
    → ◌≡◌ {A = Others × Option ℕ × Bool} (get_task_other_info i true s) (s, none, false)
unfolding get_task_other_info
get_none i s e = rw (get_task_other_info, e) refl

pub get_busy :
    (i p : ℕ) (s : Others)
    → s.tasksothermap i ≡ some p
    → (s.info p).alreadyused ≡ true
    → ◌≡◌ {A = Others × Option ℕ × Bool} (get_task_other_info i true s) (s, none, true)
unfolding get_task_other_info
get_busy i p s e busy = rw (get_task_other_info, e, busy) refl

pub get_free :
    (i p : ℕ) (s : Others)
    → s.tasksothermap i ≡ some p
    → (s.info p).alreadyused ≡ false
    → ◌≡◌ {A = Others × Option ℕ × Bool}
        (get_task_other_info i true s)
        (mark_used true p s, some p, true)
unfolding get_task_other_info
get_free i p s e free = rw (get_task_other_info, e, free) refl

pub put_none :
    (p : ℕ) (s : Others)
    → s.tasksothermap (s.info p).id ≡ none
    → ◌≡◌ {A = Others × ℕ} (put_task_other_info p s) (enter (s.info p).id (some p) s, 1)
unfolding put_task_other_info
put_none p s e = rw (put_task_other_info, e) refl

pub pop_none :
    (i : ℕ) (s : Others)
    → s.tasksothermap i ≡ none
    → ◌≡◌ {A = Others × Option ℕ} (pop_task_other i true s) (s, none)
unfolding pop_task_other
pop_none i s e = rw (pop_task_other, e) refl

pub pop_busy :
    (i p : ℕ) (s : Others)
    → s.tasksothermap i ≡ some p
    → (s.info p).alreadyused ≡ true
    → ◌≡◌ {A = Others × Option ℕ} (pop_task_other i true s) (s, none)
unfolding pop_task_other
pop_busy i p s e busy = rw (pop_task_other, e, busy) refl

pub pop_free :
    (i p : ℕ) (s : Others)
    → s.tasksothermap i ≡ some p
    → (s.info p).alreadyused ≡ false
    → ◌≡◌ {A = Others × Option ℕ}
        (pop_task_other i true s)
        (enter i none (mark_used true p s), some p)
unfolding pop_task_other
pop_free i p s e free = rw (pop_task_other, e, free) refl
