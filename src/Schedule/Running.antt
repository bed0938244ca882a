-- ===== src/Schedule/Running.antt =====
-- The tasks that are running, src/module/TaskScheduleManager.cpp with `TaskOtherInfo` of
-- src/tools/ic_types.h: the objects, the map of them, the counters, and the round in which
-- `getTaskThread` takes an object. Each function is one step. A word is its bit pattern.
pub mod Steps
pub mod Branches
pub mod Claims
pub mod Entries
pub mod Rounds
pub mod Safety
pub mod Stuck
mod Tests
use bloom_server.Base.{
  ℕ, zero, suc, ◌+◌, ◌-◌, ◌^◌, Bool, true, false, ◌&&◌, ◌||◌, not, Option, none, some, List, [],
  ◌∷◌, ◌++◌, length, take, bytes_eq, u32, sub64, ltb, ◌==◌, if◌then◌else◌,
}
use bloom_server.Base.Run.{Run, ok, fault, bad_unlock}
use bloom_server.Bloom.Types.{Bytes}
use bloom_server.Schedule.{Task}

-- `taskcookie` is null or the bytes of a string; `urls` is a set.
pub record TaskOtherInfo : Type 0 where
  pub id : ℕ
  pub fetchingcookie : Bool
  pub running : Bool
  pub taskcookie : Option Bytes
  pub taskcookielen : ℕ
  pub errorurlnum : ℕ
  pub fetchnum : ℕ
  pub urlnum : ℕ
  pub insurlnum : ℕ
  pub alreadyused : Bool
  pub urls : List Bytes
  pub taskbatch : ℕ
  pub savefetched : ℕ
  pub begintime : ℕ

abbrev pub new_info : ℕ → ℕ → TaskOtherInfo
new_info now id = record {
  id = id;
  fetchingcookie = false;
  running = false;
  taskcookie = none;
  taskcookielen = 0;
  errorurlnum = 0;
  fetchnum = 0;
  urlnum = 0;
  insurlnum = 0;
  alreadyused = true;
  urls = [];
  taskbatch = 0;
  savefetched = 0;
  begintime = now;
}

-- `insertcookie` is given the bytes at `cookie`, or none for null, and the length to copy.
pub insert_cookie : Option Bytes → ℕ → TaskOtherInfo → TaskOtherInfo
insert_cookie none n t = t
insert_cookie (some c) zero t = t
insert_cookie (some c) (suc n) t = record t {
  taskcookie = some (take (suc n) c);
  taskcookielen = suc n;
}

abbrev old_cookie : TaskOtherInfo → Bytes
old_cookie t = elim t.taskcookie [ none ↦ [] | some c ↦ take t.taskcookielen c ]

-- `strncpy` fills up with zeros, so that a string that is shorter than its length ends before the
-- bytes that are appended.
pub append_cookie : Option Bytes → ℕ → TaskOtherInfo → TaskOtherInfo
append_cookie none n t = t
append_cookie (some c) zero t = t
append_cookie (some c) (suc n) t =
    let old = old_cookie t in
    record t {
      taskcookie = some (if ltb (length old) t.taskcookielen then old else old ++ take (suc n) c);
      taskcookielen = u32 (t.taskcookielen + suc n);
    }

-- Membership of a set of strings.
abbrev pub has_url : Bytes → List Bytes → Bool
has_url u [] = false
has_url u (x ∷ xs) = bytes_eq u x || has_url u xs

pub find_url : Bytes → TaskOtherInfo → Bool
find_url u t = has_url u t.urls

pub insert_task_url : Bytes → TaskOtherInfo → TaskOtherInfo
insert_task_url u t = record t { urls = if has_url u t.urls then t.urls else u ∷ t.urls }

abbrev pub without : Bytes → List Bytes → List Bytes
without u [] = []
without u (x ∷ xs) = let rest = without u xs in if bytes_eq u x then rest else x ∷ rest

pub delete_task_url : Bytes → TaskOtherInfo → TaskOtherInfo
delete_task_url u t = record t { urls = without u t.urls }

pub combine_task_other_info : TaskOtherInfo → TaskOtherInfo → TaskOtherInfo
combine_task_other_info des src =
    insert_cookie src.taskcookie src.taskcookielen
      (record des { fetchingcookie = src.fetchingcookie })

-- `info` holds the object of each pointer, and `live` tells whether it exists.
pub record Others : Type 0 where
  pub info : ℕ → TaskOtherInfo
  pub live : ℕ → Bool
  pub allocated : ℕ
  pub tasksothermap : ℕ → Option ℕ

abbrev pub change : ℕ → TaskOtherInfo → Others → Others
change p t s = record s { info = λ q. if q == p then t else s.info q }

abbrev pub mark_used : Bool → ℕ → Others → Others
mark_used b p s = change p (record (s.info p) { alreadyused = b }) s

abbrev pub enter : ℕ → Option ℕ → Others → Others
enter i o s = record s { tasksothermap = λ j. if j == i then o else s.tasksothermap j }

-- The object, if it is given out, and `*exists`.
unfoldable pub get_task_other_info : ℕ → Bool → Others → Others × Option ℕ × Bool
get_task_other_info i needmutex s = elim (s.tasksothermap i) [
  | none ↦ (s, none, false)
  | some p ↦
      if needmutex
      then if (s.info p).alreadyused then (s, none, true) else (mark_used true p s, some p, true)
      else (s, some p, true)
]

unfoldable pub pop_task_other : ℕ → Bool → Others → Others × Option ℕ
pop_task_other i needmutex s = elim (s.tasksothermap i) [
  | none ↦ (s, none)
  | some p ↦
      if needmutex
      then if (s.info p).alreadyused then (s, none) else (enter i none (mark_used true p s), some p)
      else (enter i none s, some p)
]

unfoldable pub put_task_other_info : ℕ → Others → Others × ℕ
put_task_other_info p s = elim (s.tasksothermap (s.info p).id) [
  | none ↦ (enter (s.info p).id (some p) s, 1)
  | some q ↦ (s, 0)
]

-- A change of the object under a number, made through `getTaskOtherInfo(id)`; whether there is one.
abbrev pub counted : ℕ → (TaskOtherInfo → TaskOtherInfo) → Others → Others × Bool
counted i f s = elim (s.tasksothermap i) [
  | none ↦ (s, false)
  | some p ↦ (change p (f (s.info p)) s, true)
]

pub increase_task_error_url_num : ℕ → Others → Others
increase_task_error_url_num i s =
    (counted i (λ t. record t { errorurlnum = u32 (t.errorurlnum + 1) }) s).0

pub increase_task_savefetched_num : ℕ → Others → Others
increase_task_savefetched_num i s =
    (counted i (λ t. record t { savefetched = u32 (t.savefetched + 1) }) s).0

unfoldable pub increase_task_url_num : ℕ → Others → Others × Bool
increase_task_url_num i s = counted i (λ t. record t { urlnum = u32 (t.urlnum + 1) }) s

pub increase_task_ins_url : ℕ → Others → Others
increase_task_ins_url i s = (counted i (λ t. record t { insurlnum = u32 (t.insurlnum + 1) }) s).0

pub get_cookie_from_task : ℕ → Others → Option Bytes
get_cookie_from_task i s = elim (s.tasksothermap i) [ none ↦ none | some p ↦ (s.info p).taskcookie ]

-- The destructor frees the object that was popped.
abbrev pub delete_popped : Task → Option ℕ → Others → Others
delete_popped t none s = s
delete_popped t (some p) s =
    let i = s.info p in
    let summed = change p (record i { fetchnum = u32 (i.fetchnum + t.last_fetch_num) }) s in
    record summed { live = λ q. if q == p then false else summed.live q }

unfoldable pub delete_task_other : Task → Others → Others
delete_task_other t s = let r = pop_task_other t.id true s in delete_popped t r.1 r.0

-- The answer is -1 on every path and is left out.
unfoldable pub decrease_task_url_num : Task → Others → Others
decrease_task_url_num t s = elim (s.tasksothermap t.id) [
  | none ↦ s
  | some p ↦
      let n = u32 ((s.info p).urlnum + (2 ^ 32 - 1)) in
      let less = change p (record (s.info p) { urlnum = n }) s in
      if n == 0 then delete_task_other t less else less
]

-- SOURCE_TYPE_BBS is 2, SOURCE_TYPE_COMPANY is 6.
abbrev pub starts_once : Task → Bool
starts_once t = (t.sourcetype == 2) || (t.sourcetype == 6)

abbrev pub least : ℕ → ℕ → ℕ
least interval resinsertinterval =
    if ltb interval resinsertinterval then interval else resinsertinterval

-- A round with an object that nobody else has: whether its urls are inserted.
abbrev pub round_with : ℕ → ℕ → Task → ℕ → Others → Others × Option ℕ
round_with now reinsert t p s =
    let i = s.info p in
    let more = record i { fetchnum = u32 (i.fetchnum + t.last_fetch_num) } in
    if not i.running
    then (change p (record i { running = true; taskbatch = 0 }) s, some p)
    else if starts_once t || ltb (sub64 now i.begintime) (least t.interval reinsert)
    then (change p (record more { alreadyused = false }) s, none)
    else (change p (record more { begintime = now }) s, some p)

-- A round with a new object, which is put in the map.
abbrev pub round_new : ℕ → Task → Others → Others × Option ℕ
round_new now t s =
    let p = s.allocated in
    let made = record (change p (new_info now t.id) s) {
      live = λ q. if q == p then true else s.live q;
      allocated = suc p;
    } in
    let put = (put_task_other_info p made).0 in
    (change p (record (put.info p) { running = true; taskbatch = 0 }) put, some p)

abbrev pub round_from : ℕ → ℕ → Task → Option ℕ → Bool → Others → Run (Others × Option ℕ)
round_from now reinsert t (some p) found s = ok (round_with now reinsert t p s)
round_from now reinsert t none true s = fault bad_unlock
round_from now reinsert t none false s = ok (round_new now t s)

-- The part of a round of `getTaskThread` that takes the object of the task: the object whose urls
-- are inserted, or none if the round ends. `now` is the clock, and `reinsert` comes from the
-- configuration. If another thread has the object, the code frees a lock that it does not hold.
unfoldable pub begin_round : ℕ → ℕ → Task → Others → Run (Others × Option ℕ)
begin_round now reinsert t s =
    let r = get_task_other_info t.id true s in round_from now reinsert t r.1 r.2 r.0

-- The end of a round, and of the part of `ExternalManager` that takes an object.
pub end_round : ℕ → Others → Others
end_round p s = mark_used false p s
