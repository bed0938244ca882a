-- ===== src/Schedule.antt =====
-- The tasks of the crawler, src/module/TaskScheduleManager.cpp with `Task` of src/tools/ic_types.h:
-- a task, its times, and what two readings of a source have in common. The children hold the queue
-- of tasks, the record of running tasks, and the keywords.
pub mod Backoff
pub mod Heap
pub mod Queue
pub mod Running
pub mod Keywords
mod Tests
use bloom_server.Base.{
  ℕ, ◌+◌, ◌*◌, ◌/◌, Bool, true, false, ◌||◌, List, [], ltb, ◌==◌, if◌then◌else◌,
}
use bloom_server.Bloom.Types.{Bytes}

-- Times are seconds. `sourcestate_0`, `sourcestate_1` and `intervalauto_0` are the characters of
-- `sourcestate` and `intervalauto` that the code reads and copies.
pub record Task : Type 0 where
  pub id : ℕ
  pub name : Bytes
  pub host : Bytes
  pub industry : Bytes
  pub homeurl : Bytes
  pub pageurl : Bytes
  pub autodown : Bytes
  pub sourcestate_0 : ℕ
  pub sourcestate_1 : ℕ
  pub downloadtime : Bytes
  pub charset : Bytes
  pub loginurl : Bytes
  pub ultimatepageurl : Bytes
  pub bbsultimatepageurl : Bytes
  pub ignoreurl : Bytes
  pub tasksendtype : ℕ
  pub time_to_fetch : ℕ
  pub time_of_these_fetch : ℕ
  pub last_fetch_num : ℕ
  pub interval : ℕ
  pub current_interval : ℕ
  pub sourcetype : ℕ
  pub depth : ℕ
  pub intervalauto_0 : ℕ
  pub noaccess_interval : ℕ
  pub intxt : Bytes

-- The constructor of `Task`: REQUEST_TYPE_GET and SOURCE_TYPE_INFO are 1.
abbrev pub blank_task : Task
blank_task = record {
  id = 0;
  name = [];
  host = [];
  industry = [];
  homeurl = [];
  pageurl = [];
  autodown = [];
  sourcestate_0 = 0;
  sourcestate_1 = 0;
  downloadtime = [];
  charset = [];
  loginurl = [];
  ultimatepageurl = [];
  bbsultimatepageurl = [];
  ignoreurl = [];
  tasksendtype = 1;
  time_to_fetch = 0;
  time_of_these_fetch = 0;
  last_fetch_num = 1;
  interval = 0;
  current_interval = 0;
  sourcetype = 1;
  depth = 3;
  intervalauto_0 = 0;
  noaccess_interval = 0;
  intxt = [];
}

-- What the code reads of a local time: the hour of the day, and the day of the week from Sunday.
pub record LocalTime : Type 0 where
  pub hour : ℕ
  pub wday : ℕ

-- The character '1'.
abbrev pub char_1 : ℕ
char_1 = 49

-- One week.
abbrev pub longest_interval : ℕ
longest_interval = 604800

abbrev pub outside_work : LocalTime → Bool
outside_work m = ltb 17 m.hour || ltb m.hour 9 || (m.wday == 0) || (m.wday == 6)

abbrev adjusted : Task → ℕ
adjusted t =
    if t.last_fetch_num == 0
    then t.current_interval * 2
    else if ltb t.interval t.current_interval
    then t.current_interval / 2
    else t.current_interval

abbrev capped : ℕ → ℕ
capped c = if ltb longest_interval c then longest_interval else c

-- The task that `recalculateTime` leaves, and its answer.
unfoldable pub recalculate_time : LocalTime → Task → Task × ℕ
recalculate_time m t =
    if outside_work m
    then (t, 1)
    else let c = capped (adjusted t) in
      (record t { current_interval = if ltb c t.interval then t.interval else c }, 0)

-- SOURCE_TYPE_BBS, SOURCE_TYPE_SEARCHENGINE or SOURCE_TYPE_TOPIC.
abbrev pub slow_at_night : Task → Bool
slow_at_night t = (t.sourcetype == 2) || (t.sourcetype == 4) || (t.sourcetype == 5)

abbrev pub ratio : LocalTime → Task → ℕ
ratio m t = if slow_at_night t then if ltb m.hour 6 then 4 else 1 else 1

-- The clock as one call of `getNextTask` reads it: at the test, in `recalculateTime`, for the
-- ratio, and for the next time.
pub record Readings : Type 0 where
  pub at_test : ℕ
  pub at_recalculation : LocalTime
  pub at_ratio : LocalTime
  pub at_end : ℕ

abbrev pub recalculated : Readings → Task → Task
recalculated c t =
    if t.intervalauto_0 == char_1 then (recalculate_time c.at_recalculation t).0 else t

-- A task that is handed out.
abbrev pub rescheduled : Readings → Task → Task
rescheduled c t =
    let u = recalculated c t in
    record u {
      time_to_fetch = c.at_end + u.current_interval * ratio c.at_ratio u;
      last_fetch_num = 0;
    }

-- A task that is taken off the queue because its source is not in use.
abbrev pub retired : Readings → Task → Task
retired c t =
    let u = recalculated c t in
    record u { time_to_fetch = c.at_end + u.current_interval; last_fetch_num = 0 }

-- `combineTask des src`; the two strings that it copies may not overlap.
pub combine_task : Task → Task → Task
combine_task des src = record des {
  name = src.name;
  industry = src.industry;
  homeurl = src.homeurl;
  ultimatepageurl = src.ultimatepageurl;
  bbsultimatepageurl = src.bbsultimatepageurl;
  loginurl = src.loginurl;
  sourcestate_0 = src.sourcestate_0;
  sourcestate_1 = src.sourcestate_1;
  interval = src.interval;
  current_interval = src.interval;
  sourcetype = src.sourcetype;
  pageurl = src.pageurl;
  ignoreurl = src.ignoreurl;
  time_to_fetch = src.time_to_fetch;
  depth = src.depth;
  tasksendtype = src.tasksendtype;
  intervalauto_0 = src.intervalauto_0;
}
