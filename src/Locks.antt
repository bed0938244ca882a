-- ===== src/Locks.antt =====
-- The table of locks by number, src/tools/mylock.cpp, between threads: each of the accesses to the
-- mutexes and to the map is a step of its own.
pub mod Invariant
pub mod Moves
pub mod Exclusion
mod Tests
use bloom_server.Base.{
  ℕ, ◌+◌, ◌%◌, ◌<◌, ◌≡◌, Bool, true, false, Option, none, some, ltb, ◌==◌, if◌then◌else◌,
}

-- Where a thread stands: outside; in `get` before the mutex of the bucket, behind it, after the
-- lookup (`locked` false or true), and after the entry; with the lock; in `put` before the mutex,
-- behind it, and after the removal.
pub data Point : Type 0 where
  outside waiting inside free_seen entered taken_seen holding releasing removing removed : Point

-- The mutex of the bucket is locked by the thread.
abbrev pub has_mutex : Point → Bool
has_mutex outside = false
has_mutex waiting = false
has_mutex inside = true
has_mutex free_seen = true
has_mutex entered = true
has_mutex taken_seen = true
has_mutex holding = false
has_mutex releasing = false
has_mutex removing = true
has_mutex removed = true

-- `wanted` is the number that the thread's call is about; `owner` is the thread that has the mutex
-- of a bucket; `locks` is the map.
pub record Table : Type 0 where
  pub point : ℕ → Point
  pub wanted : ℕ → ℕ
  pub owner : ℕ → Option ℕ
  pub locks : ℕ → Option ℕ

-- The constructor.
abbrev pub new_table : Table
new_table = record { point = λ t. outside; wanted = λ t. 0; owner = λ b. none; locks = λ i. none }

-- MY_LOCK_HASH_SIZE is 1024.
abbrev pub hash : ℕ → ℕ
hash i = i % 1024

-- The lookup: the number has an entry above 0.
abbrev pub is_locked : Option ℕ → Bool
is_locked none = false
is_locked (some v) = ltb 0 v

abbrev pub move : ℕ → Point → Table → Table
move t x s = record s { point = λ u. if u == t then x else s.point u }

abbrev pub set_owner : ℕ → Option ℕ → Table → Table
set_owner b o s = record s { owner = λ c. if c == b then o else s.owner c }

abbrev pub set_lock : ℕ → Option ℕ → Table → Table
set_lock i o s = record s { locks = λ j. if j == i then o else s.locks j }

abbrev pub call : ℕ → ℕ → Table → Table
call t i s = record (move t waiting s) { wanted = λ u. if u == t then i else s.wanted u }

-- One step of the thread `t`. A thread calls `put` only for a lock that it has.
pub data Step : Table → Table → Type 0 where
  get_called : (s : Table) (t i : ℕ) → s.point t ≡ outside → Step s (call t i s)
  get_locked :
      (s : Table) (t : ℕ)
      → s.point t ≡ waiting
      → s.owner (hash (s.wanted t)) ≡ none
      → Step s (set_owner (hash (s.wanted t)) (some t) (move t inside s))
  get_missed :
      (s : Table) (t : ℕ)
      → s.point t ≡ inside
      → is_locked (s.locks (s.wanted t)) ≡ false
      → Step s (move t free_seen s)
  get_found :
      (s : Table) (t : ℕ)
      → s.point t ≡ inside
      → is_locked (s.locks (s.wanted t)) ≡ true
      → Step s (move t taken_seen s)
  get_entered :
      (s : Table) (t : ℕ)
      → s.point t ≡ free_seen
      → Step s (set_lock (s.wanted t) (some 1) (move t entered s))
  get_returned :
      (s : Table) (t : ℕ)
      → s.point t ≡ entered
      → Step s (set_owner (hash (s.wanted t)) none (move t holding s))
  get_again :
      (s : Table) (t : ℕ)
      → s.point t ≡ taken_seen
      → Step s (set_owner (hash (s.wanted t)) none (move t waiting s))
  put_called : (s : Table) (t : ℕ) → s.point t ≡ holding → Step s (move t releasing s)
  put_locked :
      (s : Table) (t : ℕ)
      → s.point t ≡ releasing
      → s.owner (hash (s.wanted t)) ≡ none
      → Step s (set_owner (hash (s.wanted t)) (some t) (move t removing s))
  put_removed :
      (s : Table) (t : ℕ)
      → s.point t ≡ removing
      → Step s (set_lock (s.wanted t) none (move t removed s))
  put_returned :
      (s : Table) (t : ℕ)
      → s.point t ≡ removed
      → Step s (set_owner (hash (s.wanted t)) none (move t outside s))

pub data Reaches : Table → Table → Type 0 where
  here : (s : Table) → Reaches s s
  step : (s t u : Table) → Step s t → Reaches t u → Reaches s u
