-- ===== src/Bloom/Process.antt =====
-- The globals of src/module/bloomfilter/bloom_filter.cpp, its three read-write locks, and code
-- over them. One request runs at a time; a request that asks for a lock which is not free waits
-- for ever, since nobody else runs, and `blocked` says so.
use bloom_server.Base.{ℕ, zero, suc, Option, none, some}
use bloom_server.Base.Run.{Run, ok, fault, Fault, null_pointer, bad_unlock}
use bloom_server.Bloom.Types.{Blooms, Bytes}

-- Held by so many readers, or by a writer. `readers 0` is free.
pub data Lock : Type 0 where
  readers : ℕ → Lock
  writer : Lock

pub data LockName : Type 0 where
  bloom_hash_lock bloom_dlist_lock dump_file_lock : LockName

-- `file` is the content of "file.txt", if it can be read.
pub record Globals : Type 0 where
  pub blooms : Option Blooms
  pub hash_lock : Lock
  pub dlist_lock : Lock
  pub file_lock : Lock
  pub file : Option Bytes

pub data Outcome (A : Type 0) : Type 0 where
  done : A → Globals → Outcome A
  blocked : Globals → Outcome A
  crash : Fault → Outcome A

abbrev pub M : Type 0 → Type 0
M A = Globals → Outcome A

infixl 5 ◌>>=◌ ◌>>◌
abbrev pub ◌>>=◌ : {A B : Type 0} → M A → (A → M B) → M B
◌>>=◌ m f s = elim (m s) [ done a t ↦ f a t | blocked t ↦ blocked t | crash e ↦ crash e ]

abbrev pub ◌>>◌ : {B : Type 0} → M (Unit {0}) → M B → M B
m >> k = m >>= λ _. k

abbrev pub pure : {A : Type 0} → A → M A
pure a s = done a s

abbrev pub lift : {A : Type 0} → Run A → M A
lift r s = elim r [ ok a ↦ done a s | fault e ↦ crash e ]

abbrev pub lock_of : LockName → Globals → Lock
lock_of bloom_hash_lock s = s.hash_lock
lock_of bloom_dlist_lock s = s.dlist_lock
lock_of dump_file_lock s = s.file_lock

abbrev pub with_lock : LockName → Lock → Globals → Globals
with_lock bloom_hash_lock l s = record s { hash_lock = l }
with_lock bloom_dlist_lock l s = record s { dlist_lock = l }
with_lock dump_file_lock l s = record s { file_lock = l }

-- `pthread_rwlock_rdlock`
abbrev pub rd_lock : LockName → M (Unit {0})
rd_lock x s = elim (lock_of x s) [
  | readers n ↦ done tt (with_lock x (readers (suc n)) s)
  | writer ↦ blocked s
]

-- `pthread_rwlock_wrlock`
abbrev pub wr_lock : LockName → M (Unit {0})
wr_lock x s = elim (lock_of x s) [
  | readers zero ↦ done tt (with_lock x writer s)
  | readers (suc n) ↦ blocked s
  | writer ↦ blocked s
]

-- `pthread_rwlock_unlock`; of a free lock it is undefined.
abbrev pub rw_unlock : LockName → M (Unit {0})
rw_unlock x s = elim (lock_of x s) [
  | readers zero ↦ crash bad_unlock
  | readers (suc n) ↦ done tt (with_lock x (readers n) s)
  | writer ↦ done tt (with_lock x (readers zero) s)
]

-- `pthread_rwlock_init`
abbrev pub lock_init : LockName → M (Unit {0})
lock_init x s = done tt (with_lock x (readers zero) s)

-- A read through the global pointer `blooms`, and a write of the struct.
abbrev pub deref : M Blooms
deref s = elim (s.blooms) [ none ↦ crash null_pointer | some bs ↦ done bs s ]

abbrev pub assign : Blooms → M (Unit {0})
assign bs s = done tt (record s { blooms = some bs })

-- Between requests: no lock is held.
abbrev pub at_rest : Blooms → Option Bytes → Globals
at_rest bs file = record {
  blooms = some bs;
  hash_lock = readers zero;
  dlist_lock = readers zero;
  file_lock = readers zero;
  file = file;
}
