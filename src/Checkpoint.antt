-- ===== src/Checkpoint.antt =====
-- The checkpoints of src/module/CheckpointManager.cpp, with src/module/Manager.cpp and .h. Of the
-- managers that a checkpoint dumps only this one is modelled: it writes the id for the next url.
pub mod Laws
mod Tests
use bloom_server.Base.{
  ℕ, ◌+◌, ◌^◌, Bool, true, false, Option, none, some, List, [], ◌∷◌, ◌++◌, take, drop, length, u64,
  if◌then◌else◌,
}
use bloom_server.Bloom.Types.{Bytes}
use bloom_server.Ids.{get_max_url_id}

-- `file` is the content of "maxid.dat", if it can be opened.
pub record Checkpoint : Type 0 where
  pub is_running : Bool
  pub can_stoped : Bool
  pub maxurlid : ℕ
  pub file : Option Bytes

-- `sprintf` and `sscanf` with "%llu"; `none` if no number stands there.
pub record Decimal : Type 0 where
  pub print : ℕ → Bytes
  pub scan : Bytes → Option ℕ

-- The bytes of `maxidbuf` after a read of at most `sizeof(ulonglong)`; `stack` is what it held.
unfoldable pub read_buffer : Bytes → Bytes → Bytes
read_buffer stack text = take 8 text ++ drop (length (take 8 text)) stack

module _ (decimal : Decimal) where
  -- `CheckpointManager::dump`; `writable` if the file can be opened for writing.
  unfoldable pub dump : Bool → Checkpoint → Checkpoint
  unfolding get_max_url_id
  dump writable m =
      let (maxid, next) = get_max_url_id m.maxurlid in
      let counted = record m { maxurlid = next } in
      if writable then record counted { file = some (decimal.print maxid) } else counted

  -- `retrieveMaxUrlId`, which nothing calls.
  unfoldable pub retrieve_max_url_id : Bytes → Checkpoint → Checkpoint
  unfolding read_buffer
  retrieve_max_url_id stack m = elim (m.file) [
    | none ↦ m
    | some text ↦ elim (decimal.scan (read_buffer stack text)) [
      | none ↦ record m { maxurlid = u64 (m.maxurlid + 1) }
      | some n ↦ record m { maxurlid = u64 (n + 1) }
    ]
  ]

  -- `checkpointThread`: what `running()` answers at the top of each round and after its wait, with
  -- whether the file is writable. `none` if the thread still runs at the end of the rounds.
  unfoldable pub checkpoint_thread : List (Bool × Bool) → Checkpoint → Option Checkpoint
  unfolding dump
  checkpoint_thread [] m = none
  checkpoint_thread ((top, after) ∷ rounds) m =
      let once = dump true m in
      let rest = checkpoint_thread rounds once in
      if top then (if after then rest else some (dump true once)) else some once

-- `Manager::start` and `CheckpointManager::start`: `recover` restores nothing here.
unfoldable pub start : Checkpoint → Checkpoint
start m = record m { is_running = true; can_stoped = false }

-- `Manager::stop`
unfoldable pub stop : Checkpoint → Checkpoint
stop m = record m { is_running = false }
