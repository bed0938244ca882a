-- ===== src/Checkpoint/Laws.antt =====
-- What the thread of checkpoints leaves in the file.
use bloom_server.Base.{
  ℕ, zero, suc, ◌+◌, ◌^◌, ◌<◌, ◌≡◌, Bool, true, false, some, List, [], ◌∷◌, ◌++◌, take, drop,
  length, u64, replicate, arith, Option-cases, inl, inr,
}
use bloom_server.Bloom.Types.{Bytes}
use bloom_server.Checkpoint.{Checkpoint, Decimal, dump, retrieve_max_url_id, checkpoint_thread}

-- So many rounds while the server runs, and one in which it is stopped during the wait.
abbrev pub stopped_after : ℕ → List (Bool × Bool)
stopped_after n = replicate n (true, true) ++ ((true, false) ∷ [])

module _ (decimal : Decimal) where
  -- If no id overflows and the file can be written, a thread that is stopped in the wait after `n`
  -- rounds ends, each of its `n + 2` checkpoints has
  -- used up an id, and the file holds the last id used, one less than the next one.
  pub checkpoint_thread_stops :
      (n : ℕ) (m : Checkpoint)
      → m.maxurlid + n + 2 < 2 ^ 64
      → checkpoint_thread decimal (stopped_after n) m
        ≡ some (record m {
          maxurlid = m.maxurlid + n + 2;
          file = some (decimal.print (m.maxurlid + n + 1));
        })
  unfolding checkpoint_thread dump
  checkpoint_thread_stops zero m small =
      let last : u64 (m.maxurlid + 1) ≡ m.maxurlid + 0 + 1 = omega arith in
      let next : u64 (m.maxurlid + 0 + 1 + 1) ≡ m.maxurlid + 0 + 2 = omega arith in rw (last, next)
  checkpoint_thread_stops (suc n) m small =
      let used : u64 (m.maxurlid + 1) ≡ m.maxurlid + 1 = omega arith in
      let last : m.maxurlid + 1 + n + 1 ≡ m.maxurlid + suc n + 1 = omega arith in
      let next : m.maxurlid + 1 + n + 2 ≡ m.maxurlid + suc n + 2 = omega arith in
      let once = record m { maxurlid = m.maxurlid + 1; file = some (decimal.print m.maxurlid) } in
      let rest = checkpoint_thread_stops n once (omega arith) in rw used (rw (last, next) at rest)

-- Two files with the same first eight bytes give the same next id, whatever follows in them: an id
-- of more than eight digits is not read back.
pub retrieve_max_url_id-take :
    (decimal : Decimal) (stack text text' : Bytes) (m : Checkpoint)
    → take 8 text ≡ take 8 text'
    → (retrieve_max_url_id decimal stack (record m { file = some text })).maxurlid
      ≡ (retrieve_max_url_id decimal stack (record m { file = some text' })).maxurlid
unfolding retrieve_max_url_id
retrieve_max_url_id-take decimal stack text text' m same =
    let buffer = λ (t : Bytes). take 8 t ++ drop (length (take 8 t)) stack in
    elim (Option-cases (decimal.scan (buffer text'))) [
      | inl miss ↦ rw (same, miss, retrieve_max_url_id)
      | inr (n, hit) ↦ rw (same, hit, retrieve_max_url_id)
    ]
