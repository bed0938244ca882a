-- ===== src/Bloom/Store/DeleteAll.antt =====
-- blooms_delete_all does not do what its name says.
use bloom_server.Base.{
  ℕ, zero, suc, ◌+◌, ◌%◌, ◌≤◌, ◌<◌, ◌≡◌, refl, fun_ext, Option, List, length, ◌==◌, ==_iff, arith,
  Bool-cases, inl, inr, ltb,
}
use bloom_server.Base.Run.{ok, null_pointer}
use bloom_server.Bloom.Types.{Bloom, Blooms, Bytes}
use bloom_server.Bloom.Chain.Sweep.{sweep_short, sweep-even}
use bloom_server.Bloom.Process.{Globals, writer, at_rest, done, crash, ◌>>=◌, lift}
use bloom_server.Bloom.Buckets.{blooms_len, write, chain_at}
use bloom_server.Bloom.Store.{delete_buckets, blooms_delete_all}

-- Both locks are held while the buckets are walked.
abbrev locked : Blooms → Option Bytes → Globals
locked bs file = record (at_rest bs file) { hash_lock = writer; dlist_lock = writer }

write_self : (table : ℕ → List Bloom) (hv : ℕ) → write table hv (table hv) ≡ table
write_self table hv = fun_ext λ i. elim (Bool-cases (hv == i)) [
  | inl e ↦ rw e (let same = (==_iff hv i).0 e in rw same)
  | inr e ↦ rw e
]

chain_at-inside : (bs : Blooms) (hv : ℕ) → hv < blooms_len → chain_at bs hv ≡ ok (bs.hashtable hv)
unfolding chain_at
chain_at-inside bs hv h = ground arith

delete_buckets-short :
    (bs : Blooms) (file : Option Bytes)
    → ((hv : ℕ) → length (bs.hashtable hv) ≤ 1)
    → (left hv : ℕ) → left + hv ≤ blooms_len
    → delete_buckets left hv (locked bs file) ≡ done tt (locked bs file)
unfolding delete_buckets
delete_buckets-short bs file short zero hv h = refl
delete_buckets-short bs file short (suc left) hv h =
    rw
      (
        chain_at-inside bs hv (omega arith),
        sweep_short (bs.hashtable hv) (short hv),
        write_self bs.hashtable hv,
        ◌>>=◌,
        lift,
      )
      (delete_buckets-short bs file short left (hv + 1) (omega arith))

-- If no bucket holds two filters, `blooms_delete_all` frees its locks and changes nothing: every
-- filter is still there.
pub blooms_delete_all-short :
    (bs : Blooms) (file : Option Bytes)
    → ((hv : ℕ) → length (bs.hashtable hv) ≤ 1)
    → blooms_delete_all (at_rest bs file) ≡ done tt (at_rest bs file)
unfolding blooms_delete_all
blooms_delete_all-short bs file short =
    rw (delete_buckets-short bs file short blooms_len 0 (omega arith), ◌>>=◌)

delete_buckets-even :
    (bs : Blooms) (file : Option Bytes) (bad : ℕ)
    → ((hv : ℕ) → hv < bad → length (bs.hashtable hv) ≤ 1)
    → 0 < length (bs.hashtable bad)
    → length (bs.hashtable bad) % 2 ≡ 0
    → (left hv : ℕ) → hv ≤ bad
    → bad < left + hv
    → left + hv ≤ blooms_len
    → delete_buckets left hv (locked bs file) ≡ crash null_pointer
unfolding delete_buckets
delete_buckets-even bs file bad short some_there even zero hv lo hi h = absurd (omega arith)
delete_buckets-even bs file bad short some_there even (suc left) hv lo hi h =
    elim (Bool-cases (ltb hv bad)) [
      | inl below ↦
          rw
            (
              chain_at-inside bs hv (omega arith),
              sweep_short (bs.hashtable hv) (short hv (ground arith)),
              write_self bs.hashtable hv,
              ◌>>=◌,
              lift,
            )
            (delete_buckets-even bs file bad short some_there even left (hv + 1) (ground arith)
              (omega arith) (omega arith))
      | inr here ↦
          let same : hv ≡ bad = ground arith in
          rw (
            same,
            chain_at-inside bs bad (omega arith),
            sweep-even (bs.hashtable bad) some_there even,
            ◌>>=◌,
            lift,
          )
    ]

-- If the first bucket with more than one filter holds an even number of them, `blooms_delete_all`
-- crashes on a null pointer.
pub blooms_delete_all-even :
    (bs : Blooms) (file : Option Bytes) (bad : ℕ)
    → bad < blooms_len
    → ((hv : ℕ) → hv < bad → length (bs.hashtable hv) ≤ 1)
    → 0 < length (bs.hashtable bad)
    → length (bs.hashtable bad) % 2 ≡ 0
    → blooms_delete_all (at_rest bs file) ≡ crash null_pointer
unfolding blooms_delete_all
blooms_delete_all-even bs file bad inside short some_there even = rw (
  delete_buckets-even bs file bad short some_there even blooms_len 0 (omega arith) (omega arith)
      (omega arith),
  ◌>>=◌,
)
