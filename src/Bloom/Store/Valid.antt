-- ===== src/Bloom/Store/Valid.antt =====
-- The invariant of the table of filters.
use bloom_server.Base.{
  ℕ, ◌≤◌, ◌<◌, ◌^◌, ◌≡◌, List, All, ◌==◌, ==_iff, Bool-cases, inl, inr, zero, suc, [], ◌∷◌, ◌*◌,
  ◌-◌, arith,
}
use bloom_server.Bloom.Types.{Bloom, Blooms, Totals}
use bloom_server.Bloom.Chain.Laws.{Distinct}
use bloom_server.Bloom.Filter.Laws.{IsFilter}
use bloom_server.Bloom.Buckets.{hash_power, blooms_len, bucket, write}
use bloom_server.Bloom.Store.Table.{total}
use bloom_server.Bloom.Size.{sizeof_bloom}
use bloom_server.Bloom.Chain.Laws.{sum_of}

-- A filter that stands in bucket `hv`.
pub record IsEntry (hv : ℕ) (b : Bloom) : Type 0 where
  pub filter : IsFilter b
  pub home : bucket hash_power b.key ≡ hv
  pub large : sizeof_bloom ≤ b.bytes

-- Every filter is well-formed, is alone with its key and stands in the bucket of its key; `count`
-- and `bytes` are those of the filters in the table, and the memory limit is kept. With a limit
-- below 2 ^ 38, as the server's, `count` stays below 2 ^ 31 since each filter has its struct.
pub record IsValid (bs : Blooms) : Type 0 where
  pub power : bs.power ≡ hash_power
  pub entries : (hv : ℕ) → All (IsEntry hv) (bs.hashtable hv)
  pub distinct : (hv : ℕ) → Distinct (bs.hashtable hv)
  pub counted : total blooms_len (λ b. 1) bs.hashtable ≡ bs.count
  pub accounted : total blooms_len (λ b. b.bytes) bs.hashtable ≡ bs.bytes
  pub within : bs.bytes ≤ bs.max_bytes
  pub limit : bs.max_bytes < 2 ^ 38

sum-large :
    (hv : ℕ) (chain : List Bloom)
    → All (IsEntry hv) chain
    → sizeof_bloom * sum_of (λ b. 1) chain ≤ sum_of (λ b. b.bytes) chain
sum-large hv [] a = omega arith
sum-large hv (b ∷ rest) a = let l = a.0.large in omega (arith, sum-large hv rest a.1)

total-large :
    (table : ℕ → List Bloom) (n : ℕ)
    → ((hv : ℕ) → All (IsEntry hv) (table hv))
    → sizeof_bloom * total n (λ b. 1) table ≤ total n (λ b. b.bytes) table
unfolding total
total-large table zero a = omega arith
total-large table (suc n) a = omega (arith, total-large table n a, sum-large n (table n) (a n))

-- `count` does not overflow.
pub IsValid-few : (bs : Blooms) → IsValid bs → bs.count < 2 ^ 31 - 1
IsValid-few bs v = omega (
  arith,
  total-large bs.hashtable blooms_len v.entries,
  v.counted,
  v.accounted,
  v.within,
  v.limit,
)

-- What holds of every chain of a table holds after a write of a chain of which it holds.
pub write_each :
    (P : ℕ → List Bloom → Type 0) (table : ℕ → List Bloom) (hv : ℕ) (chain : List Bloom)
    → P hv chain
    → ((i : ℕ) → P i (table i))
    → (i : ℕ) → P i (write table hv chain i)
write_each P table hv chain new old i = elim (Bool-cases (hv == i)) [
  | inl e ↦ rw e (let same = (==_iff hv i).0 e in rw (← same) new)
  | inr e ↦ rw e (old i)
]

-- The counters over all filters are free.
pub with_totals-IsValid :
    (bs : Blooms) (t : Totals) → IsValid bs → IsValid (record bs { totals = t })
with_totals-IsValid bs t v = record {
  power = v.power;
  entries = v.entries;
  distinct = v.distinct;
  counted = v.counted;
  accounted = v.accounted;
  within = v.within;
  limit = v.limit;
}
