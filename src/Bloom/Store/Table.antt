-- ===== src/Bloom/Store/Table.antt =====
-- The table as a map from keys to filters, and sums over it.
use bloom_server.Base.{
  ℕ, zero, suc, ◌+◌, ◌≤◌, ◌<◌, ◌≡◌, refl, ap, Option, none, [], List, bytes_eq, bytes_eq_sound,
  ◌==◌, ==_iff, if◌then◌else◌, arith, Bool-cases, inl, inr, bit_and_mask,
}
use bloom_server.Bloom.Types.{Bloom, Blooms, Bytes}
use bloom_server.Bloom.Chain
use bloom_server.Bloom.Chain.Laws.{sum_of, find_empty}
use bloom_server.Bloom.Buckets.{hash_power, blooms_len, dict_gen_hash_function, bucket, write}

-- Every key has a bucket inside the table.
pub bucket-lt : (key : Bytes) → bucket hash_power key < blooms_len
unfolding bucket
bucket-lt key = omega (arith, bit_and_mask 20 (dict_gen_hash_function key))

-- The filter of a key.
unfoldable pub view : Blooms → Bytes → Option Bloom
view bs q = Chain.find q (bs.hashtable (bucket bs.power q))

-- The sum of a measure over the first `n` buckets.
unfoldable pub total : ℕ → (Bloom → ℕ) → (ℕ → List Bloom) → ℕ
total zero f table = 0
total (suc n) f table = total n f table + sum_of f (table n)

module _ (f : Bloom → ℕ) (table : ℕ → List Bloom) (hv : ℕ) (chain : List Bloom) where
  total-write_above : (n : ℕ) → n ≤ hv → total n f (write table hv chain) ≡ total n f table
  unfolding total
  total-write_above zero h = refl
  total-write_above (suc n) h = ground (arith, total-write_above n)

  -- A write of one bucket moves the sum by what that bucket had and has.
  pub total-write :
      (n : ℕ)
      → hv < n
      → total n f (write table hv chain) + sum_of f (table hv) ≡ total n f table + sum_of f chain
  unfolding total
  total-write zero h = absurd (omega arith)
  total-write (suc n) h = elim (Bool-cases (hv == n)) [
    | inl e ↦
        let same = (==_iff hv n).0 e in
        rw (e, total-write_above n (omega arith), same) (omega arith)
    | inr e ↦ rw e (omega (arith, total-write n (ground arith)))
  ]

-- A write that changes what one key finds in its chain changes the map at that key alone.
pub find-write :
    (table : ℕ → List Bloom) (power : ℕ) (key : Bytes) (chain : List Bloom) (r : Option Bloom)
    → ((q : Bytes)
        → Chain.find q chain
          ≡ (if bytes_eq key q then r else Chain.find q (table (bucket power key))))
    → (q : Bytes)
    → Chain.find q (write table (bucket power key) chain (bucket power q))
      ≡ (if bytes_eq key q then r else Chain.find q (table (bucket power q)))
find-write table power key chain r h q = elim (Bool-cases (bucket power key == bucket power q)) [
  | inl e ↦ rw (e, ← (==_iff _ _).0 e) (h q)
  | inr e ↦ elim (Bool-cases (bytes_eq key q)) [
    | inl f ↦ let k = ap (bucket power) (bytes_eq_sound key q f) in absurd (ground (arith, k))
    | inr f ↦ rw (e, f)
  ]
]

pub total_empty : (f : Bloom → ℕ) (n : ℕ) → total n f (λ hv. []) ≡ 0
unfolding total
total_empty f zero = refl
total_empty f (suc n) = omega (arith, total_empty f n)

pub view_empty : (bs : Blooms) → ((hv : ℕ) → bs.hashtable hv ≡ []) → (q : Bytes) → view bs q ≡ none
unfolding view
view_empty bs h q = rw (h (bucket bs.power q)) (find_empty q)
