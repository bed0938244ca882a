-- ===== src/Bloom/Bitmap/Laws.antt =====
-- A bitmap as a set of bits.
use bloom_server.Base.{
  ℕ, ◌*◌, ◌/◌, ◌%◌, ◌^◌, ◌<◌, bit_or, ◌≡◌, ◌≢◌, inl, inr, ap, some, List, length, get_elem?, get_or,
  set, ◌==◌, if◌then◌else◌, arith, Bool-cases, length-set, get_elem?-eq-get_or, get_or-set_self,
  get_or-set_ne, test_bit, test_bit-zero, get_or-replicate, replicate, test_bit-lt, bit_and_pow,
  test_bit-or_pow, bit_and_mask, ==_iff,
}
use bloom_server.Base.Run.{ok}
use bloom_server.Bloom.Bitmap.{word_at, bit_of, bitmap_set, bitmap_check}

-- Whether bit `i` of the map is set, as 0 or 1.
pub bit : List ℕ → ℕ → ℕ
bit map i = test_bit (get_or map (i / 32) 0) (i % 32)

bit_of-pow : (i : ℕ) → bit_of i ≡ 2 ^ (i % 32)
unfolding bit_of
bit_of-pow i = rw (bit_and_mask 5 i) (omega arith)

pub bit-lt : (map : List ℕ) (i : ℕ) → bit map i < 2
unfolding bit
bit-lt map i = test_bit-lt (get_or map (i / 32) 0) (i % 32)

word_at-get_or :
    (map : List ℕ) (i : ℕ) → i < 32 * length map → word_at map i ≡ ok (get_or map (i / 32) 0)
unfolding word_at
word_at-get_or map i h =
    let e : get_elem? map (i / 2 ^ 5) ≡ some (get_or map (i / 2 ^ 5) 0) =
      get_elem?-eq-get_or map (i / 2 ^ 5) 0 (omega arith) in
    rw (e, word_at)

-- The map after bit `i` is set.
pub with_bit : List ℕ → ℕ → List ℕ
with_bit map i = set map (i / 32) (bit_or (get_or map (i / 32) 0) (2 ^ (i % 32)))

pub length-with_bit : (map : List ℕ) (i : ℕ) → length (with_bit map i) ≡ length map
unfolding with_bit
length-with_bit map i = length-set map (i / 32) _

pub bitmap_set-with_bit :
    (map : List ℕ) (i : ℕ) → i < 32 * length map → bitmap_set map i ≡ ok (with_bit map i)
unfolding bitmap_set with_bit
bitmap_set-with_bit map i h = rw (word_at-get_or map i h, bit_of-pow i)

-- `bitmap_check` is non-zero exactly at a set bit.
pub bitmap_check-bit :
    (map : List ℕ) (i : ℕ)
    → i < 32 * length map
    → bitmap_check map i ≡ ok (bit map i * 2 ^ (i % 32))
unfolding bitmap_check bit
bitmap_check-bit map i h =
    rw (word_at-get_or map i h, bit_of-pow i) (ap ok (bit_and_pow (get_or map (i / 32) 0) (i % 32)))

-- `bitmap_set` sets its bit and changes no other.
pub bit-with_bit :
    (map : List ℕ) (i j : ℕ)
    → i < 32 * length map
    → bit (with_bit map i) j ≡ (if i == j then 1 else bit map j)
unfolding bit with_bit
bit-with_bit map i j h = elim (Bool-cases (i / 32 == j / 32)) [
  | inl same ↦
      let e = (==_iff (i / 32) (j / 32)).0 same in
      rw
        (
          ← e,
          get_or-set_self map (i / 32) _ 0 (omega arith),
          test_bit-or_pow (get_or map (i / 32) 0) (i % 32) (j % 32),
        )
        (ground arith)
  | inr other ↦
      let ne : i / 32 ≢ j / 32 = ground arith in
      rw (get_or-set_ne map (i / 32) (j / 32) _ 0 ne) (ground arith)
]

-- A map of zeros has no bit set.
pub bit-replicate : (n q : ℕ) → bit (replicate n 0) q ≡ 0
unfolding bit
bit-replicate n q = rw (get_or-replicate {A = ℕ} n (q / 32) 0) (test_bit-zero (q % 32))
