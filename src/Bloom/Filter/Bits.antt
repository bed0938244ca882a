-- ===== src/Bloom/Filter/Bits.antt =====
-- The two loops over the positions of a key, as operations on a set of bits.
use bloom_server.Base.{
  ℕ, zero, suc, ◌+◌, ◌*◌, ◌%◌, ◌^◌, ◌≤◌, ◌<◌, ◌≡◌, refl, ◌∙◌, Bool, true, false, ◌&&◌, ◌||◌, List,
  length, ◌==◌, if◌then◌else◌, arith,
}
use native.Mathlib.Nat.{one-le-pow}
use bloom_server.Base.Run.{Run, ok}
use bloom_server.Bloom.Platform.{Hash}
use bloom_server.Bloom.Bitmap.Laws.{
  bit, bit-lt, with_bit, length-with_bit, bitmap_set-with_bit, bitmap_check-bit, bit-with_bit,
}
use bloom_server.Bloom.Filter.{position, hashes, set_bits, check_bits}

module _ (m : ℕ) (h : Hash) where
  -- Whether `q` is one of the positions of rounds `i` to `i + left - 1`.
  unfoldable pub marks : ℕ → ℕ → ℕ → Bool
  marks zero i q = false
  marks (suc left) i q = (position m h i == q) || marks left (i + 1) q

  -- Whether the bits of those rounds are all set.
  unfoldable pub covers : ℕ → ℕ → List ℕ → Bool
  covers zero i map = true
  covers (suc left) i map = (bit map (position m h i) == 1) && covers left (i + 1) map

-- One test of the loop: the masked word is non-zero exactly if the bit is set.
check_step :
    (b r : ℕ)
    → b < 2
    → (rest : Run Bool) (c : Bool) → rest ≡ ok c
    → (if b * 2 ^ r == 0 then ok false else rest) ≡ ok ((b == 1) && c)
check_step zero r small rest c e = ground arith
check_step (suc zero) r small rest c e = ground (arith, one-le-pow r 2)
check_step (suc (suc b)) r small rest c e = absurd (omega arith)

module _ (m : ℕ) (h : Hash) (pos : 0 < m) where
  pub hashes-position : (i : ℕ) → hashes m h i ≡ ok (position m h i)
  unfolding hashes
  hashes-position i = ground arith

  pub position-lt : (i : ℕ) → position m h i < m
  unfolding position
  position-lt i = grind arith

  -- With a bitmap as large as `m` the loop of `bloom_set` does not fault, and sets exactly the
  -- bits at the positions.
  pub set_bits-marks :
      (left i : ℕ) (map : List ℕ)
      → m ≤ 32 * length map
      → (map' : List ℕ) × (set_bits m h left i map ≡ ok map')
        × (length map' ≡ length map)
        × ((q : ℕ) → bit map' q ≡ (if marks m h left i q then 1 else bit map q))
  unfolding set_bits marks
  set_bits-marks zero i map room = (map, refl, refl, λ q. refl)
  set_bits-marks (suc left) i map room =
      let p = position m h i in
      let inside : p < 32 * length map = omega (arith, position-lt i) in
      let (map', run, len, bits) =
        set_bits-marks left (i + 1) (with_bit map p) (omega (arith, length-with_bit map p)) in
      (
        map',
        rw (hashes-position i, bitmap_set-with_bit map p inside) run,
        len ∙ length-with_bit map p,
        λ q. ground (arith, bits q, bit-with_bit map p q inside),
      )

  -- The loop of `bloom_get` does not fault, and tells whether all the bits are set.
  pub check_bits-covers :
      (left i : ℕ) (map : List ℕ)
      → m ≤ 32 * length map
      → check_bits m h left i map ≡ ok (covers m h left i map)
  unfolding check_bits covers
  check_bits-covers zero i map room = refl
  check_bits-covers (suc left) i map room =
      let p = position m h i in
      let inside : p < 32 * length map = omega (arith, position-lt i) in
      rw (hashes-position i, bitmap_check-bit map p inside)
        (check_step (bit map p) (p % 32) (bit-lt map p) _ _
          (check_bits-covers left (i + 1) map room))

-- What covers the bits of some rounds is kept by setting more bits.
pub covers_mono :
    (m : ℕ) (h : Hash) (left i : ℕ) (map map' : List ℕ)
    → ((q : ℕ) → bit map q ≡ 1 → bit map' q ≡ 1)
    → covers m h left i map ≡ true
    → covers m h left i map' ≡ true
unfolding covers
covers_mono m h zero i map map' grow c = refl
covers_mono m h (suc left) i map map' grow c =
    ground (arith, grow (position m h i), covers_mono m h left (i + 1) map map' grow)

-- Bits that include the marks of some rounds cover these rounds.
pub covers-marks :
    (m : ℕ) (h : Hash) (left i : ℕ) (map : List ℕ)
    → ((q : ℕ) → marks m h left i q ≡ true → bit map q ≡ 1)
    → covers m h left i map ≡ true
unfolding covers marks
covers-marks m h zero i map sub = refl
covers-marks m h (suc left) i map sub = ground (
  arith,
  sub (position m h i),
  covers-marks m h left (i + 1) map (λ q e. sub q (ground (arith, e))),
)
