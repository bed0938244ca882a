-- ===== src/Base/Bits.antt =====
-- Laws of `bit_and`, `bit_or` and `bit_xor` at variables: one equation for the lowest digit, and
-- what a single bit reads after each operation.
use Prim.Native.Nat.{
  ℕ, zero, suc, ◌+◌, ◌-◌, ◌*◌, ◌/◌, ◌%◌, ◌^◌, ◌≤◌, ◌<◌, min, max, bit_and, bit_or, digits, bitwise,
  bit_and-bitwise, bit_or-bitwise,
}
use mathlib.Core.Path.{◌≡◌, refl, ap, ◌∙◌}
use native.Mathlib.Nat.{pow-suc, one-le-pow}
use native.Mathlib.Omega.{arith}
use bloom_server.Base.Tests.{◌==◌, if◌then◌else◌}

-- `bitwise` reads the binary digits of its first number on fuel; more fuel than it needs does not
-- change the result.
module _ (tail : ℕ → ℕ) (digit : ℕ → ℕ → ℕ) where
  one_more :
      (fuel x y : ℕ) → x ≤ fuel → digits tail digit (suc fuel) x y ≡ digits tail digit fuel x y
  one_more zero zero y enough = refl
  one_more zero (suc x) y enough = absurd (omega arith)
  one_more (suc fuel) zero y enough = refl
  one_more (suc fuel) (suc x) y enough = rw (one_more fuel (suc x / 2) (y / 2) (omega arith))

  some_more :
      (extra fuel x y : ℕ)
      → x ≤ fuel
      → digits tail digit (extra + fuel) x y ≡ digits tail digit fuel x y
  some_more zero fuel x y enough = let e : 0 + fuel ≡ fuel = omega arith in rw e
  some_more (suc extra) fuel x y enough =
      let e : suc extra + fuel ≡ suc (extra + fuel) = omega arith in
      rw e (one_more (extra + fuel) x y (omega arith) ∙ some_more extra fuel x y enough)

  bitwise_step :
      (x y : ℕ)
      → bitwise tail digit (suc x) y
        ≡ digit (suc x % 2) (y % 2) + 2 * bitwise tail digit (suc x / 2) (y / 2)
  bitwise_step x y =
      let half = suc x / 2 in
      let split : (x - half) + half ≡ x = omega arith in
      let drop = some_more (x - half) half half (y / 2) (omega arith) in
      omega (arith, rw split at drop)

pub bit_and_step : (w v : ℕ) → bit_and w v ≡ 2 * bit_and (w / 2) (v / 2) + min (w % 2) (v % 2)
bit_and_step (suc w) v =
    let e = bitwise_step (λ _. 0) min w v in simp bit_and-bitwise (omega (arith, e))
bit_and_step zero v = simp bit_and-bitwise (omega arith)

pub bit_or_step : (w v : ℕ) → bit_or w v ≡ 2 * bit_or (w / 2) (v / 2) + max (w % 2) (v % 2)
bit_or_step (suc w) v =
    let e = bitwise_step (λ r. r) max w v in simp bit_or-bitwise (omega (arith, e))
bit_or_step zero v = simp bit_or-bitwise (omega arith)

and_zero_upto : (bound w : ℕ) → w ≤ bound → bit_and w 0 ≡ 0
and_zero_upto zero w h = let e : w ≡ 0 = omega arith in rw e
and_zero_upto (suc bound) w h =
    let half = and_zero_upto bound (w / 2) (omega arith) in omega (arith, half, bit_and_step w 0)

pub bit_and-zero : (w : ℕ) → bit_and w 0 ≡ 0
bit_and-zero w = and_zero_upto w w (omega arith)

or_zero_upto : (bound w : ℕ) → w ≤ bound → bit_or w 0 ≡ w
or_zero_upto zero w h = let e : w ≡ 0 = omega arith in rw e
or_zero_upto (suc bound) w h =
    let half = or_zero_upto bound (w / 2) (omega arith) in omega (arith, half, bit_or_step w 0)

pub bit_or-zero : (w : ℕ) → bit_or w 0 ≡ w
bit_or-zero w = or_zero_upto w w (omega arith)

-- The bit of `w` at position `b`.
pub test_bit : ℕ → ℕ → ℕ
test_bit w zero = w % 2
test_bit w (suc b) = test_bit (w / 2) b

pub test_bit-lt : (w b : ℕ) → test_bit w b < 2
unfolding test_bit
test_bit-lt w zero = omega arith
test_bit-lt w (suc b) = test_bit-lt (w / 2) b

pub test_bit-zero : (b : ℕ) → test_bit 0 b ≡ 0
unfolding test_bit
test_bit-zero zero = refl
test_bit-zero (suc b) = test_bit-zero b

half_pow : (b : ℕ) → 2 ^ suc b / 2 ≡ 2 ^ b
half_pow b = omega (arith, pow-suc 2 b)

odd_pow : (b : ℕ) → 2 ^ suc b % 2 ≡ 0
odd_pow b = omega (arith, pow-suc 2 b)

-- `w & (1 << b)` is the bit in its place.
pub bit_and_pow : (w b : ℕ) → bit_and w (2 ^ b) ≡ test_bit w b * 2 ^ b
unfolding test_bit
bit_and_pow w zero = omega (arith, bit_and_step w 1, bit_and-zero (w / 2))
bit_and_pow w (suc b) =
    let s = bit_and_step w (2 ^ suc b) in
    let r = rw (half_pow b, odd_pow b) at s in
    omega (
      arith,
      r,
      bit_and_pow (w / 2) b,
      pow-suc 2 b,
      ap (λ (t : ℕ). test_bit (w / 2) b * t) (pow-suc 2 b),
    )

-- `w | (1 << b)` sets bit `b` and no other.
pub test_bit-or_pow :
    (w b c : ℕ) → test_bit (bit_or w (2 ^ b)) c ≡ (if b == c then 1 else test_bit w c)
unfolding test_bit
test_bit-or_pow w zero zero = omega (arith, bit_or_step w 1)
test_bit-or_pow w zero (suc c) =
    let e : bit_or w 1 / 2 ≡ w / 2 = omega (arith, bit_or_step w 1, bit_or-zero (w / 2)) in
    rw e (ground arith)
test_bit-or_pow w (suc b) zero = ground (arith, bit_or_step w (2 ^ suc b), odd_pow b)
test_bit-or_pow w (suc b) (suc c) =
    let s = bit_or_step w (2 ^ suc b) in
    let r = rw (half_pow b, odd_pow b) at s in
    let e : bit_or w (2 ^ suc b) / 2 ≡ bit_or (w / 2) (2 ^ b) = omega (arith, r) in
    rw e (ground (arith, test_bit-or_pow (w / 2) b c))

bit_and_fields : (k q r : ℕ) → r < 2 ^ k → bit_and (q * 2 ^ k + r) (2 ^ k - 1) ≡ r
bit_and_fields zero q r fits = rw bit_and-zero (omega arith)
bit_and_fields (suc k) q r fits = ground (
  arith,
  bit_and_step (q * 2 ^ suc k + r) (2 ^ suc k - 1),
  ap (λ (t : ℕ). q * t) (pow-suc 2 k),
  pow-suc 2 k,
  bit_and_fields k q (r / 2) (omega arith),
)

-- A mask of `k` low bits is the remainder by `2 ^ k`.
pub bit_and_mask : (k a : ℕ) → bit_and a (2 ^ k - 1) ≡ a % 2 ^ k
bit_and_mask k a = ground (arith, one-le-pow k 2, bit_and_fields k (a / 2 ^ k) (a % 2 ^ k))

bit_or-lt_step : (k a b : ℕ) → a < 2 ^ k → b < 2 ^ k → bit_or a b < 2 ^ k
bit_or-lt_step zero zero zero ha hb = omega arith
bit_or-lt_step zero zero (suc b) ha hb = absurd (omega arith)
bit_or-lt_step zero (suc a) b ha hb = absurd (omega arith)
bit_or-lt_step (suc k) a b ha hb = omega (
  arith,
  bit_or_step a b,
  pow-suc 2 k,
  bit_or-lt_step k (a / 2) (b / 2) (omega (arith, pow-suc 2 k)) (omega (arith, pow-suc 2 k)),
)

-- `|` of two `k`-bit words is a `k`-bit word.
pub bit_or-lt : (k a b : ℕ) → a < 2 ^ k → b < 2 ^ k → bit_or a b < 2 ^ k
bit_or-lt k a b = bit_or-lt_step k a b
