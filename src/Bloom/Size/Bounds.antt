-- ===== src/Bloom/Size/Bounds.antt =====
-- The loop ends by its test, and the bytes that `calculate` returns hold the bits it returns.
use bloom_server.Base.{
  ℕ, zero, suc, ◌+◌, ◌-◌, ◌*◌, ◌/◌, ◌^◌, ◌≤◌, ◌<◌, ◌≡◌, refl, inl, inr, false, some, u64, bit_and,
  arith, Bool-cases, bit_and_step, bit_and_mask,
}
use bloom_server.Bloom.Types.{Double}
use bloom_server.Bloom.Platform.{Libm}
use bloom_server.Bloom.Size.{
  Fit, Size, sizeof_bloom, go_on, next_fit, fit, first_fit, calculate, size_of,
}

-- `mm & ~0x1f` rounds down to a multiple of 32.
round_down : (a : ℕ) → a < 2 ^ 64 → bit_and a (2 ^ 64 - 1 - 0x1f) ≡ a / 32 * 32
round_down a h = omega (
  arith,
  bit_and_step a (2 ^ 64 - 32),
  bit_and_step (a / 2) (2 ^ 63 - 16),
  bit_and_step (a / 2 / 2) (2 ^ 62 - 8),
  bit_and_step (a / 2 / 2 / 2) (2 ^ 61 - 4),
  bit_and_step (a / 2 / 2 / 2 / 2) (2 ^ 60 - 2),
  bit_and_mask 59 (a / 2 / 2 / 2 / 2 / 2),
)

module _ (lib : Libm) (e : Double) where
  fit_ends :
      (fuel : ℕ) (f : Fit)
      → 100 ≤ f.x + fuel
      → 2 ≤ f.x
      → f.x ≤ 100
      → (go_on lib e (fit lib fuel e f) ≡ false)
        × (2 ≤ (fit lib fuel e f).x)
        × ((fit lib fuel e f).x ≤ 100)
  unfolding fit go_on next_fit
  fit_ends zero f enough lo hi = (ground arith, lo, hi)
  fit_ends (suc fuel) f enough lo hi = elim (Bool-cases (go_on lib e f)) [
    | inr stop ↦ rw stop (stop, lo, hi)
    | inl more ↦ rw more (fit_ends fuel (next_fit lib f) (omega arith) (omega arith) (ground arith))
  ]

-- The 98 rounds of fuel are enough: the loop of `calculate` ends by its own test, for every
-- mathematics library and every rate, with 2 ≤ x ≤ 100.
pub fit_ends_by_test :
    (lib : Libm) (e : Double)
    → let f = fit lib 98 e (first_fit lib) in (go_on lib e f ≡ false) × (2 ≤ f.x) × (f.x ≤ 100)
unfolding first_fit
fit_ends_by_test lib e = fit_ends lib e 98 (first_fit lib) (omega arith) (omega arith) (omega arith)

-- `mm` and `bytes` for `y` bits an element.
abbrev bits_of : ℕ → ℕ → ℕ
bits_of y n = u64 (y * n)

abbrev bytes_of : ℕ → ℕ
bytes_of mm = u64 (bit_and (u64 (mm + 0x1f)) (2 ^ 64 - 1 - 0x1f) / 2 ^ 3 + sizeof_bloom)

bits_of_bounds :
    (y n : ℕ) → 1 ≤ y → y ≤ 99 → n < 2 ^ 57 → (n ≤ bits_of y n) × (bits_of y n ≤ 99 * n)
bits_of_bounds y n lo hi small =
    let above : y * n ≤ 99 * n = grind arith in
    let below : 1 * n ≤ y * n = grind arith in (omega arith, omega arith)

bytes_of_lem : (mm : ℕ) → mm ≤ 99 * 2 ^ 57 → bytes_of mm ≡ (mm + 31) / 32 * 4 + sizeof_bloom
bytes_of_lem mm small = omega (arith, round_down (u64 (mm + 0x1f)) (omega arith))

size_of-some :
    (lib : Libm) (n : ℕ) (f : Fit) {s : Size}
    → size_of lib n f ≡ some s
    → (s.m ≡ bits_of (f.x - 1) n) × (s.bytes ≡ bytes_of (bits_of (f.x - 1) n))
unfolding size_of
size_of-some lib n f h = ground arith

calculate-size_of :
    (lib : Libm) (n : ℕ) (e : Double)
    → calculate lib n e ≡ size_of lib n (fit lib 98 e (first_fit lib))
unfolding calculate
calculate-size_of lib n e = refl

-- Up to 2 ^ 57 elements nothing wraps: a size that `calculate` returns has at least `n` and at
-- most 99 * n bits, and its words hold these bits with less than 32 to spare.
pub calculate_bounds :
    (lib : Libm) (n : ℕ) (e : Double) {s : Size}
    → n < 2 ^ 57
    → calculate lib n e ≡ some s
    → (n ≤ s.m)
      × (s.m ≤ 99 * n)
      × (sizeof_bloom ≤ s.bytes)
      × (s.m ≤ 32 * ((s.bytes - sizeof_bloom) / 4))
      × (32 * ((s.bytes - sizeof_bloom) / 4) < s.m + 32)
calculate_bounds lib n e {s} small h =
    let f = fit lib 98 e (first_fit lib) in
    let (_, lo, hi) = fit_ends_by_test lib e in
    let (p, q) = bits_of_bounds (f.x - 1) n (omega arith) (omega arith) small in
    let (em, eb) = size_of-some lib n f {s = s} (rw calculate-size_of at h) in
    let b = bytes_of_lem (bits_of (f.x - 1) n) (omega arith) in
    (omega arith, omega arith, omega arith, omega arith, omega arith)
