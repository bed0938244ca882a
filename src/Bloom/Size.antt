-- ===== src/Bloom/Size.antt =====
-- calculate of src/module/bloomfilter/bloom_filter.cpp: the bits, the hash functions and the bytes
-- of a filter for `n` elements at the rate `e`. `sizeof(bloom_t)` is that of the x86-64 ABI: a
-- list head of 16 bytes, a pointer, `bytes`, a key of 32, five 64-bit counters, two doubles, an
-- `int` with its padding and the pointer `v_hash`.
pub mod Bounds
use bloom_server.Base.{
  ℕ, zero, suc, ◌+◌, ◌-◌, ◌*◌, ◌/◌, ◌%◌, ◌^◌, bit_and, Bool, ◌&&◌, Option, none, some, u64, ◌>>>◌,
  ltb, if◌then◌else◌,
}
use bloom_server.Bloom.Types.{Double}
use bloom_server.Bloom.Platform.{Libm}

abbrev pub sizeof_bloom : ℕ
sizeof_bloom = 136

-- The loop's variables.
pub record Fit : Type 0 where
  pub x : ℕ
  pub kk : ℕ
  pub te : Double

pub record Size : Type 0 where
  pub bytes : ℕ
  pub m : ℕ
  pub k : ℕ
  pub tmp_e : Double

module _ (lib : Libm) where
  open lib use {of_ℕ, to_int, mul, sub, div, pow, neg, log, exp, ceil, gt}

  -- `(int)ceil(x * log(2))`
  pub hash_count : ℕ → ℕ
  hash_count x = to_int (ceil (mul (of_ℕ x) (log (of_ℕ 2))))

  -- `pow((1 - exp((double)(-kk) / x)), kk)`
  pub miss_rate : ℕ → ℕ → Double
  miss_rate kk x = pow (sub (of_ℕ 1) (exp (div (neg (of_ℕ kk)) (of_ℕ x)))) (of_ℕ kk)

  -- `te > e && x < 100`
  pub go_on : Double → Fit → Bool
  go_on e f = gt f.te e && ltb f.x 100

  pub next_fit : Fit → Fit
  unfolding hash_count miss_rate
  next_fit f = let kk = hash_count f.x in record { x = f.x + 1; kk = kk; te = miss_rate kk f.x }

  -- The loop, on fuel.
  pub fit : ℕ → Double → Fit → Fit
  fit zero e f = f
  fit (suc fuel) e f = let rest = fit fuel e (next_fit f) in if go_on e f then rest else f

  pub first_fit : Fit
  first_fit = record { x = 2; kk = 0; te = of_ℕ 1 }

  -- The code after the loop; `none` is the result 0 of the overflow checks.
  pub size_of : ℕ → Fit → Option Size
  size_of n f =
      let mm = u64 ((f.x - 1) * n) in
      let bytes = u64 ((bit_and (u64 (mm + 0x1f)) (2 ^ 64 - 1 - 0x1f) >>> 3) + sizeof_bloom) in
      if gt (mul (of_ℕ (f.x - 1)) (of_ℕ n)) (of_ℕ (2 ^ 64 - 1))
      then none
      else if ltb (2 ^ 64 - 1) bytes
      then none
      else some (record { bytes = bytes; m = mm; k = f.kk; tmp_e = f.te })

  unfoldable pub calculate : ℕ → Double → Option Size
  unfolding fit next_fit go_on first_fit size_of
  calculate n e = size_of n (fit 98 e first_fit)
