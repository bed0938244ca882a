-- ===== src/Content/Zlib.antt =====
-- zlib, as a parameter, and `inf` of src/tools/util.cpp over it.
pub mod Laws
use bloom_server.Base.{
  ℕ, zero, suc, ◌+◌, ◌*◌, ◌^◌, ◌≤◌, ◌<◌, ◌≡◌, Bool, true, false, List, ◌++◌, length, if◌then◌else◌,
  ◌-◌, ltb, u32, u64,
}
use bloom_server.Bloom.Types.{Bytes}

-- Z_OK, Z_BUF_ERROR, and every other code.
pub data Code : Type 0 where
  z_ok z_buf_error z_other : Code

pub record Inflated : Type 0 where
  pub code : Code
  pub written : Bytes

-- A destination is given by its size; `compress2` and `uncompress` give the bytes that they wrote.
pub record Zlib : Type 0 where
  pub compress_bound : ℕ → ℕ
  pub compress2 : ℕ → Bytes → Bytes
  pub uncompress : ℕ → Bytes → Inflated

-- What zlib documents: compression into a destination of `compressBound` bytes succeeds; what it
-- made is restored, whatever follows, into a destination that is large enough, and a smaller one is
-- reported.
pub record ZlibLaws (zlib : Zlib) : Type 0 where
  pub restored :
      (text slack : Bytes) (size : ℕ)
      → length text ≤ size
      → zlib.uncompress size (zlib.compress2 (zlib.compress_bound (length text)) text ++ slack)
        ≡ record { code = z_ok; written = text }
  pub too_small :
      (text slack : Bytes) (size : ℕ)
      → size < length text
      → (zlib.uncompress size
          (zlib.compress2 (zlib.compress_bound (length text)) text ++ slack)).code
        ≡ z_buf_error

abbrev pub is_buf_error : Code → Bool
is_buf_error z_ok = false
is_buf_error z_buf_error = true
is_buf_error z_other = false

-- An `int` as a `size_t`; an `int` that overflows is wrapped.
abbrev pub int_size : ℕ → ℕ
int_size n = if ltb (u32 n) (2 ^ 31) then u32 n else u32 n + (2 ^ 64 - 2 ^ 32)

module _ (zlib : Zlib) where
  -- The loop of `inf` from its turn `i`, with so many further turns allowed; `num` is an `int`, and so is
  -- the size that it makes.
  unfoldable pub inf_from : ℕ → ℕ → ℕ → ℕ → Bytes → Inflated
  inf_from zero i num size src = zlib.uncompress size src
  inf_from (suc turns) i num size src =
      let result = zlib.uncompress size src in
      let again = inf_from turns (i + 1) num (int_size (num * 2 ^ i)) src in
      if is_buf_error result.code then again else result

  -- `inf` with a null destination of size 0, as all its callers use it.
  unfoldable pub inf : Bytes → Inflated
  inf src = inf_from 5 1 (u32 (length src * 2)) (u64 (length src * 2)) src
