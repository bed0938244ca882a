-- ===== src/Content/Zlib/Laws.antt =====
-- What `inf` of src/tools/util.cpp restores: texts up to 64 times as long as their compressed form.
use bloom_server.Base.{
  ℕ, zero, suc, ◌+◌, ◌*◌, ◌^◌, ◌≤◌, ◌<◌, ◌≡◌, refl, ◌++◌, length, leb, arith, Bool-cases, inl, inr,
  u32, u64,
}
use bloom_server.Bloom.Types.{Bytes}
use bloom_server.Content.Zlib.{z_ok, z_buf_error, Zlib, ZlibLaws, int_size, inf_from, inf}

int_size-small : (n : ℕ) → n < 2 ^ 25 → (k : ℕ) → k ≤ 5 → int_size (n * 2 * 2 ^ k) ≡ n * 2 * 2 ^ k
int_size-small n small zero le = ground arith
int_size-small n small (suc zero) le = ground arith
int_size-small n small (suc (suc zero)) le = ground arith
int_size-small n small (suc (suc (suc zero))) le = ground arith
int_size-small n small (suc (suc (suc (suc zero)))) le = ground arith
int_size-small n small (suc (suc (suc (suc (suc zero))))) le = ground arith
int_size-small n small (suc (suc (suc (suc (suc (suc k)))))) le = absurd (omega arith)

module _ (zlib : Zlib) (laws : ZlibLaws zlib) (text slack : Bytes) where
  unfoldable pub packed : Bytes
  packed = zlib.compress2 (zlib.compress_bound (length text)) text ++ slack

  inf_from-restored :
      (turns i num size : ℕ)
      → length text ≤ size
      → inf_from zlib turns i num size packed ≡ record { code = z_ok; written = text }
  unfolding inf_from packed
  inf_from-restored zero i num size fits = laws.restored text slack size fits
  inf_from-restored (suc turns) i num size fits = rw (laws.restored text slack size fits) refl

  inf_from-grown :
      (turns i num size : ℕ)
      → length text ≤ num * 2 ^ (i + turns)
      → ((k : ℕ) → k ≤ i + turns → int_size (num * 2 ^ k) ≡ num * 2 ^ k)
      → inf_from zlib (suc turns) i num size packed ≡ record { code = z_ok; written = text }
  unfolding inf_from packed
  inf_from-grown zero i num size fits wide = elim (Bool-cases (leb (length text) size)) [
    | inl small ↦ inf_from-restored 1 i num size (ground arith)
    | inr big ↦
        let e : i + 0 ≡ i = omega arith in
        let fits' : length text ≤ num * 2 ^ i = rw e at fits in
        rw (laws.too_small text slack size (ground arith), wide i (omega arith))
          (laws.restored text slack (num * 2 ^ i) fits')
  ]
  inf_from-grown (suc turns) i num size fits wide = elim (Bool-cases (leb (length text) size)) [
    | inl small ↦ inf_from-restored (suc (suc turns)) i num size (ground arith)
    | inr big ↦
        let e : i + suc turns ≡ i + 1 + turns = omega arith in
        let fits' : length text ≤ num * 2 ^ (i + 1 + turns) = rw e at fits in
        rw (laws.too_small text slack size (ground arith), wide i (omega arith))
          (inf_from-grown turns (i + 1) num (num * 2 ^ i) fits' (λ k le. wide k (omega arith)))
  ]

  -- `inf` gives back a text that is at most 64 times as long as its source, whatever follows the
  -- compressed form in the source, if the source has less than 2 ^ 25 bytes and zlib keeps what it
  -- documents.
  pub inf-restores :
      length text ≤ 64 * length packed
      → length packed < 2 ^ 25
      → inf zlib packed ≡ record { code = z_ok; written = text }
  unfolding inf
  inf-restores fits small =
      let (e, e') : (u32 (length packed * 2) ≡ length packed * 2)
          × (u64 (length packed * 2) ≡ length packed * 2) =
        (omega arith, omega arith) in
      rw (e, e')
        (inf_from-grown 4 1 (length packed * 2) (length packed * 2) (omega arith)
          (int_size-small (length packed) small))

  -- A text that is more than 64 times as long as its compressed form, with whatever follows it, is not
  -- restored, if the compressed form with what follows it has less than 2 ^ 25 bytes, so that no size
  -- overflows an `int`, and zlib keeps what it documents: `inf` returns Z_BUF_ERROR.
  pub inf-too_small :
      64 * length packed < length text
      → length packed < 2 ^ 25
      → (inf zlib packed).code ≡ z_buf_error
  unfolding inf inf_from packed
  inf-too_small long small =
      let tried : (size : ℕ)
          → size ≤ 64 * length packed
          → (zlib.uncompress size packed).code ≡ z_buf_error =
        λ size h. laws.too_small text slack size (omega arith) in
      let n = length packed * 2 in
      let (e, e') : (u32 n ≡ n) × (u64 n ≡ n) = (omega arith, omega arith) in
      let size : (k : ℕ) → k ≤ 5 → int_size (n * 2 ^ k) ≡ n * 2 ^ k =
        int_size-small (length packed) small in
      rw
        (
          e,
          e',
          size 1 (omega arith),
          size 2 (omega arith),
          size 3 (omega arith),
          size 4 (omega arith),
          size 5 (omega arith),
          tried n (omega arith),
          tried (n * 2) (omega arith),
          tried (n * 4) (omega arith),
          tried (n * 8) (omega arith),
          tried (n * 16) (omega arith),
        )
        (tried (n * 32) (omega arith))
