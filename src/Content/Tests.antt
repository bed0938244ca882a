-- ===== src/Content/Tests.antt =====
-- A compression and a store of records that keep what zlib and DBAccess promise, and the theorems on
-- documents at a page of a url.
use bloom_server.Base.{
  ℕ, zero, suc, ◌+◌, ◌≤◌, ◌<◌, ◌≡◌, refl, true, false, [], ◌∷◌, ◌++◌, arith, length, take, leb,
  if◌then◌else◌, bytes_eq, bytes_eq_sound, take-length, take-append_le, Bool-cases, inl, inr, ◌∙◌,
  leb→le, ltb→lt, replicate,
}
use bloom_server.Base.Run.{ok}
use bloom_server.Bloom.Types.{Bytes}
use bloom_server.Content.Format.{
  decimal_from, decimal, print_int, print_field, sprintf, sscanf, ulonglong_field, int_field,
}
use bloom_server.Content.Format.Laws.{InField, InFields, sscanf-sprintf}
use bloom_server.Content.Zlib.{z_ok, z_buf_error, z_other, Inflated, Zlib, ZlibLaws, inf}
use bloom_server.Content.Zlib.Laws.{packed, inf-restores, inf-too_small}

-- The length in front.
unfoldable pub pack : ℕ → Bytes → Bytes
pack size text = length text ∷ text

unfoldable pub unpack : ℕ → Bytes → Inflated
unpack size [] = record { code = z_other; written = [] }
unpack size (n ∷ rest) =
    if leb n size
    then record { code = z_ok; written = take n rest }
    else record { code = z_buf_error; written = take size rest }

abbrev pub zlib : Zlib
zlib = record { compress_bound = λ n. n + 1; compress2 = pack; uncompress = unpack }

unpack_fits :
    (text slack : Bytes) (size : ℕ)
    → length text ≤ size
    → unpack size (length text ∷ (text ++ slack)) ≡ record { code = z_ok; written = text }
unfolding unpack
unpack_fits text slack size fits =
    let e : leb (length text) size ≡ true = ground arith in
    let whole : take (length text) (text ++ slack) ≡ text =
      take-append_le (length text) text slack (omega arith)
      ∙ take-length (length text) text (omega arith) in
    rw (e, whole) refl

unpack_small :
    (text slack : Bytes) (size : ℕ)
    → size < length text
    → (unpack size (length text ∷ (text ++ slack))).code ≡ z_buf_error
unfolding unpack
unpack_small text slack size h = let e : leb (length text) size ≡ false = ground arith in rw e refl

pub zlib_laws : ZlibLaws zlib
unfolding pack unpack
zlib_laws = record { restored = unpack_fits; too_small = unpack_small }

inf-restores_test :
    inf zlib (packed zlib zlib_laws (7 ∷ 8 ∷ []) (0 ∷ []))
    ≡ record { code = z_ok; written = 7 ∷ 8 ∷ [] }
unfolding packed pack
inf-restores_test =
    inf-restores zlib zlib_laws (7 ∷ 8 ∷ []) (0 ∷ []) (leb→le _ _ refl) (ltb→lt _ _ refl)

-- Two hundred zeros become one byte; any other text has its length in front.
abbrev zeros : Bytes
zeros = replicate 200 0

squeeze : ℕ → Bytes → Bytes
squeeze size text = if bytes_eq text zeros then 0 ∷ [] else 1 ∷ length text ∷ text

unsqueeze_zeros : ℕ → Inflated
unsqueeze_zeros size =
    if leb 200 size
    then record { code = z_ok; written = zeros }
    else record { code = z_buf_error; written = [] }

unsqueeze : ℕ → Bytes → Inflated
unfolding unpack
unsqueeze size [] = record { code = z_other; written = [] }
unsqueeze size (zero ∷ rest) = unsqueeze_zeros size
unsqueeze size (suc t ∷ rest) = unpack size rest

abbrev sparse : Zlib
sparse = record { compress_bound = λ n. n + 2; compress2 = squeeze; uncompress = unsqueeze }

sparse_laws : ZlibLaws sparse
unfolding squeeze unsqueeze unsqueeze_zeros
sparse_laws = record {
  restored = λ text slack size fits. elim (Bool-cases (bytes_eq text zeros)) [
    | inl same ↦
        let e = bytes_eq_sound text zeros same in
        let fits' : 200 ≤ size = rw e at fits in
        let large : leb 200 size ≡ true = ground arith in rw (same, large, e) refl
    | inr other ↦ rw other (unpack_fits text slack size fits)
  ];
  too_small = λ text slack size h. elim (Bool-cases (bytes_eq text zeros)) [
    | inl same ↦
        let e = bytes_eq_sound text zeros same in
        let h' : size < 200 = rw e at h in
        let small : leb 200 size ≡ false = ground arith in rw (same, small) refl
    | inr other ↦ rw other (unpack_small text slack size h)
  ];
}

inf-too_small_example : (inf sparse (packed sparse sparse_laws zeros [])).code ≡ z_buf_error
unfolding packed squeeze
inf-too_small_example =
    inf-too_small sparse sparse_laws zeros [] (ltb→lt _ _ refl) (ltb→lt _ _ refl)

sscanf-sprintf_test :
    sscanf
      (ulonglong_field ∷ int_field ∷ [])
      (sprintf (ulonglong_field ∷ int_field ∷ []) (12 ∷ 4294967295 ∷ []) ++ (65 ∷ []))
    ≡ ok (12 ∷ 4294967295 ∷ [])
unfolding InField InFields
sscanf-sprintf_test =
    sscanf-sprintf (ulonglong_field ∷ int_field ∷ []) (12 ∷ 4294967295 ∷ []) (65 ∷ [])
      (ltb→lt _ _ refl, (ltb→lt _ _ refl, tt))

-- The text is "12/-1/".
sprintf_test :
    sprintf (ulonglong_field ∷ int_field ∷ []) (12 ∷ 4294967295 ∷ [])
    ≡ 49 ∷ 50 ∷ 47 ∷ 45 ∷ 49 ∷ 47 ∷ []
unfolding sprintf print_field print_int decimal decimal_from
sprintf_test = refl
