-- ===== src/Bloom/Bitmap.antt =====
-- bitmap_set, bitmap_clear and bitmap_check of src/module/bloomfilter/bloom_filter.cpp. A bitmap
-- is a list of 32-bit words, each `int` read as its bit pattern.
pub mod Laws
use bloom_server.Base.{
  ℕ, ◌+◌, ◌-◌, ◌*◌, ◌/◌, ◌^◌, bit_and, bit_or, Option, none, some, List, get_elem?, set, ◌<<<◌,
  ◌>>>◌,
}
use bloom_server.Base.Run.{Run, ok, fault, out_of_range, ◌>>=◌}

-- `map[i >> SHIFT]`
word_at : List ℕ → ℕ → Run ℕ
word_at map i = elim (get_elem? map (i >>> 5)) [ none ↦ fault out_of_range | some w ↦ ok w ]

-- `1 << (i & MASK)`
bit_of : ℕ → ℕ
bit_of i = 1 <<< bit_and i 0x1f

unfoldable pub bitmap_set : List ℕ → ℕ → Run (List ℕ)
unfolding word_at bit_of
bitmap_set map i = do w ← word_at map i; ok (set map (i >>> 5) (bit_or w (bit_of i)))

-- `~(1 << b)` on 32 bits is the word of all ones without that bit.
pub bitmap_clear : List ℕ → ℕ → Run (List ℕ)
unfolding word_at bit_of
bitmap_clear map i = do
  w ← word_at map i
  ok (set map (i >>> 5) (bit_and w (2 ^ 32 - 1 - bit_of i)))

unfoldable pub bitmap_check : List ℕ → ℕ → Run ℕ
unfolding word_at bit_of
bitmap_check map i = do w ← word_at map i; ok (bit_and w (bit_of i))
