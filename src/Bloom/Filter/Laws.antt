-- ===== src/Bloom/Filter/Laws.antt =====
-- What one filter promises: a set of keys without false negatives.
use bloom_server.Bloom.Platform.{Murmur}
use bloom_server.Base.{
  ℕ, ◌+◌, ◌*◌, ◌≤◌, ◌<◌, ◌≡◌, refl, Bool, true, length, if◌then◌else◌, arith, u64,
}
use bloom_server.Base.Run.{ok}
use bloom_server.Bloom.Types.{Bloom, Totals, Bytes}
use bloom_server.Bloom.Bitmap.Laws.{bit}
use bloom_server.Bloom.Filter.{checksum, bloom_set, bloom_get, hit, miss}
use bloom_server.Bloom.Filter.Bits.{
  marks, covers, set_bits-marks, check_bits-covers, covers_mono, covers-marks,
}

-- The bitmap has room for every position.
pub record IsFilter (b : Bloom) : Type 0 where
  pub sized : 0 < b.m
  pub room : b.m ≤ 32 * length b.map

module _ ⦃murmur : Murmur⦄ where
  -- Whether the filter answers that it has the key.
  unfoldable pub contains : Bloom → Bytes → Bool
  contains b key = covers b.m (checksum key) b.k 0 b.map

  -- The positions of a key.
  unfoldable pub is_mark : Bloom → Bytes → ℕ → Bool
  is_mark b key q = marks b.m (checksum key) b.k 0 q

  -- `c` is `b` after a `bloom_set` of the key: the same parameters, and the bits of the key added.
  pub record Inserted (b : Bloom) (key : Bytes) (c : Bloom) : Type 0 where
    pub same : c ≡ record b { map = c.map; set_count = u64 (b.set_count + 1) }
    pub filter : IsFilter c
    pub bits : (q : ℕ) → bit c.map q ≡ (if is_mark b key q then 1 else bit b.map q)

  -- `bloom_set` on a well-formed filter never faults, keeps it well-formed and changes nothing but
  -- the set counter and the bits at the positions of the key, which it sets.
  pub bloom_set-Inserted :
      (b : Bloom) (key : Bytes)
      → IsFilter b
      → (c : Bloom) × (bloom_set b key ≡ ok c) × Inserted b key c
  unfolding bloom_set is_mark
  bloom_set-Inserted b key w =
      let (map', run, len, bits) = set_bits-marks b.m (checksum key) w.sized b.k 0 b.map w.room in
      (
        record b { map = map'; set_count = u64 (b.set_count + 1) },
        rw run,
        record {
          same = refl;
          filter = record { sized = w.sized; room = rw len w.room };
          bits = bits;
        },
      )

  -- `bloom_get` on a well-formed filter never faults, and answers by `contains`.
  pub bloom_get-contains :
      (b : Bloom) (t : Totals) (key : Bytes)
      → IsFilter b
      → bloom_get b t key ≡ ok (if contains b key then hit b t else miss b t)
  unfolding bloom_get contains
  bloom_get-contains b t key w =
      rw (check_bits-covers b.m (checksum key) w.sized b.k 0 b.map w.room)

  module _ {b c : Bloom} {key : Bytes} (i : Inserted b key c) where
    grow : (q : ℕ) → bit b.map q ≡ 1 → bit c.map q ≡ 1
    grow q e = ground (arith, i.bits q)

    -- A key that was set is found.
    pub contains-Inserted_self : contains c key ≡ true
    unfolding contains is_mark
    contains-Inserted_self =
        rw (i.same, contains)
          (covers-marks b.m (checksum key) b.k 0 c.map (λ q e. ground (arith, i.bits q)))

    -- What was found before is found after.
    pub contains-Inserted_mono : (other : Bytes) → contains b other ≡ true → contains c other ≡ true
    unfolding contains
    contains-Inserted_mono other e =
        rw (i.same, contains) (covers_mono b.m (checksum other) b.k 0 b.map c.map grow e)

  -- The counters of lookups do not matter to what a filter contains.
  pub contains_counters :
      (b : Bloom) (x y : ℕ) (key : Bytes)
      → contains (record b { get_count = x; get_miss_count = y }) key ≡ contains b key
  unfolding contains
  contains_counters b x y key = refl

  pub contains_bytes :
      (b : Bloom) (x : ℕ) (key : Bytes) → contains (record b { bytes = x }) key ≡ contains b key
  unfolding contains
  contains_bytes b x key = refl
