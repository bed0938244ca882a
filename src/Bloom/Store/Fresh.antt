-- ===== src/Bloom/Store/Fresh.antt =====
-- What bloom_init makes.
use bloom_server.Base.{
  ℕ, ◌-◌, ◌*◌, ◌/◌, ◌^◌, ◌≤◌, ◌<◌, ◌≡◌, inl, inr, true, Option, some, none, length, replicate,
  length-replicate, if◌then◌else◌, arith, sub64, ltb, Bool-cases, Option-cases,
}
use bloom_server.Base.Run.{ok}
use bloom_server.Bloom.Types.{Bloom, Blooms, Bytes, Double}
use bloom_server.Bloom.Platform.{Platform}
use bloom_server.Bloom.Size.{Size, sizeof_bloom, calculate}
use bloom_server.Bloom.Size.Bounds.{calculate_bounds}
use bloom_server.Bloom.Bitmap.Laws.{bit, bit-replicate}
use bloom_server.Bloom.Filter.Laws.{IsFilter}
use bloom_server.Bloom.Buckets.{max_key_len}
use bloom_server.Bloom.Create.{fresh_bloom, new_bloom, bloom_init}

-- A new filter: well-formed, with no bit set, no operation counted, and within the memory left.
pub record IsFresh (bs : Blooms) (key : Bytes) (n : ℕ) (e : Double) (b : Bloom) : Type 0 where
  pub named : b.key ≡ key
  pub short : length key < max_key_len
  pub elements : b.n ≡ n
  pub rate : b.e ≡ e
  pub unused : (b.get_count ≡ 0) × (b.set_count ≡ 0) × (b.get_miss_count ≡ 0)
  pub filter : IsFilter b
  pub clear : (q : ℕ) → bit b.map q ≡ 0
  pub fits : b.bytes ≤ sub64 bs.max_bytes bs.bytes
  pub bits : (n ≤ b.m) × (b.m ≤ 99 * n)
  pub large : sizeof_bloom ≤ b.bytes

module _ (p : Platform) (bs : Blooms) (key : Bytes) (n : ℕ) (e : Double) where
  new_bloom-some :
      (size : Size) (b : Bloom)
      → new_bloom p key n e size ≡ ok (some b)
      → (b.key ≡ key)
        × (length key < max_key_len)
        × (b.n ≡ n)
        × (b.e ≡ e)
        × ((b.get_count ≡ 0) × (b.set_count ≡ 0) × (b.get_miss_count ≡ 0))
        × (b.m ≡ size.m)
        × (b.bytes ≡ size.bytes)
        × (b.map ≡ replicate ((size.bytes - sizeof_bloom) / 4) 0)
  unfolding new_bloom
  new_bloom-some size b h = ground arith

  guarded :
      (size : Size) (b : Bloom)
      → (if ltb (sub64 bs.max_bytes bs.bytes) size.bytes then ok none else new_bloom p key n e size)
        ≡ ok (some b)
      → (size.bytes ≤ sub64 bs.max_bytes bs.bytes) × (new_bloom p key n e size ≡ ok (some b))
  guarded size b h = elim (Bool-cases (ltb (sub64 bs.max_bytes bs.bytes) size.bytes)) [
    | inl over ↦ absurd (let k = rw over at h in cc)
    | inr fits ↦ (ground arith, rw fits at h)
  ]

  bloom_init-some :
      (b : Bloom)
      → bloom_init p bs key n e ≡ ok (some b)
      → (size : Size) × (calculate p.libm n e ≡ some size)
        × (size.bytes ≤ sub64 bs.max_bytes bs.bytes)
        × (new_bloom p key n e size ≡ ok (some b))
  unfolding bloom_init
  bloom_init-some b h = elim (Option-cases (calculate p.libm n e)) [
    | inl c ↦ absurd (let k = rw (c, bloom_init) at h in cc)
    | inr (size, c) ↦
        let (fits, made) = guarded size b (rw (c, bloom_init) at h) in (size, c, fits, made)
  ]

  -- A filter that `bloom_init` makes for 0 < n < 2 ^ 57 has the name, which is shorter than 32 bytes,
  -- the parameters asked for, room for each of its bits, no bit set, counters at 0, and as many
  -- bytes as the table has left, or less.
  pub bloom_init-IsFresh :
      (b : Bloom)
      → 0 < n
      → n < 2 ^ 57
      → bloom_init p bs key n e ≡ ok (some b)
      → IsFresh bs key n e b
  bloom_init-IsFresh b pos small h =
      let (size, c, fits, made) = bloom_init-some b h in
      let (named, short, elements, rate, unused, m, bytes, map) = new_bloom-some size b made in
      let (lo, hi, large, room, _) = calculate_bounds p.libm n e small c in
      let words = length-replicate {A = ℕ} ((size.bytes - sizeof_bloom) / 4) 0 in
      record {
        named = named;
        short = short;
        elements = elements;
        rate = rate;
        unused = unused;
        filter = record { sized = omega arith; room = rw (m, map, words) room };
        clear = λ q. rw map (bit-replicate _ q);
        fits = omega arith;
        bits = (omega arith, omega arith);
        large = omega arith;
      }

  -- With memory for its words and a name that fits, a filter is made or refused, without a fault.
  pub bloom_init-ok :
      ((words : ℕ) → p.new_words words ≡ true)
      → length key < max_key_len
      → (o : Option Bloom) × (bloom_init p bs key n e ≡ ok o)
  unfolding bloom_init new_bloom
  bloom_init-ok memory short = elim (Option-cases (calculate p.libm n e)) [
    | inl c ↦ (none, rw (c, bloom_init))
    | inr (size, c) ↦ rw (c, bloom_init) (made size)
  ]
    where
      made :
          (size : Size)
          → (o : Option Bloom) × ((if ltb (sub64 bs.max_bytes bs.bytes) size.bytes
                then ok none
                else new_bloom p key n e size)
              ≡ ok o)
      made size = elim (Bool-cases (ltb (sub64 bs.max_bytes bs.bytes) size.bytes)) [
        | inl over ↦ (none, rw over)
        | inr fits ↦ elim (Bool-cases (p.malloc sizeof_bloom)) [
          | inl yes_m ↦ (
            some (fresh_bloom key n e size),
            ground (arith, memory ((size.bytes - sizeof_bloom) / 4)),
          )
          | inr no_m ↦ (none, ground arith)
        ]
      ]
