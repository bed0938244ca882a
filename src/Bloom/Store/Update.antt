-- ===== src/Bloom/Store/Update.antt =====
-- The write of one entry of the table through the pointer that a search has found.
use bloom_server.Base.{◌<◌, ◌≡◌, refl, some, All, if◌then◌else◌, arith, bytes_eq}
use bloom_server.Base.Run.{ok}
use bloom_server.Bloom.Types.{Bloom, Blooms, Bytes}
use bloom_server.Bloom.Chain
use bloom_server.Bloom.Chain.Laws.{
  Distinct, find-key, find-replace, replace-Distinct, sum_of-replace, find-All, replace-All,
}
use bloom_server.Bloom.Filter.Laws.{IsFilter}
use bloom_server.Bloom.Buckets.{hash_power, blooms_len, bucket, write, chain_at}
use bloom_server.Bloom.Store.Table.{bucket-lt, view, total-write, find-write}
use bloom_server.Bloom.Store.Valid.{IsEntry, IsValid, write_each}

-- The chain of a key can be read.
pub chain_at-power :
    (bs : Blooms) (key : Bytes)
    → bs.power ≡ hash_power
    → chain_at bs (bucket bs.power key) ≡ ok (bs.hashtable (bucket bs.power key))
unfolding chain_at
chain_at-power bs key pow = rw pow (ground (arith, bucket-lt key))

pub chain_at-view :
    (bs : Blooms) (key : Bytes)
    → IsValid bs
    → chain_at bs (bucket bs.power key) ≡ ok (bs.hashtable (bucket bs.power key))
chain_at-view bs key v = chain_at-power bs key v.power

-- The table after the filter of a key is written through its pointer.
abbrev pub updated : Blooms → Bytes → Bloom → Blooms
updated bs key c =
    let hv = bucket bs.power key in
    record bs { hashtable = write bs.hashtable hv (Chain.replace key c (bs.hashtable hv)) }

module _ (bs : Blooms) (key : Bytes) (b c : Bloom) (v : IsValid bs) (found : view bs key ≡ some b)
    (same_key : c.key ≡ b.key) where
  there : Chain.find key (bs.hashtable (bucket bs.power key)) ≡ some b
  there = unfold view in found

  pub key-found : b.key ≡ key
  key-found = find-key key (bs.hashtable (bucket bs.power key)) b there

  found-IsEntry : IsEntry (bucket bs.power key) b
  found-IsEntry =
      find-All (IsEntry (bucket bs.power key)) key (bs.hashtable (bucket bs.power key)) b
        (v.entries (bucket bs.power key)) there

  pub entry-found : IsFilter b
  entry-found = found-IsEntry.filter

  pub view-updated :
      (q : Bytes) → view (updated bs key c) q ≡ (if bytes_eq key q then some c else view bs q)
  unfolding view
  view-updated = find-write bs.hashtable bs.power key _ (some c) (λ q.
      find-replace key c (rw same_key key-found) q (bs.hashtable (bucket bs.power key)) b there)

  pub updated-IsValid : IsFilter c → c.bytes ≡ b.bytes → IsValid (updated bs key c)
  updated-IsValid w same_bytes =
      let hv = bucket bs.power key in
      let chain = bs.hashtable hv in
      let same : c.key ≡ key = rw same_key key-found in
      let home : bucket hash_power c.key ≡ hv = rw (same, v.power) in
      let inside : hv < blooms_len = rw v.power (bucket-lt key) in
      record {
        power = v.power;
        entries =
            write_each (λ i l. All (IsEntry i) l) bs.hashtable hv (Chain.replace key c chain)
              (replace-All (IsEntry hv) key c chain
                (record { filter = w; home = home; large = rw same_bytes found-IsEntry.large })
                (v.entries hv))
              v.entries;
        distinct =
            write_each (λ i l. Distinct l) bs.hashtable hv (Chain.replace key c chain)
              (replace-Distinct key c same chain (v.distinct hv)) v.distinct;
        counted = omega (
          arith,
          total-write (λ x. 1) bs.hashtable hv (Chain.replace key c chain) blooms_len inside,
          sum_of-replace (λ x. 1) key c chain b there refl,
          v.counted,
        );
        accounted = omega (
          arith,
          total-write (λ x. x.bytes) bs.hashtable hv (Chain.replace key c chain) blooms_len inside,
          sum_of-replace (λ x. x.bytes) key c chain b there same_bytes,
          v.accounted,
        );
        within = v.within;
        limit = v.limit;
      }
