-- ===== src/Bloom/Store/Delete.antt =====
-- blooms_delete: what it returns and what it leaves, on every branch.
use bloom_server.Base.{
  ◌+◌, ◌-◌, ◌<◌, ◌≡◌, Option, some, none, All, if◌then◌else◌, arith, bytes_eq, sub64, u32, ◌^◌,
  Option-cases, inl, inr,
}
use bloom_server.Bloom.Types.{Bloom, Blooms, Bytes}
use bloom_server.Bloom.Chain
use bloom_server.Bloom.Chain.{Unlinked}
use bloom_server.Bloom.Chain.Unlink.{Removed, unlink-Removed, unlink-eq-none, unlink-All}
use bloom_server.Bloom.Chain.Laws.{Distinct}
use bloom_server.Bloom.Process.{at_rest, done, ◌>>=◌, lift}
use bloom_server.Bloom.Buckets.{blooms_len, bucket, write}
use bloom_server.Bloom.Store.{blooms_delete}
use bloom_server.Bloom.Store.Table.{bucket-lt, view, total-write, find-write}
use bloom_server.Bloom.Store.Valid.{IsEntry, IsValid, IsValid-few, write_each}
use bloom_server.Bloom.Store.Update.{chain_at-view}

-- The table after the filter of a key is unlinked and accounted for.
abbrev pub without : Blooms → Bytes → Unlinked → Blooms
without bs key u = record bs {
  hashtable = write bs.hashtable (bucket bs.power key) u.chain;
  bytes = sub64 bs.bytes u.removed.bytes;
  count = u32 (bs.count + 2 ^ 32 - 1);
}

-- What a successful `blooms_delete` leaves: the filter `b` is gone from the table and from both
-- of its sums, and every other name has what it had.
pub record DeleteDone (bs : Blooms) (key : Bytes) (b : Bloom) (bs' : Blooms) : Type 0 where
  pub valid : IsValid bs'
  pub reads : (q : Bytes) → view bs' q ≡ (if bytes_eq key q then none else view bs q)
  pub count : bs'.count + 1 ≡ bs.count
  pub bytes : bs'.bytes + b.bytes ≡ bs.bytes

module _ (bs : Blooms) (key : Bytes) (u : Unlinked) (v : IsValid bs)
    (run : Chain.unlink key (bs.hashtable (bucket bs.power key)) ≡ some u) where
  removed : Removed key (bs.hashtable (bucket bs.power key)) u
  removed = unlink-Removed key _ u (v.distinct (bucket bs.power key)) run

  without-DeleteDone : DeleteDone bs key u.removed (without bs key u)
  without-DeleteDone =
      let hv = bucket bs.power key in
      let inside : hv < blooms_len = rw v.power (bucket-lt key) in
      let (gone, kept) = unlink-All (IsEntry hv) key _ u (v.entries hv) run in
      let one = total-write (λ x. 1) bs.hashtable hv u.chain blooms_len inside in
      let all = total-write (λ x. x.bytes) bs.hashtable hv u.chain blooms_len inside in
      let ones = removed.sums (λ x. 1) in
      let sizes = removed.sums (λ x. x.bytes) in
      record {
        valid = record {
          power = v.power;
          entries = write_each (λ i l. All (IsEntry i) l) bs.hashtable hv u.chain kept v.entries;
          distinct =
              write_each (λ i l. Distinct l) bs.hashtable hv u.chain removed.distinct v.distinct;
          counted = omega (arith, one, ones, v.counted, IsValid-few bs v);
          accounted = omega (arith, all, sizes, v.accounted, v.within, v.limit);
          within = omega (arith, all, sizes, v.accounted, v.within, v.limit);
          limit = v.limit;
        };
        reads = unfold view in find-write bs.hashtable bs.power key u.chain none removed.others;
        count = omega (arith, one, ones, v.counted, IsValid-few bs v);
        bytes = omega (arith, all, sizes, v.accounted, v.within, v.limit);
      }

module _ (bs : Blooms) (file : Option Bytes) (key : Bytes) (v : IsValid bs) where
  -- Without a filter of the name, `blooms_delete` returns 1, changes nothing and frees its locks.
  pub blooms_delete-missing :
      view bs key ≡ none → blooms_delete key (at_rest bs file) ≡ done 1 (at_rest bs file)
  unfolding blooms_delete view
  blooms_delete-missing h =
      let none_left = (unlink-eq-none key (bs.hashtable (bucket bs.power key))).1 h in
      rw (chain_at-view bs key v, none_left, ◌>>=◌, lift)

  -- On a valid table that has a filter of the name, `blooms_delete` returns 0 with its locks free:
  -- the name has no filter any more, every other name has what it had, `count` and `bytes` are less
  -- by that filter, and the table is valid.
  pub blooms_delete-DeleteDone :
      {b : Bloom}
      → view bs key ≡ some b
      → (bs' : Blooms) × (blooms_delete key (at_rest bs file) ≡ done 0 (at_rest bs' file))
        × DeleteDone bs key b bs'
  blooms_delete-DeleteDone {b} h =
      elim (Option-cases (Chain.unlink key (bs.hashtable (bucket bs.power key)))) [
        | inl gone ↦
            let k = (unlink-eq-none key (bs.hashtable (bucket bs.power key))).0 gone in
            let h' : Chain.find key (bs.hashtable (bucket bs.power key)) ≡ some b =
              unfold view in h in
            absurd (cc)
        | inr (u, run) ↦ (
          without bs key u,
          unfold blooms_delete view in rw (chain_at-view bs key v, run, ◌>>=◌, lift),
          same_filter u run,
        )
      ]
    where
      same_filter :
          (u : Unlinked)
          → Chain.unlink key (bs.hashtable (bucket bs.power key)) ≡ some u
          → DeleteDone bs key b (without bs key u)
      same_filter u run =
          let f : Chain.find key (bs.hashtable (bucket bs.power key)) ≡ some b = unfold view in h in
          let g = (removed bs key u v run).found in
          let same : u.removed ≡ b = cc in rw (← same) (without-DeleteDone bs key u v run)
