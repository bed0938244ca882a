-- ===== src/Bloom/Store/Set.antt =====
-- blooms_set: what it returns and what it leaves, on every branch.
use bloom_server.Bloom.Platform.{Murmur}
use bloom_server.Base.{◌+◌, ◌≡◌, refl, Option, some, none, u64, if◌then◌else◌, bytes_eq}
use bloom_server.Bloom.Types.{Bloom, Blooms, Bytes}
use bloom_server.Bloom.Filter.Laws.{Inserted, bloom_set-Inserted}
use bloom_server.Bloom.Process.{at_rest, done, ◌>>=◌, lift}
use bloom_server.Bloom.Store.{blooms_set}
use bloom_server.Bloom.Store.Table.{view}
use bloom_server.Bloom.Store.Valid.{IsValid, with_totals-IsValid}
use bloom_server.Bloom.Store.Update.{
  chain_at-view, updated, entry-found, view-updated, updated-IsValid,
}

-- The table after a subkey is set in the filter of a key.
abbrev pub with_set : Blooms → Bytes → Bloom → Blooms
with_set bs key c = record (updated bs key c) {
  totals = record bs.totals { set_count = u64 (bs.totals.set_count + 1) };
}

module _ ⦃murmur : Murmur⦄ where
  -- What a successful `blooms_set` does to the filter `b` of the key.
  pub record SetDone (bs : Blooms) (key subkey : Bytes) (b c : Bloom) (bs' : Blooms) : Type 0 where
    pub inserted : Inserted b subkey c
    pub valid : IsValid bs'
    pub reads : (q : Bytes) → view bs' q ≡ (if bytes_eq key q then some c else view bs q)

  module _ (bs : Blooms) (file : Option Bytes) (key subkey : Bytes) (v : IsValid bs) where
    -- Without a filter of the name, `blooms_set` returns 1 and changes nothing.
    pub blooms_set-missing :
        view bs key ≡ none → blooms_set key subkey (at_rest bs file) ≡ done 1 (at_rest bs file)
    unfolding blooms_set view
    blooms_set-missing h = rw (chain_at-view bs key v, h, ◌>>=◌, lift)

    -- On a valid table that has a filter of the name, `blooms_set` returns 0 with its lock free: the
    -- filter has the bits of the subkey added, every other name has what it had, and the table is
    -- valid.
    pub blooms_set-SetDone :
        {b : Bloom}
        → view bs key ≡ some b
        → (c : Bloom) × (bs' : Blooms) × (blooms_set key subkey (at_rest bs file)
            ≡ done 0 (at_rest bs' file))
          × SetDone bs key subkey b c bs'
    blooms_set-SetDone {b} h =
        let w = entry-found bs key b b v h refl in
        let (c, run, i) = bloom_set-Inserted b subkey w in
        let same : c.key ≡ b.key = rw i.same in
        let u = updated-IsValid bs key b c v h same i.filter (rw i.same) in
        (
          c,
          with_set bs key c,
          unfold blooms_set view in rw (chain_at-view bs key v, h, run, ◌>>=◌, lift),
          record {
            inserted = i;
            valid = with_totals-IsValid _ _ u;
            reads = unfold view in view-updated bs key b c v h same;
          },
        )
