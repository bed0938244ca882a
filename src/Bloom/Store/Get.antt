-- ===== src/Bloom/Store/Get.antt =====
-- blooms_get: what it returns and what it leaves, on every branch.
use bloom_server.Bloom.Platform.{Murmur}
use bloom_server.Base.{◌≡◌, refl, Bool, true, false, Option, some, none, if◌then◌else◌, bytes_eq}
use bloom_server.Bloom.Types.{Bloom, Blooms, Bytes, Totals}
use bloom_server.Bloom.Filter.{Got, hit, miss}
use bloom_server.Bloom.Filter.Laws.{IsFilter, contains, contains_counters, bloom_get-contains}
use bloom_server.Bloom.Process.{Globals, at_rest, done, ◌>>=◌, lift}
use bloom_server.Bloom.Buckets.{hash_power}
use bloom_server.Bloom.Store.{blooms_get, no_filter, value}
use bloom_server.Bloom.Store.Table.{view}
use bloom_server.Bloom.Store.Valid.{IsValid, with_totals-IsValid}
use bloom_server.Bloom.Store.Update.{
  chain_at-view, chain_at-power, updated, entry-found, view-updated, updated-IsValid,
}

-- `c` is `b` but for the two counters of lookups.
pub record Counted (b c : Bloom) : Type 0 where
  pub same : c ≡ record b { get_count = c.get_count; get_miss_count = c.get_miss_count }

module _ ⦃murmur : Murmur⦄ where
  abbrev answer : Bloom → Totals → Bytes → Got
  answer b t subkey = if contains b subkey then hit b t else miss b t

answer-Counted :
    (b : Bloom) (t : Totals) (found : Bool) → Counted b (if found then hit b t else miss b t).bloom
answer-Counted b t true = record { same = unfold hit in refl }
answer-Counted b t false = record { same = unfold miss in refl }

answer-result :
    (b : Bloom) (t : Totals) (found : Bool)
    → (if found then hit b t else miss b t).result ≡ (if found then 1 else 0)
answer-result b t true = unfold hit in refl
answer-result b t false = unfold miss in refl

Counted-IsFilter : {b c : Bloom} → Counted b c → IsFilter b → IsFilter c
Counted-IsFilter s w = rw s.same (record { sized = w.sized; room = w.room })

-- A lookup changes nothing but counters: the filter `b` of the key becomes `c`.
pub record GetDone (bs : Blooms) (key : Bytes) (b c : Bloom) (bs' : Blooms) : Type 0 where
  pub counted : Counted b c
  pub valid : IsValid bs'
  pub reads : (q : Bytes) → view bs' q ≡ (if bytes_eq key q then some c else view bs q)

module _ ⦃murmur : Murmur⦄ where
  module _ (bs : Blooms) (file : Option Bytes) (key subkey : Bytes) (v : IsValid bs) where
    -- Without a filter of the name, `blooms_get` returns -1 and changes nothing.
    pub blooms_get-missing :
        view bs key ≡ none
        → blooms_get key subkey (at_rest bs file) ≡ done no_filter (at_rest bs file)
    unfolding blooms_get view
    blooms_get-missing h = rw (chain_at-view bs key v, h, ◌>>=◌, lift)

    -- On a valid table that has a filter of the name, `blooms_get` returns 1 if that filter contains
    -- the subkey and 0 if not, with its lock free; nothing but counters changes, and the table is
    -- valid.
    pub blooms_get-GetDone :
        {b : Bloom}
        → view bs key ≡ some b
        → (c : Bloom) × (bs' : Blooms) × (blooms_get key subkey (at_rest bs file)
            ≡ done (value (if contains b subkey then 1 else 0)) (at_rest bs' file))
          × GetDone bs key b c bs'
    blooms_get-GetDone {b} h =
        let w = entry-found bs key b b v h refl in
        let got = answer b bs.totals subkey in
        let run = bloom_get-contains b bs.totals subkey w in
        let s = answer-Counted b bs.totals (contains b subkey) in
        let same : got.bloom.key ≡ b.key = rw s.same in
        let u = updated-IsValid bs key b got.bloom v h same (Counted-IsFilter s w) (rw s.same) in
        (
          got.bloom,
          record (updated bs key got.bloom) { totals = got.totals },
          unfold blooms_get view in
              rw (
                chain_at-view bs key v,
                h,
                run,
                ← answer-result b bs.totals (contains b subkey),
                ◌>>=◌,
                lift,
              ),
          record {
            counted = s;
            valid = with_totals-IsValid _ _ u;
            reads = unfold view in view-updated bs key b got.bloom v h same;
          },
        )

  -- Counting a lookup does not change what the filter contains.
  pub contains-Counted :
      {b c : Bloom} → Counted b c → (subkey : Bytes) → contains c subkey ≡ contains b subkey
  contains-Counted s subkey = rw s.same (contains_counters _ _ _ subkey)

  -- The answer rests only on the filter itself.
  pub blooms_get-answer :
      (bs : Blooms) (file : Option Bytes) (key subkey : Bytes) (b : Bloom)
      → bs.power ≡ hash_power
      → view bs key ≡ some b
      → IsFilter b
      → (s : Globals) × (blooms_get key subkey (at_rest bs file)
          ≡ done (value (if contains b subkey then 1 else 0)) s)
  blooms_get-answer bs file key subkey b pow h w =
      let got = answer b bs.totals subkey in
      (
        at_rest (record (updated bs key got.bloom) { totals = got.totals }) file,
        unfold blooms_get view in
            rw (
              chain_at-power bs key pow,
              h,
              bloom_get-contains b bs.totals subkey w,
              ← answer-result b bs.totals (contains b subkey),
              ◌>>=◌,
              lift,
            ),
      )
