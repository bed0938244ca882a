-- ===== src/Bloom/Archive/Laws.antt =====
-- A dump and a load bring every filter back, except for the field `bytes`.
use bloom_server.Bloom.Platform.{Murmur}
use bloom_server.Base.{
  ◌≡◌, refl, true, Option, none, some, List, [], ◌∷◌, map, ltb, if◌then◌else◌, arith,
}
use mathlib.Core.Option
use bloom_server.Bloom.Types.{Bloom, Blooms, Bytes}
use bloom_server.Bloom.Chain.Laws.{find-map}
use bloom_server.Bloom.Filter.Laws.{contains, contains_bytes}
use bloom_server.Bloom.Process.{Globals, writer, at_rest, done, blocked, ◌>>=◌}
use bloom_server.Bloom.Buckets.{hash_power, blooms_len, bucket}
use bloom_server.Bloom.Store.{blooms_get, value}
use bloom_server.Bloom.Store.Get.{blooms_get-answer}
use bloom_server.Bloom.Store.Update.{entry-found}
use bloom_server.Bloom.Store.Table.{bucket-lt, view}
use bloom_server.Bloom.Store.Valid.{IsValid}
use bloom_server.Bloom.Archive.{
  Boost, save_bloom, save, restore_bloom, restore, blooms_dump, blooms_dump1, blooms_load,
}

-- The filter that comes back.
pub reloaded : Boost → Bloom → Bloom
reloaded boost b = record b { bytes = boost.left_over (save_bloom b) }

module _ (boost : Boost) where
  restore-save_bloom : (b : Bloom) → restore_bloom boost.left_over (save_bloom b) ≡ reloaded boost b
  unfolding restore_bloom save_bloom reloaded
  restore-save_bloom b = refl

  map_reloaded :
      (chain : List Bloom)
      → map (restore_bloom boost.left_over) (map save_bloom chain) ≡ map (reloaded boost) chain
  map_reloaded [] = refl
  map_reloaded (b ∷ rest) = rw (restore-save_bloom b, map_reloaded rest)

  reloaded-key : (b : Bloom) → (reloaded boost b).key ≡ b.key
  unfolding reloaded
  reloaded-key b = refl

  -- A restarted server finds under every name the filter that was dumped, with another `bytes`.
  view-restore :
      (bs : Blooms)
      → bs.power ≡ hash_power
      → (q : Bytes)
      → view (restore boost.left_over (save bs)) q ≡ Option.map (reloaded boost) (view bs q)
  unfolding restore save view
  view-restore bs pow q =
      let inside : ltb (bucket bs.power q) blooms_len ≡ true =
        rw pow (let h = bucket-lt q in ground arith) in
      rw (inside, map_reloaded (bs.hashtable (bucket bs.power q)))
        (find-map (reloaded boost) reloaded-key q (bs.hashtable (bucket bs.power q)))

  -- `blooms_dump` between requests writes the text of the whole table and frees its locks.
  pub blooms_dump_lem :
      (bs : Blooms) (file : Option Bytes)
      → blooms_dump boost (at_rest bs file) ≡ done tt (at_rest bs (some (boost.encode (save bs))))
  unfolding blooms_dump
  blooms_dump_lem bs file = refl

  -- The dump of the signal handler writes the same text, and never frees the lock of the file: a
  -- dump after it waits for ever.
  pub blooms_dump-blooms_dump1 :
      (bs : Blooms) (file : Option Bytes)
      → let held : Globals = record (at_rest bs (some (boost.encode (save bs)))) {
        file_lock = writer;
      } in
        (blooms_dump1 boost (at_rest bs file) ≡ done tt held)
        × (blooms_dump boost held ≡ blocked held)
        × (blooms_dump1 boost held ≡ blocked held)
  unfolding blooms_dump blooms_dump1
  blooms_dump-blooms_dump1 bs file = (refl, refl, refl)

  -- A dump that starts while a request holds the table for writing, as the signal handler may,
  -- waits for ever, and the file has been emptied by then.
  pub blooms_dump1_interrupts :
      (bs : Blooms) (file : Option Bytes)
      → let busy : Globals = record (at_rest bs file) { hash_lock = writer } in
        blooms_dump1 boost busy ≡ blocked (record busy { file_lock = writer; file = some [] })
  unfolding blooms_dump1
  blooms_dump1_interrupts bs file = refl

  -- If boost reads back what it has written, a dump of a valid table and a load into a new process
  -- give a table that has under each name the filter that was dumped: the same parameters, bits and
  -- counters, with its `bytes` replaced by what the memory held. The limits and sums of the table
  -- are those that were dumped.
  pub blooms_load-blooms_dump :
      (bs : Blooms) (file : Option Bytes)
      → IsValid bs
      → boost.decode (boost.encode (save bs)) ≡ some (save bs)
      → (bs' : Blooms) × (text : Option Bytes) × (blooms_dump boost (at_rest bs file)
          ≡ done tt (at_rest bs text))
        × (blooms_load boost (record (at_rest bs text) { blooms = none })
            ≡ done 0 (at_rest bs' text))
        × ((q : Bytes) → view bs' q ≡ Option.map (reloaded boost) (view bs q))
        × (bs'.bytes ≡ bs.bytes)
        × (bs'.max_bytes ≡ bs.max_bytes)
        × (bs'.count ≡ bs.count)
  blooms_load-blooms_dump bs file v back = (
    restore boost.left_over (save bs),
    some (boost.encode (save bs)),
    blooms_dump_lem bs file,
    unfold blooms_load in rw (back, ◌>>=◌),
    view-restore bs v.power,
    unfold restore save in refl,
    unfold restore save in refl,
    unfold restore save in refl,
  )

module _ ⦃murmur : Murmur⦄ where
  -- What a filter contains does not depend on its `bytes`.
  pub contains-reloaded :
      (boost : Boost) (b : Bloom) (key : Bytes) → contains (reloaded boost b) key ≡ contains b key
  unfolding reloaded
  contains-reloaded boost b key = contains_bytes b _ key

  -- In the table that a load restores from a valid one, a lookup in a filter that was dumped is
  -- answered as that filter contains the subkey or not.
  pub blooms_get-reloaded :
      (boost : Boost) (bs : Blooms) (file : Option Bytes) (key subkey : Bytes) {b : Bloom}
      → IsValid bs
      → view bs key ≡ some b
      → (s : Globals) × (blooms_get key subkey (at_rest (restore boost.left_over (save bs)) file)
          ≡ done (value (if contains b subkey then 1 else 0)) s)
  blooms_get-reloaded boost bs file key subkey {b} v h =
      let there = view-restore boost bs v.power key in
      let w = entry-found bs key b b v h refl in
      let (s, run) =
        blooms_get-answer (restore boost.left_over (save bs)) file key subkey (reloaded boost b)
          (unfold restore save in v.power) (rw h at there)
          (unfold reloaded in record { sized = w.sized; room = w.room }) in
      (s, rw contains-reloaded at run)
