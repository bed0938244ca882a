-- ===== src/Bloom/Tests.antt =====
-- The theorems on the filters, at concrete tables.
use bloom_server.Bloom.Create.{bloom_init}
use bloom_server.Bloom.Buckets.{bucket, chain_at}
use bloom_server.Bloom.Store.Fresh.{IsFresh, bloom_init-IsFresh}
use bloom_server.Base.{
  ◌==◌, ℕ, ◌+◌, ◌*◌, ◌-◌, ◌/◌, ◌≤◌, ◌<◌, ◌≡◌, refl, false, ◌^◌, replicate, if◌then◌else◌, none,
  some, Option, List, [], ◌∷◌, arith,
}
use mathlib.Core.Option
use bloom_server.Base.Run.{ok, null_pointer}
use bloom_server.Bloom.Types.{Bloom, Blooms, Bytes}
use bloom_server.Bloom.Size.{sizeof_bloom, calculate, fit, first_fit, go_on}
use bloom_server.Bloom.Size.Bounds.{calculate_bounds, fit_ends_by_test}
use bloom_server.Bloom.Filter.{bloom_set, bloom_get, hit, miss}
use bloom_server.Bloom.Filter.Laws.{Inserted, contains, bloom_set-Inserted, bloom_get-contains}
use bloom_server.Bloom.Chain.{find, unlink, sweep}
use bloom_server.Bloom.Chain.Unlink.{Removed, unlink-Removed}
use bloom_server.Bloom.Chain.Sweep.{odd_entries, even_entries, sweep-odd}
use bloom_server.Bloom.Process.{Globals, ◌>>=◌, at_rest, done, blocked, crash, writer}
use bloom_server.Bloom.Store.{
  value, blooms_add, blooms_set, blooms_get, blooms_delete, blooms_delete_all,
}
use bloom_server.Bloom.Store.Table.{view}
use bloom_server.Bloom.Store.Valid.{IsValid}
use bloom_server.Bloom.Store.Add.{Added, blooms_add-Added}
use bloom_server.Bloom.Store.Set.{SetDone, blooms_set-SetDone}
use bloom_server.Bloom.Store.Get.{GetDone, blooms_get-GetDone}
use bloom_server.Bloom.Store.Delete.{DeleteDone, blooms_delete-DeleteDone}
use bloom_server.Bloom.Store.DeleteAll.{blooms_delete_all-short, blooms_delete_all-even}
use bloom_server.Bloom.History.{Request, add, fill, get, delete, serve_all}
use bloom_server.Bloom.History.Laws.{no_false_negative}
use bloom_server.Bloom.Archive.{save, restore, blooms_dump, blooms_dump1, blooms_load}
use bloom_server.Bloom.Archive.Laws.{
  reloaded, blooms_dump-blooms_dump1, blooms_dump1_interrupts, blooms_load-blooms_dump,
  blooms_get-reloaded,
}
use bloom_server.Bloom.Example.{
  whole, platform, sum_hash, news, url, news_filter, no_filters, one_filter, boost,
  one_filter-IsValid, no_filters-IsValid, one_filter-news,
}

-- The code of `blooms_add`, and of a set and a get after it, on an empty table.
add_runs :
    blooms_add platform news 10 0 (at_rest no_filters none) ≡ done 0 (at_rest one_filter none)
unfolding blooms_add bloom_init calculate find bucket chain_at
add_runs = refl

abbrev requests : List Request
requests = add url 5 0 ∷ fill url url ∷ get news news ∷ delete url ∷ fill news news ∷ []

no_false_negative_example :
    (bs' : Blooms) × IsValid bs'
    × ((blooms_set news url >>= (λ r. serve_all platform requests) >>= (λ u. blooms_get news url))
          (at_rest one_filter none)
        ≡ done (value 1) (at_rest bs' none))
no_false_negative_example =
    no_false_negative platform (λ words. refl) none news url requests one_filter one_filter-IsValid
      one_filter-news ((omega arith, omega arith, omega arith), (tt, (tt, (refl, (tt, tt)))))

blooms_add-Added_example :
    (r : ℕ) × (bs' : Blooms) × (blooms_add platform news 10 0 (at_rest no_filters none)
      ≡ done r (at_rest bs' none))
    × Added no_filters news 10 0 r bs'
blooms_add-Added_example =
    blooms_add-Added platform no_filters none news 10 0 no_filters-IsValid (λ words. refl)
      (omega arith) (omega arith) (omega arith)

blooms_set-SetDone_example :
    (c : Bloom) × (bs' : Blooms) × (blooms_set news url (at_rest one_filter none)
      ≡ done 0 (at_rest bs' none))
    × SetDone one_filter news url news_filter c bs'
blooms_set-SetDone_example =
    blooms_set-SetDone one_filter none news url one_filter-IsValid one_filter-news

blooms_get-GetDone_example :
    (c : Bloom) × (bs' : Blooms) × (blooms_get news url (at_rest one_filter none)
      ≡ done (value (if contains news_filter url then 1 else 0)) (at_rest bs' none))
    × GetDone one_filter news news_filter c bs'
blooms_get-GetDone_example =
    blooms_get-GetDone one_filter none news url one_filter-IsValid one_filter-news

blooms_delete-DeleteDone_example :
    (bs' : Blooms) × (blooms_delete news (at_rest one_filter none) ≡ done 0 (at_rest bs' none))
    × DeleteDone one_filter news news_filter bs'
blooms_delete-DeleteDone_example =
    blooms_delete-DeleteDone one_filter none news one_filter-IsValid one_filter-news

blooms_load-blooms_dump_example :
    (bs' : Blooms) × (text : Option Bytes) × (blooms_dump
        (boost (save one_filter))
        (at_rest one_filter none)
      ≡ done tt (at_rest one_filter text))
    × (blooms_load (boost (save one_filter)) (record (at_rest one_filter text) { blooms = none })
        ≡ done 0 (at_rest bs' text))
    × ((q : Bytes)
        → view bs' q ≡ Option.map (reloaded (boost (save one_filter))) (view one_filter q))
    × (bs'.bytes ≡ one_filter.bytes)
    × (bs'.max_bytes ≡ one_filter.max_bytes)
    × (bs'.count ≡ one_filter.count)
blooms_load-blooms_dump_example =
    blooms_load-blooms_dump (boost (save one_filter)) one_filter none one_filter-IsValid refl

blooms_get-reloaded_example :
    (s : Globals) × (blooms_get news url (at_rest (restore (λ b. 3) (save one_filter)) none)
      ≡ done (value (if contains news_filter url then 1 else 0)) s)
blooms_get-reloaded_example =
    blooms_get-reloaded (boost (save one_filter)) one_filter none news url one_filter-IsValid
      one_filter-news

bloom_set-Inserted_example :
    (c : Bloom) × (bloom_set news_filter url ≡ ok c) × Inserted news_filter url c
bloom_set-Inserted_example =
    bloom_set-Inserted news_filter url (record { sized = omega arith; room = omega arith })

bloom_get-contains_example :
    bloom_get news_filter no_filters.totals url
    ≡ ok (
        if contains news_filter url
        then hit news_filter no_filters.totals
        else miss news_filter no_filters.totals)
bloom_get-contains_example =
    bloom_get-contains news_filter no_filters.totals url
      (record { sized = omega arith; room = omega arith })

calculate_bounds_example :
    (10 ≤ 20)
    × (20 ≤ 99 * 10)
    × (sizeof_bloom ≤ 140)
    × (20 ≤ 32 * ((140 - sizeof_bloom) / 4))
    × (32 * ((140 - sizeof_bloom) / 4) < 20 + 32)
unfolding calculate
calculate_bounds_example =
    calculate_bounds whole 10 0 {s = record { bytes = 140; m = 20; k = 2; tmp_e = 0 }} (omega arith)
      refl

fit_ends_by_test_example :
    let f = fit whole 98 0 (first_fit whole) in (go_on whole 0 f ≡ false) × (2 ≤ f.x) × (f.x ≤ 100)
fit_ends_by_test_example = fit_ends_by_test whole 0

-- Two filters in the first bucket.
abbrev other_filter : Bloom
other_filter = record news_filter { key = url }

abbrev pair_filters : List Bloom
pair_filters = other_filter ∷ news_filter ∷ []

abbrev crowded : Blooms
crowded = record no_filters { hashtable = λ hv. if hv == 0 then pair_filters else [] }

unlink-Removed_example :
    Removed news pair_filters (record { removed = news_filter; chain = other_filter ∷ [] })
unfolding unlink find
unlink-Removed_example =
    unlink-Removed news pair_filters (record { removed = news_filter; chain = other_filter ∷ [] })
      (refl, (refl, tt)) refl

sweep-odd_test :
    sweep (news_filter ∷ pair_filters)
    ≡ ok (record {
      kept = odd_entries (news_filter ∷ pair_filters);
      removed = even_entries (news_filter ∷ pair_filters);
    })
sweep-odd_test = sweep-odd (news_filter ∷ pair_filters) refl

blooms_delete_all-short_test :
    blooms_delete_all (at_rest one_filter none) ≡ done tt (at_rest one_filter none)
blooms_delete_all-short_test = blooms_delete_all-short one_filter none (λ hv. ground arith)

blooms_delete_all-even_example : blooms_delete_all (at_rest crowded none) ≡ crash null_pointer
blooms_delete_all-even_example =
    blooms_delete_all-even crowded none 0 (omega arith) (λ hv h. absurd (omega arith)) (omega arith)
      refl

blooms_dump-blooms_dump1_test :
    let held : Globals = record (at_rest one_filter (some (1 ∷ []))) { file_lock = writer } in
    (blooms_dump1 (boost (save one_filter)) (at_rest one_filter none) ≡ done tt held)
    × (blooms_dump (boost (save one_filter)) held ≡ blocked held)
    × (blooms_dump1 (boost (save one_filter)) held ≡ blocked held)
blooms_dump-blooms_dump1_test = blooms_dump-blooms_dump1 (boost (save one_filter)) one_filter none

blooms_dump1_interrupts_test :
    let busy : Globals = record (at_rest one_filter none) { hash_lock = writer } in
    blooms_dump1 (boost (save one_filter)) busy
    ≡ blocked (record busy { file_lock = writer; file = some [] })
blooms_dump1_interrupts_test = blooms_dump1_interrupts (boost (save one_filter)) one_filter none

bloom_init-IsFresh_test : IsFresh no_filters news 10 0 news_filter
unfolding bloom_init calculate
bloom_init-IsFresh_test =
    bloom_init-IsFresh platform no_filters news 10 0 news_filter (omega arith) (omega arith) refl

-- A filter that contains every key, and one whose bits are all clear.
abbrev full : Bloom
full = record news_filter { map = (2 ^ 32 - 1) ∷ [] }

abbrev clear : Bloom
clear = record news_filter { map = replicate 1 0 }
