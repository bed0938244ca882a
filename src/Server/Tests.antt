-- ===== src/Server/Tests.antt =====
-- The theorems on the service, at concrete tables.
use bloom_server.Base.{◌≡◌, refl, none, List, [], ◌∷◌}
use bloom_server.Bloom.Types.{Blooms, Bytes}
use bloom_server.Bloom.Chain.{find}
use bloom_server.Bloom.Process.{at_rest, done}
use bloom_server.Bloom.Store.Table.{view}
use bloom_server.Bloom.Store.Valid.{IsValid}
use bloom_server.Bloom.Archive.{save}
use bloom_server.Bloom.Example.{
  platform, sum_hash, news, url, no_filters, one_filter, boost, one_filter-IsValid,
  no_filters-IsValid, one_filter-news,
}
use bloom_server.Server.{fill, get, minus_one, serv_handler}
use bloom_server.Server.Laws.{all_with, get-fill, get-missing, serv_handler_empty}

abbrev urls : List Bytes
urls = url ∷ (47 ∷ url) ∷ url ∷ []

get-fill_example :
    (bs1 bs2 : Blooms) × (fill news urls (at_rest one_filter none)
      ≡ done (all_with 0 urls) (at_rest bs1 none))
    × (get news urls (at_rest bs1 none) ≡ done (all_with 1 urls) (at_rest bs2 none))
    × IsValid bs2
get-fill_example = get-fill none news urls one_filter one_filter-IsValid one_filter-news

get-missing_test :
    get news urls (at_rest no_filters none)
    ≡ done (all_with minus_one urls) (at_rest no_filters none)
unfolding view find
get-missing_test = get-missing none news urls no_filters no_filters-IsValid refl

serv_handler_empty_test :
    (bs : Blooms) × (serv_handler platform
        (boost (save no_filters))
        (record (at_rest no_filters none) { file = none })
      ≡ done 0 (at_rest bs none))
    × IsValid bs
    × ((q : Bytes) → view bs q ≡ none)
serv_handler_empty_test =
    serv_handler_empty platform (boost (save no_filters)) (at_rest no_filters none) refl
