-- ===== src/Ids/Tests.antt =====
-- The theorems on the ids, at concrete clocks.
use bloom_server.Base.{◌<◌, ◌≡◌, refl, some, [], ◌∷◌, arith}
use bloom_server.Ids.{Ids, Time, millisecond, issued, get_max_id}
use bloom_server.Ids.Laws.{id_value, get_max_id-grows, get_max_id-repeats}

abbrev morning : Time
morning = record { tv_sec = 1300000000; tv_usec = 5999 }

abbrev set_back : Time
set_back = record { tv_sec = 1299999999; tv_usec = 0 }

abbrev first : Ids
first = record { last_millisecond = 1300000000005; last_id = 0 }

abbrev second : Ids
second = record { last_millisecond = 1300000000005; last_id = 1 }

get_max_id-grows_example :
    (id_value 3 second ≡ id_value 3 second) × (id_value 3 first < id_value 3 second)
unfolding get_max_id
get_max_id-grows_example =
    get_max_id-grows 3 first second (some set_back ∷ some morning ∷ []) (id_value 3 second)
      (omega arith) (omega arith) (omega arith, (omega arith, tt)) refl (omega arith)

get_max_id-repeats_test :
    get_max_id 3 (record { last_millisecond = 1300000000005; last_id = 4095 }) (some morning ∷ [])
    ≡ (record { last_millisecond = 1300000000005; last_id = 4096 }, issued (id_value 3 first))
unfolding millisecond
get_max_id-repeats_test =
    get_max_id-repeats 3 1300000000005 morning [] (omega arith) refl (omega arith) refl
