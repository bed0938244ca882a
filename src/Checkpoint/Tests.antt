-- ===== src/Checkpoint/Tests.antt =====
-- The theorems on checkpoints, at numbers in base one.
use bloom_server.Base.{◌+◌, ◌≡◌, refl, true, false, some, none, [], replicate, length, arith}
use bloom_server.Checkpoint.{Checkpoint, Decimal, retrieve_max_url_id, checkpoint_thread}
use bloom_server.Checkpoint.Laws.{stopped_after, checkpoint_thread_stops, retrieve_max_url_id-take}

abbrev strokes : Decimal
strokes = record { print = λ n. replicate n 49; scan = λ text. some (length text) }

abbrev manager : Checkpoint
manager = record { is_running = true; can_stoped = false; maxurlid = 5; file = none }

checkpoint_thread_stops_test :
    checkpoint_thread strokes (stopped_after 3) manager
    ≡ some (record manager { maxurlid = 5 + 3 + 2; file = some (replicate (5 + 3 + 1) 49) })
checkpoint_thread_stops_test = checkpoint_thread_stops strokes 3 manager (omega arith)

retrieve_max_url_id-take_test :
    (retrieve_max_url_id strokes [] (record manager { file = some (replicate 9 49) })).maxurlid
    ≡ (retrieve_max_url_id strokes [] (record manager { file = some (replicate 10 49) })).maxurlid
retrieve_max_url_id-take_test =
    retrieve_max_url_id-take strokes [] (replicate 9 49) (replicate 10 49) manager refl
