-- ===== src/Locks/Tests.antt =====
-- The theorem on the locks, at two threads that ask for the number 5.
use bloom_server.Base.{◌≢◌, refl, arith, none, some}
use bloom_server.Locks.{
  holding, waiting, inside, taken_seen, entered, free_seen, Table, new_table, hash, move, set_owner,
  set_lock, call, Reaches, here, step, get_called, get_locked, get_missed, get_found, get_entered,
  get_returned, get_again,
}
use bloom_server.Locks.Exclusion.{Reaches-new_table-alone}

abbrev both_called : Table
both_called = call 2 5 (call 1 5 new_table)

abbrev first_inside : Table
first_inside = set_owner (hash 5) (some 1) (move 1 inside both_called)

abbrev first_entered : Table
first_entered = set_lock 5 (some 1) (move 1 entered (move 1 free_seen first_inside))

abbrev first_holds : Table
first_holds = set_owner (hash 5) none (move 1 holding first_entered)

abbrev second_inside : Table
second_inside = set_owner (hash 5) (some 2) (move 2 inside first_holds)

abbrev second_waits : Table
second_waits = set_owner (hash 5) none (move 2 waiting (move 2 taken_seen second_inside))

run : Reaches new_table second_waits
run = step _ _ _ (get_called new_table 1 5 refl) (
    step _ _ _ (get_called (call 1 5 new_table) 2 5 refl) (
      step _ _ _ (get_locked both_called 1 refl refl) (
        step _ _ _ (get_missed first_inside 1 refl refl) (
          step _ _ _ (get_entered (move 1 free_seen first_inside) 1 refl) (
            step _ _ _ (get_returned first_entered 1 refl) (
              step _ _ _ (get_locked first_holds 2 refl refl) (
                step _ _ _ (get_found second_inside 2 refl refl) (
                  step _ _ _ (get_again (move 2 taken_seen second_inside) 2 refl)
                    (here second_waits)))))))))

Reaches-new_table-alone_example : second_waits.point 2 ≢ holding
Reaches-new_table-alone_example =
    Reaches-new_table-alone second_waits 1 2 run (omega arith) refl refl
