-- ===== src/Schedule/Running/Tests.antt =====
-- The theorems on running tasks, at one task.
use bloom_server.Base.{◌≡◌, refl, none, [], ◌∷◌}
use bloom_server.Schedule.{Task, blank_task}
use bloom_server.Schedule.Running.{
  Others, get_task_other_info, put_task_other_info, pop_task_other, delete_task_other,
  increase_task_url_num, decrease_task_url_num, begin_round, round_new, end_round,
}
use bloom_server.Schedule.Running.Steps.{
  nobody, no_others, Reaches, begun, url_counted, finished, here, step,
}
use bloom_server.Schedule.Running.Claims.{Claimed}
use bloom_server.Schedule.Running.Safety.{Reaches-nobody-Claimed}

abbrev company : Task
company = record blank_task { id = 5; sourcetype = 6; interval = 60; last_fetch_num = 0 }

-- A round at time 100 has made the object 0.
abbrev taken_once : Others
taken_once = (round_new 100 company no_others).0

abbrev one_url : Others
one_url = (increase_task_url_num 5 taken_once).0

abbrev last_url : Others
last_url = decrease_task_url_num company one_url

run : Reaches nobody (record { others = last_url; held = 0 ∷ [] })
unfolding begin_round get_task_other_info put_task_other_info
run = step _ _ _ (begun nobody 100 60 company taken_once 0 refl) (
    step _ _ _ (url_counted (record { others = taken_once; held = 0 ∷ [] }) 5) (
      step _ _ _ (finished (record { others = one_url; held = 0 ∷ [] }) company)
        (here (record { others = last_url; held = 0 ∷ [] }))))

Reaches-nobody-Claimed_example : Claimed last_url (0 ∷ [])
Reaches-nobody-Claimed_example =
    Reaches-nobody-Claimed (record { others = last_url; held = 0 ∷ [] }) run

-- Once the round is over, the last url deletes the object.
deletion_test : (decrease_task_url_num company (end_round 0 one_url)).tasksothermap 5 ≡ none
unfolding increase_task_url_num put_task_other_info decrease_task_url_num end_round
    delete_task_other pop_task_other
deletion_test = refl
