-- ===== src/Schedule/Running/Steps.antt =====
-- The threads of the crawler that take objects of running tasks, delete them and count urls, one
-- call at a time in any order.
use bloom_server.Base.{ℕ, ◌≡◌, none, some, List, [], ◌∷◌, ◌++◌, true, false}
use bloom_server.Base.Run.{ok}
use bloom_server.Schedule.{Task}
use bloom_server.Schedule.Running.{
  Others, new_info, get_task_other_info, increase_task_error_url_num, increase_task_savefetched_num,
  increase_task_url_num, increase_task_ins_url, decrease_task_url_num, begin_round, end_round,
}

abbrev pub no_others : Others
no_others = record {
  info = λ p. new_info 0 0;
  live = λ p. false;
  allocated = 0;
  tasksothermap = λ i. none;
}

-- `held` are the objects that a thread has taken and not given back.
pub record System : Type 0 where
  pub others : Others
  pub held : List ℕ

abbrev pub nobody : System
nobody = record { others = no_others; held = [] }

pub data Step : System → System → Type 0 where
  begun :
      (s : System) (now reinsert : ℕ) (t : Task) (r : Others) (p : ℕ)
      → begin_round now reinsert t s.others ≡ ok (r, some p)
      → Step s (record { others = r; held = p ∷ s.held })
  skipped :
      (s : System) (now reinsert : ℕ) (t : Task) (r : Others)
      → begin_round now reinsert t s.others ≡ ok (r, none)
      → Step s (record s { others = r })
  taken :
      (s : System) (i : ℕ) (r : Others) (p : ℕ)
      → get_task_other_info i true s.others ≡ (r, some p, true)
      → Step s (record { others = r; held = p ∷ s.held })
  ended :
      (r : Others) (before : List ℕ) (p : ℕ) (after : List ℕ)
      → Step
          (record { others = r; held = before ++ (p ∷ after) })
          (record { others = end_round p r; held = before ++ after })
  url_counted :
      (s : System) (i : ℕ) → Step s (record s { others = (increase_task_url_num i s.others).0 })
  failed :
      (s : System) (i : ℕ) → Step s (record s { others = increase_task_error_url_num i s.others })
  saved :
      (s : System) (i : ℕ) → Step s (record s { others = increase_task_savefetched_num i s.others })
  inserted : (s : System) (i : ℕ) → Step s (record s { others = increase_task_ins_url i s.others })
  finished :
      (s : System) (t : Task) → Step s (record s { others = decrease_task_url_num t s.others })

pub data Reaches : System → System → Type 0 where
  here : (s : System) → Reaches s s
  step : (s t u : System) → Step s t → Reaches t u → Reaches s u
