-- ===== src/Schedule/Running/Safety.antt =====
-- Every call of the threads that share the objects of running tasks keeps the claims, in any order.
use bloom_server.Base.{
  ℕ, ◌+◌, ◌≡◌, refl, sym, ap, ◌∙◌, Bool, true, false, Option, none, some, List, ◌∷◌, ◌++◌, u32,
  arith, Bool-cases, Option-cases, inl, inr,
}
use bloom_server.Schedule.Running.{
  counted, TaskOtherInfo, Others, get_task_other_info, increase_task_error_url_num,
  increase_task_savefetched_num, increase_task_url_num, increase_task_ins_url, end_round,
}
use bloom_server.Schedule.Running.Claims.{Claimed, change-Claimed, taken-Claimed, given-Claimed}
use bloom_server.Schedule.Running.Steps.{
  System, nobody, Step, Reaches, begun, skipped, taken, ended, url_counted, failed, saved, inserted,
  finished, here, step,
}
use bloom_server.Schedule.Running.Branches.{get_none, get_busy, get_free}
use bloom_server.Schedule.Running.Rounds.{begin_round-Claimed, decrease_task_url_num-Claimed}

get_task_other_info-Claimed :
    (i : ℕ) (s r : Others) (p : ℕ) (held : List ℕ)
    → get_task_other_info i true s ≡ (r, some p, true)
    → Claimed s held
    → Claimed r (p ∷ held)
get_task_other_info-Claimed i s r p held b v = elim (Option-cases (s.tasksothermap i)) [
  | inl missing ↦ absurd (let z = ap found (sym (get_none i s missing) ∙ b) in cc)
  | inr (q, e) ↦ elim (Bool-cases (s.info q).alreadyused) [
    | inl busy ↦ absurd (let z = ap given (sym (get_busy i q s e busy) ∙ b) in cc)
    | inr free ↦
        let z = sym (get_free i q s e free) ∙ b in
        let same : some q ≡ some p = ap given z in
        let same_q : q ≡ p = ground (arith, same) in
        let marked =
          taken-Claimed i q (record (s.info q) { alreadyused = true }) s held e free refl refl v in
        rw (← ap (λ (x : Others × Option ℕ × Bool). x.0) z, ← same_q) marked
  ]
]
  where
    given : Others × Option ℕ × Bool → Option ℕ
    given x = x.1

    found : Others × Option ℕ × Bool → Bool
    found x = x.2

given_back :
    (r : Others) (before : List ℕ) (p : ℕ) (after : List ℕ)
    → Claimed r (before ++ (p ∷ after))
    → Claimed (end_round p r) (before ++ after)
unfolding end_round
given_back r before p after v =
    given-Claimed p (record (r.info p) { alreadyused = false }) r before after refl refl v

-- A change that counts.
count-Claimed :
    (i : ℕ) (f : TaskOtherInfo → TaskOtherInfo) (s : Others) (held : List ℕ)
    → ((t : TaskOtherInfo) → (f t).id ≡ t.id)
    → ((t : TaskOtherInfo) → (f t).alreadyused ≡ t.alreadyused)
    → Claimed s held
    → Claimed (counted i f s).0 held
count-Claimed i f s held ids marks v = elim (Option-cases (s.tasksothermap i)) [
  | inl missing ↦ rw (counted, missing) v
  | inr (p, e) ↦
      rw (counted, e) (change-Claimed p (f (s.info p)) s held (ids (s.info p)) (marks (s.info p)) v)
]

Step-Claimed : (s t : System) → Step s t → Claimed s.others s.held → Claimed t.others t.held
unfolding increase_task_error_url_num increase_task_savefetched_num increase_task_url_num
    increase_task_ins_url
Step-Claimed _ _ (begun s now reinsert t r p e) v =
    begin_round-Claimed now reinsert t s.others r (some p) s.held e v
Step-Claimed _ _ (skipped s now reinsert t r e) v =
    begin_round-Claimed now reinsert t s.others r none s.held e v
Step-Claimed _ _ (taken s i r p e) v = get_task_other_info-Claimed i s.others r p s.held e v
Step-Claimed _ _ (ended r before p after) v = given_back r before p after v
Step-Claimed _ _ (url_counted s i) v =
    count-Claimed i (λ t. record t { urlnum = u32 (t.urlnum + 1) }) s.others s.held (λ t. refl)
      (λ t. refl) v
Step-Claimed _ _ (failed s i) v =
    count-Claimed i (λ t. record t { errorurlnum = u32 (t.errorurlnum + 1) }) s.others s.held
      (λ t. refl) (λ t. refl) v
Step-Claimed _ _ (saved s i) v =
    count-Claimed i (λ t. record t { savefetched = u32 (t.savefetched + 1) }) s.others s.held
      (λ t. refl) (λ t. refl) v
Step-Claimed _ _ (inserted s i) v =
    count-Claimed i (λ t. record t { insurlnum = u32 (t.insurlnum + 1) }) s.others s.held
      (λ t. refl) (λ t. refl) v
Step-Claimed _ _ (finished s t) v = decrease_task_url_num-Claimed t s.others s.held v

run-Claimed : (s t : System) → Reaches s t → Claimed s.others s.held → Claimed t.others t.held
run-Claimed _ _ (here s) v = v
run-Claimed _ _ (step s t u one more) v = run-Claimed t u more (Step-Claimed s t one v)

-- After any sequence of calls of threads that take objects of running tasks, give them back, count
-- urls and delete objects whose last url is finished: an object is held by one thread at most, is
-- in the map while it is held, exists while it is in the map, stands there under its own number,
-- and is marked as used exactly while a thread holds it.
pub Reaches-nobody-Claimed : (t : System) → Reaches nobody t → Claimed t.others t.held
Reaches-nobody-Claimed t r = run-Claimed nobody t r (record {
  one = λ p. omega arith;
  listed = λ p pos. absurd (omega arith);
  exists = λ i p e. absurd (cc);
  named = λ i p e. absurd (cc);
  known = λ i p e. absurd (cc);
  used = λ i p e. absurd (cc);
})
