-- ===== src/Schedule/Running/Rounds.antt =====
-- Every call of the threads that share the objects of running tasks keeps the claims.
use bloom_server.Base.{
  ℕ, suc, ◌+◌, ◌-◌, ◌^◌, ◌≡◌, refl, ap, ◌∙◌, true, ◌||◌, Option, none, some, List, [], ◌∷◌, ltb,
  ◌==◌, if◌then◌else◌, u32, sub64, arith, Bool-cases, Option-cases, inl, inr,
}
use bloom_server.Base.Run.{Run, ok, ok_or}
use bloom_server.Schedule.{Task}
use bloom_server.Schedule.Running.{
  Others, new_info, change, mark_used, enter, starts_once, least, put_task_other_info,
  delete_popped, delete_task_other, decrease_task_url_num, round_with, round_new, begin_round,
}
use bloom_server.Schedule.Running.Claims.{
  Claimed, change-Claimed, taken-Claimed, given-Claimed, held_nowhere,
}
use bloom_server.Schedule.Running.Entries.{Apart, removed-Claimed, new-Claimed}
use bloom_server.Schedule.Running.Branches.{
  self, get_none, get_busy, get_free, put_none, pop_none, pop_busy, pop_free,
}

abbrev pub held_after : Option ℕ → List ℕ → List ℕ
held_after none held = held
held_after (some p) held = p ∷ held

round_with-Claimed :
    (now reinsert : ℕ) (t : Task) (p : ℕ) (s : Others) (held : List ℕ)
    → Claimed s (p ∷ held)
    → (s.info p).alreadyused ≡ true
    → let r = round_with now reinsert t p s in Claimed r.0 (held_after r.1 held)
round_with-Claimed now reinsert t p s held v mark = elim (Bool-cases (s.info p).running) [
  | inr idle ↦ rw idle (change-Claimed p _ s (p ∷ held) refl refl v)
  | inl busy ↦
      elim (Bool-cases
        (starts_once t || ltb (sub64 now (s.info p).begintime) (least t.interval reinsert))) [
          | inl waits ↦ rw (busy, waits) (given-Claimed p _ s [] held refl refl v)
          | inr again ↦ rw (busy, again) (change-Claimed p _ s (p ∷ held) refl refl v)
        ]
]

-- The state in which a new object has been put in the map.
abbrev with_new : ℕ → Task → Others → Others
with_new now t s =
    let p = s.allocated in
    let made = record (change p (new_info now t.id) s) {
      live = λ q. if q == p then true else s.live q;
      allocated = suc p;
    } in
    enter t.id (some p) made

put_new :
    (now : ℕ) (t : Task) (s : Others)
    → s.tasksothermap t.id ≡ none
    → let p = s.allocated in
      let made = record (change p (new_info now t.id) s) {
        live = λ q. if q == p then true else s.live q;
        allocated = suc p;
      } in
      (put_task_other_info p made).0 ≡ with_new now t s
put_new now t s e =
    let p = s.allocated in
    let made = record (change p (new_info now t.id) s) {
      live = λ q. if q == p then true else s.live q;
      allocated = suc p;
    } in
    let own : (made.info p).id ≡ t.id = rw (self p) refl in
    ap (λ (r : Others × ℕ). r.0) (put_none p made (ap s.tasksothermap own ∙ e))
    ∙ ap (λ (i : ℕ). enter i (some p) made) own

round_new-Claimed :
    (now : ℕ) (t : Task) (s : Others) (held : List ℕ)
    → s.tasksothermap t.id ≡ none
    → Claimed s held
    → Claimed (round_new now t s).0 (s.allocated ∷ held)
round_new-Claimed now t s held e v =
    let p = s.allocated in
    let w = with_new now t s in
    let own : (w.info p).id ≡ t.id = rw (self p) refl in
    let mark : (w.info p).alreadyused ≡ true = rw (self p) refl in
    let apart : Apart p s w = record {
      info = λ q other. ground (arith, other);
      live = λ q other. ground (arith, other);
    } in
    let entered =
      new-Claimed t.id s w held e apart (λ j. refl) refl (rw (self p) refl) own mark v in
    rw (put_new now t s e) (
      change-Claimed p (record (w.info p) { running = true; taskbatch = 0 }) w (p ∷ held) refl refl
        entered)

delete_task_other-Claimed :
    (t : Task) (s : Others) (held : List ℕ) → Claimed s held → Claimed (delete_task_other t s) held
unfolding delete_task_other
delete_task_other-Claimed t s held v = elim (Option-cases (s.tasksothermap t.id)) [
  | inl missing ↦ rw (pop_none t.id s missing) v
  | inr (p, e) ↦ elim (Bool-cases (s.info p).alreadyused) [
    | inl busy ↦ rw (pop_busy t.id p s e busy) v
    | inr free ↦
        let apart : Apart p s (delete_popped t (some p) (enter t.id none (mark_used true p s))) =
          record {
            info = λ q other. ground (arith, other);
            live = λ q other. ground (arith, other);
          } in
        rw (pop_free t.id p s e free) (
          removed-Claimed t.id p s (delete_popped t (some p) (enter t.id none (mark_used true p s)))
            held e (held_nowhere t.id p s held v e free) apart (λ j. refl) refl v)
  ]
]

pub decrease_task_url_num-Claimed :
    (t : Task) (s : Others) (held : List ℕ)
    → Claimed s held
    → Claimed (decrease_task_url_num t s) held
unfolding decrease_task_url_num
decrease_task_url_num-Claimed t s held v = elim (Option-cases (s.tasksothermap t.id)) [
  | inl missing ↦ rw (decrease_task_url_num, missing) v
  | inr (p, e) ↦
      let n = u32 ((s.info p).urlnum + (2 ^ 32 - 1)) in
      let less = change p (record (s.info p) { urlnum = n }) s in
      let w : Claimed less held =
        change-Claimed p (record (s.info p) { urlnum = n }) s held refl refl v in
      elim (Bool-cases (n == 0)) [
        | inl last ↦ rw (decrease_task_url_num, e, last) (delete_task_other-Claimed t less held w)
        | inr more ↦ rw (decrease_task_url_num, e, more) w
      ]
]

pub begin_round-Claimed :
    (now reinsert : ℕ) (t : Task) (s r : Others) (o : Option ℕ) (held : List ℕ)
    → begin_round now reinsert t s ≡ ok (r, o)
    → Claimed s held
    → Claimed r (held_after o held)
unfolding begin_round
begin_round-Claimed now reinsert t s r o held b v = elim (Option-cases (s.tasksothermap t.id)) [
  | inl missing ↦
      let z : ok (round_new now t s) ≡ ok (r, o) = rw (get_none t.id s missing) at b in
      after (round_new now t s) (r, o) z (round_new-Claimed now t s held missing v)
  | inr (p, e) ↦ elim (Bool-cases (s.info p).alreadyused) [
    | inl busy ↦ absurd (let z = rw (get_busy t.id p s e busy) at b in cc)
    | inr free ↦
        let m = mark_used true p s in
        let z : ok (round_with now reinsert t p m) ≡ ok (r, o) =
          rw (get_free t.id p s e free) at b in
        let marked =
          taken-Claimed t.id p (record (s.info p) { alreadyused = true }) s held e free refl refl
            v in
        after (round_with now reinsert t p m) (r, o) z
          (round_with-Claimed now reinsert t p m held marked (rw (self p) refl))
  ]
]
  where
    after :
        (x y : Others × Option ℕ)
        → ok x ≡ ok y
        → Claimed x.0 (held_after x.1 held)
        → Claimed y.0 (held_after y.1 held)
    after x y z c =
        let same : x ≡ y = ap (λ (r : Run (Others × Option ℕ)). ok_or r x) z in rw (← same) c
