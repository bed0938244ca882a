-- ===== src/Locks/Exclusion.antt =====
-- Two threads never have the lock of one number.
use bloom_server.Base.{ℕ, ◌≡◌, ◌≢◌, refl, sym, ap, ◌∙◌, true, false, none, some}
use bloom_server.Locks.{
  outside, waiting, inside, free_seen, entered, taken_seen, holding, releasing, removing, removed,
  has_mutex, Table, new_table, hash, is_locked, Step, Reaches, get_called, get_locked, get_missed,
  get_found, get_entered, get_returned, get_again, put_called, put_locked, put_removed,
  put_returned, here, step,
}
use bloom_server.Locks.Invariant.{owns, saw_free, Exclusive}
use bloom_server.Locks.Moves.{quiet, handed, changed, called, same_owner}

module _ (s : Table) (t : ℕ) where
  not_free :
      s.owner (hash (s.wanted t)) ≡ none → (u : ℕ) → u ≢ t → s.owner (hash (s.wanted t)) ≢ some u
  not_free e u ne h = let z = sym e ∙ h in cc

  not_other :
      has_mutex (s.point t) ≡ true
      → Exclusive s
      → (u : ℕ) → u ≢ t
      → s.owner (hash (s.wanted t)) ≢ some u
  not_other mutex v u ne h = ne (same_owner u t (s.owner (hash (s.wanted t))) h (v.mutex t mutex))

  not_owned :
      is_locked (s.locks (s.wanted t)) ≡ false
      → Exclusive s
      → (u : ℕ) → u ≢ t
      → owns (s.point u) ≡ true
      → s.wanted u ≢ s.wanted t
  not_owned e v u ne h z =
      let one = v.locked u h in
      let two = ap (λ (i : ℕ). is_locked (s.locks i)) z in let y = sym e ∙ sym two ∙ one in cc

  own_only :
      owns (s.point t) ≡ true
      → Exclusive s
      → (u : ℕ) → u ≢ t
      → owns (s.point u) ≡ true
      → s.wanted u ≢ s.wanted t
  own_only own v u ne h z = ne (v.alone u t h own z)

Step-Exclusive : (s r : Table) → Step s r → Exclusive s → Exclusive r
Step-Exclusive _ _ (get_called s t i e) v = called t i s e v
Step-Exclusive _ _ (get_locked s t e free) v =
    handed t inside (some t) s (λ h. refl) (not_free s t free) (λ h. absurd (cc)) refl v
Step-Exclusive _ _ (get_missed s t e free) v =
    quiet t free_seen s (λ h. ap has_mutex e) (λ h. absurd (cc)) (λ h. free) v
Step-Exclusive _ _ (get_found s t e taken) v =
    quiet t taken_seen s (λ h. ap has_mutex e) (λ h. absurd (cc)) (λ h. absurd (cc)) v
Step-Exclusive _ _ (get_entered s t e) v =
    changed t entered (some 1) s (ap has_mutex e) (λ h. refl) refl
      (not_owned s t (v.free t (ap saw_free e)) v) v
Step-Exclusive _ _ (get_returned s t e) v =
    handed t holding none s (λ h. absurd (cc)) (not_other s t (ap has_mutex e) v) (λ h. ap owns e)
      refl v
Step-Exclusive _ _ (get_again s t e) v =
    handed t waiting none s (λ h. absurd (cc)) (not_other s t (ap has_mutex e) v) (λ h. absurd (cc))
      refl v
Step-Exclusive _ _ (put_called s t e) v =
    quiet t releasing s (λ h. absurd (cc)) (λ h. ap owns e) (λ h. absurd (cc)) v
Step-Exclusive _ _ (put_locked s t e free) v =
    handed t removing (some t) s (λ h. refl) (not_free s t free) (λ h. ap owns e) refl v
Step-Exclusive _ _ (put_removed s t e) v =
    changed t removed none s (ap has_mutex e) (λ h. absurd (cc)) refl (own_only s t (ap owns e) v) v
Step-Exclusive _ _ (put_returned s t e) v =
    handed t outside none s (λ h. absurd (cc)) (not_other s t (ap has_mutex e) v) (λ h. absurd (cc))
      refl v

run-Exclusive : (s r : Table) → Reaches s r → Exclusive s → Exclusive r
run-Exclusive _ _ (here s) v = v
run-Exclusive _ _ (step s t u one more) v = run-Exclusive t u more (Step-Exclusive s t one v)

-- However the accesses of any number of threads that call `get`, and `put` for what they have, follow
-- each other: while a thread has returned from `get` of a number and has not called `put`, no other
-- thread that asked for the same number has returned from `get`.
pub Reaches-new_table-alone :
    (s : Table) (t u : ℕ)
    → Reaches new_table s
    → t ≢ u
    → s.wanted t ≡ s.wanted u
    → s.point t ≡ holding
    → s.point u ≢ holding
Reaches-new_table-alone s t u r apart same e h =
    let v = run-Exclusive new_table s r (record {
      mutex = λ t h. absurd (cc);
      locked = λ t h. absurd (cc);
      free = λ t h. absurd (cc);
      alone = λ t u h k e. absurd (cc);
    }) in
    apart (v.alone t u (ap owns e) (ap owns h) same)
