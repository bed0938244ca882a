-- ===== src/Schedule/Running/Claims.antt =====
-- An object of a running task has one holder, and is not deleted while it is held.
use bloom_server.Base.{
  ℕ, ◌+◌, ◌≤◌, ◌<◌, ◌≡◌, ◌≢◌, refl, sym, ap, ◌∙◌, true, false, some, List, [], ◌∷◌, ◌++◌, ltb, ◌==◌,
  arith, Bool-cases, inl, inr,
}
use bloom_server.Schedule.Heap.{count}
use bloom_server.Schedule.Running.{TaskOtherInfo, Others, change}

pub count-append : (p : ℕ) (xs ys : List ℕ) → count p (xs ++ ys) ≡ count p xs + count p ys
count-append p [] ys = omega arith
count-append p (x ∷ xs) ys = omega (arith, count-append p xs ys)

-- The objects in the map exist, stand under their own number, and are marked as used exactly if
-- a thread holds them; a thread holds only objects in the map, and nobody else holds the same.
pub record Claimed (s : Others) (held : List ℕ) : Type 0 where
  pub one : (p : ℕ) → count p held ≤ 1
  pub listed : (p : ℕ) → 0 < count p held → s.tasksothermap (s.info p).id ≡ some p
  pub exists : (i p : ℕ) → s.tasksothermap i ≡ some p → s.live p ≡ true
  pub named : (i p : ℕ) → s.tasksothermap i ≡ some p → (s.info p).id ≡ i
  pub known : (i p : ℕ) → s.tasksothermap i ≡ some p → p < s.allocated
  pub used : (i p : ℕ) → s.tasksothermap i ≡ some p → (s.info p).alreadyused ≡ ltb 0 (count p held)

pub change_same :
    {A : Type 0} (f : TaskOtherInfo → A) (p : ℕ) (t : TaskOtherInfo) (s : Others)
    → f t ≡ f (s.info p)
    → (q : ℕ) → f ((change p t s).info q) ≡ f (s.info q)
change_same f p t s e q = elim (Bool-cases (q == p)) [
  | inl same ↦ rw same (e ∙ ap (λ (x : ℕ). f (s.info x)) (let z : p ≡ q = ground arith in z))
  | inr other ↦ rw other refl
]

-- One object changes hands: `held` becomes `after`, and the object `t`.
passed-Claimed :
    (p : ℕ) (t : TaskOtherInfo) (s : Others) (held after : List ℕ)
    → t.id ≡ (s.info p).id
    → ((q : ℕ) → q ≢ p → count q after ≡ count q held)
    → count p after ≤ 1
    → t.alreadyused ≡ ltb 0 (count p after)
    → (0 < count p after → s.tasksothermap (s.info p).id ≡ some p)
    → Claimed s held
    → Claimed (change p t s) after
passed-Claimed p t s held after id apart one mark there v =
    let ids = change_same (λ u. u.id) p t s id in
    record {
      one = λ q. elim (Bool-cases (q == p)) [
        | inl same ↦
            ground (arith, one, ap (λ (x : ℕ). count x after) (let z : q ≡ p = ground arith in z))
        | inr other ↦ let e = apart q (ground (arith, other)) in omega (arith, e, v.one q)
      ];
      listed = λ q pos. ap s.tasksothermap (ids q) ∙ elim (Bool-cases (q == p)) [
        | inl same ↦
            let z : q ≡ p = ground arith in
            let pos_p : 0 < count p after = rw z at pos in rw z (there pos_p)
        | inr other ↦ let e = apart q (ground (arith, other)) in v.listed q (omega (arith, e))
      ];
      exists = v.exists;
      named = λ i q e. ids q ∙ v.named i q e;
      known = v.known;
      used = λ i q e. elim (Bool-cases (q == p)) [
        | inl same ↦
            let z : q ≡ p = ground arith in
            rw same (mark ∙ ap (λ (x : ℕ). ltb 0 (count x after)) (sym z))
        | inr other ↦
            let c = apart q (ground (arith, other)) in rw other (v.used i q e ∙ ap (ltb 0) (sym c))
      ];
    }

-- The number and the mark are all that matters of an object.
pub change-Claimed :
    (p : ℕ) (t : TaskOtherInfo) (s : Others) (held : List ℕ)
    → t.id ≡ (s.info p).id
    → t.alreadyused ≡ (s.info p).alreadyused
    → Claimed s held
    → Claimed (change p t s) held
change-Claimed p t s held id mark v =
    let ids = change_same (λ u. u.id) p t s id in
    let marks = change_same (λ u. u.alreadyused) p t s mark in
    record {
      one = v.one;
      listed = λ q pos. ap s.tasksothermap (ids q) ∙ v.listed q pos;
      exists = v.exists;
      named = λ i q e. ids q ∙ v.named i q e;
      known = v.known;
      used = λ i q e. marks q ∙ v.used i q e;
    }

-- An object that is marked as used is held, and no other.
pub held_nowhere :
    (i p : ℕ) (s : Others) (held : List ℕ)
    → Claimed s held
    → s.tasksothermap i ≡ some p
    → (s.info p).alreadyused ≡ false
    → count p held ≡ 0
held_nowhere i p s held v e free =
    let m : ltb 0 (count p held) ≡ false = sym (v.used i p e) ∙ free in ground (arith, m)

-- A thread takes an object that is not marked.
pub taken-Claimed :
    (i p : ℕ) (t : TaskOtherInfo) (s : Others) (held : List ℕ)
    → s.tasksothermap i ≡ some p
    → (s.info p).alreadyused ≡ false
    → t.id ≡ (s.info p).id
    → t.alreadyused ≡ true
    → Claimed s held
    → Claimed (change p t s) (p ∷ held)
taken-Claimed i p t s held e free id mark v =
    let nowhere = held_nowhere i p s held v e free in
    passed-Claimed p t s held (p ∷ held) id (λ q other. ground (arith, other))
      (ground (arith, nowhere)) (mark ∙ ground (arith, nowhere))
      (λ pos. ap s.tasksothermap (v.named i p e) ∙ e) v

-- A thread gives an object back.
pub given-Claimed :
    (p : ℕ) (t : TaskOtherInfo) (s : Others) (before after : List ℕ)
    → t.id ≡ (s.info p).id
    → t.alreadyused ≡ false
    → Claimed s (before ++ (p ∷ after))
    → Claimed (change p t s) (before ++ after)
given-Claimed p t s before after id mark v =
    let whole = λ (q : ℕ). count-append q before (p ∷ after) in
    let rest = λ (q : ℕ). count-append q before after in
    let nowhere : count p (before ++ after) ≡ 0 = ground (arith, whole p, rest p, v.one p) in
    passed-Claimed p t s (before ++ (p ∷ after)) (before ++ after) id
      (λ q other. ground (arith, whole q, rest q, other)) (omega (arith, nowhere))
      (mark ∙ ground (arith, nowhere)) (λ pos. absurd (omega (arith, nowhere))) v
