-- ===== src/Schedule/Running/Entries.antt =====
-- Objects of running tasks that come into the map or leave it.
use bloom_server.Base.{
  ℕ, suc, ◌≡◌, ◌≢◌, ◌⊎◌, sym, ap, ◌∙◌, true, none, some, List, ◌∷◌, ltb, ◌==◌, if◌then◌else◌, arith,
  Bool-cases, inl, inr,
}
use bloom_server.Schedule.Heap.{count}
use bloom_server.Schedule.Running.{TaskOtherInfo, Others}
use bloom_server.Schedule.Running.Claims.{Claimed}

-- What a step leaves of the objects other than `p`.
pub record Apart (p : ℕ) (s r : Others) : Type 0 where
  pub info : (q : ℕ) → q ≢ p → r.info q ≡ s.info q
  pub live : (q : ℕ) → q ≢ p → r.live q ≡ s.live q

-- An object that nobody holds is deleted.
pub removed-Claimed :
    (i p : ℕ) (s r : Others) (held : List ℕ)
    → s.tasksothermap i ≡ some p
    → count p held ≡ 0
    → Apart p s r
    → ((j : ℕ) → r.tasksothermap j ≡ (if j == i then none else s.tasksothermap j))
    → r.allocated ≡ s.allocated
    → Claimed s held
    → Claimed r held
removed-Claimed i p s r held e nowhere same map bound v =
    let kept : (j q : ℕ) → r.tasksothermap j ≡ some q → (q ≢ p) × (s.tasksothermap j ≡ some q) =
      λ j q h. elim (Bool-cases (j == i)) [
        | inl own ↦ absurd (let z = rw own at (sym (map j) ∙ h) in cc)
        | inr other ↦
            let there : s.tasksothermap j ≡ some q = rw other at (sym (map j) ∙ h) in
            let apart : q ≢ p = λ z. absurd (
              let n = sym (v.named j q there) ∙ ap (λ (x : ℕ). (s.info x).id) z ∙ v.named i p e in
              ground arith) in
            (apart, there)
      ] in
    record {
      one = v.one;
      listed = λ q pos.
          let apart : q ≢ p = λ z. absurd (let n = rw z at pos in omega (arith, nowhere)) in
          let there = v.listed q pos in
          let ids = ap (λ (t : TaskOtherInfo). t.id) (same.info q apart) in
          let elsewhere : (s.info q).id ≢ i = λ z. apart (
            let two : some q ≡ some p = sym there ∙ ap s.tasksothermap z ∙ e in
            ground (arith, two)) in
          ap r.tasksothermap ids ∙ map (s.info q).id ∙ ground (arith, elsewhere, there);
      exists = λ j q h. let k = kept j q h in same.live q k.0 ∙ v.exists j q k.1;
      named = λ j q h.
          let k = kept j q h in
          ap (λ (t : TaskOtherInfo). t.id) (same.info q k.0) ∙ v.named j q k.1;
      known = λ j q h. let k = kept j q h in rw bound (v.known j q k.1);
      used = λ j q h.
          let k = kept j q h in
          ap (λ (t : TaskOtherInfo). t.alreadyused) (same.info q k.0) ∙ v.used j q k.1;
    }

-- A new object is put in the map and held.
pub new-Claimed :
    (i : ℕ) (s r : Others) (held : List ℕ)
    → s.tasksothermap i ≡ none
    → Apart s.allocated s r
    → ((j : ℕ) → r.tasksothermap j ≡ (if j == i then some s.allocated else s.tasksothermap j))
    → r.allocated ≡ suc s.allocated
    → r.live s.allocated ≡ true
    → (r.info s.allocated).id ≡ i
    → (r.info s.allocated).alreadyused ≡ true
    → Claimed s held
    → Claimed r (s.allocated ∷ held)
new-Claimed i s r held e same map bound live id mark v =
    let p = s.allocated in
    let nowhere : count p held ≡ 0 = elim (Bool-cases (ltb 0 (count p held))) [
      | inl more ↦
          let there = v.listed p (ground arith) in
          absurd (omega (arith, v.known (s.info p).id p there))
      | inr no_more ↦ ground arith
    ] in
    let which : (j q : ℕ)
        → r.tasksothermap j ≡ some q
        → ((j ≡ i) × (q ≡ p)) ⊎ ((q ≢ p) × (s.tasksothermap j ≡ some q)) =
      λ j q h. elim (Bool-cases (j == i)) [
        | inl own ↦
            let z : some p ≡ some q = rw own at (sym (map j) ∙ h) in
            inl (ground arith, ground (arith, z))
        | inr other ↦
            let there : s.tasksothermap j ≡ some q = rw other at (sym (map j) ∙ h) in
            let old = v.known j q there in inr (ground (arith, old), there)
      ] in
    record {
      one = λ q. elim (Bool-cases (q == p)) [
        | inl own ↦
            ground
              (arith, nowhere, ap (λ (x : ℕ). count x held) (let z : q ≡ p = ground arith in z))
        | inr other ↦ ground (arith, v.one q)
      ];
      listed = λ q pos. elim (Bool-cases (q == p)) [
        | inl own ↦
            let z : q ≡ p = ground arith in rw z (ap r.tasksothermap id ∙ map i ∙ ground arith)
        | inr other ↦
            let apart : q ≢ p = ground (arith, other) in
            let there = v.listed q (ground (arith, other)) in
            let elsewhere : (s.info q).id ≢ i =
              λ z. absurd (let n = sym there ∙ ap s.tasksothermap z ∙ e in cc) in
            ap r.tasksothermap (ap (λ (t : TaskOtherInfo). t.id) (same.info q apart))
            ∙ map (s.info q).id
            ∙ ground (arith, elsewhere, there)
      ];
      exists = λ j q h. elim (which j q h) [
        | inl (own, name) ↦ ap r.live name ∙ live
        | inr (apart, there) ↦ same.live q apart ∙ v.exists j q there
      ];
      named = λ j q h. elim (which j q h) [
        | inl (own, name) ↦ ap (λ (x : ℕ). (r.info x).id) name ∙ id ∙ sym own
        | inr (apart, there) ↦
            ap (λ (t : TaskOtherInfo). t.id) (same.info q apart) ∙ v.named j q there
      ];
      known = λ j q h. elim (which j q h) [
        | inl (own, name) ↦ omega (arith, name, bound)
        | inr (apart, there) ↦ omega (arith, v.known j q there, bound)
      ];
      used = λ j q h. elim (which j q h) [
        | inl (own, name) ↦
            ap (λ (x : ℕ). (r.info x).alreadyused) name ∙ mark ∙ ground (arith, name)
        | inr (apart, there) ↦
            ap (λ (t : TaskOtherInfo). t.alreadyused) (same.info q apart)
            ∙ v.used j q there
            ∙ ground (arith, apart)
      ];
    }
