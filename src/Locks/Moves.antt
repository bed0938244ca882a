-- ===== src/Locks/Moves.antt =====
-- The kinds of steps on the table of locks keep the invariant.
use bloom_server.Base.{
  ℕ, ◌≡◌, ◌≢◌, refl, sym, ap, ◌∙◌, Bool, true, false, Option, some, ◌==◌, if◌then◌else◌, arith,
  Bool-cases, inl, inr,
}
use bloom_server.Locks.{
  Point, outside, waiting, inside, free_seen, entered, taken_seen, holding, releasing, removing,
  removed, has_mutex, Table, hash, is_locked, move, set_owner, set_lock, call,
}
use bloom_server.Locks.Invariant.{owns, saw_free, Exclusive, Moves-Exclusive}

-- A move that changes neither owners nor the map.
pub quiet :
    (t : ℕ) (x : Point) (s : Table)
    → (has_mutex x ≡ true → has_mutex (s.point t) ≡ true)
    → (owns x ≡ true → owns (s.point t) ≡ true)
    → (saw_free x ≡ true → is_locked (s.locks (s.wanted t)) ≡ false)
    → Exclusive s
    → Exclusive (move t x s)
quiet t x s mutex own free v =
    Moves-Exclusive t x s (move t x s)
      (record {
        own = ground arith;
        others = λ u ne. ground (arith, ne);
        wants = λ u ne. refl;
        mutex = λ h. v.mutex t (mutex h);
        mutexes = λ u ne e. e;
        locked = λ h. v.locked t (own h);
        locks = λ u ne h e. e;
        free = free;
        frees = λ u ne h e. e;
        alone = λ u ne h k e. ne (sym (v.alone t u (own h) k e));
      })
      v

-- The mutex of the bucket changes hands; `o` is its new owner.
pub handed :
    (t : ℕ) (x : Point) (o : Option ℕ) (s : Table)
    → (has_mutex x ≡ true → o ≡ some t)
    → ((u : ℕ) → u ≢ t → s.owner (hash (s.wanted t)) ≢ some u)
    → (owns x ≡ true → owns (s.point t) ≡ true)
    → saw_free x ≡ false
    → Exclusive s
    → Exclusive (set_owner (hash (s.wanted t)) o (move t x s))
handed t x o s mutex nobody own blind v =
    let b = hash (s.wanted t) in
    Moves-Exclusive t x s (set_owner b o (move t x s))
      (record {
        own = ground arith;
        others = λ u ne. ground (arith, ne);
        wants = λ u ne. refl;
        mutex = λ h. let self : (b == b) ≡ true = ground arith in rw self (mutex h);
        mutexes = λ u ne e.
            let apart : (hash (s.wanted u) == b) ≡ false =
              elim (Bool-cases (hash (s.wanted u) == b)) [
                | inr other ↦ other
                | inl same ↦ absurd (
                    nobody u ne
                      (ap s.owner (let z : b ≡ hash (s.wanted u) = ground arith in z) ∙ e))
              ] in
            rw apart e;
        locked = λ h. v.locked t (own h);
        locks = λ u ne h e. e;
        free = λ h. absurd (let z = sym blind ∙ h in cc);
        frees = λ u ne h e. e;
        alone = λ u ne h k e. ne (sym (v.alone t u (own h) k e));
      })
      v

-- Looking up with the mutex, and nothing else, sets `saw_free`.
saw_free-mutex : (x : Point) → saw_free x ≡ true → has_mutex x ≡ true
saw_free-mutex outside h = absurd (cc)
saw_free-mutex waiting h = absurd (cc)
saw_free-mutex inside h = refl
saw_free-mutex free_seen h = refl
saw_free-mutex entered h = refl
saw_free-mutex taken_seen h = refl
saw_free-mutex holding h = absurd (cc)
saw_free-mutex releasing h = absurd (cc)
saw_free-mutex removing h = refl
saw_free-mutex removed h = refl

pub same_owner : (t u : ℕ) (o : Option ℕ) → o ≡ some t → o ≡ some u → t ≡ u
same_owner t u o e h = let z : some t ≡ some u = sym e ∙ h in ground (arith, z)

-- A thread with the mutex changes the entry of its number to `o`.
pub changed :
    (t : ℕ) (x : Point) (o : Option ℕ) (s : Table)
    → has_mutex (s.point t) ≡ true
    → (owns x ≡ true → is_locked o ≡ true)
    → saw_free x ≡ false
    → ((u : ℕ) → u ≢ t → owns (s.point u) ≡ true → s.wanted u ≢ s.wanted t)
    → Exclusive s
    → Exclusive (set_lock (s.wanted t) o (move t x s))
changed t x o s mutex own blind nobody v =
    let i = s.wanted t in
    let keeps : (u : ℕ)
        → s.wanted u ≢ i
        → (b : Bool) → is_locked (s.locks (s.wanted u)) ≡ b
        → is_locked (if s.wanted u == i then o else s.locks (s.wanted u)) ≡ b =
      λ u ne b e. let apart : (s.wanted u == i) ≡ false = ground (arith, ne) in rw apart e in
    Moves-Exclusive t x s (set_lock i o (move t x s))
      (record {
        own = ground arith;
        others = λ u ne. ground (arith, ne);
        wants = λ u ne. refl;
        mutex = λ h. v.mutex t mutex;
        mutexes = λ u ne e. e;
        locked = λ h. let self : (i == i) ≡ true = ground arith in rw self (own h);
        locks = λ u ne h e. keeps u (nobody u ne h) true e;
        free = λ h. absurd (let z = sym blind ∙ h in cc);
        frees = λ u ne h e.
            let theirs = v.mutex u (saw_free-mutex (s.point u) h) in
            let apart : s.wanted u ≢ i = λ z. ne (
              same_owner u t (s.owner (hash i)) (ap (λ (j : ℕ). s.owner (hash j)) (sym z) ∙ theirs)
                (v.mutex t mutex)) in
            keeps u apart false e;
        alone = λ u ne h k e. nobody u ne k (sym e);
      })
      v

pub called : (t i : ℕ) (s : Table) → s.point t ≡ outside → Exclusive s → Exclusive (call t i s)
called t i s e v =
    Moves-Exclusive t waiting s (call t i s)
      (record {
        own = ground arith;
        others = λ u ne. ground (arith, ne);
        wants = λ u ne. ground (arith, ne);
        mutex = λ h. absurd (cc);
        mutexes = λ u ne h. h;
        locked = λ h. absurd (cc);
        locks = λ u ne h k. k;
        free = λ h. absurd (cc);
        frees = λ u ne h k. k;
        alone = λ u ne h k z. absurd (cc);
      })
      v
