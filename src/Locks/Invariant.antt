-- ===== src/Locks/Invariant.antt =====
-- The invariant of the table of locks, and what a step of one thread leaves of it.
use bloom_server.Base.{
  ℕ, ◌≡◌, ◌≢◌, refl, sym, ap, ◌∙◌, Bool, true, false, some, ◌==◌, arith, Bool-cases, inl, inr,
}
use bloom_server.Locks.{
  Point, outside, waiting, inside, free_seen, entered, taken_seen, holding, releasing, removing,
  removed, has_mutex, Table, hash, is_locked,
}

-- The entry in the map is the thread's.
abbrev pub owns : Point → Bool
owns outside = false
owns waiting = false
owns inside = false
owns free_seen = false
owns entered = true
owns taken_seen = false
owns holding = true
owns releasing = true
owns removing = true
owns removed = false

abbrev pub saw_free : Point → Bool
saw_free outside = false
saw_free waiting = false
saw_free inside = false
saw_free free_seen = true
saw_free entered = false
saw_free taken_seen = false
saw_free holding = false
saw_free releasing = false
saw_free removing = false
saw_free removed = false

pub record Exclusive (s : Table) : Type 0 where
  pub mutex : (t : ℕ) → has_mutex (s.point t) ≡ true → s.owner (hash (s.wanted t)) ≡ some t
  pub locked : (t : ℕ) → owns (s.point t) ≡ true → is_locked (s.locks (s.wanted t)) ≡ true
  pub free : (t : ℕ) → saw_free (s.point t) ≡ true → is_locked (s.locks (s.wanted t)) ≡ false
  pub alone :
      (t u : ℕ)
      → owns (s.point t) ≡ true
      → owns (s.point u) ≡ true
      → s.wanted t ≡ s.wanted u
      → t ≡ u

-- A thread that moves to the point `x`, with new owners and a new map.
pub record Moves (t : ℕ) (x : Point) (s r : Table) : Type 0 where
  pub own : r.point t ≡ x
  pub others : (u : ℕ) → u ≢ t → r.point u ≡ s.point u
  pub wants : (u : ℕ) → u ≢ t → r.wanted u ≡ s.wanted u
  pub mutex : has_mutex x ≡ true → r.owner (hash (r.wanted t)) ≡ some t
  pub mutexes :
      (u : ℕ) → u ≢ t → s.owner (hash (s.wanted u)) ≡ some u → r.owner (hash (s.wanted u)) ≡ some u
  pub locked : owns x ≡ true → is_locked (r.locks (r.wanted t)) ≡ true
  pub locks :
      (u : ℕ)
      → u ≢ t
      → owns (s.point u) ≡ true
      → is_locked (s.locks (s.wanted u)) ≡ true
      → is_locked (r.locks (s.wanted u)) ≡ true
  pub free : saw_free x ≡ true → is_locked (r.locks (r.wanted t)) ≡ false
  pub frees :
      (u : ℕ)
      → u ≢ t
      → saw_free (s.point u) ≡ true
      → is_locked (s.locks (s.wanted u)) ≡ false
      → is_locked (r.locks (s.wanted u)) ≡ false
  pub alone : (u : ℕ) → u ≢ t → owns x ≡ true → owns (s.point u) ≡ true → r.wanted t ≢ s.wanted u

pub by_thread : (P : ℕ → Type 0) (t : ℕ) → P t → ((u : ℕ) → u ≢ t → P u) → (u : ℕ) → P u
by_thread P t own others u = elim (Bool-cases (u == t)) [
  | inl same ↦ let z : u ≡ t = ground arith in rw z own
  | inr other ↦ others u (ground (arith, other))
]

pub Moves-Exclusive : (t : ℕ) (x : Point) (s r : Table) → Moves t x s r → Exclusive s → Exclusive r
Moves-Exclusive t x s r m v =
    let old : (u : ℕ) → u ≢ t → (f : Point → Bool) → f (r.point u) ≡ true → f (s.point u) ≡ true =
      λ u ne f h. sym (ap f (m.others u ne)) ∙ h in
    let new : (f : Point → Bool) → f (r.point t) ≡ true → f x ≡ true =
      λ f h. sym (ap f m.own) ∙ h in
    record {
      mutex =
          by_thread (λ u. has_mutex (r.point u) ≡ true → r.owner (hash (r.wanted u)) ≡ some u) t
            (λ h. m.mutex (new has_mutex h))
            (λ u ne h.
              ap (λ (i : ℕ). r.owner (hash i)) (m.wants u ne)
              ∙ m.mutexes u ne (v.mutex u (old u ne has_mutex h)));
      locked =
          by_thread (λ u. owns (r.point u) ≡ true → is_locked (r.locks (r.wanted u)) ≡ true) t
            (λ h. m.locked (new owns h))
            (λ u ne h.
              ap (λ (i : ℕ). is_locked (r.locks i)) (m.wants u ne)
              ∙ m.locks u ne (old u ne owns h) (v.locked u (old u ne owns h)));
      free =
          by_thread (λ u. saw_free (r.point u) ≡ true → is_locked (r.locks (r.wanted u)) ≡ false) t
            (λ h. m.free (new saw_free h))
            (λ u ne h.
              ap (λ (i : ℕ). is_locked (r.locks i)) (m.wants u ne)
              ∙ m.frees u ne (old u ne saw_free h) (v.free u (old u ne saw_free h)));
      alone =
          by_thread
            (λ u.
              (w : ℕ)
              → owns (r.point u) ≡ true
              → owns (r.point w) ≡ true
              → r.wanted u ≡ r.wanted w
              → u ≡ w)
            t
            (by_thread
              (λ w.
                owns (r.point t) ≡ true → owns (r.point w) ≡ true → r.wanted t ≡ r.wanted w → t ≡ w)
              t (λ h k e. refl)
              (λ w ne h k e.
                absurd (m.alone w ne (new owns h) (old w ne owns k) (e ∙ m.wants w ne))))
            (λ u ne.
              by_thread
                (λ w.
                  owns (r.point u) ≡ true
                  → owns (r.point w) ≡ true
                  → r.wanted u ≡ r.wanted w
                  → u ≡ w)
                t
                (λ h k e.
                  absurd (m.alone u ne (new owns k) (old u ne owns h) (sym e ∙ m.wants u ne)))
                (λ w ne_w h k e.
                  v.alone u w (old u ne owns h) (old w ne_w owns k)
                    (sym (m.wants u ne) ∙ e ∙ m.wants w ne_w)));
    }
