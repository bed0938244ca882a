-- ===== src/Schedule/Backoff.antt =====
-- `recalculateTime` of src/module/TaskScheduleManager.cpp, once and over many rounds.
use bloom_server.Base.{
  ℕ, zero, suc, ◌*◌, ◌/◌, ◌^◌, ◌≤◌, ◌≡◌, refl, sym, ap, ◌∙◌, false, min, max, ltb, if◌then◌else◌,
  arith,
}
use native.Mathlib.Nat.{pow-suc, one-le-pow, mul-le-mul_left, div-div-eq-div-mul, div-le_self}
use bloom_server.Schedule.{Task, LocalTime, outside_work, longest_interval, recalculate_time}

-- So many rounds, in each of which `fetched` pages came in.
abbrev pub rounds : ℕ → LocalTime → ℕ → Task → Task
rounds zero m fetched t = t
rounds (suc n) m fetched t =
    (recalculate_time m (record (rounds n m fetched t) { last_fetch_num = fetched })).0

module _ (m : LocalTime) (work : outside_work m ≡ false) where
  quiet :
      (t : Task)
      → (recalculate_time m (record t { last_fetch_num = 0 })).0.current_interval
        ≡ max t.interval (min longest_interval (t.current_interval * 2))
  unfolding recalculate_time
  quiet t = rw work (ground arith)

  busy :
      (t : Task) (k : ℕ)
      → (recalculate_time m (record t { last_fetch_num = suc k })).0.current_interval
        ≡ max t.interval (
            min longest_interval (
              if ltb t.interval t.current_interval
              then t.current_interval / 2
              else t.current_interval))
  unfolding recalculate_time
  busy t k = rw work (ground arith)

  interval_kept : (t : Task) → (recalculate_time m t).0.interval ≡ t.interval
  unfolding recalculate_time
  interval_kept t = rw work refl

  rounds_interval : (n fetched : ℕ) (t : Task) → (rounds n m fetched t).interval ≡ t.interval
  rounds_interval zero fetched t = refl
  rounds_interval (suc n) fetched t =
      interval_kept (record (rounds n m fetched t) { last_fetch_num = fetched })
      ∙ rounds_interval n fetched t

  -- Rounds without a page double the interval up to a week.
  quiet_rounds :
      (t : Task) (n : ℕ)
      → t.interval ≤ t.current_interval
      → t.current_interval ≤ longest_interval
      → (rounds n m 0 t).current_interval ≡ min longest_interval (t.current_interval * 2 ^ n)
  quiet_rounds t zero low high = omega arith
  quiet_rounds t (suc n) low high =
      let r = rounds n m 0 t in
      let before = quiet_rounds t n low high in
      let c = t.current_interval in
      let doubled : c * 2 ^ suc n ≡ c * 2 ^ n * 2 =
        omega (arith, ap (λ (x : ℕ). c * x) (pow-suc 2 n)) in
      let grows : c ≤ c * 2 ^ n =
        let one : 1 ≤ 2 ^ n = one-le-pow n 2 (omega arith) in
        let m = mul-le-mul_left c one in omega (arith, m) in
      omega (arith, quiet r, before, doubled, grows, rounds_interval n 0 t)

  busy_rounds :
      (t : Task) (k n : ℕ)
      → t.interval ≤ t.current_interval
      → t.current_interval ≤ longest_interval
      → (rounds n m (suc k) t).current_interval ≡ max t.interval (t.current_interval / 2 ^ n)
  busy_rounds t k zero low high = omega arith
  busy_rounds t k (suc n) low high =
      let r = rounds n m (suc k) t in
      let c = t.current_interval in
      let halved : c / 2 ^ suc n ≡ c / 2 ^ n / 2 =
        ap (λ (x : ℕ). c / x) (pow-suc 2 n) ∙ sym (div-div-eq-div-mul c (2 ^ n) 2) in
      let less : c / 2 ^ n ≤ c = div-le_self c (2 ^ n) in
      ground
        (arith, busy r k, busy_rounds t k n low high, halved, less, rounds_interval n (suc k) t)

-- In working hours, for a task whose current interval is at least its interval and at most a week:
-- `n` rounds without a page multiply the current interval by 2 ^ n, up to a week, and `n` rounds
-- with pages divide it by 2 ^ n, down to the interval.
pub recalculate_time-backoff :
    (m : LocalTime)
    → outside_work m ≡ false
    → (t : Task) → t.interval ≤ t.current_interval
    → t.current_interval ≤ longest_interval
    → (n k : ℕ)
    → ((rounds n m 0 t).current_interval ≡ min longest_interval (t.current_interval * 2 ^ n))
      × ((rounds n m (suc k) t).current_interval ≡ max t.interval (t.current_interval / 2 ^ n))
recalculate_time-backoff m work t low high n k =
    (quiet_rounds m work t n low high, busy_rounds m work t k n low high)
