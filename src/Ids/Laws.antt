-- ===== src/Ids/Laws.antt =====
-- The ids of one process grow, as long as no millisecond has more than 4096 of them.
use bloom_server.Base.{
  ℕ, zero, suc, ◌+◌, ◌*◌, ◌/◌, ◌%◌, ◌^◌, ◌<◌, ◌≡◌, ap, bit_or, bit_or_step, bit_or-zero, true,
  false, Option, none, some, List, [], ◌∷◌, All, u64, ltb, ◌==◌, arith, Bool-cases, inl, inr,
}
use native.Mathlib.Nat.{pow-suc}
use bloom_server.Ids.{Ids, Time, millisecond, stamp, Issue, issued, get_max_id}

-- `|` of two numbers without a common bit is their sum.
bit_or_apart : (k q r : ℕ) → r < 2 ^ k → bit_or (q * 2 ^ k) r ≡ q * 2 ^ k + r
bit_or_apart zero q r h = let e : r ≡ 0 = omega arith in rw e (omega (arith, bit_or-zero (q * 1)))
bit_or_apart (suc k) q r h =
    let twice : q * 2 ^ suc k ≡ 2 * (q * 2 ^ k) =
      omega (arith, pow-suc 2 k, ap (λ (t : ℕ). q * t) (pow-suc 2 k)) in
    let half : 2 * (q * 2 ^ k) / 2 ≡ q * 2 ^ k = omega arith in
    let s = rw half at (bit_or_step (2 * (q * 2 ^ k)) r) in
    rw twice (omega (arith, s, pow-suc 2 k, bit_or_apart k q (r / 2) (omega (arith, pow-suc 2 k))))

-- A lowest bit that is there already.
bit_or_there : (k q : ℕ) → q % 2 ≡ 1 → bit_or (q * 2 ^ k) (2 ^ k) ≡ q * 2 ^ k
bit_or_there zero q odd = omega (arith, bit_or_step (q * 1) 1, bit_or-zero (q * 1 / 2))
bit_or_there (suc k) q odd =
    let twice : q * 2 ^ suc k ≡ 2 * (q * 2 ^ k) =
      omega (arith, pow-suc 2 k, ap (λ (t : ℕ). q * t) (pow-suc 2 k)) in
    let twice' : 2 ^ suc k ≡ 2 * 2 ^ k = omega (arith, pow-suc 2 k) in
    let half : 2 * (q * 2 ^ k) / 2 ≡ q * 2 ^ k = omega arith in
    let half' : 2 * 2 ^ k / 2 ≡ 2 ^ k = omega arith in
    let s = rw (half, half') at (bit_or_step (2 * (q * 2 ^ k)) (2 * 2 ^ k)) in
    rw (twice, twice') (omega (arith, s, bit_or_there k q odd))

-- The id as a number: the millisecond, eleven bits for the process and twelve for the serial number.
abbrev pub id_value : ℕ → Ids → ℕ
id_value pcid s = s.last_millisecond * 2 ^ 23 + pcid * 2 ^ 12 + s.last_id

stamp_value :
    (pcid ms : ℕ) → pcid < 2 ^ 11 → ms < 2 ^ 41 → stamp pcid ms ≡ ms * 2 ^ 23 + pcid * 2 ^ 12
unfolding stamp
stamp_value pcid ms small early =
    let a : u64 (ms * 2 ^ 23) ≡ ms * 2 ^ 23 = omega arith in
    let b : u64 (pcid * 2 ^ 12) ≡ pcid * 2 ^ 12 = omega arith in
    rw (a, b) (bit_or_apart 23 ms (pcid * 2 ^ 12) (omega arith))

serial_value :
    (pcid ms i : ℕ)
    → pcid < 2 ^ 11
    → ms < 2 ^ 41
    → i < 2 ^ 12
    → bit_or (stamp pcid ms) i ≡ ms * 2 ^ 23 + pcid * 2 ^ 12 + i
serial_value pcid ms i small early low =
    let e : stamp pcid ms ≡ (ms * 2 ^ 11 + pcid) * 2 ^ 12 =
      omega (arith, stamp_value pcid ms small early) in
    rw e (omega (arith, bit_or_apart 12 (ms * 2 ^ 11 + pcid) i low))

-- A clock that does not fail, before the year 2039.
abbrev pub Sound : Option Time → Type 0
Sound none = ⊥
Sound (some tv) = millisecond tv < 2 ^ 41

issued_pair :
    {a b : Ids} {x y : ℕ} → ◌≡◌ {A = Ids × Issue} (a, issued x) (b, issued y) → (a ≡ b) × (x ≡ y)
issued_pair e =
    let second = ap (λ (r : Ids × Issue). r.1) e in (ap (λ (r : Ids × Issue). r.0) e, ground arith)

-- On a clock that does not fail and reads less than 2 ^ 41 milliseconds, an id of a process with a
-- number below 2 ^ 11 is its three fields side by side, unless it is the 4097th of its millisecond,
-- and is greater than the id of the call before, if that was not such a one, also if the clock has been set back.
pub get_max_id-grows :
    (pcid : ℕ) (s s' : Ids) (clock : List (Option Time)) (i : ℕ)
    → pcid < 2 ^ 11
    → s.last_id < 2 ^ 12
    → All Sound clock
    → get_max_id pcid s clock ≡ (s', issued i)
    → s'.last_id < 2 ^ 12
    → (i ≡ id_value pcid s') × (id_value pcid s < i)
unfolding get_max_id
get_max_id-grows pcid s s' [] i small low sound e low' =
    absurd (let x = ap (λ (r : Ids × Issue). r.1) e in cc)
get_max_id-grows pcid s s' (none ∷ rest) i small low sound e low' = absurd (sound.0)
get_max_id-grows pcid s s' (some tv ∷ rest) i small low sound e low' =
    let ms = millisecond tv in
    let later = get_max_id-grows pcid s s' rest i small low sound.1 in
    elim (Bool-cases (ltb s.last_millisecond ms)) [
      | inl newer ↦
          let (same, value) = issued_pair (rw (newer, get_max_id) at e) in
          let new = stamp_value pcid ms small sound.0 in
          rw (← same) (omega (arith, value, new), ground (arith, value, new))
      | inr not_newer ↦ elim (Bool-cases (ms == s.last_millisecond)) [
        | inr older ↦ later (rw (not_newer, older, get_max_id) at e) low'
        | inl now ↦ elim (Bool-cases (ltb 4095 s.last_id)) [
          | inl full ↦ later (rw (not_newer, now, full, get_max_id) at e) low'
          | inr room ↦
              let (same, value) = issued_pair (rw (not_newer, now, room, get_max_id) at e) in
              let equal : ms ≡ s.last_millisecond = ground arith in
              let less : s.last_id + 1 < 2 ^ 12 = rw (← same) at low' in
              let new = serial_value pcid ms (s.last_id + 1) small sound.0 less in
              rw (← same) (omega (arith, value, new, equal), omega (arith, value, new, equal))
        ]
      ]
    ]

-- The test for a full millisecond comes too late by one: the 4097th id of a millisecond has the bit
-- of the process number set, so that for an odd number it is the first id of the millisecond again.
pub get_max_id-repeats :
    (pcid : ℕ) (ms : ℕ) (tv : Time) (clock : List (Option Time))
    → pcid < 2 ^ 11
    → pcid % 2 ≡ 1
    → ms < 2 ^ 41
    → millisecond tv ≡ ms
    → get_max_id pcid (record { last_millisecond = ms; last_id = 4095 }) (some tv ∷ clock) ≡ (
      record { last_millisecond = ms; last_id = 4096 },
      issued (id_value pcid (record { last_millisecond = ms; last_id = 0 })),
    )
unfolding get_max_id
get_max_id-repeats pcid ms tv clock small odd early now =
    let e : stamp pcid ms ≡ (ms * 2 ^ 11 + pcid) * 2 ^ 12 =
      omega (arith, stamp_value pcid ms small early) in
    let same : bit_or (stamp pcid ms) 4096 ≡ ms * 2 ^ 23 + pcid * 2 ^ 12 + 0 =
      rw e (omega (arith, bit_or_there 12 (ms * 2 ^ 11 + pcid) (omega arith))) in
    let not_newer : ltb ms ms ≡ false = ground arith in
    let equal : (ms == ms) ≡ true = ground arith in rw (now, not_newer, equal, same)
