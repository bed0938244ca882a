-- ===== src/Content/Format/Digits.antt =====
-- The digits of a number are read back, and how many they are.
use bloom_server.Base.{
  ℕ, zero, suc, ◌+◌, ◌-◌, ◌*◌, ◌/◌, ◌%◌, ◌^◌, ◌≤◌, ◌<◌, ◌≡◌, refl, true, some, [], ◌∷◌, ◌++◌, arith,
  ltb, length, append_assoc, length-append, Bool-cases, inl, inr, ap, sym, ◌∙◌,
}
use bloom_server.Bloom.Types.{Bytes}
use bloom_server.Words.{is_digit}
use bloom_server.Content.Format.{decimal_from, decimal, scan_digits, scan_unsigned}

pub is_digit-digit : (d : ℕ) → d < 10 → is_digit (48 + d) ≡ true
is_digit-digit d h = ground arith

scan_digits-digit :
    (width acc d : ℕ) (rest : Bytes)
    → d < 10
    → scan_digits (suc width) acc ((48 + d) ∷ rest) ≡ scan_digits width (acc * 10 + d) rest
unfolding scan_digits
scan_digits-digit width acc d rest h =
    let e : acc * 10 + (48 + d - 48) ≡ acc * 10 + d = omega arith in rw (is_digit-digit d h, e) refl

-- The digits that are read stand for the number that was printed.
pub scan_digits-decimal_from :
    (fuel n width : ℕ) (rest : Bytes)
    → n < 10 ^ fuel
    → scan_digits (length (decimal_from fuel n) + width) 0 (decimal_from fuel n ++ rest)
      ≡ scan_digits width n rest
unfolding decimal_from
scan_digits-decimal_from zero n width rest small =
    let (e, e') : (n ≡ 0) × (0 + width ≡ width) = (omega arith, omega arith) in rw (e, e') refl
scan_digits-decimal_from (suc fuel) n width rest small = elim (Bool-cases (ltb n 10)) [
  | inl is_last ↦
      let e : 1 + width ≡ suc width = omega arith in
      let value : 0 * 10 + n ≡ n = omega arith in
      rw (is_last, e)
        (scan_digits-digit width 0 n rest (ground arith) ∙ ap (λ v. scan_digits width v rest) value)
  | inr more ↦
      let front = decimal_from fuel (n / 10) in
      let e : length (front ++ ((48 + n % 10) ∷ [])) + width ≡ length front + suc width =
        omega (arith, length-append front ((48 + n % 10) ∷ [])) in
      let value : n / 10 * 10 + n % 10 ≡ n = omega arith in
      rw (more, append_assoc, e)
        (scan_digits-decimal_from fuel (n / 10) (suc width) ((48 + n % 10) ∷ rest) (omega arith)
          ∙ scan_digits-digit width (n / 10) (n % 10) rest (omega arith)
          ∙ ap (λ v. scan_digits width v rest) value)
]

-- It starts with a digit.
pub decimal-digit :
    (fuel n : ℕ)
    → (c : ℕ) × (cs : Bytes) × (decimal_from (suc fuel) n ≡ c ∷ cs) × (is_digit c ≡ true)
unfolding decimal_from
decimal-digit zero n = elim (Bool-cases (ltb n 10)) [
  | inl is_last ↦ (48 + n, [], rw is_last refl, is_digit-digit n (ground arith))
  | inr more ↦ (48 + n % 10, [], rw more refl, is_digit-digit (n % 10) (omega arith))
]
decimal-digit (suc fuel) n = elim (Bool-cases (ltb n 10)) [
  | inl is_last ↦ (48 + n, [], rw is_last refl, is_digit-digit n (ground arith))
  | inr more ↦
      let (c, cs, e, digit) = decimal-digit fuel (n / 10) in
      (c, cs ++ ((48 + n % 10) ∷ []), rw (more, e) refl, digit)
]

pub scan_digits-slash :
    (width n : ℕ) (rest : Bytes)
    → scan_digits width n (47 ∷ rest) ≡ record { value = n; rest = 47 ∷ rest }
unfolding scan_digits
scan_digits-slash zero n rest = refl
scan_digits-slash (suc width) n rest = refl

scan_unsigned-digits :
    (width : ℕ) (text : Bytes) (c : ℕ) (cs : Bytes)
    → text ≡ c ∷ cs
    → is_digit c ≡ true
    → 0 < width
    → scan_unsigned width text ≡ some (scan_digits width 0 text)
unfolding scan_unsigned
scan_unsigned-digits zero text c cs e digit pos = absurd (omega arith)
scan_unsigned-digits (suc width) text c cs e digit pos = rw (e, digit) refl

pub decimal-eq : (n : ℕ) → decimal n ≡ decimal_from 20 n
unfolding decimal
decimal-eq n = refl

-- A printed number before a slash is read whole, whatever width is left.
pub scan_unsigned-decimal :
    (n width : ℕ) (rest : Bytes)
    → n < 10 ^ 20
    → length (decimal n) ≤ width
    → scan_unsigned width (decimal n ++ 47 ∷ rest) ≡ some (record { value = n; rest = 47 ∷ rest })
scan_unsigned-decimal n width rest small fits =
    let (c, cs, e, digit) = decimal-digit 19 n in
    let whole : length (decimal_from 20 n) + (width - length (decimal_from 20 n)) ≡ width =
      ground (arith, decimal-eq n) in
    let text = decimal_from 20 n ++ 47 ∷ rest in
    let positive : 0 < length (decimal_from 20 n) = rw e (omega arith) in
    let first : text ≡ c ∷ (cs ++ 47 ∷ rest) = rw e refl in
    rw decimal-eq (
      scan_unsigned-digits width text c (cs ++ 47 ∷ rest) first digit (omega arith)
      ∙ ap some (
          ap (λ w. scan_digits w 0 text) (sym whole)
          ∙ scan_digits-decimal_from 20 n (width - length (decimal_from 20 n)) (47 ∷ rest) small
          ∙ scan_digits-slash (width - length (decimal_from 20 n)) n rest))

length-decimal_from : (fuel k n : ℕ) → n < 10 ^ suc k → length (decimal_from fuel n) ≤ suc k
unfolding decimal_from
length-decimal_from zero k n small = omega arith
length-decimal_from (suc fuel) zero n small =
    let e : ltb n 10 ≡ true = ground arith in rw e (omega arith)
length-decimal_from (suc fuel) (suc k) n small = elim (Bool-cases (ltb n 10)) [
  | inl is_last ↦ rw is_last (omega arith)
  | inr more ↦
      let front = decimal_from fuel (n / 10) in
      rw more (
        omega (
          arith,
          length-append front ((48 + n % 10) ∷ []),
          length-decimal_from fuel k (n / 10) (omega arith),
        ))
]

pub length-decimal : (k n : ℕ) → n < 10 ^ suc k → length (decimal n) ≤ suc k
length-decimal k n small = rw decimal-eq (length-decimal_from 20 k n small)
