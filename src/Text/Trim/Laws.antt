-- ===== src/Text/Trim/Laws.antt =====
-- What is left of a string by strtrim.
use bloom_server.Base.{
  append_assoc, append_nil, ℕ, zero, suc, ◌≡◌, refl, sym, ap, ◌∙◌, Bool, true, false, Option, none,
  some, [], ◌∷◌, ◌++◌, length, length-take, take, get_or, All, arith, Bool-cases, inl, inr,
}
use bloom_server.Bloom.Types.{Bytes}
use bloom_server.Text.Trim.{
  in_set, right_set, left_set, right_loop, left_loop, strrtrim, strltrim, strtrim,
}

-- The last character is in the set.
abbrev pub last_in : Bytes → Bytes → Bool
last_in set [] = false
last_in set (c ∷ []) = in_set set c
last_in set (c ∷ (d ∷ s)) = last_in set (d ∷ s)

abbrev pub first_in : Bytes → Bytes → Bool
first_in set [] = false
first_in set (c ∷ s) = in_set set c

-- `middle` is `s` without characters of the set at either end, and without more.
pub record Trimmed (set s middle : Bytes) : Type 0 where
  pub left : Bytes
  pub right : Bytes
  pub whole : s ≡ left ++ (middle ++ right)
  pub left_all : All (λ c. in_set set c ≡ true) left
  pub right_all : All (λ c. in_set set c ≡ true) right
  pub first : first_in set middle ≡ false
  pub last : last_in set middle ≡ false

same_sets : (trim : Option Bytes) (c : ℕ) → in_set (left_set trim) c ≡ in_set (right_set trim) c
same_sets none c = ground arith
same_sets (some set) c = refl

module _ (set : Bytes) where
  last_in-get_or :
      (n : ℕ) (s : Bytes) → length s ≡ suc n → last_in set s ≡ in_set set (get_or s n 0)
  last_in-get_or n [] h = absurd (omega arith)
  last_in-get_or zero (c ∷ []) h = refl
  last_in-get_or zero (c ∷ (d ∷ s)) h = absurd (omega arith)
  last_in-get_or (suc n) (c ∷ []) h = absurd (omega arith)
  last_in-get_or (suc n) (c ∷ (d ∷ s)) h = last_in-get_or n (d ∷ s) (omega arith)

  take_last : (n : ℕ) (s : Bytes) → length s ≡ suc n → s ≡ take n s ++ (get_or s n 0 ∷ [])
  take_last n [] h = absurd (omega arith)
  take_last zero (c ∷ []) h = refl
  take_last zero (c ∷ (d ∷ s)) h = absurd (omega arith)
  take_last (suc n) (c ∷ s) h = ap (λ (t : Bytes). c ∷ t) (take_last n s (omega arith))

  All-append :
      (xs ys : Bytes)
      → All (λ c. in_set set c ≡ true) xs
      → All (λ c. in_set set c ≡ true) ys
      → All (λ c. in_set set c ≡ true) (xs ++ ys)
  All-append [] ys h k = k
  All-append (x ∷ xs) ys (h, hs) k = (h, All-append xs ys hs k)

  record Right (s kept : Bytes) : Type 0 where
    right : Bytes
    whole : s ≡ kept ++ right
    all : All (λ c. in_set set c ≡ true) right
    last : last_in set kept ≡ false

  right_loop-Right : (n : ℕ) (s : Bytes) → length s ≡ n → Right s (right_loop set n s)
  right_loop-Right zero [] h = record { right = []; whole = refl; all = tt; last = refl }
  right_loop-Right zero (c ∷ s) h = absurd (omega arith)
  right_loop-Right (suc n) s h = elim (Bool-cases (in_set set (get_or s n 0))) [
    | inr stays ↦ rw stays (record {
      right = [];
      whole = sym (append_nil s);
      all = tt;
      last = last_in-get_or n s h ∙ stays;
    })
    | inl goes ↦
        let k = right_loop-Right n (take n s) (omega (arith, length-take n s)) in
        let kept = right_loop set n (take n s) in
        rw goes (record {
          right = k.right ++ (get_or s n 0 ∷ []);
          whole =
              take_last n s h
              ∙ ap (λ (t : Bytes). t ++ (get_or s n 0 ∷ [])) k.whole
              ∙ append_assoc kept k.right (get_or s n 0 ∷ []);
          all = All-append k.right (get_or s n 0 ∷ []) k.all (goes, tt);
          last = k.last;
        })
  ]

  last_tail : (c : ℕ) (s : Bytes) → last_in set (c ∷ s) ≡ false → last_in set s ≡ false
  last_tail c [] h = refl
  last_tail c (d ∷ s) h = h

  record Left (s kept : Bytes) : Type 0 where
    left : Bytes
    whole : s ≡ left ++ kept
    all : All (λ c. in_set set c ≡ true) left
    first : first_in set kept ≡ false
    last : last_in set kept ≡ false

  left_loop-Left : (s : Bytes) → last_in set s ≡ false → Left s (left_loop set s)
  left_loop-Left [] h = record { left = []; whole = refl; all = tt; first = refl; last = refl }
  left_loop-Left (c ∷ s) h = elim (Bool-cases (in_set set c)) [
    | inr stays ↦ rw stays (record { left = []; whole = refl; all = tt; first = stays; last = h })
    | inl goes ↦
        let k = left_loop-Left s (last_tail c s h) in
        rw goes (record {
          left = c ∷ k.left;
          whole = ap (λ (t : Bytes). c ∷ t) k.whole;
          all = (goes, k.all);
          first = k.first;
          last = k.last;
        })
  ]

left_loop_same :
    (trim : Option Bytes) (s : Bytes) → left_loop (left_set trim) s ≡ left_loop (right_set trim) s
left_loop_same trim [] = refl
left_loop_same trim (c ∷ s) = rw (same_sets trim c, left_loop_same trim s) refl

-- `strtrim` of a string that is not null, with the characters that the caller names or else blank,
-- tab and line ends, gives the string without such characters at its ends: what is left neither
-- begins nor ends with one, and it is the string but for characters of the set before and behind.
pub strtrim-Trimmed :
    (s : Bytes) (trim : Option Bytes)
    → (middle : Bytes) × (strtrim (some s) trim ≡ some middle) × Trimmed (right_set trim) s middle
unfolding strtrim strrtrim strltrim
strtrim-Trimmed s trim =
    let set = right_set trim in
    let kept = right_loop set (length s) s in
    let r = right_loop-Right set (length s) s refl in
    let l = left_loop-Left set kept r.last in
    (
      left_loop set kept,
      ap some (left_loop_same trim kept),
      record {
        left = l.left;
        right = r.right;
        whole =
            r.whole
            ∙ ap (λ (t : Bytes). t ++ r.right) l.whole
            ∙ append_assoc l.left (left_loop set kept) r.right;
        left_all = l.all;
        right_all = r.all;
        first = l.first;
        last = l.last;
      },
    )
