-- ===== src/Words/Laws.antt =====
-- The searches find the first place of what they search for.
use bloom_server.Base.{
  ℕ, zero, suc, ◌+◌, ◌<◌, ◌≡◌, refl, ◌⊎◌, inl, inr, Bool, true, false, not, ◌&&◌, [], ◌∷◌, ◌++◌,
  drop, ◌==◌, arith, Bool-cases,
}
use bloom_server.Bloom.Types.{Bytes}
use bloom_server.Calendar.{ℤ, pos}
use bloom_server.Words.{
  minus_one, is_digit, digit_from, find_digit, match_word_ignore_case, is_letter, index_from,
  index_of_ignore_case,
}

-- `r` is the first place, counted from `i`, at which the test holds, or -1 if it holds nowhere.
abbrev pub First : (ℕ → Bool) → ℕ → ℤ → Type 0
First p i r =
    ((k : ℕ) × (r ≡ pos (i + k)) × (p k ≡ true) × ((j : ℕ) → j < k → p j ≡ false))
    ⊎ ((r ≡ minus_one) × ((j : ℕ) → p j ≡ false))

First-here : (p : ℕ → Bool) (i : ℕ) → p 0 ≡ true → First p i (pos i)
First-here p i h =
    let e : i ≡ i + 0 = omega arith in inl (0, rw (← e), h, λ j lt. absurd (omega arith))

before_first :
    (p : ℕ → Bool) (k : ℕ)
    → p 0 ≡ false
    → ((j : ℕ) → j < k → p (suc j) ≡ false)
    → (j : ℕ) → j < suc k
    → p j ≡ false
before_first p k h less zero lt = h
before_first p k h less (suc j) lt = less j (omega arith)

nowhere : (p : ℕ → Bool) → p 0 ≡ false → ((j : ℕ) → p (suc j) ≡ false) → (j : ℕ) → p j ≡ false
nowhere p h rest zero = h
nowhere p h rest (suc j) = rest j

First-later :
    (p : ℕ → Bool) (i : ℕ) (r : ℤ) → p 0 ≡ false → First (λ j. p (suc j)) (i + 1) r → First p i r
First-later p i r h (inl (k, at_k, yes_k, less)) =
    let e : i + 1 + k ≡ i + suc k = omega arith in
    inl (suc k, rw (← e) at_k, yes_k, before_first p k h less)
First-later p i r h (inr (out, none_there)) = inr (out, nowhere p h none_there)

-- Whether a digit stands at a place of the text.
abbrev pub digit_at : Bytes → ℕ → Bool
digit_at [] j = false
digit_at (c ∷ cs) zero = is_digit c
digit_at (c ∷ cs) (suc j) = digit_at cs j

digit_from-First : (i : ℕ) (rest : Bytes) → First (digit_at rest) i (digit_from i rest)
unfolding digit_from
digit_from-First i [] = inr (refl, λ j. refl)
digit_from-First i (c ∷ cs) = elim (Bool-cases (is_digit c)) [
  | inl e ↦ rw e (First-here (digit_at (c ∷ cs)) i e)
  | inr e ↦ rw e (First-later (digit_at (c ∷ cs)) i _ e (digit_from-First (i + 1) cs))
]

-- `findDigit` from a place that is not negative finds the first digit there or after it, or -1 if
-- there is none.
pub find_digit-First :
    (text : Bytes) (begin : ℕ)
    → First (digit_at (drop begin text)) begin (find_digit text (pos begin))
unfolding find_digit
find_digit-First text begin = digit_from-First begin (drop begin text)

-- Whether a word that matches begins at a place of the text; `word` if a letter stands before it.
abbrev pub word_at : Bytes → Bool → Bytes → ℕ → Bool
word_at str word [] j = false
word_at str word (c ∷ cs) zero = is_letter c && (not word && match_word_ignore_case (c ∷ cs) str)
word_at str word (c ∷ cs) (suc j) = word_at str (is_letter c) cs j

-- The three cases of a round.
module _ (str : Bytes) (i : ℕ) (word : Bool) (c : ℕ) (cs : Bytes) where
  index_from-here :
      is_letter c ≡ true
      → (not word && match_word_ignore_case (c ∷ cs) str) ≡ true
      → index_from str i word (c ∷ cs) ≡ pos i
  unfolding index_from
  index_from-here e h = rw (e, h)

  index_from-inside :
      is_letter c ≡ true
      → (not word && match_word_ignore_case (c ∷ cs) str) ≡ false
      → index_from str i word (c ∷ cs) ≡ index_from str (i + 1) (is_letter c) cs
  unfolding index_from
  index_from-inside e h = rw (e, h)

  index_from-outside :
      is_letter c ≡ false → index_from str i word (c ∷ cs) ≡ index_from str (i + 1) (is_letter c) cs
  unfolding index_from
  index_from-outside e = rw e

  word_at-zero :
      (b : Bool)
      → (is_letter c && (not word && match_word_ignore_case (c ∷ cs) str)) ≡ b
      → word_at str word (c ∷ cs) 0 ≡ b
  word_at-zero b h = h

index_from-First :
    (str : Bytes) (i : ℕ) (word : Bool) (rest : Bytes)
    → First (word_at str word rest) i (index_from str i word rest)
index_from-First str i word [] = inr (unfold index_from in refl, λ j. refl)
index_from-First str i word (c ∷ cs) =
    let p = word_at str word (c ∷ cs) in
    let later =
      λ (h : p 0 ≡ false). First-later p i _ h (index_from-First str (i + 1) (is_letter c) cs) in
    elim (Bool-cases (is_letter c)) [
      | inr e ↦
          rw (index_from-outside str i word c cs e)
            (later (word_at-zero str i word c cs false (rw e)))
      | inl e ↦ elim (Bool-cases (not word && match_word_ignore_case (c ∷ cs) str)) [
        | inl h ↦
            rw (index_from-here str i word c cs e h)
              (First-here p i (word_at-zero str i word c cs true (rw (e, h))))
        | inr h ↦
            rw (index_from-inside str i word c cs e h)
              (later (word_at-zero str i word c cs false (rw (e, h))))
      ]
    ]

-- `indexOfIgoreCase` finds the first beginning of a word of letters that matches, or -1 if no word
-- does.
pub index_of_ignore_case-First :
    (text str : Bytes) → First (word_at str false text) 0 (index_of_ignore_case text str)
unfolding index_of_ignore_case
index_of_ignore_case-First text str = index_from-First str 0 false text

-- A text that ends early matches: the name of a month is found in any beginning of it.
pub match_word_ignore_case-append :
    (text more : Bytes) → match_word_ignore_case text (text ++ more) ≡ true
unfolding match_word_ignore_case
match_word_ignore_case-append [] [] = refl
match_word_ignore_case-append [] (c ∷ more) = refl
match_word_ignore_case-append (c ∷ text) more =
    let same : (c == c) ≡ true = ground arith in rw (same, match_word_ignore_case-append text more)
