-- ===== src/Schedule/Keywords/Laws.antt =====
-- The keywords as a set of pairs of a number and a word.
use bloom_server.Base.{
  ℕ, ◌+◌, ◌-◌, ◌≤◌, ◌≡◌, refl, sym, ◌∙◌, true, not, ◌&&◌, List, [], ◌∷◌, ◌++◌, bytes_eq_sound,
  bytes_eq_refl, ltb, ◌==◌, if◌then◌else◌, arith, Bool-cases, inl, inr,
}
use bloom_server.Schedule.Keywords.{KeyWord, same_word, has_word, erase_word, insert_keyword_map}

-- How often a number stands with a word.
abbrev pub word_count : KeyWord → List KeyWord → ℕ
word_count k [] = 0
word_count k (x ∷ xs) = (if same_word k x then 1 else 0) + word_count k xs

same_id : (j k : KeyWord) → same_word j k ≡ true → j.source_id ≡ k.source_id
same_id j k h = ground arith

same_bytes : (j k : KeyWord) → same_word j k ≡ true → k.keyword ≡ j.keyword
same_bytes j k h = bytes_eq_sound k.keyword j.keyword (ground arith)

same_right : (j k x : KeyWord) → same_word k x ≡ true → same_word j x ≡ same_word j k
same_right j k x h = rw (same_id k x h, same_bytes k x h) refl

same_left : (j k x : KeyWord) → same_word j k ≡ true → same_word j x ≡ same_word k x
same_left j k x h = rw (same_id j k h, same_bytes j k h) refl

has_word-eq : (k : KeyWord) (xs : List KeyWord) → has_word k xs ≡ ltb 0 (word_count k xs)
has_word-eq k [] = refl
has_word-eq k (x ∷ xs) = ground (arith, has_word-eq k xs)

word_count-append :
    (k : KeyWord) (xs ys : List KeyWord)
    → word_count k (xs ++ ys) ≡ word_count k xs + word_count k ys
word_count-append k [] ys = omega arith
word_count-append k (x ∷ xs) ys = omega (arith, word_count-append k xs ys)

word_count-erase_word :
    (j k : KeyWord) (xs : List KeyWord)
    → word_count j (erase_word k xs) ≡ word_count j xs - (if same_word j k then 1 else 0)
word_count-erase_word j k [] = ground arith
word_count-erase_word j k (x ∷ xs) = elim (Bool-cases (same_word k x)) [
  | inl first ↦ rw (first, same_right j k x first) (omega arith)
  | inr later ↦ elim (Bool-cases (same_word j k)) [
    | inl same ↦
        let ih = rw same at (word_count-erase_word j k xs) in
        rw (later, same, same_left j k x same, later) (omega (arith, ih))
    | inr other ↦
        let ih = rw other at (word_count-erase_word j k xs) in rw (later, other) (omega (arith, ih))
  ]
]

word_count_same :
    (j k : KeyWord) (xs : List KeyWord) → same_word j k ≡ true → word_count j xs ≡ word_count k xs
word_count_same j k [] same = refl
word_count_same j k (x ∷ xs) same =
    rw (same_left j k x same) (omega (arith, word_count_same j k xs same))

same_word_refl : (k : KeyWord) → same_word k k ≡ true
same_word_refl k = ground (arith, bytes_eq_refl k.keyword)

-- If no number stands twice with one word, then `InsertKeywordMap` leaves the number and the word
-- of the keyword once if its state is not 0 and never if it is 0, every other pair as often as
-- before, and it answers true exactly if the state is not 0 and the pair was not there.
pub insert_keyword_map-Set :
    (k : KeyWord) (map : List KeyWord)
    → ((j : KeyWord) → word_count j map ≤ 1)
    → let r = insert_keyword_map k map in
      ((j : KeyWord)
        → word_count j r.0
          ≡ (if same_word j k then if k.state == 0 then 0 else 1 else word_count j map))
      × (r.1 ≡ (not (k.state == 0) && not (has_word k map)))
unfolding insert_keyword_map
insert_keyword_map-Set k map once = elim (Bool-cases (has_word k map)) [
  | inl there ↦ elim (Bool-cases (k.state == 0)) [
    | inl off ↦
        rw (there, off)
          (
            λ j. elim (Bool-cases (same_word j k)) [
              | inl same ↦
                  let e = rw same at (word_count-erase_word j k map) in
                  rw same (omega (arith, once j, e))
              | inr other ↦
                  let e = rw other at (word_count-erase_word j k map) in rw other (omega (arith, e))
            ],
            refl,
          )
    | inr on ↦
        let present : word_count k map ≡ 1 = ground (arith, once k, has_word-eq k map, there) in
        rw (there, on)
          (
            λ j. elim (Bool-cases (same_word j k)) [
              | inl same ↦ rw same (omega (arith, present, word_count_same j k map same))
              | inr other ↦ rw other refl
            ],
            refl,
          )
  ]
  | inr missing ↦ elim (Bool-cases (k.state == 0)) [
    | inl off ↦
        rw (missing, off)
          (
            λ j. elim (Bool-cases (same_word j k)) [
              | inl same ↦ rw same (
                  word_count_same j k map same
                  ∙ (let z = sym (has_word-eq k map) ∙ missing in
                      let y : word_count k map ≡ 0 = ground (arith, z) in y))
              | inr other ↦ rw other refl
            ],
            refl,
          )
    | inr on ↦
        rw (missing, on)
          (
            λ j. elim (Bool-cases (same_word j k)) [
              | inl same ↦
                  let a =
                    (let z = sym (has_word-eq k map) ∙ missing in
                      let y : word_count k map ≡ 0 = ground (arith, z) in y) in
                  rw same (
                    ground (
                      arith,
                      a,
                      same,
                      word_count_same j k map same,
                      word_count-append j map (k ∷ []),
                    ))
              | inr other ↦ rw other (ground (arith, other, word_count-append j map (k ∷ [])))
            ],
            refl,
          )
  ]
]
