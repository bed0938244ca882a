-- ===== src/Schedule/Keywords/Tests.antt =====
-- The theorem on keywords, at two keywords of one source.
use bloom_server.Base.{
  ◌≤◌, ◌≡◌, refl, true, false, not, ◌&&◌, List, [], ◌∷◌, if◌then◌else◌, arith, Bool-cases, inl, inr,
}
use bloom_server.Schedule.Keywords.{KeyWord, same_word, has_word, insert_keyword_map}
use bloom_server.Schedule.Keywords.Laws.{word_count, insert_keyword_map-Set}

abbrev steel : KeyWord
steel = record { keyword = 115 ∷ []; state = 1; source_id = 3 }

abbrev copper : KeyWord
copper = record { keyword = 99 ∷ []; state = 1; source_id = 3 }

abbrev steel_off : KeyWord
steel_off = record { keyword = 115 ∷ []; state = 0; source_id = 3 }

abbrev two_words : List KeyWord
two_words = steel ∷ (copper ∷ [])

apart : (j : KeyWord) → word_count j two_words ≤ 1
apart j = elim (Bool-cases (same_word j steel)) [
  | inl same ↦ ground arith
  | inr other ↦ ground arith
]

insert_keyword_map-Set_test :
    let r = insert_keyword_map steel_off two_words in
    ((j : KeyWord)
      → word_count j r.0 ≡ (if same_word j steel_off then 0 else word_count j two_words))
    × (r.1 ≡ (not true && not (has_word steel_off two_words)))
insert_keyword_map-Set_test = insert_keyword_map-Set steel_off two_words apart

switched_off : insert_keyword_map steel_off two_words ≡ (copper ∷ [], false)
unfolding insert_keyword_map
switched_off = refl
