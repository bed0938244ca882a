-- ===== src/Words/Tests.antt =====
-- The theorems on the searches, at the text "5 Jan".
use bloom_server.Base.{◌≡◌, refl, true, false, [], ◌∷◌, ◌++◌, drop}
use bloom_server.Bloom.Types.{Bytes}
use bloom_server.Calendar.{pos}
use bloom_server.Words.{find_digit, match_word_ignore_case, index_of_ignore_case}
use bloom_server.Words.Laws.{
  First, digit_at, word_at, find_digit-First, index_of_ignore_case-First,
  match_word_ignore_case-append,
}

abbrev text : Bytes
text = 53 ∷ 32 ∷ 74 ∷ 97 ∷ 110 ∷ []

abbrev jan : Bytes
jan = 106 ∷ 97 ∷ 110 ∷ []

january : index_of_ignore_case text jan ≡ pos 2
unfolding index_of_ignore_case
january = refl

find_digit-First_test : First (digit_at (drop 0 text)) 0 (find_digit text (pos 0))
find_digit-First_test = find_digit-First text 0

index_of_ignore_case-First_test : First (word_at jan false text) 0 (index_of_ignore_case text jan)
index_of_ignore_case-First_test = index_of_ignore_case-First text jan

match_word_ignore_case-append_test :
    match_word_ignore_case (106 ∷ []) ((106 ∷ []) ++ (97 ∷ 110 ∷ [])) ≡ true
match_word_ignore_case-append_test = match_word_ignore_case-append (106 ∷ []) (97 ∷ 110 ∷ [])
