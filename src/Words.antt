-- ===== src/Words.antt =====
-- The search for digits and for the name of a month in a text, src/tools/CDateTime.cpp. A `string`
-- is its bytes; the result -1 is `negsuc 0`.
pub mod Laws
mod Tests
use bloom_server.Base.{
  ℕ, zero, suc, ◌+◌, ◌%◌, Bool, true, false, not, ◌&&◌, ◌||◌, Option, none, some, List, [], ◌∷◌,
  drop, ltb, leb, ◌==◌, if◌then◌else◌,
}
use bloom_server.Bloom.Types.{Bytes}
use bloom_server.Calendar.{ℤ, pos, negsuc}

abbrev pub minus_one : ℤ
minus_one = negsuc 0

-- `c >= '0' && c <= '9'`
abbrev pub is_digit : ℕ → Bool
is_digit c = leb 48 c && leb c 57

-- The loop of `findDigit` at `i`, before the bytes that are left.
unfoldable pub digit_from : ℕ → Bytes → ℤ
digit_from i [] = minus_one
digit_from i (c ∷ rest) = if is_digit c then pos i else digit_from (i + 1) rest

-- A negative `begin` is compared as unsigned, and the loop does not run.
unfoldable pub find_digit : Bytes → ℤ → ℤ
unfolding digit_from
find_digit text (pos begin) = digit_from begin (drop begin text)
find_digit text (negsuc n) = minus_one

unfoldable pub non_digit_from : ℕ → Bytes → ℤ
non_digit_from i [] = minus_one
non_digit_from i (c ∷ rest) =
    if not (is_digit c) then if not (c == 58) then pos i else pos 0 else non_digit_from (i + 1) rest

unfoldable pub find_non_digit : Bytes → ℤ → ℤ
unfolding non_digit_from
find_non_digit text (pos begin) = non_digit_from begin (drop begin text)
find_non_digit text (negsuc n) = minus_one

-- `c0 + 32 == c1` on signed bytes.
abbrev is_lower : ℕ → ℕ → Bool
is_lower c0 c1 = if ltb c0 128 then c0 + 32 == c1 && ltb c1 128 else (c0 + 32) % 256 == c1

-- The loop of `matchWordIgoreCase` over the text from `i` on; it ends where the shorter one ends.
unfoldable pub match_word_ignore_case : Bytes → Bytes → Bool
match_word_ignore_case text [] = true
match_word_ignore_case [] (c1 ∷ str) = true
match_word_ignore_case (c0 ∷ text) (c1 ∷ str) =
    if not ((c0 == c1) || is_lower c0 c1) then false else match_word_ignore_case text str

abbrev pub is_letter : ℕ → Bool
is_letter c = (leb 97 c && leb c 122) || (leb 65 c && leb c 90)

-- The loop of `indexOfIgoreCase` at `i`, before the bytes that are left.
unfoldable pub index_from : Bytes → ℕ → Bool → Bytes → ℤ
unfolding match_word_ignore_case
index_from str i word [] = minus_one
index_from str i word (c ∷ rest) =
    let inside = index_from str (i + 1) true rest in
    let outside = index_from str (i + 1) false rest in
    if is_letter c
    then if not word && match_word_ignore_case (c ∷ rest) str then pos i else inside
    else outside

unfoldable pub index_of_ignore_case : Bytes → Bytes → ℤ
unfolding index_from
index_of_ignore_case text str = index_from str 0 false text
