-- ===== src/Text/Encode.antt =====
-- bin2hex, AlphaNumeric, URLencode, MyURLencode, MyURLBlankencode and urlInCode of
-- src/tools/util.cpp.
use bloom_server.Base.{
  ℕ, ◌+◌, ◌/◌, ◌%◌, Bool, ◌&&◌, ◌||◌, [], ◌∷◌, ◌++◌, length, ltb, leb, ◌==◌, if◌then◌else◌,
}
use bloom_server.Bloom.Types.{Bytes}

-- The digit of the low half of a byte.
unfoldable pub bin2hex : ℕ → ℕ
bin2hex c = let d = c % 16 + 48 in if ltb 57 d then d + 7 else d

abbrev pub between : ℕ → ℕ → ℕ → Bool
between low high c = leb low c && leb c high

-- The letters and the digits.
abbrev pub alpha_numeric : ℕ → Bool
alpha_numeric c = between 97 122 c || between 65 90 c || between 48 57 c

-- '%' and the two digits.
abbrev pub escape : ℕ → Bytes
escape c = 37 ∷ (bin2hex (c / 16) ∷ (bin2hex c ∷ []))

-- What one character becomes.
abbrev pub url_piece : ℕ → Bytes
url_piece c = if c == 32 then 43 ∷ [] else if alpha_numeric c then c ∷ [] else escape c

abbrev pub my_url_piece : ℕ → Bytes
my_url_piece c = if leb 128 c then escape c else c ∷ []

abbrev pub blank_piece : ℕ → Bytes
blank_piece c = if leb 128 c then escape c else if c == 32 then 37 ∷ (50 ∷ (48 ∷ [])) else c ∷ []

-- The result is -1, or the distance from a pointer that is not set.
pub data Answer : Type 0 where
  too_long unset_distance : Answer

-- The string in the buffer, which ends with a zero byte.
pub record Encoded : Type 0 where
  pub written : Bytes
  pub answer : Answer

-- The loop, which the three functions share but for the piece. `limit` is four before the end.
abbrev pub encode_loop : (ℕ → Bytes) → ℕ → Bytes → Bytes → Encoded
encode_loop piece maxlen [] done = record { written = done; answer = unset_distance }
encode_loop piece maxlen (c ∷ plain) done =
    let out = done ++ piece c in
    let rest = encode_loop piece maxlen plain out in
    if ltb maxlen (length out + 4) then record { written = out; answer = too_long } else rest

unfoldable pub url_encode : Bytes → ℕ → Encoded
url_encode plain maxlen = encode_loop url_piece maxlen plain []

unfoldable pub my_url_encode : Bytes → ℕ → Encoded
my_url_encode plain maxlen = encode_loop my_url_piece maxlen plain []

unfoldable pub my_url_blank_encode : Bytes → ℕ → Encoded
my_url_blank_encode plain maxlen = encode_loop blank_piece maxlen plain []

-- A digit as `urlInCode` makes it.
unfoldable pub digit : ℕ → ℕ
digit d = if ltb 9 d then d + 55 else d + 48

abbrev pub code_piece : ℕ → Bytes
code_piece c = if alpha_numeric c then c ∷ [] else 37 ∷ (digit (c / 16) ∷ (digit (c % 16) ∷ []))

-- The bytes that `urlInCode` writes before the zero, whatever room there is.
unfoldable pub url_in_code : Bytes → Bytes
url_in_code [] = []
url_in_code (c ∷ plain) = code_piece c ++ url_in_code plain
