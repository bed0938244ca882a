-- ===== src/Text/Tests.antt =====
-- The theorems on strings, at short strings.
use bloom_server.Base.{
  ◌<◌, ◌≡◌, refl, true, false, none, some, List, [], ◌∷◌, length, All, arith, ltb→lt,
}
use bloom_server.Base.Run.{ok, fault, out_of_range}
use bloom_server.Bloom.Types.{Bytes}
use bloom_server.Text.Encode.{
  bin2hex, digit, too_long, unset_distance, url_encode, my_url_encode, my_url_blank_encode,
  url_in_code,
}
use bloom_server.Text.Decode.{decode, decode-url_in_code, decode-url_encode, encode-fits}
use bloom_server.Text.Trim.{right_set, strrtrim, strltrim, strtrim}
use bloom_server.Text.Trim.Laws.{Trimmed, strtrim-Trimmed}
use bloom_server.Text.Split.{trimmed, split, split_inplace}
use bloom_server.Text.Split.Pieces.{join, Lacks, split-join}

-- A letter, a blank, a plus and a byte above 127.
abbrev sample : Bytes
sample = 97 ∷ (32 ∷ (43 ∷ (200 ∷ [])))

sample_bytes : All (λ c. c < 256) sample
sample_bytes = (omega arith, (omega arith, (omega arith, (omega arith, tt))))

decode-url_in_code_example : decode 32 (url_in_code sample) ≡ sample
decode-url_in_code_example = decode-url_in_code 32 sample sample_bytes

in_code_test : url_in_code (43 ∷ (200 ∷ [])) ≡ 37 ∷ (50 ∷ (66 ∷ (37 ∷ (67 ∷ (56 ∷ [])))))
unfolding url_in_code digit
in_code_test = refl

decode-url_encode_test :
    ((url_encode sample 16).answer ≡ unset_distance)
    × (decode 32 (url_encode sample 16).written ≡ sample)
decode-url_encode_test = decode-url_encode sample 16 sample_bytes (omega arith)

-- Seven bytes are too few for the sample.
url_encode_test :
    url_encode sample 7
    ≡ record { written = 97 ∷ (43 ∷ (37 ∷ (50 ∷ (66 ∷ [])))); answer = too_long }
unfolding url_encode bin2hex
url_encode_test = refl

encode-fits_test :
    (length (url_encode sample 7).written < 7)
    × (length (my_url_encode sample 7).written < 7)
    × (length (my_url_blank_encode sample 7).written < 7)
encode-fits_test = encode-fits sample 7 (omega arith)

abbrev padded : Bytes
padded = 32 ∷ (9 ∷ (97 ∷ (32 ∷ (98 ∷ (10 ∷ [])))))

strtrim-Trimmed_test :
    (middle : Bytes) × (strtrim (some padded) none ≡ some middle)
    × Trimmed (right_set none) padded middle
strtrim-Trimmed_test = strtrim-Trimmed padded none

strtrim_test : strtrim (some padded) none ≡ some (97 ∷ (32 ∷ (98 ∷ [])))
unfolding strtrim strrtrim strltrim
strtrim_test = refl

abbrev commas : Bytes
commas = 44 ∷ (97 ∷ (44 ∷ (44 ∷ (98 ∷ (44 ∷ [])))))

split-join_example :
    (head : Bytes) × (tail : List Bytes) × (split commas 44 true ≡ ok (head ∷ tail))
    × (join 44 (head ∷ tail) ≡ trimmed 44 true commas)
    × All (λ q. Lacks 44 q) (head ∷ tail)
split-join_example = split-join commas 44 true refl (ltb→lt _ _ refl)

split_test : split commas 44 true ≡ ok ((97 ∷ []) ∷ ([] ∷ ((98 ∷ []) ∷ [])))
unfolding split split_inplace
split_test = refl

-- The separator zero: the loop leaves the memory.
split_zero_test : split commas 0 false ≡ fault out_of_range
unfolding split split_inplace
split_zero_test = refl
