-- ===== src/Text/Decode.antt =====
-- The encodings of src/tools/util.cpp: they stay in their buffer and can be read back.
use bloom_server.Base.{
  append_assoc, append_nil, ℕ, ◌+◌, ◌-◌, ◌*◌, ◌/◌, ◌%◌, ◌≤◌, ◌<◌, ◌≡◌, ◌≢◌, refl, ap, ◌∙◌, false,
  [], ◌∷◌, ◌++◌, length, length-append, All, ltb, leb, ◌==◌, if◌then◌else◌, arith, Bool-cases, inl,
  inr,
}
use bloom_server.Bloom.Types.{Bytes}
use bloom_server.Text.Encode.{
  bin2hex, alpha_numeric, escape, url_piece, my_url_piece, blank_piece, unset_distance, encode_loop,
  url_encode, my_url_encode, my_url_blank_encode, digit, code_piece, url_in_code,
}

-- The value of a hexadecimal digit.
abbrev pub hex_value : ℕ → ℕ
hex_value d = if leb 65 d then d - 55 else d - 48

-- What a reader of an encoded url makes of it; `blank` is what it reads for a plus.
abbrev pub decode : ℕ → Bytes → Bytes
decode blank [] = []
decode blank (c ∷ []) = (if c == 43 then blank else c) ∷ []
decode blank (c ∷ (d ∷ [])) = (if c == 43 then blank else c) ∷ decode blank (d ∷ [])
decode blank (c ∷ (h ∷ (l ∷ rest))) =
    let skipped = decode blank rest in
    let next = decode blank (h ∷ (l ∷ rest)) in
    if c == 37
    then (hex_value h * 16 + hex_value l) ∷ skipped
    else (if c == 43 then blank else c) ∷ next

hex_value-bin2hex : (c : ℕ) → hex_value (bin2hex c) ≡ c % 16
unfolding bin2hex
hex_value-bin2hex c = ground arith

hex_value-digit : (d : ℕ) → d < 16 → hex_value (digit d) ≡ d
unfolding digit
hex_value-digit d h = ground arith

decode_plain :
    (blank c : ℕ) (rest : Bytes)
    → c ≢ 37
    → decode blank (c ∷ rest) ≡ (if c == 43 then blank else c) ∷ decode blank rest
decode_plain blank c [] h = refl
decode_plain blank c (d ∷ []) h = refl
decode_plain blank c (d ∷ (e ∷ rest)) h = let z : (c == 37) ≡ false = ground (arith, h) in rw z refl

module _ (blank : ℕ) where
  decode_escape :
      (c : ℕ) (rest : Bytes) → c < 256 → decode blank (escape c ++ rest) ≡ c ∷ decode blank rest
  decode_escape c rest h =
      let value : hex_value (bin2hex (c / 16)) * 16 + hex_value (bin2hex c) ≡ c =
        omega (arith, hex_value-bin2hex (c / 16), hex_value-bin2hex c) in
      ap (λ (x : ℕ). x ∷ decode blank rest) value

  decode_code_piece :
      (c : ℕ) (rest : Bytes) → c < 256 → decode blank (code_piece c ++ rest) ≡ c ∷ decode blank rest
  decode_code_piece c rest h = elim (Bool-cases (alpha_numeric c)) [
    | inl letter ↦
        let z : (c == 43) ≡ false = ground arith in
        rw letter (decode_plain blank c rest (ground arith) ∙ rw z refl)
    | inr other ↦
        let value : hex_value (digit (c / 16)) * 16 + hex_value (digit (c % 16)) ≡ c =
          omega (
            arith,
            hex_value-digit (c / 16) (omega arith),
            hex_value-digit (c % 16) (omega arith),
          ) in
        rw other (ap (λ (x : ℕ). x ∷ decode blank rest) value)
  ]

decode_url_piece :
    (c : ℕ) (rest : Bytes) → c < 256 → decode 32 (url_piece c ++ rest) ≡ c ∷ decode 32 rest
decode_url_piece c rest h = elim (Bool-cases (c == 32)) [
  | inl space ↦ let z : c ≡ 32 = ground arith in rw z (decode_plain 32 43 rest (omega arith))
  | inr visible ↦ elim (Bool-cases (alpha_numeric c)) [
    | inl letter ↦
        let z : (c == 43) ≡ false = ground arith in
        rw (visible, letter) (decode_plain 32 c rest (ground arith) ∙ rw z refl)
    | inr other ↦ rw (visible, other) (decode_escape 32 c rest h)
  ]
]

-- For a string of bytes, whatever a reader takes a plus for: it reads the output of `urlInCode` as
-- the string.
pub decode-url_in_code :
    (blank : ℕ) (plain : Bytes)
    → All (λ c. c < 256) plain
    → decode blank (url_in_code plain) ≡ plain
unfolding url_in_code
decode-url_in_code blank [] h = refl
decode-url_in_code blank (c ∷ plain) (h, hs) =
    decode_code_piece blank c (url_in_code plain) h
    ∙ ap (λ (t : Bytes). c ∷ t) (decode-url_in_code blank plain hs)

-- All pieces one after the other.
abbrev pieces : (ℕ → Bytes) → Bytes → Bytes
pieces piece [] = []
pieces piece (c ∷ plain) = piece c ++ pieces piece plain

decode_pieces :
    (plain : Bytes) → All (λ c. c < 256) plain → decode 32 (pieces url_piece plain) ≡ plain
decode_pieces [] h = refl
decode_pieces (c ∷ plain) (h, hs) =
    decode_url_piece c (pieces url_piece plain) h
    ∙ ap (λ (t : Bytes). c ∷ t) (decode_pieces plain hs)

module _ (piece : ℕ → Bytes) (short : (c : ℕ) → length (piece c) ≤ 3) where
  encode_loop-fits :
      (maxlen : ℕ) (plain done : Bytes)
      → length done + 4 ≤ maxlen
      → length (encode_loop piece maxlen plain done).written < maxlen
  encode_loop-fits maxlen [] done h = omega arith
  encode_loop-fits maxlen (c ∷ plain) done h =
      let out = done ++ piece c in
      let size = length-append done (piece c) in
      elim (Bool-cases (ltb maxlen (length out + 4))) [
        | inl full ↦ rw full (omega (arith, size, short c))
        | inr room ↦ rw room (encode_loop-fits maxlen plain out (ground arith))
      ]

  encode_loop-all :
      (maxlen : ℕ) (plain done : Bytes)
      → length done + length plain * 3 + 4 ≤ maxlen
      → encode_loop piece maxlen plain done
        ≡ record { written = done ++ pieces piece plain; answer = unset_distance }
  encode_loop-all maxlen [] done h = rw (append_nil done) refl
  encode_loop-all maxlen (c ∷ plain) done h =
      let out = done ++ piece c in
      let size = length-append done (piece c) in
      let room : ltb maxlen (length out + 4) ≡ false = ground (arith, size, short c) in
      rw room (
        encode_loop-all maxlen plain out (omega (arith, size, short c))
        ∙ rw (append_assoc done (piece c) (pieces piece plain)) refl)

url_piece-short : (c : ℕ) → length (url_piece c) ≤ 3
url_piece-short c = ground arith

-- A buffer of at least four bytes is enough for what URLencode, MyURLencode and MyURLBlankencode
-- write with its length as `maxlen`, the zero byte included, whatever the string is.
pub encode-fits :
    (plain : Bytes) (maxlen : ℕ)
    → 4 ≤ maxlen
    → (length (url_encode plain maxlen).written < maxlen)
      × (length (my_url_encode plain maxlen).written < maxlen)
      × (length (my_url_blank_encode plain maxlen).written < maxlen)
unfolding url_encode my_url_encode my_url_blank_encode
encode-fits plain maxlen h = (
  encode_loop-fits url_piece url_piece-short maxlen plain [] (omega arith),
  encode_loop-fits my_url_piece (λ c. ground arith) maxlen plain [] (omega arith),
  encode_loop-fits blank_piece (λ c. ground arith) maxlen plain [] (omega arith),
)

-- With three bytes of room for each character and four more, URLencode of a string of bytes does
-- not answer -1, and a reader who takes a plus for a blank reads what it writes as the string.
pub decode-url_encode :
    (plain : Bytes) (maxlen : ℕ)
    → All (λ c. c < 256) plain
    → length plain * 3 + 4 ≤ maxlen
    → ((url_encode plain maxlen).answer ≡ unset_distance)
      × (decode 32 (url_encode plain maxlen).written ≡ plain)
unfolding url_encode
decode-url_encode plain maxlen bytes h =
    let all = encode_loop-all url_piece url_piece-short maxlen plain [] (omega arith) in
    rw all (refl, decode_pieces plain bytes)
