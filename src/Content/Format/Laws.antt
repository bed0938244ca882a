-- ===== src/Content/Format/Laws.antt =====
-- A text that `sprintf` wrote is read back by `sscanf` with the same format.
use bloom_server.Base.{
  ℕ, suc, ◌+◌, ◌-◌, ◌^◌, ◌≤◌, ◌<◌, ◌≡◌, refl, true, false, some, List, [], ◌∷◌, ◌++◌, arith, ltb,
  length, replicate, append_assoc, length-append, Bool-cases, inl, inr, ap, ◌∙◌, length-replicate,
}
use bloom_server.Base.Run.{ok}
use bloom_server.Bloom.Types.{Bytes}
use bloom_server.Content.Format.Digits.{length-decimal}
use bloom_server.Content.Format.{
  Directive, int_field, padded_field, ulonglong_field, decimal, print_int, print_field, sprintf,
  sprintf_into, skip_blanks, width_of, in_range, convert_signed, convert, slash, sscanf,
}
use bloom_server.Content.Format.Convert.{
  skip_blanks-replicate, skip_blanks-decimal, convert_signed-decimal, convert_signed-minus,
}

-- The numbers that a part of a format writes without loss.
unfoldable pub InField : Directive → ℕ → Type 0
InField int_field v = v < 2 ^ 32
InField padded_field v = v < 10 ^ 8
InField ulonglong_field v = v < 2 ^ 64

convert-decimal :
    (d : Directive) (blanks n : ℕ) (rest : Bytes)
    → n < 10 ^ 20
    → length (decimal n) ≤ width_of d (replicate blanks 32 ++ (decimal n ++ 47 ∷ rest))
    → in_range d false n ≡ ok n
    → convert d (replicate blanks 32 ++ (decimal n ++ 47 ∷ rest))
      ≡ ok (some (record { value = n; rest = 47 ∷ rest }))
unfolding convert
convert-decimal d blanks n rest small fits inside =
    let text = decimal n ++ 47 ∷ rest in
    let width = width_of d (replicate blanks 32 ++ text) in
    ap (convert_signed d width)
      (skip_blanks-replicate blanks text ∙ skip_blanks-decimal n (47 ∷ rest))
    ∙ convert_signed-decimal d width n rest small fits inside

print_int_positive : (v : ℕ) → v < 2 ^ 31 → print_int v ≡ decimal v
unfolding print_int
print_int_positive v h = ground arith

print_int_negative : (v : ℕ) → 2 ^ 31 ≤ v → print_int v ≡ 45 ∷ decimal (2 ^ 32 - v)
unfolding print_int
print_int_negative v h = ground arith

convert-minus :
    (n v : ℕ) (rest : Bytes)
    → n < 10 ^ 20
    → in_range int_field true n ≡ ok v
    → convert int_field (45 ∷ decimal n ++ 47 ∷ rest)
      ≡ ok (some (record { value = v; rest = 47 ∷ rest }))
unfolding convert skip_blanks
convert-minus n v rest small inside =
    let text = decimal n ++ 47 ∷ rest in
    let e : suc (length text) ≡ 1 + length text = omega arith in
    rw e (
      convert_signed-minus int_field (length text) n v rest small
        (omega (arith, length-append (decimal n) (47 ∷ rest))) inside)

in_range-small : (v : ℕ) → v < 2 ^ 31 → in_range int_field false v ≡ ok v
unfolding in_range
in_range-small v h = ground arith

in_range-padded : (v : ℕ) → v < 10 ^ 8 → in_range padded_field false v ≡ ok v
unfolding in_range
in_range-padded v h = ground arith

in_range-minus : (v : ℕ) → 2 ^ 31 ≤ v → v < 2 ^ 32 → in_range int_field true (2 ^ 32 - v) ≡ ok v
unfolding in_range
in_range-minus v h h' = ground arith

in_range-ulonglong : (v : ℕ) → v < 2 ^ 64 → in_range ulonglong_field false v ≡ ok v
unfolding in_range
in_range-ulonglong v h = ground arith

print_int_field : (v : ℕ) → print_field int_field v ≡ print_int v
unfolding print_field
print_int_field v = refl

print_padded_field :
    (v : ℕ) → print_field padded_field v ≡ replicate (8 - length (print_int v)) 32 ++ print_int v
unfolding print_field
print_padded_field v = refl

pub print_ulonglong_field : (v : ℕ) → print_field ulonglong_field v ≡ decimal v
unfolding print_field
print_ulonglong_field v = refl

decimal-fits : (n : ℕ) (rest : Bytes) → length (decimal n) ≤ length (decimal n ++ 47 ∷ rest)
decimal-fits n rest = omega (arith, length-append (decimal n) (47 ∷ rest))

-- A number that is printed before a slash is read back.
abbrev ReadsBack : Directive → Type 0
ReadsBack d =
    (v : ℕ) (rest : Bytes)
    → InField d v
    → convert d (print_field d v ++ 47 ∷ rest) ≡ ok (some (record { value = v; rest = 47 ∷ rest }))

int_field-ReadsBack : ReadsBack int_field
unfolding InField
int_field-ReadsBack v rest h = elim (Bool-cases (ltb v (2 ^ 31))) [
  | inl small ↦
      rw (print_int_field, print_int_positive v (ground arith))
        (convert-decimal int_field 0 v rest (omega arith) (decimal-fits v rest)
          (in_range-small v (ground arith)))
  | inr big ↦
      rw (print_int_field, print_int_negative v (ground arith))
        (convert-minus (2 ^ 32 - v) v rest (omega arith) (in_range-minus v (ground arith) h))
]

padded_field-ReadsBack : ReadsBack padded_field
unfolding InField
padded_field-ReadsBack v rest h =
    let e : print_int v ≡ decimal v = print_int_positive v (omega arith) in
    rw (print_padded_field, e, append_assoc)
      (convert-decimal padded_field (8 - length (decimal v)) v rest (omega arith)
        (length-decimal 7 v h) (in_range-padded v h))

ulonglong_field-ReadsBack : ReadsBack ulonglong_field
unfolding InField
ulonglong_field-ReadsBack v rest h = rw print_ulonglong_field (
    convert-decimal ulonglong_field 0 v rest (omega arith) (decimal-fits v rest)
      (in_range-ulonglong v h))

pub length-print_int : (v : ℕ) → v < 2 ^ 32 → length (print_field int_field v) ≤ 11
length-print_int v h = elim (Bool-cases (ltb v (2 ^ 31))) [
  | inl small ↦
      rw (print_int_field, print_int_positive v (ground arith))
        (omega (arith, length-decimal 9 v (ground arith)))
  | inr big ↦
      rw (print_int_field, print_int_negative v (ground arith))
        (omega (arith, length-decimal 9 (2 ^ 32 - v) (omega arith)))
]

pub length-print_small : (v : ℕ) → v < 10 ^ 5 → length (print_field int_field v) ≤ 5
length-print_small v h =
    rw (print_int_field, print_int_positive v (omega arith)) (length-decimal 4 v h)

pub length-print_ulonglong : (v : ℕ) → v < 2 ^ 64 → length (print_field ulonglong_field v) ≤ 20
length-print_ulonglong v h = rw print_ulonglong_field (length-decimal 19 v (omega arith))

pub length-print_padded : (v : ℕ) → v < 10 ^ 8 → length (print_field padded_field v) ≡ 8
length-print_padded v h =
    let e : print_int v ≡ decimal v = print_int_positive v (omega arith) in
    let short : length (decimal v) ≤ 8 = length-decimal 7 v h in
    rw (print_padded_field, e, length-append, length-replicate) (omega arith)

pub convert-print_field : (d : Directive) → ReadsBack d
convert-print_field int_field = int_field-ReadsBack
convert-print_field padded_field = padded_field-ReadsBack
convert-print_field ulonglong_field = ulonglong_field-ReadsBack

-- All numbers of a format.
unfoldable pub InFields : List Directive → List ℕ → Type 0
InFields [] [] = Unit
InFields [] (v ∷ values) = ⊥
InFields (d ∷ format) [] = ⊥
InFields (d ∷ format) (v ∷ values) = InField d v × InFields format values

-- What `sprintf` wrote, `sscanf` reads back, whatever stands behind it.
pub sscanf-sprintf :
    (format : List Directive) (values : List ℕ) (rest : Bytes)
    → InFields format values
    → sscanf format (sprintf format values ++ rest) ≡ ok values
unfolding InFields sprintf sscanf slash
sscanf-sprintf [] [] rest h = refl
sscanf-sprintf [] (v ∷ values) rest h = absurd h
sscanf-sprintf (d ∷ format) [] rest h = absurd h
sscanf-sprintf (d ∷ format) (v ∷ values) rest (field, fields) =
    rw
      (
        append_assoc,
        convert-print_field d v (sprintf format values ++ rest) field,
        sscanf-sprintf format values rest fields,
      )
      refl

pub sprintf_step :
    (d : Directive) (format : List Directive) (v : ℕ) (values : List ℕ)
    → sprintf (d ∷ format) (v ∷ values) ≡ print_field d v ++ 47 ∷ sprintf format values
unfolding sprintf
sprintf_step d format v values = refl

pub sprintf_nil : sprintf [] [] ≡ []
unfolding sprintf
sprintf_nil = refl

pub length-sprintf_nil : length (sprintf [] []) ≡ 0
unfolding sprintf
length-sprintf_nil = refl

pub length-sprintf_step :
    (d : Directive) (format : List Directive) (v : ℕ) (values : List ℕ)
    → length (sprintf (d ∷ format) (v ∷ values))
      ≡ length (print_field d v) + (1 + length (sprintf format values))
length-sprintf_step d format v values = rw (sprintf_step, length-append) (omega arith)

pub sprintf_into-short :
    (size : ℕ) (format : List Directive) (values : List ℕ)
    → length (sprintf format values) < size
    → sprintf_into size format values ≡ ok (sprintf format values)
unfolding sprintf_into
sprintf_into-short size format values h =
    let e : ltb (length (sprintf format values)) size ≡ true = ground arith in rw e refl
