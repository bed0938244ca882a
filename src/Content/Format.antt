-- ===== src/Content/Format.antt =====
-- What src/module/LocalDbManager.cpp and PageManager.cpp use of `sprintf` and `sscanf`: formats whose
-- parts are a number and a slash. An `int` and an `unsigned long long` are bit patterns.
pub mod Digits
pub mod Convert
pub mod Laws
use bloom_server.Base.{
  ℕ, zero, suc, ◌+◌, ◌-◌, ◌*◌, ◌/◌, ◌%◌, ◌^◌, Bool, true, false, ◌&&◌, ◌||◌, Option, none, some,
  List, [], ◌∷◌, ◌++◌, length, drop, get_or, replicate, ltb, leb, ◌==◌, if◌then◌else◌, u32, u64,
}
use bloom_server.Base.Run.{Run, ok, fault, buffer_overflow, out_of_range, ◌>>=◌}
use bloom_server.Bloom.Types.{Bytes}
use bloom_server.Words.{is_digit}

-- %d, %8d and %llu, each before a slash.
pub data Directive : Type 0 where
  int_field padded_field ulonglong_field : Directive

-- The digits of a number below 10 ^ fuel.
unfoldable pub decimal_from : ℕ → ℕ → Bytes
decimal_from zero n = []
decimal_from (suc fuel) n =
    let front = decimal_from fuel (n / 10) in
    if ltb n 10 then (48 + n) ∷ [] else front ++ ((48 + n % 10) ∷ [])

-- 2 ^ 64 has twenty digits.
unfoldable pub decimal : ℕ → Bytes
decimal n = decimal_from 20 n

unfoldable pub print_int : ℕ → Bytes
print_int v = if ltb v (2 ^ 31) then decimal v else 45 ∷ decimal (2 ^ 32 - v)

unfoldable pub print_field : Directive → ℕ → Bytes
print_field int_field v = print_int v
print_field padded_field v = replicate (8 - length (print_int v)) 32 ++ print_int v
print_field ulonglong_field v = decimal v

unfoldable pub sprintf : List Directive → List ℕ → Bytes
sprintf [] values = []
sprintf (d ∷ format) [] = []
sprintf (d ∷ format) (v ∷ values) = print_field d v ++ 47 ∷ sprintf format values

-- `sprintf` into an array of so many bytes, the zero behind the text included.
unfoldable pub sprintf_into : ℕ → List Directive → List ℕ → Run Bytes
sprintf_into size format values =
    let text = sprintf format values in
    if ltb (length text) size then ok text else fault buffer_overflow

abbrev pub is_blank : ℕ → Bool
is_blank c = (c == 32) || (leb 9 c && leb c 13)

unfoldable pub skip_blanks : Bytes → Bytes
skip_blanks [] = []
skip_blanks (c ∷ text) = let rest = skip_blanks text in if is_blank c then rest else c ∷ text

-- What a conversion has read, and where it stopped.
pub record Scanned : Type 0 where
  pub value : ℕ
  pub rest : Bytes

-- At most `width` digits, behind digits that stand for `acc`.
unfoldable pub scan_digits : ℕ → ℕ → Bytes → Scanned
scan_digits zero acc text = record { value = acc; rest = text }
scan_digits (suc width) acc [] = record { value = acc; rest = [] }
scan_digits (suc width) acc (c ∷ text) =
    let more = scan_digits width (acc * 10 + (c - 48)) text in
    if is_digit c then more else record { value = acc; rest = c ∷ text }

-- A number needs a digit.
unfoldable pub scan_unsigned : ℕ → Bytes → Option Scanned
scan_unsigned zero text = none
scan_unsigned (suc width) [] = none
scan_unsigned (suc width) (c ∷ text) =
    if is_digit c then some (scan_digits (suc width) 0 (c ∷ text)) else none

abbrev pub width_of : Directive → Bytes → ℕ
width_of int_field text = length text
width_of padded_field text = 8
width_of ulonglong_field text = length text

-- The value of a number with that sign. A number that the type does not have is left undefined by C.
unfoldable pub in_range : Directive → Bool → ℕ → Run ℕ
in_range ulonglong_field negative n =
    if ltb n (2 ^ 64) then ok (if negative then u64 (2 ^ 64 - n) else n) else fault out_of_range
in_range int_field true n = if leb n (2 ^ 31) then ok (u32 (2 ^ 32 - n)) else fault out_of_range
in_range int_field false n = if ltb n (2 ^ 31) then ok n else fault out_of_range
in_range padded_field true n = if leb n (2 ^ 31) then ok (u32 (2 ^ 32 - n)) else fault out_of_range
in_range padded_field false n = if ltb n (2 ^ 31) then ok n else fault out_of_range

unfoldable pub finish : Directive → Bool → Option Scanned → Run (Option Scanned)
finish d negative none = ok none
finish d negative (some s) =
    in_range d negative s.value >>= (λ v. ok (some (record { value = v; rest = s.rest })))

-- One conversion, after the blanks: `none` if no number stands there.
unfoldable pub convert_signed : Directive → ℕ → Bytes → Run (Option Scanned)
convert_signed d width [] = ok none
convert_signed d width (c ∷ text) =
    if c == 45
    then finish d true (scan_unsigned (width - 1) text)
    else if c == 43
    then finish d false (scan_unsigned (width - 1) text)
    else finish d false (scan_unsigned width (c ∷ text))

unfoldable pub convert : Directive → Bytes → Run (Option Scanned)
convert d text = convert_signed d (width_of d text) (skip_blanks text)

-- Past the slash, if it is there.
unfoldable pub slash : Bytes → Option Bytes
slash [] = none
slash (c ∷ text) = if c == 47 then some text else none

-- The values that `sscanf` assigns; it stops at the first part that the text does not match.
unfoldable pub sscanf : List Directive → Bytes → Run (List ℕ)
sscanf [] text = ok []
sscanf (d ∷ format) text = convert d text >>= (λ found. elim found [
  | none ↦ ok []
  | some s ↦ elim (slash s.rest) [
    | none ↦ ok (s.value ∷ [])
    | some rest ↦ sscanf format rest >>= (λ values. ok (s.value ∷ values))
  ]
])

-- `buf += ret`, in a text that has so many bytes.
unfoldable pub advance : ℕ → Bytes → Run Bytes
advance n text = if leb n (length text) then ok (drop n text) else fault out_of_range
