-- ===== src/Content/Format/Convert.antt =====
-- A printed number before a slash is read whole by one conversion.
use bloom_server.Base.{
  ℕ, zero, suc, ◌+◌, ◌-◌, ◌^◌, ◌≤◌, ◌<◌, ◌≡◌, refl, true, false, some, ◌∷◌, ◌++◌, arith, length,
  replicate, ap, sym, ◌∙◌,
}
use bloom_server.Base.Run.{ok}
use bloom_server.Bloom.Types.{Bytes}
use bloom_server.Words.{is_digit}
use bloom_server.Content.Format.Digits.{decimal-digit, decimal-eq, scan_unsigned-decimal}
use bloom_server.Content.Format.{
  Directive, decimal, skip_blanks, scan_unsigned, in_range, finish, convert_signed,
}

pub skip_blanks-digit : (c : ℕ) (cs : Bytes) → is_digit c ≡ true → skip_blanks (c ∷ cs) ≡ c ∷ cs
unfolding skip_blanks
skip_blanks-digit c cs digit = ground arith

pub skip_blanks-replicate :
    (n : ℕ) (text : Bytes) → skip_blanks (replicate n 32 ++ text) ≡ skip_blanks text
unfolding skip_blanks
skip_blanks-replicate zero text = refl
skip_blanks-replicate (suc n) text = skip_blanks-replicate n text

pub skip_blanks-decimal :
    (n : ℕ) (text : Bytes) → skip_blanks (decimal n ++ text) ≡ decimal n ++ text
skip_blanks-decimal n text =
    let (c, cs, e, digit) = decimal-digit 19 n in
    rw (decimal-eq, e) (skip_blanks-digit c (cs ++ text) digit)

pub convert_signed-digit :
    (d : Directive) (width c : ℕ) (cs : Bytes)
    → is_digit c ≡ true
    → convert_signed d width (c ∷ cs) ≡ finish d false (scan_unsigned width (c ∷ cs))
unfolding convert_signed
convert_signed-digit d width c cs digit = ground arith

pub convert_signed-decimal :
    (d : Directive) (width n : ℕ) (rest : Bytes)
    → n < 10 ^ 20
    → length (decimal n) ≤ width
    → in_range d false n ≡ ok n
    → convert_signed d width (decimal n ++ 47 ∷ rest)
      ≡ ok (some (record { value = n; rest = 47 ∷ rest }))
unfolding finish
convert_signed-decimal d width n rest small fits inside =
    let (c, cs, e, digit) = decimal-digit 19 n in
    let text = decimal n ++ 47 ∷ rest in
    let first : text ≡ c ∷ (cs ++ 47 ∷ rest) = rw (decimal-eq, e) refl in
    ap (convert_signed d width) first
    ∙ convert_signed-digit d width c (cs ++ 47 ∷ rest) digit
    ∙ ap (λ t. finish d false (scan_unsigned width t)) (sym first)
    ∙ rw (scan_unsigned-decimal n width rest small fits, inside) refl

pub convert_signed-minus :
    (d : Directive) (width n v : ℕ) (rest : Bytes)
    → n < 10 ^ 20
    → length (decimal n) ≤ width
    → in_range d true n ≡ ok v
    → convert_signed d (1 + width) (45 ∷ decimal n ++ 47 ∷ rest)
      ≡ ok (some (record { value = v; rest = 47 ∷ rest }))
unfolding finish convert_signed
convert_signed-minus d width n v rest small fits inside =
    let e : 1 + width - 1 ≡ width = omega arith in
    rw (e, scan_unsigned-decimal n width rest small fits, inside) refl
