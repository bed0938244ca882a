-- ===== src/Text/Trim.antt =====
-- strrtrim, strltrim and strtrim of src/tools/util.cpp. Each takes and returns null as none.
pub mod Laws
use bloom_server.Base.{
  ℕ, zero, suc, Bool, true, false, ◌||◌, Option, none, some, List, [], ◌∷◌, length, take, get_or,
  ◌==◌, if◌then◌else◌,
}
use bloom_server.Bloom.Types.{Bytes}

-- `strchr(set, c)` for a character that is not zero.
abbrev pub in_set : Bytes → ℕ → Bool
in_set [] c = false
in_set (x ∷ xs) c = (c == x) || in_set xs c

-- The characters to remove if the caller names none.
abbrev pub right_set : Option Bytes → Bytes
right_set none = 32 ∷ (9 ∷ (10 ∷ (13 ∷ [])))
right_set (some set) = set

abbrev pub left_set : Option Bytes → Bytes
left_set none = 32 ∷ (9 ∷ (13 ∷ (10 ∷ [])))
left_set (some set) = set

-- The loop with `end` behind so many characters; a zero byte at `end` ends the string there.
abbrev pub right_loop : Bytes → ℕ → Bytes → Bytes
right_loop set zero s = s
right_loop set (suc n) s =
    let rest = right_loop set n (take n s) in if in_set set (get_or s n 0) then rest else s

abbrev pub left_loop : Bytes → Bytes → Bytes
left_loop set [] = []
left_loop set (c ∷ s) = let rest = left_loop set s in if in_set set c then rest else c ∷ s

unfoldable pub strrtrim : Option Bytes → Option Bytes → Option Bytes
strrtrim none trim = none
strrtrim (some s) trim = some (right_loop (right_set trim) (length s) s)

unfoldable pub strltrim : Option Bytes → Option Bytes → Option Bytes
strltrim none trim = none
strltrim (some s) trim = some (left_loop (left_set trim) s)

unfoldable pub strtrim : Option Bytes → Option Bytes → Option Bytes
strtrim s trim = strltrim (strrtrim s trim) trim
