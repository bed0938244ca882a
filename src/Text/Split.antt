-- ===== src/Text/Split.antt =====
-- split_inplace, split and static_alloc of src/tools/util.cpp, on strings that may hold zero bytes,
-- where a C string ends. Sizes are `int`s.
pub mod Pieces
use bloom_server.Base.{
  ℕ, zero, suc, ◌+◌, ◌*◌, Bool, true, false, Option, none, some, List, [], ◌∷◌, length, ltb, leb,
  ◌==◌, if◌then◌else◌, ◌^◌, ◌&&◌, u32,
}
use bloom_server.Base.Run.{Run, ok, fault, buffer_overflow, out_of_range, ◌>>=◌}
use bloom_server.Bloom.Types.{Bytes}
use bloom_server.Text.Trim.{right_loop, left_loop}

-- The size that the memory has after `static_alloc(tmp, tmp_size, new_size)`; a negative `new_size`
-- is less than the size.
abbrev pub static_alloc : ℕ → ℕ → ℕ
static_alloc tmp_size new_size =
    let at_least = if tmp_size == 0 then 16 else tmp_size in
    if ltb new_size (2 ^ 31) && ltb at_least new_size then new_size + 1 else at_least

-- The C string that starts here.
abbrev pub c_string : Bytes → Bytes
c_string [] = []
c_string (c ∷ s) = let rest = c_string s in if c == 0 then [] else c ∷ rest

-- The string before the separator that `strchr` finds, and the bytes behind it.
abbrev pub cut : ℕ → Bytes → Option (Bytes × Bytes)
cut separator [] = none
cut separator (c ∷ s) =
    let rest = cut separator s in
    if c == separator
    then some ([], s)
    else if c == 0
    then none
    else elim rest [ none ↦ none | some r ↦ some (c ∷ r.0, r.1) ]

-- The loop, from the string `p` whose pointer is the last one of the array: the strings from there
-- on. `size` and `real` are split_array_size and split_array_real_size; a pointer has eight bytes.
-- `strchr` finds a zero, too, at the end of the string at the latest, so that the loop for the
-- separator zero leaves the memory.
abbrev pub split_loop : ℕ → ℕ → ℕ → ℕ → ℕ → Bytes → Run (List Bytes)
split_loop zero separator size real index p = ok (c_string p ∷ [])
split_loop (suc fuel) separator size real index p = elim (cut separator p) [
  | none ↦ if separator == 0 then fault out_of_range else ok (c_string p ∷ [])
  | some r ↦
      let full = leb size (suc index) in
      let new_size = if full then u32 (size + 128) else size in
      let new_real = if full then static_alloc real (u32 (new_size * 8)) else real in
      let rest = split_loop fuel separator new_size new_real (suc index) r.1 in
      if ltb real (suc index * 8) then fault buffer_overflow else rest >>= (λ ps. ok (r.0 ∷ ps))
]

-- The string whose pieces are wanted.
abbrev pub trimmed : ℕ → Bool → Bytes → Bytes
trimmed separator trim s =
    if trim then left_loop (separator ∷ []) (right_loop (separator ∷ []) (length s) s) else s

-- The strings that `splitted` points to, and `count` of them.
unfoldable pub split_inplace : Bytes → ℕ → Bool → Run (List Bytes)
split_inplace s separator trim =
    let first = trimmed separator trim s in
    let real = static_alloc 0 (128 * 8) in
    if ltb real 8
    then fault buffer_overflow
    else split_loop (suc (length first)) separator 128 real 1 first

-- The copy has room for the string and its zero byte.
unfoldable pub split : Bytes → ℕ → Bool → Run (List Bytes)
split s separator trim =
    let split_buffer_size = u32 (length s + 512) in
    if ltb split_buffer_size (length s + 1)
    then fault buffer_overflow
    else split_inplace s separator trim
