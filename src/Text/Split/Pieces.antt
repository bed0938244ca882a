-- ===== src/Text/Split/Pieces.antt =====
-- The pieces of a string, and the room in the array of their pointers.
use bloom_server.Base.{
  ℕ, zero, suc, ◌+◌, ◌*◌, ◌≤◌, ◌<◌, ◌≡◌, refl, sym, ap, ◌∙◌, Bool, true, false, take, length-take,
  Option, none, some, List, [], ◌∷◌, ◌++◌, length, All, ltb, leb, ◌==◌, if◌then◌else◌, arith,
  Bool-cases, Option-cases, inl, inr, ◌^◌, u32,
}
use bloom_server.Base.Run.{Run, ok}
use bloom_server.Bloom.Types.{Bytes}
use bloom_server.Text.Trim.{right_loop, left_loop}
use bloom_server.Text.Split.{static_alloc, c_string, cut, split_loop, trimmed, split_inplace, split}

-- The pieces with the separator between them.
abbrev pub join : ℕ → List Bytes → Bytes
join separator [] = []
join separator (p ∷ []) = p
join separator (p ∷ (q ∷ ps)) = p ++ (separator ∷ join separator (q ∷ ps))

abbrev pub Lacks : ℕ → Bytes → Type 0
Lacks separator p = All (λ c. (c == separator) ≡ false) p

record Cut (separator : ℕ) (s : Bytes) (r : Bytes × Bytes) : Type 0 where
  whole : c_string s ≡ r.0 ++ (separator ∷ c_string r.1)
  shorter : length r.1 < length s
  clean : Lacks separator r.0

-- What `cut` finds in a string.
CutOf : ℕ → Bytes → Option (Bytes × Bytes) → Type 0
CutOf separator s none = Lacks separator (c_string s)
CutOf separator s (some r) = Cut separator s r

cut-CutOf :
    (separator : ℕ) (s : Bytes) → (separator == 0) ≡ false → CutOf separator s (cut separator s)
unfolding CutOf
cut-CutOf separator [] nonzero = tt
cut-CutOf separator (c ∷ s) nonzero = elim (Bool-cases (c == separator)) [
  | inl found ↦
      let same : c ≡ separator = ground arith in
      let there : (c == 0) ≡ false = ground arith in
      let whole : c_string (c ∷ s) ≡ separator ∷ c_string s =
        rw there (ap (λ (x : ℕ). x ∷ c_string s) same) in
      rw found (record { whole = whole; shorter = omega arith; clean = tt })
  | inr other ↦ elim (Bool-cases (c == 0)) [
    | inl stop ↦
        let nothing : c_string (c ∷ s) ≡ [] = rw stop refl in
        let clean : Lacks separator (c_string (c ∷ s)) = rw nothing tt in rw (other, stop) clean
    | inr inside ↦ elim (Option-cases (cut separator s)) [
      | inl missing ↦
          let rest = rw missing at (cut-CutOf separator s nonzero) in
          let whole : c_string (c ∷ s) ≡ c ∷ c_string s = rw inside refl in
          let clean : Lacks separator (c_string (c ∷ s)) = rw whole (other, rest) in
          rw (other, inside, missing) clean
      | inr (r, there) ↦
          let rest = rw there at (cut-CutOf separator s nonzero) in
          let whole : c_string (c ∷ s) ≡ c ∷ (r.0 ++ (separator ∷ c_string r.1)) =
            rw inside (ap (λ (t : Bytes). c ∷ t) rest.whole) in
          rw (other, inside, there)
            (record {
              whole = whole;
              shorter = omega (arith, rest.shorter);
              clean = (other, rest.clean);
            })
    ]
  ]
]

-- The result of a loop over `p`.
record Pieces (separator : ℕ) (p : Bytes) (run : Run (List Bytes)) : Type 0 where
  head : Bytes
  tail : List Bytes
  returns : run ≡ ok (head ∷ tail)
  joined : join separator (head ∷ tail) ≡ c_string p
  clean : All (λ q. Lacks separator q) (head ∷ tail)

-- The array has room for the next pointer, and with the memory for it grows before it is full.
split_loop-Pieces :
    (fuel separator size real index : ℕ) (p : Bytes)
    → (separator == 0) ≡ false
    → length p < fuel
    → size * 8 ≤ real
    → index < size
    → size ≤ index + 128
    → index + length p ≤ 2 ^ 27
    → Pieces separator p (split_loop fuel separator size real index p)
unfolding CutOf
split_loop-Pieces zero separator size real index p nonzero f room below near short =
    absurd (omega arith)
split_loop-Pieces (suc fuel) separator size real index p nonzero f room below near short =
    elim (Option-cases (cut separator p)) [
      | inl missing ↦
          let alone = rw missing at (cut-CutOf separator p nonzero) in
          rw (split_loop, missing, nonzero)
            (record {
              head = c_string p;
              tail = [];
              returns = refl;
              joined = refl;
              clean = (alone, tt);
            })
      | inr (r, there) ↦
          let k = rw there at (cut-CutOf separator p nonzero) in
          let shorter : length r.1 < fuel = omega (arith, f, k.shorter) in
          let fits : ltb real (suc index * 8) ≡ false = ground arith in
          let full = leb size (suc index) in
          let new_size = if full then u32 (size + 128) else size in
          let new_real = if full then static_alloc real (u32 (new_size * 8)) else real in
          let roomy : new_size * 8 ≤ new_real = ground arith in
          let under : suc index < new_size = ground arith in
          let rest =
            split_loop-Pieces fuel separator new_size new_real (suc index) r.1 nonzero shorter roomy
              under (ground arith) (omega (arith, short, k.shorter)) in
          rw (split_loop, there, fits, rest.returns)
            (record {
              head = r.0;
              tail = rest.head ∷ rest.tail;
              returns = refl;
              joined = ap (λ (t : Bytes). r.0 ++ (separator ∷ t)) rest.joined ∙ sym k.whole;
              clean = (k.clean, rest.clean);
            })
    ]

length-left_loop : (set s : Bytes) → length (left_loop set s) ≤ length s
length-left_loop set [] = omega arith
length-left_loop set (c ∷ s) = ground (arith, length-left_loop set s)

length-right_loop : (set : Bytes) (n : ℕ) (s : Bytes) → length (right_loop set n s) ≤ length s
length-right_loop set zero s = omega arith
length-right_loop set (suc n) s =
    ground (arith, length-right_loop set n (take n s), length-take n s)

length-trimmed :
    (separator : ℕ) (trim : Bool) (s : Bytes) → length (trimmed separator trim s) ≤ length s
length-trimmed separator false s = omega arith
length-trimmed separator true s =
    let set = separator ∷ [] in
    omega (
      arith,
      length-left_loop set (right_loop set (length s) s),
      length-right_loop set (length s) s,
    )

-- `split` of a string of less than 2 ^ 27 bytes with a separator that is not zero never writes beyond
-- an array: it gives at least one piece, the pieces with the separator between them are the string up
-- to its first zero byte (without the separators at its ends, if it is asked to trim), and no piece
-- contains the separator.
pub split-join :
    (s : Bytes) (separator : ℕ) (trim : Bool)
    → (separator == 0) ≡ false
    → length s < 2 ^ 27
    → (head : Bytes) × (tail : List Bytes) × (split s separator trim ≡ ok (head ∷ tail))
      × (join separator (head ∷ tail) ≡ c_string (trimmed separator trim s))
      × All (λ q. Lacks separator q) (head ∷ tail)
unfolding split split_inplace
split-join s separator trim nonzero small =
    let first = trimmed separator trim s in
    let k =
      split_loop-Pieces (suc (length first)) separator 128 1025 1 first nonzero (omega arith)
        (omega arith) (omega arith) (omega arith)
        (omega (arith, small, length-trimmed separator trim s)) in
    let copy : ltb (u32 (length s + 512)) (length s + 1) ≡ false = ground arith in
    (k.head, k.tail, rw (copy, k.returns) refl, k.joined, k.clean)
