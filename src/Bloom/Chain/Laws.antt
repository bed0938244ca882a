-- ===== src/Bloom/Chain/Laws.antt =====
-- A chain as a map from keys to filters.
use bloom_server.Base.{
  ℕ, ◌+◌, ◌≡◌, refl, true, false, none, some, All, List, [], ◌∷◌, map, bytes_eq, bytes_eq_refl,
  bytes_eq_sound, if◌then◌else◌, arith, Bool-cases, inl, inr, ap, ◌∙◌,
}
use mathlib.Core.Option
use bloom_server.Bloom.Types.{Bloom, Bytes}
use bloom_server.Bloom.Chain.{find, replace}

pub find-cons_self :
    (q : Bytes) (b : Bloom) (rest : List Bloom)
    → find q (b ∷ rest) ≡ (if bytes_eq b.key q then some b else find q rest)
unfolding find
find-cons_self q b rest = refl

-- No key occurs twice.
abbrev pub Distinct : List Bloom → Type 0
Distinct [] = Unit {0}
Distinct (b ∷ rest) = (find b.key rest ≡ none) × Distinct rest

-- The sum of a measure over a chain.
abbrev pub sum_of : (Bloom → ℕ) → List Bloom → ℕ
sum_of f [] = 0
sum_of f (b ∷ rest) = f b + sum_of f rest

pub find-key :
    (key : Bytes) (chain : List Bloom) (b : Bloom) → find key chain ≡ some b → b.key ≡ key
unfolding find
find-key key [] b h = ground arith
find-key key (c ∷ rest) b h = ground (arith, bytes_eq_sound c.key key, find-key key rest b)

module _ (key : Bytes) (c : Bloom) (same : c.key ≡ key) where
  pub find-replace :
      (q : Bytes) (chain : List Bloom) (b : Bloom)
      → find key chain ≡ some b
      → find q (replace key c chain) ≡ (if bytes_eq key q then some c else find q chain)
  unfolding find replace
  find-replace q [] b h = ground arith
  find-replace q (d ∷ rest) b h = elim (Bool-cases (bytes_eq d.key key)) [
    | inl e ↦ rw (e, same, bytes_eq_sound d.key key e) (ground arith)
    | inr e ↦ elim (Bool-cases (bytes_eq key q)) [
      | inl f ↦
          let k = bytes_eq_sound key q f in
          rw (← k, e, bytes_eq_refl key)
            (ground (arith, bytes_eq_refl key, find-replace key rest b))
      | inr f ↦ ground (arith, find-replace q rest b)
    ]
  ]

  pub find-replace-none :
      (q : Bytes) (chain : List Bloom) → find q chain ≡ none → find q (replace key c chain) ≡ none
  unfolding find replace
  find-replace-none q [] h = refl
  find-replace-none q (d ∷ rest) h =
      ground (arith, bytes_eq_sound d.key key, find-replace-none q rest)

  pub replace-Distinct : (chain : List Bloom) → Distinct chain → Distinct (replace key c chain)
  unfolding replace
  replace-Distinct [] d = d
  replace-Distinct (b ∷ rest) d = elim (Bool-cases (bytes_eq b.key key)) [
    | inl e ↦ rw e (let k = bytes_eq_sound b.key key e in rw (same, ← k) d)
    | inr e ↦ rw e (find-replace-none b.key rest d.0, replace-Distinct rest d.1)
  ]

pub sum_of-replace :
    (f : Bloom → ℕ) (key : Bytes) (c : Bloom) (chain : List Bloom) (b : Bloom)
    → find key chain ≡ some b
    → f c ≡ f b
    → sum_of f (replace key c chain) ≡ sum_of f chain
unfolding find replace
sum_of-replace f key c [] b h e = refl
sum_of-replace f key c (d ∷ rest) b h e = ground (arith, sum_of-replace f key c rest b)

-- What holds of every entry.
module _ (P : Bloom → Type 0) where
  pub find-All :
      (key : Bytes) (chain : List Bloom) (b : Bloom) → All P chain → find key chain ≡ some b → P b
  unfolding find
  find-All key [] b a h = absurd (cc)
  find-All key (c ∷ rest) b a h = elim (Bool-cases (bytes_eq c.key key)) [
    | inl e ↦ let same : c ≡ b = ground arith in rw (← same) a.0
    | inr e ↦ find-All key rest b a.1 (rw e at h)
  ]

  pub replace-All :
      (key : Bytes) (c : Bloom) (chain : List Bloom)
      → P c
      → All P chain
      → All P (replace key c chain)
  unfolding replace
  replace-All key c [] pc a = a
  replace-All key c (b ∷ rest) pc a = elim (Bool-cases (bytes_eq b.key key)) [
    | inl e ↦ rw e (pc, a.1)
    | inr e ↦ rw e (a.0, replace-All key c rest pc a.1)
  ]

pub find_empty : (q : Bytes) → find q [] ≡ none
unfolding find
find_empty q = refl

-- A change of entries that keeps their keys.
pub find-map :
    (f : Bloom → Bloom)
    → ((b : Bloom) → (f b).key ≡ b.key)
    → (q : Bytes) (chain : List Bloom) → find q (map f chain) ≡ Option.map f (find q chain)
unfolding find
find-map f same q [] = refl
find-map f same q (b ∷ rest) = elim (Bool-cases (bytes_eq b.key q)) [
  | inl e ↦
      let k : bytes_eq (f b).key q ≡ true = ap (λ (t : Bytes). bytes_eq t q) (same b) ∙ e in
      rw (k, e)
  | inr e ↦
      let k : bytes_eq (f b).key q ≡ false = ap (λ (t : Bytes). bytes_eq t q) (same b) ∙ e in
      rw (k, e) (find-map f same q rest)
]
