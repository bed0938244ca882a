-- ===== src/Bloom/Chain/Unlink.antt =====
-- `unlink`, the search of blooms_delete, against a reference that removes the first match.
use bloom_server.Bloom.Chain.Laws.{Distinct, sum_of}
use bloom_server.Base.{
  ℕ, ◌+◌, ◌≡◌, refl, ◌↔◌, true, false, Option, none, some, All, List, [], ◌∷◌, bytes_eq,
  bytes_eq_sound, if◌then◌else◌, arith, Option-cases, Bool-cases, inl, inr,
}
use bloom_server.Bloom.Types.{Bloom, Bytes}
use bloom_server.Bloom.Chain.{find, keep, unlink_after, unlink, Unlinked}

-- The reference: the first entry with the key, and the others in their order.
pull : Bytes → List Bloom → Option Unlinked
pull key [] = none
pull key (b ∷ rest) =
    if bytes_eq b.key key
    then some (record { removed = b; chain = rest })
    else keep b (pull key rest)

unlink_after-pull :
    (key : Bytes) (b : Bloom) (rest : List Bloom) → unlink_after key b rest ≡ keep b (pull key rest)
unfolding unlink_after pull keep
unlink_after-pull key b [] = refl
unlink_after-pull key b (next ∷ rest) = elim (Bool-cases (bytes_eq next.key key)) [
  | inl e ↦ rw e
  | inr e ↦ rw (e, unlink_after-pull key next rest)
]

unlink-pull : (key : Bytes) (chain : List Bloom) → unlink key chain ≡ pull key chain
unfolding unlink pull
unlink-pull key [] = refl
unlink-pull key (b ∷ rest) = rw (unlink_after-pull key b rest)

-- A successful `unlink` takes out the entry that `find` finds, and leaves a chain in which every
-- other key is found as before.
pub record Removed (key : Bytes) (chain : List Bloom) (u : Unlinked) : Type 0 where
  pub found : find key chain ≡ some u.removed
  pub others : (q : Bytes) → find q u.chain ≡ (if bytes_eq key q then none else find q chain)
  pub distinct : Distinct u.chain
  pub sums : (f : Bloom → ℕ) → sum_of f u.chain + f u.removed ≡ sum_of f chain

first-Removed :
    (key : Bytes) (b : Bloom) (rest : List Bloom)
    → Distinct (b ∷ rest)
    → bytes_eq b.key key ≡ true
    → Removed key (b ∷ rest) (record { removed = b; chain = rest })
unfolding find
first-Removed key b rest d e =
    let k = bytes_eq_sound b.key key e in
    record {
      found = rw e;
      others = λ q. elim (Bool-cases (bytes_eq key q)) [
        | inl f ↦ rw (f, ← bytes_eq_sound key q f, ← k) d.0
        | inr f ↦ rw (k, f)
      ];
      distinct = d.1;
      sums = λ f. omega arith;
    }

later-Removed :
    (key : Bytes) (b : Bloom) (rest : List Bloom) (u : Unlinked)
    → Distinct (b ∷ rest)
    → bytes_eq b.key key ≡ false
    → Removed key rest u
    → Removed key (b ∷ rest) (record u { chain = b ∷ u.chain })
unfolding find
later-Removed key b rest u d e r = record {
  found = rw e r.found;
  others = λ q. ground (arith, r.others q, bytes_eq_sound key q);
  distinct = (ground (arith, r.others b.key, d.0), r.distinct);
  sums = λ f. omega (arith, r.sums f);
}

pull-Removed :
    (key : Bytes) (chain : List Bloom) (u : Unlinked)
    → Distinct chain
    → pull key chain ≡ some u
    → Removed key chain u
unfolding pull keep
pull-Removed key [] u d h = absurd (cc)
pull-Removed key (b ∷ rest) u d h = elim (Bool-cases (bytes_eq b.key key)) [
  | inl e ↦
      let same : record { removed = b; chain = rest } ≡ u = ground arith in
      rw (← same) (first-Removed key b rest d e)
  | inr e ↦ elim (Option-cases (pull key rest)) [
    | inl f ↦ absurd (ground arith)
    | inr (v, f) ↦
        let same : record v { chain = b ∷ v.chain } ≡ u = ground arith in
        rw (← same) (later-Removed key b rest v d e (pull-Removed key rest v d.1 f))
  ]
]

-- In a chain of different keys, when the search of `blooms_delete` unlinks an entry, that entry is
-- the one that `find` finds for the key, every other key is found in what is left as before, the
-- keys there are still different, and every sum over the chain drops by the entry alone.
pub unlink-Removed :
    (key : Bytes) (chain : List Bloom) (u : Unlinked)
    → Distinct chain
    → unlink key chain ≡ some u
    → Removed key chain u
unlink-Removed key chain u d h = pull-Removed key chain u d (rw unlink-pull at h)

-- `unlink` finds nothing exactly where `find` finds nothing.
pull-eq-none :
    (key : Bytes) (chain : List Bloom) → (pull key chain ≡ none) ↔ (find key chain ≡ none)
unfolding pull find keep
pull-eq-none key [] = (λ _. refl, λ _. refl)
pull-eq-none key (b ∷ rest) = ground (arith, pull-eq-none key rest)

pub unlink-eq-none :
    (key : Bytes) (chain : List Bloom) → (unlink key chain ≡ none) ↔ (find key chain ≡ none)
unlink-eq-none key chain = rw unlink-pull (pull-eq-none key chain)

module _ (P : Bloom → Type 0) where
  pull-All :
      (key : Bytes) (chain : List Bloom) (u : Unlinked)
      → All P chain
      → pull key chain ≡ some u
      → P u.removed × All P u.chain
  unfolding pull keep
  pull-All key [] u a h = absurd (cc)
  pull-All key (b ∷ rest) u a h = elim (Bool-cases (bytes_eq b.key key)) [
    | inl e ↦ let same : record { removed = b; chain = rest } ≡ u = ground arith in rw (← same) a
    | inr e ↦ elim (Option-cases (pull key rest)) [
      | inl f ↦ absurd (ground arith)
      | inr (v, f) ↦
          let same : record v { chain = b ∷ v.chain } ≡ u = ground arith in
          let (x, xs) = pull-All key rest v a.1 f in rw (← same) (x, (a.0, xs))
    ]
  ]

  pub unlink-All :
      (key : Bytes) (chain : List Bloom) (u : Unlinked)
      → All P chain
      → unlink key chain ≡ some u
      → P u.removed × All P u.chain
  unlink-All key chain u a h = pull-All key chain u a (rw unlink-pull at h)
