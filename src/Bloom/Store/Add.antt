-- ===== src/Bloom/Store/Add.antt =====
-- blooms_add: what it returns and what it leaves, on every branch.
use bloom_server.Bloom.Store.Fresh.{IsFresh, bloom_init-IsFresh, bloom_init-ok}
use bloom_server.Base.{
  ℕ, ◌+◌, ◌^◌, ◌<◌, ◌≡◌, refl, inl, inr, true, Option, some, none, List, ◌∷◌, All, length,
  if◌then◌else◌, arith, bytes_eq, u64, u32, Option-cases,
}
use bloom_server.Base.Run.{ok}
use bloom_server.Bloom.Types.{Bloom, Blooms, Bytes, Double}
use bloom_server.Bloom.Platform.{Platform}
use bloom_server.Bloom.Chain
use bloom_server.Bloom.Chain.Laws.{Distinct, find-cons_self}
use bloom_server.Bloom.Process.{at_rest, done, ◌>>=◌, lift}
use bloom_server.Bloom.Buckets.{hash_power, blooms_len, max_key_len, bucket, write}
use bloom_server.Bloom.Create.{bloom_init}
use bloom_server.Bloom.Store.{blooms_add}
use bloom_server.Bloom.Store.Table.{bucket-lt, view, total-write, find-write}
use bloom_server.Bloom.Store.Valid.{IsEntry, IsValid, IsValid-few, write_each}
use bloom_server.Bloom.Store.Update.{chain_at-view}

-- The table with the entry `b` before the chain of the key.
abbrev pub with_new : Blooms → Bytes → Bloom → Blooms
with_new bs key b =
    let hv = bucket bs.power key in
    record bs {
      hashtable = write bs.hashtable hv (b ∷ bs.hashtable hv);
      count = u32 (bs.count + 1);
      bytes = u64 (bs.bytes + b.bytes);
    }

find-cons :
    (key : Bytes) (b : Bloom) (chain : List Bloom)
    → b.key ≡ key
    → (q : Bytes)
    → Chain.find q (b ∷ chain) ≡ (if bytes_eq key q then some b else Chain.find q chain)
find-cons key b chain named q = rw (← named) (find-cons_self q b chain)

module _ {bs : Blooms} {key : Bytes} {n : ℕ} {e : Double} {b : Bloom} (v : IsValid bs)
    (absent : view bs key ≡ none) (fresh : IsFresh bs key n e b) where
  view-with_new :
      (q : Bytes) → view (with_new bs key b) q ≡ (if bytes_eq key q then some b else view bs q)
  unfolding view
  view-with_new =
      find-write bs.hashtable bs.power key _ (some b)
        (find-cons key b (bs.hashtable (bucket bs.power key)) fresh.named)

  pub with_new-IsValid : IsValid (with_new bs key b)
  with_new-IsValid =
      let hv = bucket bs.power key in
      let chain = bs.hashtable hv in
      let home : bucket hash_power b.key ≡ hv = rw (fresh.named, v.power) in
      let inside : hv < blooms_len = rw v.power (bucket-lt key) in
      let alone : Chain.find b.key chain ≡ none = rw fresh.named (unfold view in absent) in
      record {
        power = v.power;
        entries =
            write_each (λ i l. All (IsEntry i) l) bs.hashtable hv (b ∷ chain)
              (record { filter = fresh.filter; home = home; large = fresh.large }, v.entries hv)
              v.entries;
        distinct =
            write_each (λ i l. Distinct l) bs.hashtable hv (b ∷ chain) (alone, v.distinct hv)
              v.distinct;
        counted = omega (
          arith,
          total-write (λ x. 1) bs.hashtable hv (b ∷ chain) blooms_len inside,
          v.counted,
          IsValid-few bs v,
        );
        accounted = omega (
          arith,
          total-write (λ x. x.bytes) bs.hashtable hv (b ∷ chain) blooms_len inside,
          v.accounted,
          v.within,
          v.limit,
          fresh.fits,
        );
        within = omega (arith, v.within, v.limit, fresh.fits);
        limit = v.limit;
      }

-- The three results of `blooms_add`, with the table that each leaves.
pub data Added (bs : Blooms) (key : Bytes) (n : ℕ) (e : Double) (r : ℕ) (bs' : Blooms)
    : Type 0 where
  exists : (b : Bloom) → view bs key ≡ some b → r ≡ 1 → bs' ≡ bs → Added bs key n e r bs'
  refused : view bs key ≡ none → r ≡ 2 → bs' ≡ bs → Added bs key n e r bs'
  added :
      (b : Bloom)
      → view bs key ≡ none
      → r ≡ 0
      → IsFresh bs key n e b
      → IsValid bs'
      → ((q : Bytes) → view bs' q ≡ (if bytes_eq key q then some b else view bs q))
      → Added bs key n e r bs'

module _ (p : Platform) (bs : Blooms) (file : Option Bytes) (key : Bytes) (n : ℕ) (e : Double)
    (v : IsValid bs) (memory : (words : ℕ) → p.new_words words ≡ true)
    (short : length key < max_key_len) (pos : 0 < n) (small : n < 2 ^ 57) where
  blooms_add-absent :
      view bs key ≡ none
      → (r : ℕ) × (bs' : Blooms) × (blooms_add p key n e (at_rest bs file)
          ≡ done r (at_rest bs' file))
        × Added bs key n e r bs'
  blooms_add-absent h = let (o, run) = bloom_init-ok p bs key n e memory short in made o run
    where
      made :
          (o : Option Bloom)
          → bloom_init p bs key n e ≡ ok o
          → (r : ℕ) × (bs' : Blooms) × (blooms_add p key n e (at_rest bs file)
              ≡ done r (at_rest bs' file))
            × Added bs key n e r bs'
      made none run = (
        2,
        bs,
        unfold blooms_add view in rw (chain_at-view bs key v, h, run, ◌>>=◌, lift),
        refused h refl refl,
      )
      made (some b) run =
          let fresh = bloom_init-IsFresh p bs key n e b pos small run in
          (
            0,
            with_new bs key b,
            unfold blooms_add view in rw (chain_at-view bs key v, h, run, ◌>>=◌, lift),
            added b h refl fresh (with_new-IsValid v h fresh) (view-with_new v h fresh),
          )

  -- On a valid table, for a name of less than 32 bytes and 0 < n < 2 ^ 57, and with memory for the
  -- words of a filter, `blooms_add` ends with every lock free. It returns 1 and changes nothing if
  -- the name is taken, 2 and changes nothing if the filter is refused, and otherwise 0: then the
  -- name has a new filter with no bit set, every other name has what it had, and the table is valid.
  pub blooms_add-Added :
      (r : ℕ) × (bs' : Blooms) × (blooms_add p key n e (at_rest bs file)
        ≡ done r (at_rest bs' file))
      × Added bs key n e r bs'
  blooms_add-Added = elim (Option-cases (view bs key)) [
    | inl h ↦ blooms_add-absent h
    | inr (b, h) ↦ (
      1,
      bs,
      unfold blooms_add view in rw (chain_at-view bs key v, h, ◌>>=◌, lift),
      exists b h refl refl,
    )
  ]
