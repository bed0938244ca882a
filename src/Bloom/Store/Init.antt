-- ===== src/Bloom/Store/Init.antt =====
-- blooms_init makes a valid, empty table.
use bloom_server.Base.{ℕ, ◌<◌, ◌^◌, ◌≡◌, refl, true, none, arith}
use bloom_server.Bloom.Types.{Blooms, Bytes}
use bloom_server.Bloom.Platform.{Platform}
use bloom_server.Bloom.Process.{Globals, at_rest, done}
use bloom_server.Bloom.Store.{sizeof_blooms, empty_blooms, blooms_init}
use bloom_server.Bloom.Store.Table.{view, view_empty, total_empty}
use bloom_server.Bloom.Store.Valid.{IsValid}

pub empty-IsValid : (max : ℕ) → max < 2 ^ 38 → IsValid (empty_blooms max)
empty-IsValid max h = record {
  power = refl;
  entries = λ hv. tt;
  distinct = λ hv. tt;
  counted = total_empty (λ b. 1) _;
  accounted = total_empty (λ b. b.bytes) _;
  within = omega arith;
  limit = h;
}

-- With memory for the table, `blooms_init` returns 0, frees the three locks whatever their state
-- was, and leaves a valid table with no filter under any name.
pub blooms_init_lem :
    (p : Platform) (max : ℕ) (s : Globals)
    → p.malloc sizeof_blooms ≡ true
    → max < 2 ^ 38
    → (bs : Blooms) × (blooms_init p max s ≡ done 0 (at_rest bs s.file))
      × IsValid bs
      × ((q : Bytes) → view bs q ≡ none)
unfolding blooms_init
blooms_init_lem p max s memory h =
    (empty_blooms max, rw memory, empty-IsValid max h, λ q. view_empty _ (λ hv. refl) q)
