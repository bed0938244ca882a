-- ===== src/Server/Laws.antt =====
-- What a client of the service sees.
use bloom_server.Bloom.Platform.{Murmur}
use bloom_server.Base.{
  ℕ, ◌≡◌, refl, true, Option, none, some, List, [], ◌∷◌, map, All, arith, bytes_eq_refl,
}
use bloom_server.Bloom.Types.{Bloom, Blooms, Bytes}
use bloom_server.Bloom.Platform.{Platform}
use bloom_server.Bloom.Filter.Laws.{contains, contains-Inserted_self, contains-Inserted_mono}
use bloom_server.Bloom.Process.{Globals, at_rest, done, ◌>>=◌}
use bloom_server.Bloom.Store.{sizeof_blooms}
use bloom_server.Bloom.Store.Table.{view}
use bloom_server.Bloom.Store.Valid.{IsValid}
use bloom_server.Bloom.Store.Init.{blooms_init_lem}
use bloom_server.Bloom.Store.Set.{blooms_set-missing, blooms_set-SetDone}
use bloom_server.Bloom.Store.Get.{contains-Counted, blooms_get-missing, blooms_get-GetDone}
use bloom_server.Bloom.Archive.{Boost}
use bloom_server.Server.{
  c_str, minus_one, Element, fill, get, initialize, serv_handler, choose_start,
}

-- Every url of the request, in order, with the same verdict.
abbrev pub all_with : ℕ → List Bytes → List Element
all_with r urls = map (λ u. record { is_exist = r; url = u }) urls

module _ ⦃murmur : Murmur⦄ where
  module _ (file : Option Bytes) (key : Bytes) where
    -- On a valid table, `fill` of a name without a filter marks every url 1 and changes nothing.
    pub fill-missing :
        (urls : List Bytes) (bs : Blooms)
        → IsValid bs
        → view bs (c_str key) ≡ none
        → fill key urls (at_rest bs file) ≡ done (all_with 1 urls) (at_rest bs file)
    unfolding fill
    fill-missing [] bs v h = refl
    fill-missing (u ∷ urls) bs v h =
        rw (blooms_set-missing bs file (c_str key) (c_str u) v h, fill-missing urls bs v h, ◌>>=◌)

    -- On a valid table, `get` of a name without a filter marks every url -1 and changes nothing.
    pub get-missing :
        (urls : List Bytes) (bs : Blooms)
        → IsValid bs
        → view bs (c_str key) ≡ none
        → get key urls (at_rest bs file) ≡ done (all_with minus_one urls) (at_rest bs file)
    unfolding get
    get-missing [] bs v h = refl
    get-missing (u ∷ urls) bs v h =
        rw (blooms_get-missing bs file (c_str key) (c_str u) v h, get-missing urls bs v h, ◌>>=◌)

    -- The filter of the name contains each url.
    abbrev pub HasAll : Bloom → List Bytes → Type 0
    HasAll b urls = All (λ u. contains b (c_str u) ≡ true) urls

    HasAll-mono :
        (b c : Bloom) (urls : List Bytes)
        → ((s : Bytes) → contains b s ≡ true → contains c s ≡ true)
        → HasAll b urls
        → HasAll c urls
    HasAll-mono b c [] grow h = tt
    HasAll-mono b c (u ∷ urls) grow h = (grow (c_str u) h.0, HasAll-mono b c urls grow h.1)

    -- What `fill` leaves: a filter that has all the urls, and all that it had.
    record Filled (bs : Blooms) (b : Bloom) (urls : List Bytes) : Type 0 where
      after : Blooms
      filter : Bloom
      run : fill key urls (at_rest bs file) ≡ done (all_with 0 urls) (at_rest after file)
      valid : IsValid after
      there : view after (c_str key) ≡ some filter
      grow : (s : Bytes) → contains b s ≡ true → contains filter s ≡ true
      has : HasAll filter urls

    fill-Filled :
        (urls : List Bytes) (bs : Blooms) (b : Bloom)
        → IsValid bs
        → view bs (c_str key) ≡ some b
        → Filled bs b urls
    unfolding fill
    fill-Filled [] bs b v h = record {
      after = bs;
      filter = b;
      run = refl;
      valid = v;
      there = h;
      grow = λ s x. x;
      has = tt;
    }
    fill-Filled (u ∷ urls) bs b v h =
        let (c, bs1, run1, d) = blooms_set-SetDone bs file (c_str key) (c_str u) v h in
        let there1 : view bs1 (c_str key) ≡ some c =
          rw (d.reads (c_str key), bytes_eq_refl (c_str key)) in
        let rest = fill-Filled urls bs1 c d.valid there1 in
        record {
          after = rest.after;
          filter = rest.filter;
          run = rw (run1, rest.run, ◌>>=◌);
          valid = rest.valid;
          there = rest.there;
          grow = λ s x. rest.grow s (contains-Inserted_mono d.inserted s x);
          has = (rest.grow (c_str u) (contains-Inserted_self d.inserted), rest.has);
        }

    get-HasAll :
        (urls : List Bytes) (bs : Blooms) (b : Bloom)
        → IsValid bs
        → view bs (c_str key) ≡ some b
        → HasAll b urls
        → (bs' : Blooms) × IsValid bs'
          × (get key urls (at_rest bs file) ≡ done (all_with 1 urls) (at_rest bs' file))
    unfolding get
    get-HasAll [] bs b v h a = (bs, v, refl)
    get-HasAll (u ∷ urls) bs b v h a =
        let (c, bs1, run1, d) = blooms_get-GetDone bs file (c_str key) (c_str u) v h in
        let there1 : view bs1 (c_str key) ≡ some c =
          rw (d.reads (c_str key), bytes_eq_refl (c_str key)) in
        let has = HasAll-mono b c urls (λ s x. rw (contains-Counted d.counted s) x) a.1 in
        let (bs2, v2, run2) = get-HasAll urls bs1 c d.valid there1 has in
        (bs2, v2, rw (rw a.0 at run1, run2, ◌>>=◌))

    -- If the name has a filter in a valid table, a call of `fill` marks every url 0, and the next call, a
    -- `get` of the same urls, marks every one 1, where no other call runs during the two or between them.
    pub get-fill :
        (urls : List Bytes) (bs : Blooms) {b : Bloom}
        → IsValid bs
        → view bs (c_str key) ≡ some b
        → (bs1 bs2 : Blooms) × (fill key urls (at_rest bs file)
            ≡ done (all_with 0 urls) (at_rest bs1 file))
          × (get key urls (at_rest bs1 file) ≡ done (all_with 1 urls) (at_rest bs2 file))
          × IsValid bs2
    get-fill urls bs {b} v h =
        let f = fill-Filled urls bs b v h in
        let (bs2, v2, run2) = get-HasAll urls f.after f.filter f.valid f.there f.has in
        (f.after, bs2, f.run, run2, v2)

-- A server that finds no dump starts with a valid, empty table of at most 4000000000 bytes, if
-- there is memory for it.
pub serv_handler_empty :
    (p : Platform) (boost : Boost) (s : Globals)
    → p.malloc sizeof_blooms ≡ true
    → (bs : Blooms) × (serv_handler p boost (record s { file = none }) ≡ done 0 (at_rest bs none))
      × IsValid bs
      × ((q : Bytes) → view bs q ≡ none)
unfolding serv_handler initialize choose_start
serv_handler_empty p boost s memory =
    let (bs, run, v, empty) =
      blooms_init_lem p 4000000000 (record s { file = none }) memory (omega arith) in
    (bs, rw (run, choose_start, ◌>>=◌), v, empty)
