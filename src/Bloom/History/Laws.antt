-- ===== src/Bloom/History/Laws.antt =====
-- No false negatives: what has been set is found, whatever is asked in between.
use bloom_server.Bloom.Platform.{Murmur}
use bloom_server.Base.{
  ℕ, ◌<◌, ◌^◌, ◌≡◌, refl, true, false, Option, some, List, [], ◌∷◌, All, length, if◌then◌else◌,
  bytes_eq, bytes_eq_refl, bytes_eq_sound, Bool-cases, Option-cases, inl, inr,
}
use bloom_server.Bloom.Types.{Bloom, Blooms, Bytes, Double}
use bloom_server.Bloom.Platform.{Platform}
use bloom_server.Bloom.Filter.Laws.{contains, contains-Inserted_self, contains-Inserted_mono}
use bloom_server.Bloom.Process.{at_rest, done, ◌>>=◌}
use bloom_server.Bloom.Buckets.{max_key_len}
use bloom_server.Bloom.Store.{blooms_set, blooms_get, value}
use bloom_server.Bloom.Store.Table.{view}
use bloom_server.Bloom.Store.Valid.{IsValid}
use bloom_server.Bloom.Store.Set.{blooms_set-missing, blooms_set-SetDone}
use bloom_server.Bloom.Store.Get.{contains-Counted, blooms_get-missing, blooms_get-GetDone}
use bloom_server.Bloom.Store.Add.{Added, exists, refused, added, blooms_add-Added}
use bloom_server.Bloom.Store.Delete.{blooms_delete-missing, blooms_delete-DeleteDone}
use bloom_server.Bloom.History.{Request, add, fill, get, delete, serve, serve_all}

-- A request that the sources serve without a fault, and that does not delete the filter `key`.
abbrev pub Allowed : Bytes → Request → Type 0
Allowed key (add k n e) = (length k < max_key_len) × (0 < n) × (n < 2 ^ 57)
Allowed key (fill k s) = Unit {0}
Allowed key (get k s) = Unit {0}
Allowed key (delete k) = bytes_eq k key ≡ false

module _ ⦃murmur : Murmur⦄ where
  -- The filter of the name has the subkey.
  pub record Knows (bs : Blooms) (key subkey : Bytes) : Type 0 where
    pub filter : Bloom
    pub there : view bs key ≡ some filter
    pub has : contains filter subkey ≡ true

  -- The filter of `k` becomes `c`, which has what `b` had: what was known stays known.
  Knows-replaced :
      (bs bs' : Blooms) (k : Bytes) (b c : Bloom) (key subkey : Bytes)
      → view bs k ≡ some b
      → ((q : Bytes) → view bs' q ≡ (if bytes_eq k q then some c else view bs q))
      → ((s : Bytes) → contains b s ≡ true → contains c s ≡ true)
      → Knows bs key subkey
      → Knows bs' key subkey
  Knows-replaced bs bs' k b c key subkey h reads keeps w = elim (Bool-cases (bytes_eq k key)) [
    | inl e ↦
        let same = bytes_eq_sound k key e in
        let old : w.filter ≡ b = cc in
        record { filter = c; there = rw (reads key, e); has = keeps subkey (rw (← old) w.has) }
    | inr e ↦ record { filter = w.filter; there = rw (reads key, e) w.there; has = w.has }
  ]

  module _ (p : Platform) (memory : (words : ℕ) → p.new_words words ≡ true) (file : Option Bytes)
      (key subkey : Bytes) where
    abbrev Kept : Request → Blooms → Type 0
    Kept r bs =
        (bs' : Blooms) × (serve p r (at_rest bs file) ≡ done tt (at_rest bs' file))
        × IsValid bs'
        × Knows bs' key subkey

    add-Kept :
        (bs : Blooms) (k : Bytes) (n : ℕ) (e : Double)
        → IsValid bs
        → Knows bs key subkey
        → Allowed key (add k n e)
        → Kept (add k n e) bs
    add-Kept bs k n e v w a =
        let (r, bs', run, out) = blooms_add-Added p bs file k n e v memory a.0 a.1 a.2 in
        let (v', w') = after bs' r out in (bs', unfold serve in rw (run, ◌>>=◌), v', w')
      where
        after : (bs' : Blooms) (r : ℕ) → Added bs k n e r bs' → IsValid bs' × Knows bs' key subkey
        after bs' r (exists b h er same) = rw same (v, w)
        after bs' r (refused h er same) = rw same (v, w)
        after bs' r (added b h er fresh v' reads) = (
          v',
          elim (Bool-cases (bytes_eq k key)) [
            | inl eq ↦ let same = bytes_eq_sound k key eq in let t = w.there in absurd (cc)
            | inr ne ↦ record { filter = w.filter; there = rw (reads key, ne) w.there; has = w.has }
          ],
        )

    fill-Kept : (bs : Blooms) (k s : Bytes) → IsValid bs → Knows bs key subkey → Kept (fill k s) bs
    fill-Kept bs k s v w = elim (Option-cases (view bs k)) [
      | inl h ↦ (bs, unfold serve in rw (blooms_set-missing bs file k s v h, ◌>>=◌), v, w)
      | inr (b, h) ↦
          let (c, bs', run, d) = blooms_set-SetDone bs file k s v h in
          (
            bs',
            unfold serve in rw (run, ◌>>=◌),
            d.valid,
            Knows-replaced bs bs' k b c key subkey h d.reads
                (λ q x. contains-Inserted_mono d.inserted q x) w,
          )
    ]

    get-Kept : (bs : Blooms) (k s : Bytes) → IsValid bs → Knows bs key subkey → Kept (get k s) bs
    get-Kept bs k s v w = elim (Option-cases (view bs k)) [
      | inl h ↦ (bs, unfold serve in rw (blooms_get-missing bs file k s v h, ◌>>=◌), v, w)
      | inr (b, h) ↦
          let (c, bs', run, d) = blooms_get-GetDone bs file k s v h in
          (
            bs',
            unfold serve in rw (run, ◌>>=◌),
            d.valid,
            Knows-replaced bs bs' k b c key subkey h d.reads
                (λ q x. rw (contains-Counted d.counted q) x) w,
          )
    ]

    delete-Kept :
        (bs : Blooms) (k : Bytes)
        → IsValid bs
        → Knows bs key subkey
        → bytes_eq k key ≡ false
        → Kept (delete k) bs
    delete-Kept bs k v w other = elim (Option-cases (view bs k)) [
      | inl h ↦ (bs, unfold serve in rw (blooms_delete-missing bs file k v h, ◌>>=◌), v, w)
      | inr (b, h) ↦
          let (bs', run, d) = blooms_delete-DeleteDone bs file k v h in
          (
            bs',
            unfold serve in rw (run, ◌>>=◌),
            d.valid,
            record { filter = w.filter; there = rw (d.reads key, other) w.there; has = w.has },
          )
    ]

    serve-Kept :
        (r : Request) (bs : Blooms) → IsValid bs → Knows bs key subkey → Allowed key r → Kept r bs
    serve-Kept (add k n e) bs v w a = add-Kept bs k n e v w a
    serve-Kept (fill k s) bs v w a = fill-Kept bs k s v w
    serve-Kept (get k s) bs v w a = get-Kept bs k s v w
    serve-Kept (delete k) bs v w a = delete-Kept bs k v w a

    pub serve_all-Kept :
        (rs : List Request) (bs : Blooms)
        → IsValid bs
        → Knows bs key subkey
        → All (Allowed key) rs
        → (bs' : Blooms) × (serve_all p rs (at_rest bs file) ≡ done tt (at_rest bs' file))
          × IsValid bs'
          × Knows bs' key subkey
    unfolding serve_all
    serve_all-Kept [] bs v w a = (bs, refl, v, w)
    serve_all-Kept (r ∷ rs) bs v w a =
        let (bs1, run1, v1, w1) = serve-Kept r bs v w a.0 in
        let (bs2, run2, v2, w2) = serve_all-Kept rs bs1 v1 w1 a.1 in
        (bs2, rw (run1, ◌>>=◌) run2, v2, w2)

    -- Once `blooms_set` has put a subkey into a filter of a valid table, `blooms_get` answers 1 for
    -- it after any sequence of requests that does not delete this filter, with names of less than 32
    -- bytes, 0 < n < 2 ^ 57 and memory for the words of new filters. No request of the run blocks
    -- or faults.
    pub no_false_negative :
        (rs : List Request) (bs : Blooms) {b : Bloom}
        → IsValid bs
        → view bs key ≡ some b
        → All (Allowed key) rs
        → (bs' : Blooms) × IsValid bs'
          × ((blooms_set key subkey >>= (λ r. serve_all p rs) >>= (λ u. blooms_get key subkey))
                (at_rest bs file)
              ≡ done (value 1) (at_rest bs' file))
    no_false_negative rs bs v h a =
        let (c, bs1, run1, d) = blooms_set-SetDone bs file key subkey v h in
        let start : Knows bs1 key subkey = record {
          filter = c;
          there = rw (d.reads key, bytes_eq_refl key);
          has = contains-Inserted_self d.inserted;
        } in
        let (bs2, run2, v2, w2) = serve_all-Kept rs bs1 d.valid start a in
        let (c3, bs3, run3, d3) = blooms_get-GetDone bs2 file key subkey v2 w2.there in
        (bs3, d3.valid, rw (run1, run2, ◌>>=◌) (rw w2.has at run3))
