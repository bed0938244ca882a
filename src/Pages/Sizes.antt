-- ===== src/Pages/Sizes.antt =====
-- `totalpagebufsize` of src/module/PageManager.cpp and the lengths of the buffers in its map.
use bloom_server.Base.{
  ℕ, ◌+◌, ◌^◌, ◌<◌, ◌≡◌, refl, true, false, Option, none, some, List, [], ◌∷◌, arith, length,
  get_or, ltb, u64, Option-cases, inl, inr,
}
use bloom_server.Base.Run.{ok}
use bloom_server.Bloom.Types.{Bytes}
use bloom_server.Content.PageText.{UrlNode}
use bloom_server.Pages.{
  PageBuf, PageManager, find_buf, erase_buf, set_buf, decrease_total_buf_size, erase_found,
  erase_content_map, increase_total_buf_size, InMap, first_buf, add_to_buf, put_page, put_found,
  put_in_map,
}

unfoldable pub lengths : List (ℕ × PageBuf) → ℕ
lengths [] = 0
lengths ((id, buf) ∷ pagemap) = buf.totallength + lengths pagemap

-- The total is the length of all buffers, in 64 bits.
unfoldable pub Balanced : PageManager → Type 0
Balanced m = m.totalpagebufsize ≡ u64 (lengths m.pagemap)

lengths-erase_buf :
    (id : ℕ) (buf : PageBuf) (pagemap : List (ℕ × PageBuf))
    → find_buf id pagemap ≡ some buf
    → lengths (erase_buf id pagemap) + buf.totallength ≡ lengths pagemap
unfolding find_buf erase_buf lengths
lengths-erase_buf id buf [] found = cc
lengths-erase_buf id buf ((key, b) ∷ pagemap) found =
    ground (arith, lengths-erase_buf id buf pagemap)

lengths-set_buf :
    (id : ℕ) (old new : PageBuf) (pagemap : List (ℕ × PageBuf))
    → find_buf id pagemap ≡ some old
    → lengths (set_buf id new pagemap) + old.totallength ≡ lengths pagemap + new.totallength
unfolding find_buf set_buf lengths
lengths-set_buf id old new [] found = cc
lengths-set_buf id old new ((key, b) ∷ pagemap) found =
    ground (arith, lengths-set_buf id old new pagemap)

-- `erasecontent_map` takes the length of what it erases off the total.
pub erase_content_map-Balanced :
    (id : ℕ) (m : PageManager)
    → lengths m.pagemap < 2 ^ 64
    → Balanced m
    → Balanced (erase_content_map id m)
unfolding Balanced erase_content_map erase_found decrease_total_buf_size
erase_content_map-Balanced id m small h = elim (Option-cases (find_buf id m.pagemap)) [
  | inl absent ↦ rw absent h
  | inr (buf, found) ↦ rw found (omega (arith, h, lengths-erase_buf id buf m.pagemap found))
]

-- Where the total had grown by the size of the page before: balanced if the page was added, and
-- too large by that size if the buffer had the page.
pub record Grown (size : ℕ) (r : InMap) : Type 0 where
  pub added : r.added ≡ true → Balanced r.manager
  pub repeated :
      r.added ≡ false → (r.manager).totalpagebufsize ≡ u64 (lengths (r.manager).pagemap + size)

put_page-Grown :
    (u : UrlNode) (nextpage : ℕ) (buffer : Bytes) (buf : PageBuf) (place : Option Bytes)
    (m : PageManager)
    → lengths m.pagemap + length buffer < 2 ^ 32
    → m.totalpagebufsize ≡ u64 (lengths m.pagemap + length buffer)
    → find_buf u.id m.pagemap ≡ some buf
    → Grown (length buffer) (put_page u nextpage buffer buf place m)
unfolding put_page add_to_buf Balanced
put_page-Grown u nextpage buffer buf none m small total found = record {
  added = λ _. omega (
    arith,
    total,
    lengths-erase_buf u.id buf m.pagemap found,
    lengths-set_buf u.id buf (add_to_buf u nextpage buffer buf) m.pagemap found,
  );
  repeated = λ e. cc;
}
put_page-Grown u nextpage buffer buf (some old) m small total found = record {
  added = λ e. cc;
  repeated = λ _. total;
}

put_found-Grown :
    (u : UrlNode) (nextpage : ℕ) (buffer : Bytes) (m : PageManager)
    → lengths m.pagemap + length buffer < 2 ^ 32
    → m.totalpagebufsize ≡ u64 (lengths m.pagemap + length buffer)
    → Grown (length buffer) (put_found u nextpage buffer (find_buf u.id m.pagemap) m)
unfolding put_found first_buf lengths Balanced
put_found-Grown u nextpage buffer m small total = elim (Option-cases (find_buf u.id m.pagemap)) [
  | inl absent ↦ rw absent (record { added = λ _. omega (arith, total); repeated = λ e. cc })
  | inr (buf, found) ↦
      rw found
        (put_page-Grown u nextpage buffer buf (get_or buf.pages u.page none) m small total found)
]

-- Where the total is the length of all buffers, and stays below the limit of less than 2 ^ 31 bytes
-- with a page of one of the 31 places, `IncreaseTotalBufSize` and `SaveInMap` return: the total is
-- the length of all buffers if the page was added, and too large by the size of the page if the
-- buffer had it.
pub increase_total_buf_size-put_in_map :
    (maxpagebufsize : ℕ) (u : UrlNode) (nextpage : ℕ) (buffer : Bytes) (m : PageManager)
    → u.page < 31
    → lengths m.pagemap + length buffer < maxpagebufsize
    → maxpagebufsize < 2 ^ 31
    → Balanced m
    → (r : InMap) × (put_in_map u nextpage buffer
          (increase_total_buf_size maxpagebufsize (length buffer) m).manager
        ≡ ok r)
      × Grown (length buffer) r
unfolding put_in_map increase_total_buf_size Balanced
increase_total_buf_size-put_in_map maxpagebufsize u nextpage buffer m place room limit h =
    let sum : u64 (m.totalpagebufsize + length buffer) ≡ u64 (lengths m.pagemap + length buffer) =
      omega (arith, h) in
    let below : ltb (u64 (m.totalpagebufsize + length buffer)) maxpagebufsize ≡ true =
      ground arith in
    let inside : ltb u.page 31 ≡ true = ground arith in
    rw (below, inside)
      (
        _,
        refl,
        put_found-Grown u nextpage buffer
            (record m { totalpagebufsize = u64 (m.totalpagebufsize + length buffer) }) (omega arith)
            sum,
      )
