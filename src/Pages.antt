-- ===== src/Pages.antt =====
-- The map of the pages that wait in memory, src/module/PageManager.cpp. Each function is one step; the
-- locks inside one are taken and freed in it.
pub mod Record
pub mod Merging
pub mod Forced
pub mod Save
pub mod Finish
mod Tests
pub mod Sizes
use bloom_server.Base.{
  ℕ, zero, suc, ◌+◌, ◌-◌, ◌%◌, ◌^◌, Bool, true, false, ◌&&◌, Option, none, some, List, [], ◌∷◌,
  ◌++◌, length, get_or, set, replicate, ltb, ◌==◌, if◌then◌else◌, u32, u64, sub64,
}
use bloom_server.Base.Run.{Run, ok, fault, out_of_range, null_pointer, dangling_pointer, ◌>>=◌}
use bloom_server.Bloom.Types.{Bytes}
use bloom_server.Content.Format.{padded_field, sprintf, sprintf_into}
use bloom_server.Content.Head.{head_format, page_format}
use bloom_server.Content.PageText.{UrlNode, ResponseHeader, Surroundings, write_page_head}
use bloom_server.Content.Zlib.{Zlib, inf}
use bloom_server.Content.Records.{
  Access, Stored, Dbd, SavedPage, get_content_db_name, get_record_key_name, save_url, save_content,
}

-- `PAGEBUF`: MAXFINALNEXTPAGETOFETCH + 1 places for pages, a null pointer is `none`.
pub record PageBuf : Type 0 where
  pub pages : List (Option Bytes)
  pub totalpage : ℕ
  pub nowpage : ℕ
  pub taskid : ℕ
  pub batchid : ℕ
  pub totallength : ℕ
  pub urlnodeid : ℕ

abbrev pub new_page_buf : PageBuf
new_page_buf = record {
  pages = replicate 31 none;
  totalpage = 0;
  nowpage = 0;
  taskid = 0;
  batchid = 0;
  totallength = 0;
  urlnodeid = 0;
}

-- `totalpagebufsize` and `pagemap`; the ids in the map differ.
pub record PageManager : Type 0 where
  pub totalpagebufsize : ℕ
  pub pagemap : List (ℕ × PageBuf)

unfoldable pub find_buf : ℕ → List (ℕ × PageBuf) → Option PageBuf
find_buf id [] = none
find_buf id ((key, buf) ∷ pagemap) =
    let rest = find_buf id pagemap in if key == id then some buf else rest

unfoldable pub erase_buf : ℕ → List (ℕ × PageBuf) → List (ℕ × PageBuf)
erase_buf id [] = []
erase_buf id ((key, buf) ∷ pagemap) =
    let rest = erase_buf id pagemap in if key == id then pagemap else (key, buf) ∷ rest

-- A write through the pointer that the map holds.
unfoldable pub set_buf : ℕ → PageBuf → List (ℕ × PageBuf) → List (ℕ × PageBuf)
set_buf id new [] = []
set_buf id new ((key, buf) ∷ pagemap) =
    let rest = set_buf id new pagemap in
    if key == id then (key, new) ∷ pagemap else (key, buf) ∷ rest

abbrev pub is_found : Option PageBuf → Bool
is_found none = false
is_found (some buf) = true

-- `GetMapSize`, `FindInMap`, `GetTotalBufSize`.
unfoldable pub get_map_size : PageManager → ℕ
get_map_size m = length m.pagemap

unfoldable pub find_in_map : ℕ → PageManager → Bool
find_in_map id m = is_found (find_buf id m.pagemap)

unfoldable pub get_total_buf_size : PageManager → ℕ
get_total_buf_size m = u32 m.totalpagebufsize

unfoldable pub decrease_total_buf_size : ℕ → PageManager → PageManager
decrease_total_buf_size size m = record m { totalpagebufsize = sub64 m.totalpagebufsize size }

pub record Increased : Type 0 where
  pub positive : Bool
  pub manager : PageManager

-- `IncreaseTotalBufSize`, with the test of its callers that it returned more than 0.
unfoldable pub increase_total_buf_size : ℕ → ℕ → PageManager → Increased
increase_total_buf_size maxpagebufsize size m =
    let sum = u64 (m.totalpagebufsize + size) in
    if ltb sum maxpagebufsize
    then record { positive = ltb 0 sum; manager = record m { totalpagebufsize = sum } }
    else record { positive = false; manager = m }

unfoldable pub erase_found : ℕ → Option PageBuf → PageManager → PageManager
erase_found id none m = m
erase_found id (some buf) m =
    decrease_total_buf_size buf.totallength (record m { pagemap = erase_buf id m.pagemap })

-- `erasecontent_map`.
unfoldable pub erase_content_map : ℕ → PageManager → PageManager
erase_content_map id m = erase_found id (find_buf id m.pagemap) m

pub record InMap : Type 0 where
  pub added : Bool
  pub manager : PageManager

-- `nextpage > 1` of an `int`.
abbrev pub has_next : ℕ → Bool
has_next n = ltb 1 n && ltb n (2 ^ 31)

-- The buffer of a url of which the map has no page.
unfoldable pub first_buf : UrlNode → ℕ → Bytes → PageBuf
first_buf u nextpage buffer = record {
  pages = set (replicate 31 none) u.page (some buffer);
  totalpage = nextpage;
  nowpage = 1;
  taskid = u.taskid;
  batchid = u.taskbatch;
  totallength = length buffer;
  urlnodeid = u.id;
}

unfoldable pub add_to_buf : UrlNode → ℕ → Bytes → PageBuf → PageBuf
add_to_buf u nextpage buffer buf = record buf {
  pages = set buf.pages u.page (some buffer);
  totalpage = if has_next nextpage then u32 (buf.totalpage + 1) else buf.totalpage;
  nowpage = u32 (buf.nowpage + 1);
  totallength = u32 (buf.totallength + length buffer);
}

unfoldable pub put_page : UrlNode → ℕ → Bytes → PageBuf → Option Bytes → PageManager → InMap
put_page u nextpage buffer buf none m = record {
  added = true;
  manager = record m { pagemap = set_buf u.id (add_to_buf u nextpage buffer buf) m.pagemap };
}
put_page u nextpage buffer buf (some old) m = record { added = false; manager = m }

unfoldable pub put_found : UrlNode → ℕ → Bytes → Option PageBuf → PageManager → InMap
put_found u nextpage buffer none m = record {
  added = true;
  manager = record m { pagemap = (u.id, first_buf u nextpage buffer) ∷ m.pagemap };
}
put_found u nextpage buffer (some buf) m =
    put_page u nextpage buffer buf (get_or buf.pages u.page none) m

-- `SaveInMap` with a place for its result; the page is one of the 31.
unfoldable pub put_in_map : UrlNode → ℕ → Bytes → PageManager → Run InMap
put_in_map u nextpage buffer m =
    if ltb u.page 31
    then ok (put_found u nextpage buffer (find_buf u.id m.pagemap) m)
    else fault out_of_range
