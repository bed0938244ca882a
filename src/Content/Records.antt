-- ===== src/Content/Records.antt =====
-- savecontent, readContent, altertotalpageforced and saveUrl of src/module/LocalDbManager.cpp, as they
-- are compiled without HTMLMEMCACHEDB and URLMEMCACHEDB: the records are in the files of DBAccess.
pub mod Documents
pub mod Laws
pub mod Branches
pub mod Kept
pub mod Reading
pub mod Example
mod Tests
use bloom_server.Base.{
  ℕ, ◌+◌, ◌-◌, ◌%◌, ◌^◌, Bool, true, false, not, ◌&&◌, ◌||◌, Option, none, some, List, [], ◌∷◌,
  ◌++◌, length, take, leb, ltb, ◌==◌, if◌then◌else◌, u32, u64, sub64,
}
use bloom_server.Base.Run.{Run, ok, fault, out_of_range, buffer_overflow, ◌>>=◌}
use bloom_server.Bloom.Types.{Bytes}
use bloom_server.Content.Format.{decimal, print_int, advance}
use bloom_server.Content.Head.{PageHead, Head, write_head, read_head, append_page_head, set_page}
use bloom_server.Content.PageText.{UrlNode, ResponseHeader, Surroundings, write_page_head}
use bloom_server.Content.Zlib.{Zlib, inf}

-- A record: its bytes (`datlen_u` counts them) and the room that it has in the file, and the number
-- of the file, which `get` leaves in its argument `fileno`.
pub record Dbd : Type 0 where
  pub datbuf : Bytes
  pub datlen : ℕ
  pub fileno : Bytes

pub record Stored {ℓ} (S : Type ℓ) : Type ℓ where
  pub ret : ℕ
  pub state : S

-- The operations of `DBAccess` on its files `S`: the number of a table, and the record of a key.
-- `store` is given the key, the data and `fileno`, which is empty if `get` has found nothing.
pub record Access {ℓ} (S : Type ℓ) : Type ℓ where
  pub load : Bytes → ℕ
  pub get : S → ℕ → Bytes → Option Dbd
  pub store : S → ℕ → Bytes → Bytes → Bytes → Stored S

-- TASKDB_NUM is 30; `%` of an `int` has the sign of the dividend.
unfoldable pub get_task_db : ℕ → ℕ
get_task_db taskid =
    if ltb taskid (2 ^ 31) then taskid % 30 else u32 (2 ^ 32 - (2 ^ 32 - taskid) % 30)

-- "task_%d" and "url_task_%d".
unfoldable pub get_content_db_name : ℕ → Bytes
get_content_db_name taskid = 116 ∷ 97 ∷ 115 ∷ 107 ∷ 95 ∷ print_int (get_task_db taskid)

unfoldable pub get_url_db_name : ℕ → Bytes
get_url_db_name taskid =
    117 ∷ 114 ∷ 108 ∷ 95 ∷ 116 ∷ 97 ∷ 115 ∷ 107 ∷ 95 ∷ print_int (get_task_db taskid)

unfoldable pub get_record_key_name : ℕ → Bytes
get_record_key_name id = decimal id

abbrev sep : Bytes
sep = 47 ∷ []

-- `getUrlContent`, "%llu/%d/%d/%d/%d/%u".
unfoldable pub get_url_content : Surroundings → UrlNode → Bytes
get_url_content around u =
    decimal u.id
    ++ sep
    ++ print_int u.page
    ++ sep
    ++ print_int u.errornum
    ++ sep
    ++ print_int u.url_type
    ++ sep
    ++ print_int u.taskid
    ++ sep
    ++ decimal (u32 around.now)

-- `store` returned 0 or 1.
abbrev pub stored_ok : ℕ → Bool
stored_ok ret = (ret == 0) || (ret == 1)

-- A page of the head is this page of the url.
unfoldable pub already_saved : UrlNode → List PageHead → Bool
already_saved u [] = false
already_saved u (p ∷ pages) =
    let rest = already_saved u pages in if (p.id == u.id) && (p.page == u.page) then true else rest

unfoldable pub any_saved : UrlNode → Option (List PageHead) → Bool
any_saved u none = false
any_saved u (some pages) = already_saved u pages

-- The head of a document of one page.
unfoldable pub first_head : UrlNode → ℕ → ℕ → Head
first_head u nextpage len = record {
  totallength = len;
  headlength = 0;
  totalpage = nextpage;
  nowpage = 1;
  taskid = u.taskid;
  batchid = u.taskbatch;
  pages = some (record { id = u.id; offset = 0; length = len; page = u.page } ∷ []);
}

pub record SavedPage {ℓ} (S : Type ℓ) : Type ℓ where
  pub state : S
  pub node : UrlNode

module _ {ℓ} {S : Type ℓ} (zlib : Zlib) (db : Access S) (around : Surroundings) where
  -- `saveUrl` with the flag that says whether the key is the url of the father.
  unfoldable pub save_url : Bool → UrlNode → S → Stored S
  save_url father u s =
      db.store s (db.load (get_url_db_name u.taskid)) (if father then u.fatherurl else u.url)
        (get_url_content around u) []

  -- The end of `savecontent`: the head, the compressed pages, and the entry of the url.
  unfoldable pub store_record : UrlNode → Bytes → ℕ → Bytes → Bytes → S → S
  store_record u head_text totallength content fileno s =
      let bytes = head_text ++ zlib.compress2 (zlib.compress_bound totallength) content in
      let result =
        db.store s (db.load (get_content_db_name u.taskid)) (get_record_key_name u.id) bytes
          fileno in
      if stored_ok result.ret then (save_url false u result.state).state else result.state

  -- No record is there.
  unfoldable pub save_first : UrlNode → ResponseHeader → Bytes → ℕ → S → Run (SavedPage S)
  save_first u r content nextpage s = write_page_head around u r (length content) >>= (λ page_head.
      let node : UrlNode = record u { nowpage = 1 } in
      let head = first_head u nextpage (length page_head + length content) in
      write_head head >>= (λ w. ok (record {
        state = store_record node w.text head.totallength (page_head ++ content) [] s;
        node = node;
      })))

  -- A record is there, with the head `h`, which counts one page more now.
  unfoldable pub save_page : UrlNode → Bytes → Bytes → Head → Bytes → S → Run (SavedPage S)
  save_page u restored text h fileno s =
      append_page_head (record h {
        totalpage = u32 (h.totalpage + 1);
        totallength = u64 (h.totallength + length text);
      })
      >>= (λ a.
          let entry : PageHead = record {
            id = u.id;
            offset = length restored;
            length = length text;
            page = u.page;
          } in
          let head : Head = record a.head { pages = set_page a.idx entry (a.head).pages } in
          write_head head >>= (λ w.
            let node : UrlNode = record u { nowpage = head.nowpage } in
            let content = restored ++ text in
            if leb head.totallength (length content)
            then ok (record {
              state =
                  store_record node w.text head.totallength (take head.totallength content) fileno
                    s;
              node = node;
            })
            else fault out_of_range))

  unfoldable pub save_next : UrlNode → ResponseHeader → Bytes → Dbd → S → Run (SavedPage S)
  save_next u r content dbd s = read_head dbd.datbuf >>= (λ h.
      if any_saved u h.pages
      then ok (record { state = s; node = u })
      else (write_page_head around u r (length content) >>= (λ page_head.
          advance h.headlength dbd.datbuf >>= (λ stored.
            save_page u (inf zlib (take (sub64 dbd.datlen h.headlength) stored)).written
              (page_head ++ content) h dbd.fileno s))))

  unfoldable pub save_found :
      UrlNode → ResponseHeader → Bytes → ℕ → Option Dbd → S → Run (SavedPage S)
  save_found u r content nextpage none s = save_first u r content nextpage s
  save_found u r content nextpage (some dbd) s = save_next u r content dbd s

  -- `savecontent`.
  unfoldable pub save_content : UrlNode → ResponseHeader → Bytes → ℕ → S → Run (SavedPage S)
  save_content u r content nextpage s =
      save_found u r content nextpage
        (db.get s (db.load (get_content_db_name u.taskid)) (get_record_key_name u.id)) s

  unfoldable pub complete_only : Dbd → Head → Option Dbd
  complete_only dbd h = if h.totalpage == h.nowpage then some dbd else none

  unfoldable pub read_found : Option Dbd → Run (Option Dbd)
  read_found none = ok none
  read_found (some dbd) = read_head dbd.datbuf >>= (λ h. ok (complete_only dbd h))

  -- `readContent`: only a document that has all its pages.
  unfoldable pub read_content : ℕ → ℕ → S → Run (Option Dbd)
  read_content id taskid s =
      read_found (db.get s (db.load (get_content_db_name taskid)) (get_record_key_name id))

  unfoldable pub alter_found : UrlNode → Option Dbd → S → Run S
  alter_found u none s = ok s
  alter_found u (some dbd) s = read_head dbd.datbuf >>= (λ h.
      write_head (record h { totalpage = h.nowpage }) >>= (λ w.
        advance h.headlength dbd.datbuf >>= (λ rest.
          if leb (length (w.text ++ rest)) (length dbd.datbuf + 100)
          then ok
              (db.store s (db.load (get_content_db_name u.taskid)) (get_record_key_name u.id)
                (w.text ++ rest) dbd.fileno).state
          else fault buffer_overflow)))

  -- `altertotalpageforced`: the document is complete with the pages that it has.
  unfoldable pub alter_total_page_forced : UrlNode → S → Run S
  alter_total_page_forced u s =
      alter_found u (db.get s (db.load (get_content_db_name u.taskid)) (get_record_key_name u.id)) s
