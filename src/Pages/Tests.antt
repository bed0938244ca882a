-- ===== src/Pages/Tests.antt =====
-- The theorems on the map of pages, at the two pages of a url; and concrete runs.
use bloom_server.Base.{
  ◌≡◌, refl, false, none, some, [], ◌∷◌, replicate, sub64, ltb→lt, ℕ, ◌≢◌, ◌==◌, ◌&&◌,
  if◌then◌else◌, bytes_eq, bytes_eq_sound, Bool-cases, inl, inr, arith,
}
use bloom_server.Base.Run.{ok}
use bloom_server.Bloom.Types.{Bytes}
use bloom_server.Content.Format.{decimal_from, decimal, print_int, print_field, sprintf}
use bloom_server.Content.Head.Pages.{AllFit, pages_text}
use bloom_server.Content.Head.Laws.{head_text}
use bloom_server.Content.Tests.{pack, zlib}
use bloom_server.Content.Records.{Dbd, read_content}
use bloom_server.Content.Records.Documents.{bodies, entries, document_head, Fits}
use bloom_server.Content.Records.Laws.{record_of}
use bloom_server.Content.Records.Kept.{Holds, Accepts}
use bloom_server.Content.Records.Example.{
  files, files-Holds, one-short, Files, db, db_laws, around, page, empty, in_place, one,
}
use bloom_server.Pages.{
  PageBuf, PageManager, find_buf, erase_buf, increase_total_buf_size, InMap, put_in_map, put_found,
  put_page,
}
use bloom_server.Pages.Record.{PageWorld, page_body, alter_map_total_page_forced}
use bloom_server.Pages.Merging.{pieces_of, document_of, Counted}
use bloom_server.Pages.Forced.{forced_buf, alter_map_total_page_forced-Holds}
use bloom_server.Pages.Finish.{
  Eraser, EraserLaws, complete_pages, erase_content, in_memory, complete_pages-read_content,
  erase_content-Holds,
}
use bloom_server.Pages.Sizes.{lengths, Balanced, Grown, increase_total_buf_size-put_in_map}

-- Pages 1 and 2 of three.
abbrev two_of_three : PageBuf
two_of_three = record {
  pages = none ∷ some (60 ∷ []) ∷ some (62 ∷ 62 ∷ []) ∷ replicate 28 none;
  totalpage = 3;
  nowpage = 2;
  taskid = 5;
  batchid = 0;
  totallength = 3;
  urlnodeid = 7;
}

abbrev manager : PageManager
manager = record { totalpagebufsize = 3; pagemap = (7, two_of_three) ∷ [] }

abbrev world : PageWorld Files
world = record { manager = manager; files = empty }

two_of_three-Counted : Counted zlib db around false two_of_three
unfolding pieces_of bodies page_body
two_of_three-Counted = record { pages = refl; bytes = λ _. refl }

forced_document-Fits : Fits (document_of zlib db around false (forced_buf two_of_three))
unfolding document_of pieces_of page_body forced_buf document_head entries bodies AllFit
forced_document-Fits = record {
  totallength = ltb→lt _ _ refl;
  totalpage = ltb→lt _ _ refl;
  counted = refl;
  few = ltb→lt _ _ refl;
  taskid = ltb→lt _ _ refl;
  batchid = ltb→lt _ _ refl;
  array = refl;
  all_fit = (
    record {
      id = ltb→lt _ _ refl;
      offset = ltb→lt _ _ refl;
      length = ltb→lt _ _ refl;
      page = ltb→lt _ _ refl;
    },
    (
      record {
        id = ltb→lt _ _ refl;
        offset = ltb→lt _ _ refl;
        length = ltb→lt _ _ refl;
        page = ltb→lt _ _ refl;
      },
      tt,
    ),
  );
}

forced_document_accepted :
    Accepts zlib db around empty
      (page 2)
      (document_of zlib db around false (forced_buf two_of_three))
unfolding document_of pieces_of page_body forced_buf document_head entries bodies record_of
    head_text pages_text sprintf print_field print_int decimal decimal_from pack
forced_document_accepted = refl

alter_map_total_page_forced-Holds_example :
    (w : PageWorld Files) × (alter_map_total_page_forced zlib db around false (page 2) world ≡ ok w)
    × Holds zlib db around w.files
        (page 2)
        (document_of zlib db around false (forced_buf two_of_three))
    × (w.manager ≡ record { totalpagebufsize = sub64 3 3; pagemap = erase_buf 7 manager.pagemap })
unfolding find_buf in_place
alter_map_total_page_forced-Holds_example =
    alter_map_total_page_forced-Holds zlib db around db_laws false (page 2) two_of_three world refl
      refl refl (ltb→lt _ _ refl) two_of_three-Counted forced_document-Fits refl
      forced_document_accepted

increase_total_buf_size-put_in_map_example :
    (r : InMap) × (put_in_map (page 3) 1 (65 ∷ []) (increase_total_buf_size 100 1 manager).manager
      ≡ ok r)
    × Grown 1 r
unfolding lengths Balanced
increase_total_buf_size-put_in_map_example =
    increase_total_buf_size-put_in_map 100 (page 3) 1 (65 ∷ []) manager (ltb→lt _ _ refl)
      (ltb→lt _ _ refl) (ltb→lt _ _ refl) refl

-- The second page once more: the total is 2 too large for good.
repeated_test :
    put_in_map (page 2) 3 (62 ∷ 62 ∷ []) (increase_total_buf_size 100 2 manager).manager
    ≡ ok (record { added = false; manager = record manager { totalpagebufsize = 5 } })
unfolding put_in_map put_found put_page find_buf increase_total_buf_size
repeated_test = refl

complete_pages-read_content_example :
    (w : PageWorld Files) × (dbd : Dbd) × (complete_pages zlib db around false (page 2) world
      ≡ ok w)
    × (read_content zlib db around 7 5 w.files ≡ ok (some dbd))
    × (dbd.datbuf
        ≡ record_of zlib db around (document_of zlib db around false (forced_buf two_of_three)))
unfolding find_buf in_place
complete_pages-read_content_example =
    complete_pages-read_content zlib db around db_laws false (page 2) world
      (document_of zlib db around false (forced_buf two_of_three)) refl
      (in_memory two_of_three refl refl refl (ltb→lt _ _ refl) two_of_three-Counted
        forced_document-Fits refl forced_document_accepted)

remove : Files → ℕ → Bytes → Files
remove s n key m other = if (m == n) && bytes_eq other key then none else s m other

abbrev eraser : Eraser Files
eraser = record { erase_record = λ s n key fileno. record { ret = 0; state = remove s n key } }

get-remove :
    (s : Files) (n m : ℕ) (key other : Bytes)
    → other ≢ key
    → in_place (remove s n key m other) ≡ in_place (s m other)
unfolding remove
get-remove s n m key other apart = elim (Bool-cases (bytes_eq other key)) [
  | inl same ↦ absurd (apart (bytes_eq_sound other key same))
  | inr differ ↦ let e : ((m == n) && bytes_eq other key) ≡ false = ground arith in rw e refl
]

eraser_laws : EraserLaws db eraser
eraser_laws = record { others = λ s n m key other fileno. get-remove s n m key other }

seven : ◌≢◌ {A = ℕ} 7 5
seven = omega arith

erase_content-Holds_example :
    Holds zlib db around
      (erase_content zlib db around eraser 7 5 (record world { files = files one })).files
      (page 2)
      one
    × ((erase_content zlib db around eraser 7 5 (record world { files = files one })).manager
        ≡ manager)
erase_content-Holds_example =
    erase_content-Holds zlib db around eraser eraser_laws (page 2) one
      (record world { files = files one }) (ltb→lt _ _ refl) (ltb→lt _ _ refl) seven
      (files-Holds one 2 one-short)
