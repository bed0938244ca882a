-- ===== src/Content/Records/Tests.antt =====
-- The theorems on documents, at two pages of a url.
use bloom_server.Base.{
  ◌*◌, ◌^◌, ◌≤◌, ◌<◌, ◌≡◌, refl, none, some, [], ◌++◌, length, leb→le, ltb→lt, get_elem?, take,
  drop,
}
use bloom_server.Base.Run.{ok}
use bloom_server.Bloom.Types.{Bytes}
use bloom_server.Content.Format.{decimal_from, decimal, print_int, print_field, sprintf}
use bloom_server.Content.Head.{PageHead, Written, write_head, read_head}
use bloom_server.Content.Head.Pages.{pages_text}
use bloom_server.Content.Head.Laws.{write_head-read_head, head_text}
use bloom_server.Content.PageText.{line, lines, write_page_head}
use bloom_server.Content.Tests.{pack, zlib, zlib_laws}
use bloom_server.Content.Records.{
  Dbd, SavedPage, save_content, alter_total_page_forced, read_content,
}
use bloom_server.Content.Records.Documents.{Document, bodies, entries, document_head, Fits}
use bloom_server.Content.Records.Laws.{with_page, first_page, piece_of, record_of}
use bloom_server.Content.Records.Branches.{body_of}
use bloom_server.Content.Records.Reading.{
  forced, alter_total_page_forced-read_content, entries-bodies,
}
use bloom_server.Content.Records.Kept.{Holds, save_content-first, save_content-next, add_page}
use bloom_server.Content.Records.Example.{
  files, files-Holds, one-short, Files, in_place, db, db_laws, around, page, header, page_head,
  content, page_head_one, page_head_two, empty, one, two, one-Fits, two-Fits, one-accepted,
  two-accepted, one-Short, two-Short,
}

save_content-first_example :
    (saved : SavedPage Files) × (save_content zlib db around (page 1) header content 1 empty
      ≡ ok saved)
    × Holds zlib db around saved.state (page 1) one
    × (saved.node ≡ page 1)
unfolding one in_place
save_content-first_example =
    save_content-first zlib db around db_laws (page 1) header content (page_head 1) 1 empty refl
      page_head_one one-Fits (one-accepted empty)

-- Its head says two pages.
behind : Document
behind = record one { totalpage = 2 }

behind-Fits : Fits behind
unfolding behind document_head
behind-Fits =
    let fits = one-Fits in
    record {
      totallength = fits.totallength;
      totalpage = ltb→lt _ _ refl;
      counted = fits.counted;
      few = fits.few;
      taskid = fits.taskid;
      batchid = fits.batchid;
      array = refl;
      all_fit = fits.all_fit;
    }

behind-short : length (record_of zlib db around behind) < 2 ^ 64
unfolding behind one first_page piece_of document_head entries bodies page_head write_page_head
    lines line decimal print_int decimal_from record_of head_text pages_text sprintf print_field
    pack
behind-short = ltb→lt _ _ refl

one-ratio : length (bodies one.pieces) ≤ 64 * length (body_of zlib db around one)
unfolding one first_page piece_of bodies body_of page_head write_page_head lines line decimal
    print_int decimal_from pack
one-ratio = leb→le _ _ refl

save_content-next_example :
    (saved : SavedPage Files) × (save_content zlib db around (page 2) header content 1 (files one)
      ≡ ok saved)
    × Holds zlib db around saved.state
        (page 2)
        (add_page zlib db around (page 2) (page_head 2 ++ content) one)
unfolding two
save_content-next_example =
    save_content-next zlib db around zlib_laws db_laws (page 2) header content (page_head 2) 1 one
      (files one) (files-Holds one 2 one-short) one-Fits page_head_two two-Fits one-ratio one-Short
      two-Short (two-accepted (files one))

write_head-read_head_example :
    (w : Written) × (write_head (document_head one) ≡ ok w)
    × (w.head.headlength ≡ length w.text)
    × ((rest : Bytes) → read_head (w.text ++ rest) ≡ ok w.head)
write_head-read_head_example =
    write_head-read_head (document_head one) (entries 0 one.pieces) one-Fits

alter_total_page_forced-read_content_example :
    (read_content zlib db around 7 5 (files behind) ≡ ok none)
    × ((s : Files) × (dbd : Dbd) × (alter_total_page_forced zlib db around (page 1) (files behind)
          ≡ ok s)
        × (read_content zlib db around 7 5 s ≡ ok (some dbd))
        × (dbd.datbuf ≡ record_of zlib db around one))
unfolding behind forced one first_page
alter_total_page_forced-read_content_example =
    alter_total_page_forced-read_content zlib db around db_laws (page 1) behind (files behind)
      (files-Holds behind 1 behind-short) behind-Fits one-Fits one-Short
      (one-accepted (files behind))

entries-bodies_test :
    (e : PageHead) × (get_elem? (entries 0 two.pieces) 1 ≡ some e)
    × (take e.length (drop e.offset (bodies two.pieces)) ≡ page_head 2 ++ content)
    × (e.id ≡ 7)
    × (e.page ≡ 2)
unfolding two with_page piece_of one first_page
entries-bodies_test =
    entries-bodies two.pieces [] 1 (piece_of (page 2) (page_head 2 ++ content)) refl
