-- ===== src/Content/Records/Reading.antt =====
-- What readContent of src/module/LocalDbManager.cpp returns of a document, before and after
-- altertotalpageforced; and where a page stands in a record.
use bloom_server.Base.{
  ℕ, zero, suc, ◌+◌, ◌≤◌, ◌≡◌, refl, true, none, some, List, [], ◌∷◌, ◌++◌, arith, length, take,
  drop, get_elem?, leb, ◌==◌, if◌then◌else◌, length-append, take-append_le, take-length,
  append_assoc, inr, ap, sym, ◌∙◌,
}
use bloom_server.Base.Run.{ok}
use bloom_server.Bloom.Types.{Bytes}
use bloom_server.Content.Format.{advance, sprintf}
use bloom_server.Content.Head.{
  PageHead, Head, Written, read_head, write_head, head_format, head_values,
}
use bloom_server.Content.Head.Laws.{head_text, length-head_text, head_room}
use bloom_server.Content.Head.Pages.{pages_text, drop-append_length}
use bloom_server.Content.PageText.{UrlNode, Surroundings}
use bloom_server.Content.Zlib.{Zlib}
use bloom_server.Content.Records.{
  Access, Dbd, get_content_db_name, get_record_key_name, complete_only, read_found, read_content,
  alter_found, alter_total_page_forced,
}
use bloom_server.Content.Records.Documents.{
  Piece, Document, bodies, entries, document_head, Fits, write_head-text,
}
use bloom_server.Content.Records.Laws.{record_of}
use bloom_server.Content.Records.Branches.{body_of, read_head-record_of, advance-record_of}
use bloom_server.Content.Records.Kept.{AccessLaws, Holds, Accepts, Short}

-- The document with as many pages as it has.
unfoldable pub forced : Document → Document
forced d = record d { totalpage = length d.pieces }

module _ {ℓ} {S : Type ℓ} (zlib : Zlib) (db : Access S) (around : Surroundings) where
  pub read_content-Holds :
      (u : UrlNode) (d : Document) (s : S)
      → (h : Holds zlib db around s u d) → Fits d
      → read_content zlib db around u.id u.taskid s
        ≡ ok (if d.totalpage == length d.pieces then some h.dbd else none)
  unfolding read_content read_found complete_only document_head
  read_content-Holds u d s h fits =
      rw (h.there, h.held, read_head-record_of zlib db around d fits) refl

  length-record_of :
      (d : Document)
      → length (record_of zlib db around d)
        ≡ length (head_text (document_head d) (entries 0 d.pieces))
          + length (body_of zlib db around d)
  unfolding record_of body_of
  length-record_of d = length-append (head_text (document_head d) (entries 0 d.pieces)) _

  alter_found-step :
      (u : UrlNode) (dbd : Dbd) (s : S) (h : Head) (w : Written) (rest : Bytes)
      → read_head dbd.datbuf ≡ ok h
      → write_head (record h { totalpage = h.nowpage }) ≡ ok w
      → advance h.headlength dbd.datbuf ≡ ok rest
      → length (w.text ++ rest) ≤ length dbd.datbuf + 100
      → alter_found zlib db around u (some dbd) s
        ≡ ok
            (db.store s
              (db.load (get_content_db_name u.taskid))
              (get_record_key_name u.id)
              (w.text ++ rest)
              dbd.fileno).state
  unfolding alter_found
  alter_found-step u dbd s h w rest found written moved room =
      let fits : leb (length (w.text ++ rest)) (length dbd.datbuf + 100) ≡ true = ground arith in
      rw (found, written, moved, fits) refl

  -- Its head may be longer, by less than the hundred bytes that are there for it.
  length-forced :
      (d : Document)
      → Fits d
      → Fits (forced d)
      → length (record_of zlib db around (forced d)) ≤ length (record_of zlib db around d) + 100
  unfolding forced document_head body_of
  length-forced d fits fits' =
      let head = document_head d in
      let head' = document_head (forced d) in
      omega (
        arith,
        length-record_of d,
        length-record_of (forced d),
        length-head_text head (entries 0 d.pieces) fits,
        length-head_text head' (entries 0 d.pieces) fits',
        length-append (sprintf head_format (head_values head)) (pages_text (entries 0 d.pieces)),
        length-append (sprintf head_format (head_values head')) (pages_text (entries 0 d.pieces)),
        head_room head (entries 0 d.pieces) fits,
        head_room head' (entries 0 d.pieces) fits',
      )

  alter_found-forced :
      (u : UrlNode) (d : Document) (dbd : Dbd) (s : S)
      → Fits d
      → Fits (forced d)
      → dbd.datbuf ≡ record_of zlib db around d
      → alter_found zlib db around u (some dbd) s
        ≡ ok
            (db.store s
              (db.load (get_content_db_name u.taskid))
              (get_record_key_name u.id)
              (record_of zlib db around (forced d))
              dbd.fileno).state
  unfolding forced document_head record_of body_of
  alter_found-forced u d dbd s fits fits' held =
      let text = head_text (document_head d) (entries 0 d.pieces) in
      alter_found-step u dbd s (record (document_head d) { headlength = length text }) _
        (body_of zlib db around d) (ap read_head held ∙ read_head-record_of zlib db around d fits)
        (write_head-text (document_head (forced d)) (entries 0 d.pieces) (length text) fits')
        (ap (advance (length text)) held ∙ advance-record_of zlib db around d)
        (rw held (length-forced d fits fits'))

  pub alter_total_page_forced-Holds :
      AccessLaws db
      → (u : UrlNode) (d : Document) (s : S) → Holds zlib db around s u d
      → Fits d
      → Fits (forced d)
      → Short zlib db around (forced d)
      → Accepts zlib db around s u (forced d)
      → (s' : S) × (alter_total_page_forced zlib db around u s ≡ ok s')
        × Holds zlib db around s' u (forced d)
  unfolding alter_total_page_forced
  alter_total_page_forced-Holds laws u d s h fits fits' short accepted =
      let (dbd, got, text, room, small) =
        laws.found s (db.load (get_content_db_name u.taskid)) u.id
          (record_of zlib db around (forced d)) h.dbd.fileno (inr short) (rw h.there at accepted) in
      (
        _,
        rw h.there (alter_found-forced u d h.dbd s fits fits' h.held),
        record { dbd = dbd; there = got; held = text; room = rw text room; small = small },
      )

  -- `readContent` returns the record of a document if it has as many pages as its head says, and
  -- nothing if not, with the numbers of the head in range. After `altertotalpageforced`, if they are
  -- still, the new record has at most DATLEN_MAX bytes, the file takes it and DBAccess keeps what it
  -- promises, it returns the record of the same pages with their number in the head.
  pub alter_total_page_forced-read_content :
      AccessLaws db
      → (u : UrlNode) (d : Document) (s : S) → (h : Holds zlib db around s u d) → Fits d
      → Fits (forced d)
      → Short zlib db around (forced d)
      → Accepts zlib db around s u (forced d)
      → (read_content zlib db around u.id u.taskid s
          ≡ ok (if d.totalpage == length d.pieces then some h.dbd else none))
        × ((s' : S) × (dbd : Dbd) × (alter_total_page_forced zlib db around u s ≡ ok s')
            × (read_content zlib db around u.id u.taskid s' ≡ ok (some dbd))
            × (dbd.datbuf ≡ record_of zlib db around (forced d)))
  unfolding forced
  alter_total_page_forced-read_content laws u d s h fits fits' short accepted =
      let (s', altered, h') =
        alter_total_page_forced-Holds laws u d s h fits fits' short accepted in
      let e : (length d.pieces == length d.pieces) ≡ true = ground arith in
      (
        read_content-Holds u d s h fits,
        (s', h'.dbd, altered, read_content-Holds u (forced d) s' h' fits' ∙ rw e refl, h'.held),
      )

-- Page by page, the entries of the head say where the text of a page stands, behind `front`.
pub entries-bodies :
    (pieces : List Piece) (front : Bytes) (i : ℕ) (p : Piece)
    → get_elem? pieces i ≡ some p
    → (e : PageHead) × (get_elem? (entries (length front) pieces) i ≡ some e)
      × (take e.length (drop e.offset (front ++ bodies pieces)) ≡ p.text)
      × (e.id ≡ p.id)
      × (e.page ≡ p.page)
unfolding entries bodies
entries-bodies [] front i p h = cc
entries-bodies (q ∷ pieces) front zero p h =
    let same : q ≡ p = cc in
    let text : take (length q.text) (drop (length front) (front ++ (q.text ++ bodies pieces)))
        ≡ q.text =
      ap (take (length q.text)) (drop-append_length front (q.text ++ bodies pieces))
      ∙ take-append_le (length q.text) q.text (bodies pieces) (omega arith)
      ∙ take-length (length q.text) q.text (omega arith) in
    (
      _,
      refl,
      text ∙ ap (λ (x : Piece). x.text) same,
      ap (λ (x : Piece). x.id) same,
      ap (λ (x : Piece). x.page) same,
    )
entries-bodies (q ∷ pieces) front (suc i) p h =
    let (e, found, text, id, page) = entries-bodies pieces (front ++ q.text) i p h in
    let place : length (front ++ q.text) ≡ length front + length q.text =
      length-append front q.text in
    (e, rw (sym place) found, rw (sym (append_assoc front q.text (bodies pieces))) text, id, page)
