-- ===== src/Content/Records/Branches.antt =====
-- savecontent of src/module/LocalDbManager.cpp on the record of a document: each of its branches.
use bloom_server.Base.{
  ℕ, ◌+◌, ◌*◌, ◌^◌, ◌≤◌, ◌<◌, ◌≡◌, refl, true, false, [], ◌++◌, arith, length, take, sub64,
  append_nil, length-append, take-length, ap, sym, ◌∙◌,
}
use bloom_server.Base.Run.{ok}
use bloom_server.Bloom.Types.{Bytes}
use bloom_server.Content.Format.{advance}
use bloom_server.Content.Head.{Head, Written, write_head, read_head}
use bloom_server.Content.Head.Laws.{head_text, read_head-head_text, write_head-fits}
use bloom_server.Content.Head.Pages.{advance-append}
use bloom_server.Content.PageText.{UrlNode, ResponseHeader, Surroundings, write_page_head}
use bloom_server.Content.Zlib.{Zlib, ZlibLaws, Inflated, inf}
use bloom_server.Content.Zlib.Laws.{packed, inf-restores}
use bloom_server.Content.Records.{
  Access, Dbd, any_saved, first_head, store_record, save_first, save_next,
}
use bloom_server.Content.Records.Documents.{
  Document, bodies, entries, document_head, Fits, has_piece, already_saved-entries,
}
use bloom_server.Content.Records.Laws.{
  piece_of, with_page, first_page, record_of, stored, save_page-with_page,
}

module _ {ℓ} {S : Type ℓ} (zlib : Zlib) (db : Access S) (around : Surroundings) where
  pub read_head-record_of :
      (d : Document)
      → Fits d
      → read_head (record_of zlib db around d)
        ≡ ok (record (document_head d) {
          headlength = length (head_text (document_head d) (entries 0 d.pieces));
        })
  unfolding record_of
  read_head-record_of d fits = read_head-head_text (document_head d) (entries 0 d.pieces) _ fits

  -- The compressed pages of a document.
  unfoldable pub body_of : Document → Bytes
  body_of d = zlib.compress2 (zlib.compress_bound (length (bodies d.pieces))) (bodies d.pieces)

  any_saved-document :
      (u : UrlNode) (d : Document) → any_saved u (document_head d).pages ≡ has_piece u d.pieces
  unfolding any_saved document_head
  any_saved-document u d = already_saved-entries u 0 d.pieces

  -- What `savecontent` restores of a document's pages.
  restored-bodies :
      ZlibLaws zlib
      → (d : Document) → length (bodies d.pieces) ≤ 64 * length (body_of d)
      → length (body_of d) < 2 ^ 25
      → (inf zlib (body_of d)).written ≡ bodies d.pieces
  unfolding body_of packed
  restored-bodies laws d ratio wide =
      let e : body_of d ++ [] ≡ body_of d = append_nil (body_of d) in
      ap (λ t. (inf zlib t).written) (sym e)
      ∙ ap (λ (r : Inflated). r.written)
          (inf-restores zlib laws (bodies d.pieces) []
            (omega (arith, ratio, ap (λ (t : Bytes). length t) e))
            (omega (arith, wide, ap (λ (t : Bytes). length t) e)))

  pub advance-record_of :
      (d : Document)
      → advance
          (length (head_text (document_head d) (entries 0 d.pieces)))
          (record_of zlib db around d)
        ≡ ok (body_of d)
  unfolding record_of body_of
  advance-record_of d = advance-append (head_text (document_head d) (entries 0 d.pieces)) _

  take-body_of :
      (d : Document) (datlen : ℕ)
      → length (record_of zlib db around d) ≤ datlen
      → datlen < 2 ^ 64
      → take (sub64 datlen (length (head_text (document_head d) (entries 0 d.pieces)))) (body_of d)
        ≡ body_of d
  unfolding record_of body_of
  take-body_of d datlen room small =
      let text = head_text (document_head d) (entries 0 d.pieces) in
      take-length (sub64 datlen (length text)) (body_of d)
        (omega (arith, length-append text (body_of d)))

  pub save_next-again :
      (u : UrlNode) (r : ResponseHeader) (content : Bytes) (d : Document) (dbd : Dbd) (s : S)
      → Fits d
      → dbd.datbuf ≡ record_of zlib db around d
      → has_piece u d.pieces ≡ true
      → save_next zlib db around u r content dbd s ≡ ok (record { state = s; node = u })
  unfolding save_next
  save_next-again u r content d dbd s fits held present =
      rw (held, read_head-record_of d fits, any_saved-document u d, present) refl

  pub save_next-with_page :
      ZlibLaws zlib
      → (u : UrlNode) (r : ResponseHeader) (content page_head : Bytes) (d : Document) (dbd : Dbd)
        (s : S)
      → Fits d
      → Fits (with_page u (page_head ++ content) d)
      → dbd.datbuf ≡ record_of zlib db around d
      → length dbd.datbuf ≤ dbd.datlen
      → dbd.datlen < 2 ^ 64
      → length (bodies d.pieces) ≤ 64 * length (body_of d)
      → length (body_of d) < 2 ^ 25
      → has_piece u d.pieces ≡ false
      → write_page_head around u r (length content) ≡ ok page_head
      → save_next zlib db around u r content dbd s ≡ (
          let count = length d.pieces + 1 in
          ok (record {
            state =
                stored zlib db around
                  (record u { nowpage = count })
                  (with_page u (page_head ++ content) d)
                  dbd.fileno
                  s;
            node = record u { nowpage = count };
          }))
  unfolding save_next
  save_next-with_page laws u r content page_head d dbd s fits fits' held room small ratio wide
        absent headed =
      let text = head_text (document_head d) (entries 0 d.pieces) in
      let moved : advance (length text) (record_of zlib db around d) ≡ ok (body_of d) =
        advance-record_of d in
      let whole : take (sub64 dbd.datlen (length text)) (body_of d) ≡ body_of d =
        take-body_of d dbd.datlen (rw (sym held) room) small in
      rw
        (
          held,
          read_head-record_of d fits,
          any_saved-document u d,
          absent,
          headed,
          moved,
          whole,
          restored-bodies laws d ratio wide,
        )
        (save_page-with_page zlib db around u (page_head ++ content) d (length text) dbd.fileno s
          fits')

  first_head-document :
      (u : UrlNode) (nextpage : ℕ) (page_head content : Bytes)
      → first_head u nextpage (length page_head + length content)
        ≡ document_head (first_page u nextpage (page_head ++ content))
  unfolding first_head document_head first_page piece_of bodies entries
  first_head-document u nextpage page_head content =
      rw (append_nil, length-append page_head content) refl

  save_first-step :
      (u : UrlNode) (r : ResponseHeader) (content page_head : Bytes) (nextpage : ℕ) (head : Head)
      (w : Written) (s : S)
      → write_page_head around u r (length content) ≡ ok page_head
      → first_head u nextpage (length page_head + length content) ≡ head
      → write_head head ≡ ok w
      → save_first zlib db around u r content nextpage s
        ≡ ok (record {
          state =
              store_record zlib db around
                (record u { nowpage = 1 })
                w.text
                head.totallength
                (page_head ++ content)
                []
                s;
          node = record u { nowpage = 1 };
        })
  unfolding save_first
  save_first-step u r content page_head nextpage head w s headed first written =
      rw (headed, first, written) refl

  pub save_first-first_page :
      (u : UrlNode) (r : ResponseHeader) (content page_head : Bytes) (nextpage : ℕ) (s : S)
      → Fits (first_page u nextpage (page_head ++ content))
      → write_page_head around u r (length content) ≡ ok page_head
      → save_first zlib db around u r content nextpage s
        ≡ ok (record {
          state =
              stored zlib db around
                (record u { nowpage = 1 })
                (first_page u nextpage (page_head ++ content))
                []
                s;
          node = record u { nowpage = 1 };
        })
  unfolding stored first_page piece_of bodies document_head entries
  save_first-first_page u r content page_head nextpage s fits headed =
      let d = first_page u nextpage (page_head ++ content) in
      save_first-step u r content page_head nextpage (document_head d) _ s headed
        (first_head-document u nextpage page_head content)
        (write_head-fits (document_head d) (entries 0 d.pieces) fits)
      ∙ rw append_nil refl
