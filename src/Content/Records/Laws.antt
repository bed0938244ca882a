-- ===== src/Content/Records/Laws.antt =====
-- The page that savecontent of src/module/LocalDbManager.cpp adds to a document.
use bloom_server.Base.{
  ℕ, ◌+◌, ◌^◌, ◌<◌, ◌≡◌, refl, true, Option, some, List, [], ◌∷◌, ◌++◌, arith, length, take, set,
  leb, u32, u64, length-append, take-length, ap, sym, ◌∙◌,
}
use bloom_server.Base.Run.{ok}
use bloom_server.Bloom.Types.{Bytes}
use bloom_server.Content.Head.{
  PageHead, Head, Written, new_page_head, write_head, append_page_head, set_page,
}
use bloom_server.Content.Head.Laws.{head_text}
use bloom_server.Content.PageText.{UrlNode, Surroundings}
use bloom_server.Content.Zlib.{Zlib}
use bloom_server.Content.Records.{Access, store_record, save_page}
use bloom_server.Content.Records.Documents.{
  Piece, Document, bodies, entries, document_head, Fits, length-entries, bodies-snoc,
  entries-snoc_first, set-snoc, append_page_head-entries, write_head-text,
}

-- The page of a url.
unfoldable pub piece_of : UrlNode → Bytes → Piece
piece_of u text = record { id = u.id; page = u.page; text = text }

-- The document with one page more.
unfoldable pub with_page : UrlNode → Bytes → Document → Document
with_page u text d = record d {
  totalpage = d.totalpage + 1;
  pieces = d.pieces ++ (piece_of u text ∷ []);
}

-- The document of a first page.
unfoldable pub first_page : UrlNode → ℕ → Bytes → Document
first_page u nextpage text = record {
  totalpage = nextpage;
  taskid = u.taskid;
  batchid = u.taskbatch;
  pieces = piece_of u text ∷ [];
}

module _ {ℓ} {S : Type ℓ} (zlib : Zlib) (db : Access S) (around : Surroundings) where
  -- The bytes of the record of a document.
  unfoldable pub record_of : Document → Bytes
  record_of d =
      head_text (document_head d) (entries 0 d.pieces)
      ++ zlib.compress2 (zlib.compress_bound (length (bodies d.pieces))) (bodies d.pieces)

  -- What `savecontent` does when it stores a document, with the number of the file that it was in.
  unfoldable pub stored : UrlNode → Document → Bytes → S → S
  stored u d fileno s =
      store_record zlib db around u (head_text (document_head d) (entries 0 d.pieces))
        (length (bodies d.pieces)) (bodies d.pieces) fileno s

  save_page-step :
      (u : UrlNode) (restored text : Bytes) (h head : Head) (idx : ℕ)
      (array : Option (List PageHead)) (w : Written) (fileno : Bytes) (s : S)
      → append_page_head (record h {
        totalpage = u32 (h.totalpage + 1);
        totallength = u64 (h.totallength + length text);
      })
        ≡ ok (record { head = record head { pages = array }; idx = idx })
      → set_page idx
          (record { id = u.id; offset = length restored; length = length text; page = u.page })
          array
        ≡ head.pages
      → write_head head ≡ ok w
      → head.totallength ≡ length (restored ++ text)
      → save_page zlib db around u restored text h fileno s
        ≡ ok (record {
          state =
              store_record zlib db around
                (record u { nowpage = head.nowpage })
                w.text
                (length (restored ++ text))
                (restored ++ text)
                fileno
                s;
          node = record u { nowpage = head.nowpage };
        })
  unfolding save_page
  save_page-step u restored text h head idx array w fileno s appended entered written whole =
      let content = restored ++ text in
      let fits : leb (length content) (length content) ≡ true = ground arith in
      let all : take (length content) content ≡ content =
        take-length (length content) content (omega arith) in
      rw (appended, entered, written, whole, fits, all) refl

  -- The head with one page more, before its last entry is written.
  appended-with_page :
      (u : UrlNode) (text : Bytes) (d : Document) (n : ℕ)
      → Fits (with_page u text d)
      → append_page_head (record (document_head d) {
        headlength = n;
        totalpage = u32 (d.totalpage + 1);
        totallength = u64 (length (bodies d.pieces) + length text);
      })
        ≡ ok (record {
          head = record (document_head (with_page u text d)) {
            headlength = n;
            pages = some (entries 0 d.pieces ++ (new_page_head ∷ []));
          };
          idx = length (entries 0 d.pieces);
        })
  unfolding with_page document_head piece_of
  appended-with_page u text d n fits =
      let p = piece_of u text in
      let count : length (d.pieces ++ (p ∷ [])) ≡ length d.pieces + 1 =
        length-append d.pieces (p ∷ []) in
      let size : length (bodies (d.pieces ++ (p ∷ []))) ≡ length (bodies d.pieces) + length text =
        ap length (bodies-snoc d.pieces p) ∙ length-append (bodies d.pieces) text in
      let e : u32 (d.totalpage + 1) ≡ d.totalpage + 1 = omega (arith, fits.totalpage) in
      let e' : u64 (length (bodies d.pieces) + length text)
          ≡ length (bodies d.pieces) + length text =
        omega (arith, fits.totallength) in
      let few : length (entries 0 d.pieces) + 1 < 2 ^ 32 =
        omega
          (arith, fits.few, length-entries 0 (d.pieces ++ (p ∷ [])), length-entries 0 d.pieces) in
      append_page_head-entries _ (entries 0 d.pieces) refl (sym (length-entries 0 d.pieces)) few
      ∙ rw (e, e', count, size, length-entries 0 d.pieces) refl

  pub save_page-with_page :
      (u : UrlNode) (text : Bytes) (d : Document) (n : ℕ) (fileno : Bytes) (s : S)
      → Fits (with_page u text d)
      → save_page zlib db around u
          (bodies d.pieces)
          text
          (record (document_head d) { headlength = n })
          fileno
          s
        ≡ (let count = length d.pieces + 1 in
            ok (record {
              state = stored (record u { nowpage = count }) (with_page u text d) fileno s;
              node = record u { nowpage = count };
            }))
  unfolding with_page document_head piece_of stored set_page
  save_page-with_page u text d n fileno s fits =
      let d' = with_page u text d in
      let p = piece_of u text in
      let count : length (d.pieces ++ (p ∷ [])) ≡ length d.pieces + 1 =
        length-append d.pieces (p ∷ []) in
      let entry : PageHead = record {
        id = u.id;
        offset = length (bodies d.pieces);
        length = length text;
        page = u.page;
      } in
      let entered : some
            (set (entries 0 d.pieces ++ (new_page_head ∷ [])) (length (entries 0 d.pieces)) entry)
          ≡ some (entries 0 d'.pieces) =
        ap some (
          set-snoc (entries 0 d.pieces) new_page_head entry
          ∙ sym (entries-snoc_first d.pieces p)) in
      save_page-step u (bodies d.pieces) text (record (document_head d) { headlength = n })
        (record (document_head d') { headlength = n }) (length (entries 0 d.pieces))
        (some (entries 0 d.pieces ++ (new_page_head ∷ []))) _ fileno s
        (appended-with_page u text d n fits) entered
        (write_head-text (document_head d') (entries 0 d'.pieces) n fits)
        (ap length (bodies-snoc d.pieces p))
      ∙ rw (bodies-snoc d.pieces p, count) refl
