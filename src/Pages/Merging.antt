-- ===== src/Pages/Merging.antt =====
-- A buffer of pages that is written becomes the record that LocalDbManager keeps of its document.
use bloom_server.Base.{
  ℕ, ◌+◌, ◌≡◌, refl, Bool, true, false, Option, none, some, List, [], ◌∷◌, ◌++◌, arith, length,
  if◌then◌else◌, u32,
}
use bloom_server.Base.Run.{ok}
use bloom_server.Bloom.Types.{Bytes}
use bloom_server.Content.Format.{padded_field, sprintf, sprintf_into}
use bloom_server.Content.Format.Laws.{sprintf_into-short}
use bloom_server.Content.Head.{PageHead, head_format, page_format, page_values, head_values}
use bloom_server.Content.Head.Pages.{AllFit, pages_text, page_room}
use bloom_server.Content.Head.Laws.{head_text, head_room, head_size}
use bloom_server.Content.PageText.{UrlNode, Surroundings}
use bloom_server.Content.Zlib.{Zlib}
use bloom_server.Content.Records.{Access, get_content_db_name, get_record_key_name}
use bloom_server.Content.Records.Documents.{Piece, Document, bodies, entries, document_head, Fits}
use bloom_server.Content.Records.Laws.{record_of}
use bloom_server.Pages.{PageBuf, find_buf, erase_buf, set_buf}
use bloom_server.Pages.Record.{Merged, page_body, merge_loop, store_merged, save_in_db}

module _ {ℓ} {S : Type ℓ} (zlib : Zlib) (db : Access S) (around : Surroundings) where
  -- The pages of a buffer, from place `i`.
  unfoldable pub pieces_of : Bool → ℕ → ℕ → List (Option Bytes) → List Piece
  pieces_of deflated id i [] = []
  pieces_of deflated id i (none ∷ pages) = pieces_of deflated id (i + 1) pages
  pieces_of deflated id i (some page ∷ pages) =
      record { id = id; page = i; text = page_body zlib db around deflated page }
      ∷ pieces_of deflated id (i + 1) pages

  -- The document of a buffer.
  unfoldable pub document_of : Bool → PageBuf → Document
  document_of deflated buf = record {
    totalpage = buf.totalpage;
    taskid = buf.taskid;
    batchid = buf.batchid;
    pieces = pieces_of deflated buf.urlnodeid 0 buf.pages;
  }

  merge_loop-pieces_of :
      (deflated : Bool) (id offset i : ℕ) (pages : List (Option Bytes))
      → AllFit (entries offset (pieces_of deflated id i pages))
      → merge_loop zlib db around deflated id offset i pages
        ≡ ok (record {
          entries = pages_text (entries offset (pieces_of deflated id i pages));
          content = bodies (pieces_of deflated id i pages);
        })
  unfolding merge_loop pieces_of entries pages_text bodies AllFit
  merge_loop-pieces_of deflated id offset i [] fit = refl
  merge_loop-pieces_of deflated id offset i (none ∷ pages) fit =
      merge_loop-pieces_of deflated id offset (i + 1) pages fit
  merge_loop-pieces_of deflated id offset i (some page ∷ pages) (fits, fit) =
      let body = page_body zlib db around deflated page in
      let entry : PageHead = record { id = id; offset = offset; length = length body; page = i } in
      rw
        (
          sprintf_into-short 64 page_format (page_values entry) (page_room entry fits),
          merge_loop-pieces_of deflated id (offset + length body) (i + 1) pages fit,
        )
        refl

  -- The counts of a buffer are those of its pages.
  pub record Counted (deflated : Bool) (buf : PageBuf) : Type 0 where
    pub pages : buf.nowpage ≡ length (pieces_of deflated buf.urlnodeid 0 buf.pages)
    pub bytes :
        deflated ≡ false
        → buf.totallength ≡ length (bodies (pieces_of deflated buf.urlnodeid 0 buf.pages))

  size_counted :
      (deflated : Bool) (buf : PageBuf)
      → Counted deflated buf
      → (if deflated
          then length (bodies (pieces_of deflated buf.urlnodeid 0 buf.pages))
          else buf.totallength)
        ≡ length (bodies (pieces_of deflated buf.urlnodeid 0 buf.pages))
  size_counted true buf counted = refl
  size_counted false buf counted = counted.bytes refl

  save_in_db-step :
      (deflated : Bool) (buf : PageBuf) (owner : Option UrlNode) (s : S) (merged : Merged)
      (fields bytes : Bytes)
      → merge_loop zlib db around deflated buf.urlnodeid 0 0 buf.pages ≡ ok merged
      → sprintf_into 64 head_format (
          u32 (if deflated then length merged.content else buf.totallength)
          ∷ buf.totalpage
          ∷ buf.nowpage
          ∷ buf.taskid
          ∷ buf.batchid
          ∷ [])
        ≡ ok fields
      → (sprintf (padded_field ∷ []) (u32 (length (fields ++ merged.entries) + 8 + 1) ∷ [])
            ++ (fields ++ merged.entries))
          ++ zlib.compress2 (zlib.compress_bound (length merged.content)) merged.content
        ≡ bytes
      → db.get s (db.load (get_content_db_name buf.taskid)) (get_record_key_name buf.urlnodeid)
        ≡ none
      → save_in_db zlib db around deflated buf owner s
        ≡ ok
            (db.store s
              (db.load (get_content_db_name buf.taskid))
              (get_record_key_name buf.urlnodeid)
              bytes
              []).state
  unfolding save_in_db store_merged
  save_in_db-step deflated buf owner s merged fields bytes merging printed whole absent =
      rw (merging, printed, absent, whole) refl

  pub save_in_db-document_of :
      (deflated : Bool) (buf : PageBuf) (owner : Option UrlNode) (s : S)
      → Fits (document_of deflated buf)
      → Counted deflated buf
      → db.get s (db.load (get_content_db_name buf.taskid)) (get_record_key_name buf.urlnodeid)
        ≡ none
      → save_in_db zlib db around deflated buf owner s
        ≡ ok
            (db.store s
              (db.load (get_content_db_name buf.taskid))
              (get_record_key_name buf.urlnodeid)
              (record_of zlib db around (document_of deflated buf))
              []).state
  unfolding document_of document_head head_text record_of
  save_in_db-document_of deflated buf owner s fits counted absent =
      let d = document_of deflated buf in
      let head = document_head d in
      let printed : sprintf_into 64 head_format (head_values head)
          ≡ ok (sprintf head_format (head_values head)) =
        sprintf_into-short 64 head_format (head_values head)
          (omega (arith, head_room head (entries 0 d.pieces) fits)) in
      save_in_db-step deflated buf owner s _ (sprintf head_format (head_values head)) _
        (merge_loop-pieces_of deflated buf.urlnodeid 0 0 buf.pages fits.all_fit)
        (rw (size_counted deflated buf counted, counted.pages) printed)
        (rw (head_size head (entries 0 d.pieces) fits) refl) absent

  pub find_buf-set_buf :
      (id : ℕ) (old new : PageBuf) (pagemap : List (ℕ × PageBuf))
      → find_buf id pagemap ≡ some old
      → find_buf id (set_buf id new pagemap) ≡ some new
  unfolding find_buf set_buf
  find_buf-set_buf id old new [] found = cc
  find_buf-set_buf id old new ((key, buf) ∷ pagemap) found =
      ground (arith, find_buf-set_buf id old new pagemap)

  pub erase_buf-set_buf :
      (id : ℕ) (new : PageBuf) (pagemap : List (ℕ × PageBuf))
      → erase_buf id (set_buf id new pagemap) ≡ erase_buf id pagemap
  unfolding erase_buf set_buf
  erase_buf-set_buf id new [] = refl
  erase_buf-set_buf id new ((key, buf) ∷ pagemap) = ground (arith, erase_buf-set_buf id new pagemap)
