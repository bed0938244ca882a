-- ===== src/Content/Records/Documents.antt =====
-- The record of a document as a list of pages: what the functions of Content.Records write for it.
use bloom_server.Base.{
  ℕ, suc, ◌+◌, ◌^◌, ◌<◌, ◌≡◌, refl, Bool, true, false, ◌&&◌, some, List, [], ◌∷◌, ◌++◌, arith,
  length, take, set, leb, ◌==◌, if◌then◌else◌, u32, append_assoc, append_nil, length-append,
  take-length, ap,
}
use bloom_server.Base.Run.{ok}
use bloom_server.Bloom.Types.{Bytes}
use bloom_server.Content.Head.{
  PageHead, Head, new_page_head, write_head, append_to, append_page_head,
}
use bloom_server.Content.Head.Laws.{HeadFits, head_text, write_head-fits}
use bloom_server.Content.PageText.{UrlNode}
use bloom_server.Content.Records.{already_saved}

-- One page with the lines before its content.
pub record Piece : Type 0 where
  pub id : ℕ
  pub page : ℕ
  pub text : Bytes

pub record Document : Type 0 where
  pub totalpage : ℕ
  pub taskid : ℕ
  pub batchid : ℕ
  pub pieces : List Piece

unfoldable pub bodies : List Piece → Bytes
bodies [] = []
bodies (p ∷ pieces) = p.text ++ bodies pieces

unfoldable pub entries : ℕ → List Piece → List PageHead
entries offset [] = []
entries offset (p ∷ pieces) =
    record { id = p.id; offset = offset; length = length p.text; page = p.page }
    ∷ entries (offset + length p.text) pieces

unfoldable pub document_head : Document → Head
document_head d = record {
  totallength = length (bodies d.pieces);
  headlength = 0;
  totalpage = d.totalpage;
  nowpage = length d.pieces;
  taskid = d.taskid;
  batchid = d.batchid;
  pages = some (entries 0 d.pieces);
}

-- The head has room for the document.
abbrev pub Fits : Document → Type 0
Fits d = HeadFits (document_head d) (entries 0 d.pieces)

unfoldable pub has_piece : UrlNode → List Piece → Bool
has_piece u [] = false
has_piece u (p ∷ pieces) =
    let rest = has_piece u pieces in if (p.id == u.id) && (p.page == u.page) then true else rest

pub already_saved-entries :
    (u : UrlNode) (offset : ℕ) (pieces : List Piece)
    → already_saved u (entries offset pieces) ≡ has_piece u pieces
unfolding already_saved entries has_piece
already_saved-entries u offset [] = refl
already_saved-entries u offset (p ∷ pieces) =
    rw (already_saved-entries u (offset + length p.text) pieces) refl

pub length-entries :
    (offset : ℕ) (pieces : List Piece) → length (entries offset pieces) ≡ length pieces
unfolding entries
length-entries offset [] = refl
length-entries offset (p ∷ pieces) = ap suc (length-entries (offset + length p.text) pieces)

pub bodies-snoc :
    (pieces : List Piece) (p : Piece) → bodies (pieces ++ (p ∷ [])) ≡ bodies pieces ++ p.text
unfolding bodies
bodies-snoc [] p = append_nil p.text
bodies-snoc (q ∷ pieces) p = rw (bodies-snoc pieces p, append_assoc) refl

pub entries-snoc :
    (offset : ℕ) (pieces : List Piece) (p : Piece)
    → entries offset (pieces ++ (p ∷ []))
      ≡ entries offset pieces
        ++ (record {
          id = p.id;
          offset = offset + length (bodies pieces);
          length = length p.text;
          page = p.page;
        }
            ∷ [])
unfolding entries bodies
entries-snoc offset [] p = let e : offset + 0 ≡ offset = omega arith in rw e refl
entries-snoc offset (q ∷ pieces) p =
    let e : offset + length q.text + length (bodies pieces)
        ≡ offset + length (q.text ++ bodies pieces) =
      omega (arith, length-append q.text (bodies pieces)) in
    rw (entries-snoc (offset + length q.text) pieces p, e) refl

pub entries-snoc_first :
    (pieces : List Piece) (p : Piece)
    → entries 0 (pieces ++ (p ∷ []))
      ≡ entries 0 pieces
        ++ (record {
          id = p.id;
          offset = length (bodies pieces);
          length = length p.text;
          page = p.page;
        }
            ∷ [])
entries-snoc_first pieces p =
    let e : 0 + length (bodies pieces) ≡ length (bodies pieces) = omega arith in
    rw (entries-snoc 0 pieces p, e) refl

pub set-snoc {ℓ} :
    {A : Type ℓ} (xs : List A) (a b : A) → set (xs ++ (a ∷ [])) (length xs) b ≡ xs ++ (b ∷ [])
set-snoc [] a b = refl
set-snoc (x ∷ xs) a b = rw (set-snoc xs a b) refl

-- `appendPageHead` and the writes behind it add an entry at the end.
pub append_page_head-entries :
    (h : Head) (pages : List PageHead)
    → h.pages ≡ some pages
    → h.nowpage ≡ length pages
    → length pages + 1 < 2 ^ 32
    → append_page_head h
      ≡ ok (record {
        head = record h {
          pages = some (pages ++ (new_page_head ∷ []));
          nowpage = length pages + 1;
        };
        idx = length pages;
      })
unfolding append_page_head append_to
append_page_head-entries h pages array counted few =
    let le : leb h.nowpage (length pages) ≡ true = ground arith in
    let whole : take h.nowpage pages ≡ pages = take-length h.nowpage pages (omega arith) in
    let next : u32 (h.nowpage + 1) ≡ length pages + 1 = omega arith in
    rw (array, le, whole, next, counted) refl

HeadFits-headlength :
    (h : Head) (pages : List PageHead) (n : ℕ)
    → HeadFits h pages
    → HeadFits (record h { headlength = n }) pages
HeadFits-headlength h pages n fits = record {
  totallength = fits.totallength;
  totalpage = fits.totalpage;
  counted = fits.counted;
  few = fits.few;
  taskid = fits.taskid;
  batchid = fits.batchid;
  array = fits.array;
  all_fit = fits.all_fit;
}

pub write_head-text :
    (h : Head) (pages : List PageHead) (n : ℕ)
    → HeadFits h pages
    → write_head (record h { headlength = n })
      ≡ ok (record {
        text = head_text h pages;
        head = record h { headlength = length (head_text h pages) };
      })
unfolding head_text
write_head-text h pages n fits =
    write_head-fits (record h { headlength = n }) pages (HeadFits-headlength h pages n fits)
