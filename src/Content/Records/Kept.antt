-- ===== src/Content/Records/Kept.antt =====
-- What the files of DBAccess hold of a document after the operations of LocalDbManager.
use bloom_server.Base.{
  ℕ, ◌+◌, ◌*◌, ◌^◌, ◌≤◌, ◌<◌, ◌≡◌, ◌≢◌, ◌⊎◌, refl, [], Bool, true, false, Option, none, some, ◌++◌,
  length, if◌then◌else◌, Bool-cases, inl, inr, ap, ◌∙◌, arith, length-append,
}
use bloom_server.Base.Run.{ok}
use bloom_server.Bloom.Types.{Bytes}
use bloom_server.Content.PageText.{UrlNode, ResponseHeader, Surroundings, write_page_head}
use bloom_server.Content.Zlib.{Zlib, ZlibLaws}
use bloom_server.Content.Records.{
  Access, Dbd, SavedPage, get_content_db_name, get_url_db_name, get_record_key_name, stored_ok,
  save_url, store_record, save_found, save_content,
}
use bloom_server.Content.Records.Documents.{
  Document, bodies, entries, document_head, Fits, has_piece,
}
use bloom_server.Content.Head.Laws.{head_text}
use bloom_server.Content.Records.Laws.{with_page, first_page, record_of, stored}
use bloom_server.Content.Records.Branches.{
  body_of, save_first-first_page, save_next-again, save_next-with_page,
}

-- DATLEN_MAX.
abbrev pub datlen_max : ℕ
datlen_max = 1024 * 1024 * 2

-- The number of the file that `get` leaves.
abbrev pub fileno_of : Option Dbd → Bytes
fileno_of none = []
fileno_of (some dbd) = dbd.fileno

-- What DBAccess promises: the tables of urls are none of the tables of pages; a record of pages that was stored is
-- found whole, in a place that is large enough, if `store` was given no file number or the record has
-- at most DATLEN_MAX bytes (with a file number it returns 0 for a longer one, too, and stores
-- nothing); and a store leaves the other tables alone.
pub record AccessLaws {ℓ} {S : Type ℓ} (db : Access S) : Type ℓ where
  pub distinct : (a b : ℕ) → db.load (get_url_db_name a) ≢ db.load (get_content_db_name b)
  pub found :
      (s : S) (n id : ℕ) (text fileno : Bytes)
      → (fileno ≡ []) ⊎ (length text ≤ datlen_max)
      → stored_ok (db.store s n (get_record_key_name id) text fileno).ret ≡ true
      → (dbd : Dbd) × (db.get
            (db.store s n (get_record_key_name id) text fileno).state
            n
            (get_record_key_name id)
          ≡ some dbd)
        × (dbd.datbuf ≡ text)
        × (length text ≤ dbd.datlen)
        × (dbd.datlen < 2 ^ 64)
  pub others :
      (s : S) (n m : ℕ) (key other text fileno : Bytes)
      → n ≢ m
      → db.get (db.store s n key text fileno).state m other ≡ db.get s m other

module _ {ℓ} {S : Type ℓ} (zlib : Zlib) (db : Access S) (around : Surroundings) where
  -- The record of the document of a url.
  abbrev pub lookup : S → UrlNode → Option Dbd
  lookup s u = db.get s (db.load (get_content_db_name u.taskid)) (get_record_key_name u.id)

  -- The files hold this document for the url.
  pub record Holds (s : S) (u : UrlNode) (d : Document) : Type ℓ where
    pub dbd : Dbd
    pub there : lookup s u ≡ some dbd
    pub held : dbd.datbuf ≡ record_of zlib db around d
    pub room : length dbd.datbuf ≤ dbd.datlen
    pub small : dbd.datlen < 2 ^ 64

  -- The file takes the record, given the number of the file that the url's record is in.
  abbrev pub Accepts : S → UrlNode → Document → Type 0
  Accepts s u d =
      stored_ok
        (db.store s (db.load (get_content_db_name u.taskid)) (get_record_key_name u.id)
          (record_of zlib db around d) (fileno_of (lookup s u))).ret
      ≡ true

  -- The record has at most DATLEN_MAX bytes.
  abbrev pub Short : Document → Type 0
  Short d = length (record_of zlib db around d) ≤ datlen_max

  length-body_of : (d : Document) → Short d → length (body_of zlib db around d) < 2 ^ 25
  unfolding body_of record_of
  length-body_of d short =
      let text = head_text (document_head d) (entries 0 d.pieces) in
      omega (arith, short, length-append text (body_of zlib db around d))

  -- A write to the table of the urls leaves the records of the pages alone.
  save_url-lookup :
      AccessLaws db
      → (father : Bool) (u v : UrlNode) (s : S)
      → lookup (save_url zlib db around father u s).state v ≡ lookup s v
  unfolding save_url
  save_url-lookup laws father u v s = laws.others s _ _ _ _ _ _ (laws.distinct u.taskid v.taskid)

  record_state :
      (u : UrlNode) (d : Document) (s : S)
      → Accepts s u d
      → stored zlib db around u d (fileno_of (lookup s u)) s
        ≡ (save_url zlib db around false u
            (db.store s
              (db.load (get_content_db_name u.taskid))
              (get_record_key_name u.id)
              (record_of zlib db around d)
              (fileno_of (lookup s u))).state).state
  unfolding stored store_record record_of
  record_state u d s accepted = rw accepted refl

  pub stored-Holds :
      AccessLaws db
      → (u : UrlNode) (d : Document) (s : S) → (fileno_of (lookup s u) ≡ []) ⊎ Short d
      → Accepts s u d
      → Holds (stored zlib db around u d (fileno_of (lookup s u)) s) u d
  stored-Holds laws u d s short accepted =
      let (dbd, got, text, room, small) =
        laws.found s (db.load (get_content_db_name u.taskid)) u.id (record_of zlib db around d)
          (fileno_of (lookup s u)) short accepted in
      record {
        dbd = dbd;
        there =
            ap (λ t. lookup t u) (record_state u d s accepted)
            ∙ save_url-lookup laws false u u _
            ∙ got;
        held = text;
        room = rw text room;
        small = small;
      }

  -- Only the task and the id of the node matter.
  Holds-node :
      (u : UrlNode) (count : ℕ) (d : Document) (s : S)
      → Holds s (record u { nowpage = count }) d
      → Holds s u d
  Holds-node u count d s h = record {
    dbd = h.dbd;
    there = h.there;
    held = h.held;
    room = h.room;
    small = h.small;
  }

  -- The document after `savecontent` of a page with this text.
  unfoldable pub add_page : UrlNode → Bytes → Document → Document
  add_page u text d = if has_piece u d.pieces then d else with_page u text d

  -- Where the files hold no record of the url, `savecontent` of its first page returns, and the files
  -- hold the document of that page, with `nextpage` as the number of its pages, and the node has one
  -- page, if the lines before the content fit into their buffer, the numbers of the head are in range
  -- and the file takes the record.
  pub save_content-first :
      AccessLaws db
      → (u : UrlNode) (r : ResponseHeader) (content page_head : Bytes) (nextpage : ℕ) (s : S)
      → lookup s u ≡ none
      → write_page_head around u r (length content) ≡ ok page_head
      → Fits (first_page u nextpage (page_head ++ content))
      → Accepts s u (first_page u nextpage (page_head ++ content))
      → (saved : SavedPage S) × (save_content zlib db around u r content nextpage s ≡ ok saved)
        × Holds saved.state u (first_page u nextpage (page_head ++ content))
        × (saved.node ≡ record u { nowpage = 1 })
  unfolding save_content save_found
  save_content-first laws u r content page_head nextpage s absent headed fits accepted = rw absent (
    _,
    save_first-first_page zlib db around u r content page_head nextpage s fits headed,
    Holds-node u 1 _ _ (
        rw absent at (
          stored-Holds laws (record u { nowpage = 1 })
            (first_page u nextpage (page_head ++ content)) s (inl (rw absent refl)) accepted)),
    refl,
  )

  -- Where the files hold a document for the url, with fewer than 10 ^ 5 pages, whose pages are at most
  -- 64 times as long as their compressed form, `savecontent` of a page returns: the document is the
  -- same if it has that page, and else it has that page at its end and counts one page more, if the
  -- lines before the content fit into their buffer, the numbers of the head are in range, the old and
  -- the new record have at most DATLEN_MAX bytes each and the file takes the new one, and zlib and
  -- DBAccess keep what they promise.
  pub save_content-next :
      ZlibLaws zlib
      → AccessLaws db
      → (u : UrlNode) (r : ResponseHeader) (content page_head : Bytes) (nextpage : ℕ) (d : Document)
        (s : S)
      → Holds s u d
      → Fits d
      → write_page_head around u r (length content) ≡ ok page_head
      → Fits (with_page u (page_head ++ content) d)
      → length (bodies d.pieces) ≤ 64 * length (body_of zlib db around d)
      → Short d
      → Short (with_page u (page_head ++ content) d)
      → Accepts s u (with_page u (page_head ++ content) d)
      → (saved : SavedPage S) × (save_content zlib db around u r content nextpage s ≡ ok saved)
        × Holds saved.state u (add_page u (page_head ++ content) d)
  unfolding save_content save_found add_page
  save_content-next zlaws laws u r content page_head nextpage d s h fits headed fits' ratio
        short_old short accepted =
      elim (Bool-cases (has_piece u d.pieces)) [
        | inl present ↦
            rw (h.there, present)
              (_, save_next-again zlib db around u r content d h.dbd s fits h.held present, h)
        | inr absent ↦
            rw (h.there, absent)
              (
                _,
                save_next-with_page zlib db around zlaws u r content page_head d h.dbd s fits fits'
                    h.held h.room h.small ratio (length-body_of d short_old) absent headed,
                Holds-node u _ _ _ (
                    rw h.there at (
                      stored-Holds laws (record u { nowpage = length d.pieces + 1 })
                        (with_page u (page_head ++ content) d) s (inr short) accepted)),
              )
      ]
