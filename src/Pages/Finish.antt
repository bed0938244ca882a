-- ===== src/Pages/Finish.antt =====
-- decidesaveFetched and erasecontent of src/module/LocalDbManager.cpp, which look for a document in the
-- files first and then in the map of the page manager.
use bloom_server.Base.{
  ℕ, ◌+◌, ◌-◌, ◌^◌, ◌<◌, ◌≡◌, ◌≢◌, refl, Bool, true, Option, none, some, [], ◌∷◌, ◌++◌, arith,
  length, get_or, ltb, ◌==◌, if◌then◌else◌, u32, ap, sym, ◌∙◌,
}
use bloom_server.Base.Run.{Run, ok, ok_or, ◌>>=◌}
use bloom_server.Bloom.Types.{Bytes}
use bloom_server.Content.Format.{decimal, sprintf, sscanf, ulonglong_field}
use bloom_server.Content.Format.Laws.{
  InField, InFields, sscanf-sprintf, sprintf_step, print_ulonglong_field,
}
use bloom_server.Content.PageText.{UrlNode, Surroundings}
use bloom_server.Content.Zlib.{Zlib}
use bloom_server.Content.Records.{
  Access, Stored, Dbd, get_content_db_name, get_record_key_name, read_content,
  alter_total_page_forced,
}
use bloom_server.Content.Records.Documents.{Document, Fits}
use bloom_server.Content.Records.Laws.{record_of}
use bloom_server.Content.Records.Kept.{AccessLaws, lookup, Holds, Accepts, Short}
use bloom_server.Content.Records.Reading.{forced, read_content-Holds, alter_total_page_forced-Holds}
use bloom_server.Pages.{PageBuf, find_buf, find_in_map, erase_content_map, has_next}
use bloom_server.Pages.Record.{PageWorld, alter_map_total_page_forced}
use bloom_server.Pages.Merging.{pieces_of, document_of, Counted}
use bloom_server.Pages.Forced.{forced_buf, alter_map_total_page_forced-Holds}
use bloom_server.Pages.Save.{is_there, find_in_db}

-- `DBAccess::erase`, with the number of the file that `get` leaves.
pub record Eraser {ℓ} (S : Type ℓ) : Type ℓ where
  pub erase_record : S → ℕ → Bytes → Bytes → Stored S

-- What it promises: it leaves the records of other keys alone.
pub record EraserLaws {ℓ} {S : Type ℓ} (db : Access S) (eraser : Eraser S) : Type ℓ where
  pub others :
      (s : S) (n m : ℕ) (key other fileno : Bytes)
      → other ≢ key
      → db.get (eraser.erase_record s n key fileno).state m other ≡ db.get s m other

-- An `int` as an `unsigned long long`.
abbrev pub sign_extended : ℕ → ℕ
sign_extended n = if ltb n (2 ^ 31) then n else n + (2 ^ 64 - 2 ^ 32)

module _ {ℓ} {S : Type ℓ} (zlib : Zlib) (db : Access S) (around : Surroundings) where
  -- `decidesaveFetched`, before it notes that the url is fetched.
  unfoldable pub complete_pages : Bool → UrlNode → PageWorld S → Run (PageWorld S)
  complete_pages deflated u w =
      let in_files =
        alter_total_page_forced zlib db around u w.files
        >>= (λ files. ok (record w { files = files })) in
      let in_memory = alter_map_total_page_forced zlib db around deflated u w in
      if has_next u.page
      then (if find_in_db zlib db around u w.files then in_files else in_memory)
      else ok w

  module _ (eraser : Eraser S) where
    unfoldable pub erase_there : ℕ → ℕ → Option Dbd → S → S
    erase_there id taskid none s = s
    erase_there id taskid (some dbd) s =
        (eraser.erase_record s (db.load (get_content_db_name taskid)) (get_record_key_name id)
          dbd.fileno).state

    -- `erasecontent_db`.
    unfoldable pub erase_content_db : ℕ → ℕ → S → S
    erase_content_db id taskid s =
        erase_there id taskid
          (db.get s (db.load (get_content_db_name taskid)) (get_record_key_name id)) s

    -- `erasecontent`; it calls `erasecontent_db(taskid, id)`.
    unfoldable pub erase_content : ℕ → ℕ → PageWorld S → PageWorld S
    erase_content id taskid w =
        if is_there (db.get w.files (db.load (get_content_db_name taskid)) (get_record_key_name id))
        then record w { files = erase_content_db (sign_extended taskid) (u32 id) w.files }
        else if find_in_map id w.manager
        then record w { manager = erase_content_map id w.manager }
        else w

same-== : (a b : ℕ) → a ≡ b → (a == b) ≡ true
same-== a b e = ground arith

-- A document of a url that waits to be completed, in the files or in the map, with the document that
-- it becomes.
pub data Pending {ℓ} {S : Type ℓ} (zlib : Zlib) (db : Access S) (around : Surroundings)
    (deflated : Bool) (u : UrlNode) (w : PageWorld S) : Document → Type ℓ where
  in_files :
      (d : Document)
      → Holds zlib db around w.files u d
      → Fits d
      → Fits (forced d)
      → Short zlib db around (forced d)
      → Accepts zlib db around w.files u (forced d)
      → Pending zlib db around deflated u w (forced d)
  in_memory :
      (buf : PageBuf)
      → find_buf u.id (w.manager).pagemap ≡ some buf
      → buf.urlnodeid ≡ u.id
      → buf.taskid ≡ u.taskid
      → buf.totallength < 2 ^ 32
      → Counted zlib db around deflated buf
      → Fits (document_of zlib db around deflated (forced_buf buf))
      → lookup zlib db around w.files u ≡ none
      → Accepts zlib db around w.files u (document_of zlib db around deflated (forced_buf buf))
      → Pending zlib db around deflated u w (document_of zlib db around deflated (forced_buf buf))

module _ {ℓ} {S : Type ℓ} (zlib : Zlib) (db : Access S) (around : Surroundings) where
  -- Wherever the document of a page behind the first one waits, in the files or in the map, the part of
  -- `decidesaveFetched` that completes it returns, and `readContent` then returns the record of the
  -- document with the number of its pages as their total, if the numbers of the head are in range, the
  -- counts of a buffer are those of its pages, a record that replaces one in the files has at most
  -- DATLEN_MAX bytes and the file takes the record, and if DBAccess keeps what it promises.
  pub complete_pages-read_content :
      AccessLaws db
      → (deflated : Bool) (u : UrlNode) (w : PageWorld S) (d : Document) → has_next u.page ≡ true
      → Pending zlib db around deflated u w d
      → (w' : PageWorld S) × (dbd : Dbd) × (complete_pages zlib db around deflated u w ≡ ok w')
        × (read_content zlib db around u.id u.taskid w'.files ≡ ok (some dbd))
        × (dbd.datbuf ≡ record_of zlib db around d)
  unfolding complete_pages find_in_db forced forced_buf document_of
  complete_pages-read_content laws deflated u w _ later (in_files d h fits fits' short accepted) =
      let (s, altered, h') =
        alter_total_page_forced-Holds zlib db around laws u d w.files h fits fits' short accepted in
      let e : ((forced d).totalpage == length (forced d).pieces) ≡ true =
        same-== (length d.pieces) (length d.pieces) refl in
      (
        record w { files = s },
        h'.dbd,
        rw (later, h.there, altered) refl,
        read_content-Holds zlib db around u (forced d) s h' fits' ∙ rw e refl,
        h'.held,
      )
  complete_pages-read_content laws deflated u w _ later
        (in_memory buf found id task small counted fits absent accepted) =
      let (w', altered, h', rest) =
        alter_map_total_page_forced-Holds zlib db around laws deflated u buf w found id task small
          counted fits absent accepted in
      let d = document_of zlib db around deflated (forced_buf buf) in
      let e : (d.totalpage == length d.pieces) ≡ true =
        same-== buf.nowpage (length (pieces_of zlib db around deflated buf.urlnodeid 0 buf.pages))
          counted.pages in
      (
        w',
        h'.dbd,
        rw (later, absent) altered,
        read_content-Holds zlib db around u d w'.files h' fits ∙ rw e refl,
        h'.held,
      )

-- Different numbers have different digits.
decimal_injective : (a b : ℕ) → a < 2 ^ 64 → b < 2 ^ 64 → decimal a ≡ decimal b → a ≡ b
unfolding InField InFields
decimal_injective a b small small' e =
    let format = ulonglong_field ∷ [] in
    let text : sprintf format (a ∷ []) ++ [] ≡ sprintf format (b ∷ []) ++ [] =
      rw (sprintf_step, sprintf_step, print_ulonglong_field, print_ulonglong_field, e) refl in
    let read : ok (a ∷ []) ≡ ok (b ∷ []) =
      sym (sscanf-sprintf format (a ∷ []) [] (small, tt))
      ∙ ap (sscanf format) text
      ∙ sscanf-sprintf format (b ∷ []) [] (small', tt) in
    ap (λ r. get_or (ok_or r []) 0 0) read

module _ {ℓ} {S : Type ℓ} (zlib : Zlib) (db : Access S) (around : Surroundings) where
  get-erase_content_db :
      (eraser : Eraser S)
      → EraserLaws db eraser
      → (id taskid n : ℕ) (key : Bytes) (place : Option Dbd) (s : S) → key ≢ get_record_key_name id
      → db.get (erase_there zlib db around eraser id taskid place s) n key ≡ db.get s n key
  unfolding erase_there
  get-erase_content_db eraser laws id taskid n key none s apart = refl
  get-erase_content_db eraser laws id taskid n key (some dbd) s apart =
      laws.others s (db.load (get_content_db_name taskid)) n (get_record_key_name id) key dbd.fileno
        apart

  -- Where the files hold a document whose id is not the number of its task, they still hold it after
  -- `erasecontent` of that id and task, and the map is the same, if the erasure of a record leaves the
  -- records of other keys alone.
  pub erase_content-Holds :
      (eraser : Eraser S)
      → EraserLaws db eraser
      → (u : UrlNode) (d : Document) (w : PageWorld S) → u.id < 2 ^ 64
      → u.taskid < 2 ^ 32
      → u.id ≢ sign_extended u.taskid
      → Holds zlib db around w.files u d
      → Holds zlib db around (erase_content zlib db around eraser u.id u.taskid w).files u d
        × ((erase_content zlib db around eraser u.id u.taskid w).manager ≡ w.manager)
  unfolding erase_content erase_content_db get_record_key_name
  erase_content-Holds eraser laws u d w small task apart h =
      let wide : sign_extended u.taskid < 2 ^ 64 = ground arith in
      let keys : get_record_key_name u.id ≢ get_record_key_name (sign_extended u.taskid) =
        λ e. apart (decimal_injective u.id (sign_extended u.taskid) small wide e) in
      let kept =
        get-erase_content_db eraser laws (sign_extended u.taskid) (u32 u.id)
          (db.load (get_content_db_name u.taskid)) (get_record_key_name u.id)
          (db.get w.files (db.load (get_content_db_name (u32 u.id)))
            (get_record_key_name (sign_extended u.taskid)))
          w.files keys in
      rw h.there (
        record {
          dbd = h.dbd;
          there = kept ∙ h.there;
          held = h.held;
          room = h.room;
          small = h.small;
        },
        refl,
      )
