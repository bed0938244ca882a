-- ===== src/Pages/Forced.antt =====
-- altermaptotalpageforced of src/module/PageManager.cpp, from the buffer in memory to the record in the
-- files.
use bloom_server.Base.{ℕ, ◌^◌, ◌<◌, ◌≡◌, refl, inl, [], Bool, none, some, arith, sub64, ap, ◌∙◌}
use bloom_server.Base.Run.{ok}
use bloom_server.Content.PageText.{UrlNode, Surroundings}
use bloom_server.Content.Zlib.{Zlib}
use bloom_server.Content.Records.{Access, get_content_db_name, get_record_key_name}
use bloom_server.Content.Records.Documents.{Fits}
use bloom_server.Content.Records.Laws.{record_of}
use bloom_server.Content.Records.Kept.{AccessLaws, lookup, Holds, Accepts}
use bloom_server.Pages.{PageBuf, find_buf, erase_buf, set_buf, decrease_total_buf_size}
use bloom_server.Pages.Record.{
  PageWorld, save_in_db, merge_found, merge_page, alter_buf, alter_map_total_page_forced,
}
use bloom_server.Pages.Merging.{
  document_of, Counted, save_in_db-document_of, find_buf-set_buf, erase_buf-set_buf,
}

-- The buffer with as many pages as it has.
unfoldable pub forced_buf : PageBuf → PageBuf
forced_buf buf = record buf { totalpage = buf.nowpage }

module _ {ℓ} {S : Type ℓ} (zlib : Zlib) (db : Access S) (around : Surroundings) where
  forced_buf-Counted :
      (deflated : Bool) (buf : PageBuf)
      → Counted zlib db around deflated buf
      → Counted zlib db around deflated (forced_buf buf)
  unfolding forced_buf
  forced_buf-Counted deflated buf counted = record { pages = counted.pages; bytes = counted.bytes }

  merge_found-step :
      (deflated : Bool) (u : UrlNode) (last : ℕ) (buf : PageBuf) (w : PageWorld S) (files : S)
      → save_in_db zlib db around deflated buf (some u) w.files ≡ ok files
      → merge_found zlib db around deflated u last (some buf) w
        ≡ ok (record {
          manager =
              decrease_total_buf_size
                (sub64 buf.totallength last)
                (record (w.manager) { pagemap = erase_buf u.id (w.manager).pagemap });
          files = files;
        })
  unfolding merge_found
  merge_found-step deflated u last buf w files saved = rw saved refl

  alter_map-merge_found :
      (deflated : Bool) (u : UrlNode) (buf : PageBuf) (w : PageWorld S)
      → find_buf u.id (w.manager).pagemap ≡ some buf
      → alter_map_total_page_forced zlib db around deflated u w
        ≡ merge_found zlib db around deflated u 0 (some (forced_buf buf)) (record w {
          manager = record (w.manager) {
            pagemap = set_buf u.id (forced_buf buf) (w.manager).pagemap;
          };
        })
  unfolding alter_map_total_page_forced alter_buf merge_page forced_buf
  alter_map-merge_found deflated u buf w found =
      rw
        (found, find_buf-set_buf zlib db around u.id buf (forced_buf buf) (w.manager).pagemap found)
        refl

  -- The place of a buffer's record is the place of the url's.
  same_place :
      (buf : PageBuf) (u : UrlNode) (s : S)
      → buf.urlnodeid ≡ u.id
      → buf.taskid ≡ u.taskid
      → db.get s (db.load (get_content_db_name buf.taskid)) (get_record_key_name buf.urlnodeid)
        ≡ lookup zlib db around s u
  same_place buf u s id task =
      ap (λ t. db.get s (db.load (get_content_db_name t)) (get_record_key_name buf.urlnodeid)) task
      ∙ ap (λ i. db.get s (db.load (get_content_db_name u.taskid)) (get_record_key_name i)) id

  -- Where the map holds a buffer for the url, counted as its pages are, and the files hold no record
  -- of it, `altermaptotalpageforced` returns: the files hold the document of the buffer with the
  -- number of its pages as their total, the map is without the buffer, and the size of all buffers
  -- is less by its length, if the numbers of the head are in range and the file takes the record.
  pub alter_map_total_page_forced-Holds :
      AccessLaws db
      → (deflated : Bool) (u : UrlNode) (buf : PageBuf) (w : PageWorld S)
      → find_buf u.id (w.manager).pagemap ≡ some buf
      → buf.urlnodeid ≡ u.id
      → buf.taskid ≡ u.taskid
      → buf.totallength < 2 ^ 32
      → Counted zlib db around deflated buf
      → Fits (document_of zlib db around deflated (forced_buf buf))
      → lookup zlib db around w.files u ≡ none
      → Accepts zlib db around w.files u (document_of zlib db around deflated (forced_buf buf))
      → (w' : PageWorld S) × (alter_map_total_page_forced zlib db around deflated u w ≡ ok w')
        × Holds zlib db around w'.files u (document_of zlib db around deflated (forced_buf buf))
        × (w'.manager ≡ record {
          totalpagebufsize = sub64 (w.manager).totalpagebufsize buf.totallength;
          pagemap = erase_buf u.id (w.manager).pagemap;
        })
  unfolding forced_buf decrease_total_buf_size
  alter_map_total_page_forced-Holds laws deflated u buf w found id task small counted fits absent
        accepted =
      let d = document_of zlib db around deflated (forced_buf buf) in
      let (dbd, got, text, room, length) =
        laws.found w.files (db.load (get_content_db_name u.taskid)) u.id
          (record_of zlib db around d) [] (inl refl) (rw absent at accepted) in
      let saved : save_in_db zlib db around deflated (forced_buf buf) (some u) w.files
          ≡ ok
              (db.store w.files (db.load (get_content_db_name u.taskid)) (get_record_key_name u.id)
                (record_of zlib db around d) []).state =
        save_in_db-document_of zlib db around deflated (forced_buf buf) (some u) w.files fits
          (forced_buf-Counted deflated buf counted) (same_place buf u w.files id task ∙ absent)
        ∙ ap
            (λ t.
              ok
                (db.store w.files (db.load (get_content_db_name t))
                  (get_record_key_name buf.urlnodeid) (record_of zlib db around d) []).state)
            task
        ∙ ap
            (λ i.
              ok
                (db.store w.files (db.load (get_content_db_name u.taskid)) (get_record_key_name i)
                  (record_of zlib db around d) []).state)
            id in
      let size : sub64 buf.totallength 0 ≡ buf.totallength = omega arith in
      (
        _,
        alter_map-merge_found deflated u buf w found
            ∙ merge_found-step deflated u 0 (forced_buf buf) _ _ saved,
        record { dbd = dbd; there = got; held = text; room = rw text room; small = length },
        rw (erase_buf-set_buf zlib db around, size) refl,
      )
