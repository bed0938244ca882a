-- ===== src/Pages/Record.antt =====
-- SaveInDb of src/module/PageManager.cpp for a buffer, and the functions that end in it.
use bloom_server.Base.{
  ℕ, ◌+◌, Bool, Option, none, some, List, [], ◌∷◌, ◌++◌, length, if◌then◌else◌, u32, sub64,
}
use bloom_server.Base.Run.{Run, ok, fault, null_pointer, ◌>>=◌}
use bloom_server.Bloom.Types.{Bytes}
use bloom_server.Content.Format.{padded_field, sprintf, sprintf_into}
use bloom_server.Content.Head.{head_format, page_format}
use bloom_server.Content.PageText.{UrlNode, Surroundings}
use bloom_server.Content.Zlib.{Zlib, inf}
use bloom_server.Content.Records.{Access, Dbd, get_content_db_name, get_record_key_name}
use bloom_server.Pages.{PageBuf, PageManager, find_buf, erase_buf, set_buf, decrease_total_buf_size}

-- The entries and the contents that the loop over the places has added.
pub record Merged : Type 0 where
  pub entries : Bytes
  pub content : Bytes

-- The manager with the files of DBAccess.
pub record PageWorld {ℓ} (S : Type ℓ) : Type ℓ where
  pub manager : PageManager
  pub files : S

module _ {ℓ} {S : Type ℓ} (zlib : Zlib) (db : Access S) (around : Surroundings) where
  -- What a page adds to the record: with `ifdef` of the configuration 1, pages are compressed in
  -- memory.
  unfoldable pub page_body : Bool → Bytes → Bytes
  page_body deflated page = if deflated then (inf zlib page).written else page

  -- The loop over the places, from place `i`.
  unfoldable pub merge_loop : Bool → ℕ → ℕ → ℕ → List (Option Bytes) → Run Merged
  merge_loop deflated id offset i [] = ok (record { entries = []; content = [] })
  merge_loop deflated id offset i (none ∷ pages) = merge_loop deflated id offset (i + 1) pages
  merge_loop deflated id offset i (some page ∷ pages) =
      let body = page_body deflated page in
      sprintf_into 64 page_format (id ∷ u32 offset ∷ u32 (length body) ∷ i ∷ []) >>= (λ entry.
        merge_loop deflated id (offset + length body) (i + 1) pages >>= (λ more.
          ok (record { entries = entry ++ more.entries; content = body ++ more.content })))

  -- The end of `SaveInDb`: a record is written only where none is; the message that tells of one
  -- reads the node, which is null when the map is dumped.
  unfoldable pub store_merged : PageBuf → Option UrlNode → Bytes → Option Dbd → S → Run S
  store_merged buf owner text none s =
      ok
        (db.store s (db.load (get_content_db_name buf.taskid)) (get_record_key_name buf.urlnodeid)
          text []).state
  store_merged buf none text (some dbd) s = fault null_pointer
  store_merged buf (some u) text (some dbd) s = ok s

  -- `SaveInDb` for a buffer.
  unfoldable pub save_in_db : Bool → PageBuf → Option UrlNode → S → Run S
  save_in_db deflated buf node s = merge_loop deflated buf.urlnodeid 0 0 buf.pages >>= (λ merged.
      sprintf_into 64 head_format (
        u32 (if deflated then length merged.content else buf.totallength)
        ∷ buf.totalpage
        ∷ buf.nowpage
        ∷ buf.taskid
        ∷ buf.batchid
        ∷ [])
      >>= (λ fields.
          let buffer = fields ++ merged.entries in
          let text = sprintf (padded_field ∷ []) (u32 (length buffer + 8 + 1) ∷ []) ++ buffer in
          store_merged buf node
            (text ++ zlib.compress2 (zlib.compress_bound (length merged.content)) merged.content)
            (db.get s (db.load (get_content_db_name buf.taskid))
              (get_record_key_name buf.urlnodeid))
            s))

  unfoldable pub merge_found : Bool → UrlNode → ℕ → Option PageBuf → PageWorld S → Run (PageWorld S)
  merge_found deflated u lastcontentlen none w = ok w
  merge_found deflated u lastcontentlen (some buf) w =
      let m = w.manager in
      let rest =
        decrease_total_buf_size (sub64 buf.totallength lastcontentlen)
          (record m { pagemap = erase_buf u.id m.pagemap }) in
      save_in_db deflated buf (some u) w.files
      >>= (λ files. ok (record { manager = rest; files = files }))

  -- `MergePage`.
  unfoldable pub merge_page : Bool → UrlNode → ℕ → PageWorld S → Run (PageWorld S)
  merge_page deflated u lastcontentlen w =
      merge_found deflated u lastcontentlen (find_buf u.id (w.manager).pagemap) w

  unfoldable pub alter_buf : Bool → UrlNode → Option PageBuf → PageWorld S → Run (PageWorld S)
  alter_buf deflated u none w = ok w
  alter_buf deflated u (some buf) w =
      let m = w.manager in
      let altered = record m {
        pagemap = set_buf u.id (record buf { totalpage = buf.nowpage }) m.pagemap;
      } in
      merge_page deflated u 0 (record w { manager = altered })

  -- `altermaptotalpageforced`.
  unfoldable pub alter_map_total_page_forced : Bool → UrlNode → PageWorld S → Run (PageWorld S)
  alter_map_total_page_forced deflated u w =
      alter_buf deflated u (find_buf u.id (w.manager).pagemap) w
