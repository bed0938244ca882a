-- ===== src/Pages/Save.antt =====
-- SavePage of src/module/PageManager.cpp, and dumpmap.
use bloom_server.Base.{
  ℕ, Bool, true, false, Option, none, some, List, [], ◌∷◌, ◌++◌, length, if◌then◌else◌,
}
use bloom_server.Base.Run.{Run, ok, fault, dangling_pointer, ◌>>=◌}
use bloom_server.Bloom.Types.{Bytes}
use bloom_server.Content.PageText.{UrlNode, ResponseHeader, Surroundings, write_page_head}
use bloom_server.Content.Zlib.{Zlib}
use bloom_server.Content.Records.{
  Access, Dbd, get_content_db_name, get_record_key_name, save_url, save_content,
}
use bloom_server.Pages.{PageBuf, find_in_map, has_next, increase_total_buf_size, put_in_map}
use bloom_server.Pages.Record.{PageWorld, save_in_db, merge_page}

abbrev pub is_there : Option Dbd → Bool
is_there none = false
is_there (some dbd) = true

-- The world and the node, whose page count `savecontent` writes.
pub record SavedBuf {ℓ} (S : Type ℓ) : Type ℓ where
  pub world : PageWorld S
  pub node : UrlNode

module _ {ℓ} {S : Type ℓ} (zlib : Zlib) (db : Access S) (around : Surroundings) where
  -- `FindInDb`.
  unfoldable pub find_in_db : UrlNode → S → Bool
  find_in_db u s =
      is_there (db.get s (db.load (get_content_db_name u.taskid)) (get_record_key_name u.id))

  -- `CreateBuffer`, from the lines before the content and the content.
  unfoldable pub create_page_buffer : Bool → Bytes → Bytes
  create_page_buffer deflated text =
      if deflated then zlib.compress2 (zlib.compress_bound (length text)) text else text

  -- `SaveInMap`: the page, and the entry of its url.
  unfoldable pub save_in_map : UrlNode → ℕ → Bytes → PageWorld S → Run (Bool × PageWorld S)
  save_in_map u nextpage buffer w = put_in_map u nextpage buffer w.manager >>= (λ r. ok (
      if r.added
      then (
        true,
        record { manager = r.manager; files = (save_url zlib db around false u w.files).state },
      )
      else (false, record w { manager = r.manager })))

  -- The page joins the others of its url, and all of them are written.
  unfoldable pub save_and_merge : Bool → UrlNode → ℕ → Bytes → PageWorld S → Run (PageWorld S)
  save_and_merge deflated u nextpage buffer w =
      save_in_map u nextpage buffer w
      >>= (λ r. if r.0 then merge_page zlib db around deflated u (length buffer) r.1 else ok r.1)

  -- The page waits in memory, if its size fits; `full` is what happens if not.
  unfoldable pub keep_or :
      ℕ → UrlNode → ℕ → Bytes → PageWorld S → Run (SavedBuf S) → Run (SavedBuf S)
  keep_or maxpagebufsize u nextpage buffer w full =
      let grown = increase_total_buf_size maxpagebufsize (length buffer) w.manager in
      if grown.positive
      then (save_in_map u nextpage buffer (record w { manager = grown.manager })
          >>= (λ r. ok (record { world = r.1; node = u })))
      else full

  unfoldable pub to_files : UrlNode → ResponseHeader → Bytes → ℕ → PageWorld S → Run (SavedBuf S)
  to_files u r content nextpage w =
      save_content zlib db around u r content nextpage w.files
      >>= (λ saved. ok (record { world = record w { files = saved.state }; node = saved.node }))

  -- `SavePage`; `nextpage` is the node's.
  unfoldable pub save_page_buffer :
      ℕ → Bool → UrlNode → ResponseHeader → Bytes → ℕ → PageWorld S → Run (SavedBuf S)
  save_page_buffer maxpagebufsize deflated u r content nextpage w =
      write_page_head around u r (length content) >>= (λ page_head.
        let buffer = create_page_buffer deflated (page_head ++ content) in
        let merged =
          save_and_merge deflated u nextpage buffer w
          >>= (λ w'. ok (record { world = w'; node = u })) in
        let written = to_files u r content nextpage w in
        if find_in_db u w.files
        then written
        else if find_in_map u.id w.manager
        then (if has_next nextpage
            then keep_or maxpagebufsize u nextpage buffer w merged
            else merged)
        else if has_next nextpage
        then keep_or maxpagebufsize u nextpage buffer w written
        else written)

  -- `dumpmap`: the loop goes on from the entry that it has erased.
  unfoldable pub dump_map : Bool → List (ℕ × PageBuf) → S → Run S
  dump_map deflated [] s = ok s
  dump_map deflated ((id, buf) ∷ pagemap) s =
      save_in_db zlib db around deflated buf none s >>= (λ files. fault dangling_pointer)
