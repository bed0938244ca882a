-- ===== src/Content/Head/Laws.antt =====
-- The text of a head is read back, whatever stands behind it.
use bloom_server.Base.{
  ℕ, ◌+◌, ◌*◌, ◌^◌, ◌≤◌, ◌<◌, ◌≡◌, refl, true, Option, some, List, [], ◌∷◌, ◌++◌, arith, ltb,
  length, u32, append_assoc, length-append, ap, sym, ◌∙◌,
}
use bloom_server.Base.Run.{ok}
use bloom_server.Bloom.Types.{Bytes}
use bloom_server.Content.Format.{
  int_field, padded_field, print_field, sprintf, sprintf_into, sscanf, advance,
}
use bloom_server.Content.Format.Laws.{
  InField, InFields, sscanf-sprintf, length-sprintf_nil, length-sprintf_step, sprintf_into-short,
  sprintf_step, sprintf_nil, length-print_int, length-print_small, length-print_padded,
}
use bloom_server.Content.Head.{
  PageHead, Head, head_format, page_format, read_format, head_values, page_values, Written,
  write_array, write_head, read_pages, read_head, turns,
}
use bloom_server.Content.Head.Pages.{
  AllFit, pages_text, page_room, write_pages-AllFit, read_pages-pages_text, advance-append,
}

-- A head whose numbers and pages its text has room for; the array has the pages that are counted.
pub record HeadFits (h : Head) (pages : List PageHead) : Type 0 where
  pub totallength : h.totallength < 2 ^ 32
  pub totalpage : h.totalpage < 2 ^ 32
  pub counted : h.nowpage ≡ length pages
  pub few : length pages < 10 ^ 5
  pub taskid : h.taskid < 2 ^ 32
  pub batchid : h.batchid < 2 ^ 32
  pub array : h.pages ≡ some pages
  pub all_fit : AllFit pages

unfolding_head :
    (a b c d e : ℕ)
    → length (sprintf head_format (a ∷ b ∷ c ∷ d ∷ e ∷ []))
      ≡ length (print_field int_field a)
        + length (print_field int_field b)
        + length (print_field int_field c)
        + length (print_field int_field d)
        + length (print_field int_field e)
        + 5
unfolding_head a b c d e =
    rw
      (
        length-sprintf_step, length-sprintf_step, length-sprintf_step, length-sprintf_step,
        length-sprintf_step, length-sprintf_nil,
      )
      (omega arith)

pub head_room :
    (h : Head) (pages : List PageHead)
    → HeadFits h pages
    → length (sprintf head_format (head_values h)) < 55
head_room h pages fits = omega (
  arith,
  unfolding_head (u32 h.totallength) h.totalpage h.nowpage h.taskid h.batchid,
  length-print_int (u32 h.totallength) (omega arith),
  length-print_int h.totalpage fits.totalpage,
  length-print_small h.nowpage (omega (arith, fits.counted, fits.few)),
  length-print_int h.taskid fits.taskid,
  length-print_int h.batchid fits.batchid,
)

length-pages_text :
    (pages : List PageHead) → AllFit pages → length (pages_text pages) ≤ 64 * length pages
unfolding AllFit pages_text
length-pages_text [] all_fit = omega arith
length-pages_text (p ∷ pages) (fits, fit) = omega (
  arith,
  length-append (sprintf page_format (page_values p)) (pages_text pages),
  page_room p fits,
  length-pages_text pages fit,
)

head_whole :
    (h : Head) (pages : List PageHead)
    → HeadFits h pages
    → length (sprintf head_format (head_values h)) + length (pages_text pages) + 9 < 10 ^ 8
head_whole h pages fits =
    omega (arith, head_room h pages fits, length-pages_text pages fits.all_fit, fits.few)

-- The text that `writeHead` makes.
unfoldable pub head_text : Head → List PageHead → Bytes
head_text h pages =
    let buffer = sprintf head_format (head_values h) ++ pages_text pages in
    sprintf (padded_field ∷ []) ((length buffer + 9) ∷ []) ++ buffer

turns-small : (n : ℕ) {k : ℕ} → n ≡ k → k < 2 ^ 31 → turns n ≡ k
unfolding turns
turns-small n e h = rw e (ground arith)

-- The number in front is the length of the whole text.
pub head_size :
    (h : Head) (pages : List PageHead)
    → HeadFits h pages
    → u32 (length (sprintf head_format (head_values h) ++ pages_text pages) + 8 + 1)
      ≡ length (sprintf head_format (head_values h) ++ pages_text pages) + 9
head_size h pages fits = omega (
  arith,
  head_whole h pages fits,
  length-append (sprintf head_format (head_values h)) (pages_text pages),
)

pub write_head-fits :
    (h : Head) (pages : List PageHead)
    → HeadFits h pages
    → write_head h
      ≡ ok (record {
        text = head_text h pages;
        head = record h { headlength = length (head_text h pages) };
      })
unfolding write_head head_text write_array
write_head-fits h pages fits =
    let fields = sprintf head_format (head_values h) in
    let counted : turns h.nowpage ≡ length pages =
      turns-small h.nowpage fits.counted (omega (arith, fits.few)) in
    let size : u32 (length (fields ++ pages_text pages) + 8 + 1)
        ≡ length (fields ++ pages_text pages) + 9 =
      omega (arith, head_whole h pages fits, length-append fields (pages_text pages)) in
    rw
      (
        sprintf_into-short 64 head_format (head_values h) (omega (arith, head_room h pages fits)),
        counted,
        fits.array,
        write_pages-AllFit pages fits.all_fit,
        size,
      )
      refl

pub length-head_text :
    (h : Head) (pages : List PageHead)
    → HeadFits h pages
    → length (head_text h pages)
      ≡ length (sprintf head_format (head_values h) ++ pages_text pages) + 9
unfolding head_text
length-head_text h pages fits =
    let buffer = sprintf head_format (head_values h) ++ pages_text pages in
    omega (
      arith,
      length-append (sprintf (padded_field ∷ []) ((length buffer + 9) ∷ [])) buffer,
      length-sprintf_step padded_field [] (length buffer + 9) [],
      length-sprintf_nil,
      length-print_padded (length buffer + 9) (
          omega (
            arith,
            head_whole h pages fits,
            length-append (sprintf head_format (head_values h)) (pages_text pages),
          )),
    )

read_head-step :
    (buf text rest : Bytes) (n : ℕ) (h : Head) (pages : List PageHead)
    → sscanf read_format buf
      ≡ ok (n ∷ h.totallength ∷ h.totalpage ∷ h.nowpage ∷ h.taskid ∷ h.batchid ∷ [])
    → sprintf_into 64 read_format (u32 n ∷ head_values h) ≡ ok text
    → advance (length text) buf ≡ ok rest
    → h.nowpage ≡ length pages
    → length pages < 2 ^ 31
    → read_pages (length pages) rest ≡ ok pages
    → read_head buf ≡ ok (record h { headlength = n; pages = some pages })
unfolding read_head
read_head-step buf text rest n h pages scanned printed moved counted few found =
    let e : ltb h.nowpage (2 ^ 31) ≡ true = ground arith in
    rw (scanned, printed, moved, e, counted, found) refl

head_InFields :
    (h : Head) (pages : List PageHead) → HeadFits h pages → InFields head_format (head_values h)
unfolding InFields InField
head_InFields h pages fits = (
  omega arith,
  (fits.totalpage, (omega (arith, fits.counted, fits.few), (fits.taskid, (fits.batchid, tt)))),
)

head_text_front :
    (h : Head) (pages : List PageHead) (rest : Bytes)
    → let n = length (sprintf head_format (head_values h) ++ pages_text pages) + 9 in
      head_text h pages ++ rest
      ≡ sprintf read_format (n ∷ head_values h) ++ (pages_text pages ++ rest)
unfolding head_text
head_text_front h pages rest =
    rw
      (
        sprintf_step padded_field head_format,
        sprintf_step padded_field [],
        sprintf_nil,
        append_assoc,
        append_assoc,
        append_assoc,
        append_assoc,
      )
      refl

-- `readHead` gives back the head that `writeHead` wrote, with its length.
pub read_head-head_text :
    (h : Head) (pages : List PageHead) (rest : Bytes)
    → HeadFits h pages
    → read_head (head_text h pages ++ rest)
      ≡ ok (record h { headlength = length (head_text h pages) })
unfolding InFields InField
read_head-head_text h pages rest fits =
    let n = length (sprintf head_format (head_values h) ++ pages_text pages) + 9 in
    let n_small : n < 10 ^ 8 = omega (
      arith,
      head_whole h pages fits,
      length-append (sprintf head_format (head_values h)) (pages_text pages),
    ) in
    let text = sprintf read_format (n ∷ head_values h) in
    let printed : length text < 64 = omega (
      arith,
      length-sprintf_step padded_field head_format n (head_values h),
      length-print_padded n n_small,
      head_room h pages fits,
    ) in
    let (e, e') : (u32 n ≡ n) × (u32 h.totallength ≡ h.totallength) =
      (omega arith, omega (arith, fits.totallength)) in
    let scanned : sscanf read_format (text ++ (pages_text pages ++ rest))
        ≡ ok (n ∷ h.totallength ∷ h.totalpage ∷ h.nowpage ∷ h.taskid ∷ h.batchid ∷ []) =
      sscanf-sprintf read_format (n ∷ head_values h) (pages_text pages ++ rest)
        (n_small, head_InFields h pages fits)
      ∙ ap (λ t. ok (n ∷ t ∷ h.totalpage ∷ h.nowpage ∷ h.taskid ∷ h.batchid ∷ [])) e' in
    let into : sprintf_into 64 read_format (u32 n ∷ head_values h) ≡ ok text =
      ap (λ k. sprintf_into 64 read_format (k ∷ head_values h)) e
      ∙ sprintf_into-short 64 read_format (n ∷ head_values h) printed in
    rw (length-head_text h pages fits, head_text_front h pages rest)
      (read_head-step (text ++ (pages_text pages ++ rest)) text (pages_text pages ++ rest) n h pages
          scanned into (advance-append text (pages_text pages ++ rest)) fits.counted
          (omega (arith, fits.few)) (read_pages-pages_text pages rest fits.all_fit)
        ∙ ap (λ (p : Option (List PageHead)). ok (record h { headlength = n; pages = p }))
            (sym fits.array))

-- A head with fewer than 10 ^ 5 pages whose numbers are in the range of their fields is written, its
-- length is the length of its text, and it is read back from that text, whatever stands behind it.
pub write_head-read_head :
    (h : Head) (pages : List PageHead)
    → HeadFits h pages
    → (w : Written) × (write_head h ≡ ok w)
      × (w.head.headlength ≡ length w.text)
      × ((rest : Bytes) → read_head (w.text ++ rest) ≡ ok w.head)
write_head-read_head h pages fits =
    (_, write_head-fits h pages fits, refl, λ rest. read_head-head_text h pages rest fits)
