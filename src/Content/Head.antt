-- ===== src/Content/Head.antt =====
-- `ContentHead` and `ContentPageHead` of src/module/LocalDbManager.h, and writeHead, readHead and
-- appendPageHead of LocalDbManager.cpp. A number is its bit pattern.
pub mod Pages
pub mod Laws
use bloom_server.Base.{
  ℕ, zero, suc, ◌+◌, ◌-◌, ◌^◌, ◌≡◌, Option, none, some, List, [], ◌∷◌, ◌++◌, length, take, set,
  get_or, ltb, leb, if◌then◌else◌, u32,
}
use bloom_server.Base.Run.{Run, ok, fault, out_of_range, null_pointer, bad_alloc, ◌>>=◌}
use bloom_server.Bloom.Types.{Bytes}
use bloom_server.Content.Format.{
  Directive, int_field, padded_field, ulonglong_field, sprintf, sprintf_into, sscanf, advance,
}

pub record PageHead : Type 0 where
  pub id : ℕ
  pub offset : ℕ
  pub length : ℕ
  pub page : ℕ

-- `pages` is the array `contentPageHead`, if it is there.
pub record Head : Type 0 where
  pub totallength : ℕ
  pub headlength : ℕ
  pub totalpage : ℕ
  pub nowpage : ℕ
  pub taskid : ℕ
  pub batchid : ℕ
  pub pages : Option (List PageHead)

abbrev pub new_page_head : PageHead
new_page_head = record { id = 0; offset = 0; length = 0; page = 1 }

-- The `int` -1.
abbrev pub minus_one_int : ℕ
minus_one_int = 2 ^ 32 - 1

-- The turns of a loop up to an `int`.
unfoldable pub turns : ℕ → ℕ
turns n = if ltb n (2 ^ 31) then n else 0

abbrev pub head_format : List Directive
head_format = int_field ∷ int_field ∷ int_field ∷ int_field ∷ int_field ∷ []

abbrev pub page_format : List Directive
page_format = ulonglong_field ∷ int_field ∷ int_field ∷ int_field ∷ []

abbrev pub read_format : List Directive
read_format = padded_field ∷ head_format

-- `%d` takes the low 32 bits of a `size_t` or an `off_t`.
abbrev pub head_values : Head → List ℕ
head_values h = u32 h.totallength ∷ h.totalpage ∷ h.nowpage ∷ h.taskid ∷ h.batchid ∷ []

abbrev pub page_values : PageHead → List ℕ
page_values p = p.id ∷ u32 p.offset ∷ u32 p.length ∷ p.page ∷ []

-- The loop of `writeHead`, over what is left of the array.
unfoldable pub write_pages : ℕ → List PageHead → Run Bytes
write_pages zero pages = ok []
write_pages (suc n) [] = fault out_of_range
write_pages (suc n) (p ∷ pages) =
    sprintf_into 64 page_format (page_values p)
    >>= (λ text. write_pages n pages >>= (λ texts. ok (text ++ texts)))

pub record Written : Type 0 where
  pub text : Bytes
  pub head : Head

unfoldable pub write_array : ℕ → Option (List PageHead) → Run Bytes
write_array n (some pages) = write_pages n pages
write_array zero none = ok []
write_array (suc n) none = fault null_pointer

-- `writeHead`: the text, and the head with its length.
unfoldable pub write_head : Head → Run Written
write_head h = sprintf_into 64 head_format (head_values h) >>= (λ fields.
    write_array (turns h.nowpage) h.pages >>= (λ pages.
      let buffer = fields ++ pages in
      let text = sprintf (padded_field ∷ []) (u32 (length buffer + 8 + 1) ∷ []) ++ buffer in
      ok (record { text = text; head = record h { headlength = length text } })))

-- The loop of `readHead`.
unfoldable pub read_pages : ℕ → Bytes → Run (List PageHead)
read_pages zero buf = ok []
read_pages (suc n) buf = sscanf page_format buf >>= (λ values.
    let p : PageHead = record {
      id = get_or values 0 0;
      offset = get_or values 1 0;
      length = get_or values 2 0;
      page = get_or values 3 1;
    } in
    sprintf_into 64 page_format (page_values p) >>= (λ text.
      advance (length text) buf >>= (λ rest. read_pages n rest >>= (λ pages. ok (p ∷ pages)))))

-- `readHead`, into a new head.
unfoldable pub read_head : Bytes → Run Head
read_head buf = sscanf read_format buf >>= (λ values.
    let h : Head = record {
      headlength = get_or values 0 0;
      totallength = get_or values 1 0;
      totalpage = get_or values 2 0;
      nowpage = get_or values 3 0;
      taskid = get_or values 4 minus_one_int;
      batchid = get_or values 5 minus_one_int;
      pages = none;
    } in
    sprintf_into 64 read_format (u32 h.headlength ∷ head_values h) >>= (λ text.
      advance (length text) buf >>= (λ rest.
        if ltb h.nowpage (2 ^ 31)
        then (read_pages h.nowpage rest >>= (λ pages. ok (record h { pages = some pages })))
        else fault bad_alloc)))

pub record Appended : Type 0 where
  pub head : Head
  pub idx : ℕ

-- `appendPageHead` with a page count that is not negative.
unfoldable pub append_to : Head → Option (List PageHead) → Run Appended
append_to h none = ok (record { head = record h { pages = some (new_page_head ∷ []) }; idx = 0 })
append_to h (some pages) =
    if leb h.nowpage (length pages)
    then ok (record {
      head = record h {
        pages = some (take h.nowpage pages ++ (new_page_head ∷ []));
        nowpage = u32 (h.nowpage + 1);
      };
      idx = h.nowpage;
    })
    else fault out_of_range

unfoldable pub append_page_head : Head → Run Appended
append_page_head h = append_to h h.pages

-- The writes to `contentPageHead[idx]`.
unfoldable pub set_page : ℕ → PageHead → Option (List PageHead) → Option (List PageHead)
set_page idx p none = none
set_page idx p (some pages) = some (set pages idx p)
