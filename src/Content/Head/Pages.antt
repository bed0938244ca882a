-- ===== src/Content/Head/Pages.antt =====
-- The entries of the pages in a head: their text is written and read back.
use bloom_server.Base.{
  ℕ, suc, ◌+◌, ◌^◌, ◌<◌, ◌≡◌, refl, true, List, [], ◌∷◌, ◌++◌, arith, leb, length, drop, u32,
  append_assoc, length-append, ap, ◌∙◌,
}
use bloom_server.Base.Run.{ok, ◌>>=◌}
use bloom_server.Bloom.Types.{Bytes}
use bloom_server.Content.Format.{
  int_field, ulonglong_field, print_field, sprintf, sprintf_into, sscanf, advance,
}
use bloom_server.Content.Format.Laws.{
  InField, InFields, sscanf-sprintf, length-sprintf_nil, length-sprintf_step, sprintf_into-short,
  length-print_int, length-print_ulonglong,
}
use bloom_server.Content.Head.{PageHead, page_format, page_values, write_pages, read_pages}

pub drop-append_length {ℓ} : {A : Type ℓ} (xs ys : List A) → drop (length xs) (xs ++ ys) ≡ ys
drop-append_length [] ys = refl
drop-append_length (x ∷ xs) ys = drop-append_length xs ys

pub advance-append : (text rest : Bytes) → advance (length text) (text ++ rest) ≡ ok rest
unfolding advance
advance-append text rest =
    let e : leb (length text) (length (text ++ rest)) ≡ true =
      ground (arith, length-append text rest) in
    rw (e, drop-append_length text rest) refl

-- A page that its fields have room for.
pub record PageFits (p : PageHead) : Type 0 where
  pub id : p.id < 2 ^ 64
  pub offset : p.offset < 2 ^ 32
  pub length : p.length < 2 ^ 32
  pub page : p.page < 2 ^ 32

unfoldable pub AllFit : List PageHead → Type 0
AllFit [] = Unit
AllFit (p ∷ pages) = PageFits p × AllFit pages

-- The texts of the pages.
unfoldable pub pages_text : List PageHead → Bytes
pages_text [] = []
pages_text (p ∷ pages) = sprintf page_format (page_values p) ++ pages_text pages

unfolding_page :
    (a b c d : ℕ)
    → length (sprintf page_format (a ∷ b ∷ c ∷ d ∷ []))
      ≡ length (print_field ulonglong_field a)
        + length (print_field int_field b)
        + length (print_field int_field c)
        + length (print_field int_field d)
        + 4
unfolding_page a b c d =
    rw
      (
        length-sprintf_step, length-sprintf_step, length-sprintf_step, length-sprintf_step,
        length-sprintf_nil,
      )
      (omega arith)

pub page_room : (p : PageHead) → PageFits p → length (sprintf page_format (page_values p)) < 64
page_room p fits = omega (
  arith,
  unfolding_page p.id (u32 p.offset) (u32 p.length) p.page,
  length-print_ulonglong p.id fits.id,
  length-print_int (u32 p.offset) (omega arith),
  length-print_int (u32 p.length) (omega arith),
  length-print_int p.page fits.page,
)

page_InFields : (p : PageHead) → PageFits p → InFields page_format (page_values p)
unfolding InFields InField
page_InFields p fits = (fits.id, (omega arith, (omega arith, (fits.page, tt))))

pub write_pages-AllFit :
    (pages : List PageHead)
    → AllFit pages
    → write_pages (length pages) pages ≡ ok (pages_text pages)
unfolding write_pages AllFit pages_text
write_pages-AllFit [] fit = refl
write_pages-AllFit (p ∷ pages) (fits, fit) =
    rw
      (
        sprintf_into-short 64 page_format (page_values p) (page_room p fits),
        write_pages-AllFit pages fit,
      )
      refl

page_values_same :
    (p : PageHead) → PageFits p → page_values p ≡ p.id ∷ p.offset ∷ p.length ∷ p.page ∷ []
page_values_same p fits =
    let (e, e') : (u32 p.offset ≡ p.offset) × (u32 p.length ≡ p.length) =
      (omega arith, omega arith) in
    rw (e, e') refl

read_pages-step :
    (n : ℕ) (buf text rest : Bytes) (p : PageHead)
    → sscanf page_format buf ≡ ok (p.id ∷ p.offset ∷ p.length ∷ p.page ∷ [])
    → sprintf_into 64 page_format (page_values p) ≡ ok text
    → advance (length text) buf ≡ ok rest
    → read_pages (suc n) buf ≡ (read_pages n rest >>= (λ pages. ok (p ∷ pages)))
unfolding read_pages
read_pages-step n buf text rest p scanned printed moved = rw (scanned, printed, moved) refl

pub read_pages-pages_text :
    (pages : List PageHead) (rest : Bytes)
    → AllFit pages
    → read_pages (length pages) (pages_text pages ++ rest) ≡ ok pages
unfolding AllFit pages_text read_pages
read_pages-pages_text [] rest fit = refl
read_pages-pages_text (p ∷ pages) rest (fits, fit) =
    let text = sprintf page_format (page_values p) in
    let more = pages_text pages ++ rest in
    rw append_assoc (
      read_pages-step (length pages) (text ++ more) text more p
        (sscanf-sprintf page_format (page_values p) more (page_InFields p fits)
          ∙ ap ok (page_values_same p fits))
        (sprintf_into-short 64 page_format (page_values p) (page_room p fits))
        (advance-append text more)
      ∙ rw (read_pages-pages_text pages rest fit) refl)
