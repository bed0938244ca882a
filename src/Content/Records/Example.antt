-- ===== src/Content/Records/Example.antt =====
-- A store of records that keeps what DBAccess promises, two pages of a url, and their documents.
use bloom_server.Base.{
  ℕ, ◌^◌, ◌<◌, ◌≡◌, ◌≢◌, refl, true, false, ◌&&◌, Option, none, some, [], ◌∷◌, ◌++◌, arith, length,
  get_or, leb, leb→le, ◌⊎◌, ◌≤◌, ◌==◌, if◌then◌else◌, bytes_eq, bytes_eq_refl, Bool-cases, inl, inr,
  ltb→lt,
}
use bloom_server.Base.Run.{ok, ok_or}
use bloom_server.Bloom.Types.{Bytes}
use bloom_server.Content.Format.{decimal_from, decimal, print_int, print_field, sprintf}
use bloom_server.Content.Head.Pages.{AllFit, pages_text}
use bloom_server.Content.Head.Laws.{head_text}
use bloom_server.Content.PageText.{
  UrlNode, ResponseHeader, Surroundings, line, lines, write_page_head,
}
use bloom_server.Content.Tests.{pack, zlib}
use bloom_server.Content.Records.{
  Access, Dbd, get_content_db_name, get_url_db_name, get_record_key_name, stored_ok,
}
use bloom_server.Content.Records.Documents.{Document, bodies, entries, document_head, Fits}
use bloom_server.Content.Records.Laws.{with_page, first_page, piece_of, record_of}
use bloom_server.Content.Records.Kept.{datlen_max, AccessLaws, Holds, Accepts, Short}

-- A table is known by the first byte of its name. A record that is too long is not stored; where a
-- file number is given, the answer is 0 all the same.
abbrev pub Files : Type 0
Files = ℕ → Bytes → Option Bytes

unfoldable pub in_place : Option Bytes → Option Dbd
in_place none = none
in_place (some text) = some (record { datbuf = text; datlen = length text; fileno = 49 ∷ [] })

unfoldable pub write : Files → ℕ → Bytes → Bytes → Files
write s n key text m other = if (m == n) && bytes_eq other key then some text else s m other

abbrev pub db : Access Files
db = record {
  load = λ name. get_or name 0 0;
  get = λ s n key. in_place (s n key);
  store = λ s n key text fileno.
      if leb (length text) datlen_max
      then record { ret = 0; state = write s n key text }
      else record { ret = if length fileno == 0 then 2 else 0; state = s };
}

accepted_short :
    (s : Files) (n : ℕ) (key text fileno : Bytes)
    → (fileno ≡ []) ⊎ (length text ≤ datlen_max)
    → stored_ok (db.store s n key text fileno).ret ≡ true
    → leb (length text) datlen_max ≡ true
accepted_short s n key text fileno (inr short) accepted = ground arith
accepted_short s n key text fileno (inl new) accepted =
    elim (Bool-cases (leb (length text) datlen_max)) [
      | inl short ↦ short
      | inr long ↦ let wrong : stored_ok 2 ≡ true = rw (long, new) at accepted in cc
    ]

pub get-write :
    (s : Files) (n : ℕ) (key text : Bytes)
    → in_place (write s n key text n key)
      ≡ some (record { datbuf = text; datlen = length text; fileno = 49 ∷ [] })
unfolding write in_place
get-write s n key text =
    let (e, e') : ((n == n) ≡ true) × (bytes_eq key key ≡ true) =
      (ground arith, bytes_eq_refl key) in
    rw (e, e') refl

get-write_other :
    (s : Files) (n m : ℕ) (key other text : Bytes)
    → n ≢ m
    → in_place (write s n key text m other) ≡ in_place (s m other)
unfolding write
get-write_other s n m key other text apart = let e : (m == n) ≡ false = ground arith in rw e refl

pub db_laws : AccessLaws db
unfolding get_content_db_name get_url_db_name
db_laws = record {
  distinct = λ a b e. let wrong : 117 ≡ 116 = e in omega arith;
  found = λ s n id text fileno allowed accepted.
      let short = accepted_short s n (get_record_key_name id) text fileno allowed accepted in
      (
        record { datbuf = text; datlen = length text; fileno = 49 ∷ [] },
        rw short (get-write s n (get_record_key_name id) text),
        refl,
        omega arith,
        ground arith,
      );
  others = λ s n m key other text fileno apart. elim (Bool-cases (leb (length text) datlen_max)) [
    | inl short ↦ rw short (get-write_other s n m key other text apart)
    | inr long ↦ rw long refl
  ];
}

abbrev pub around : Surroundings
around = record { now = 0; spiderid = 1 }

abbrev pub page : ℕ → UrlNode
page n = record {
  id = 7;
  taskid = 5;
  taskbatch = 4294967295;
  page = n;
  nowpage = 1;
  errornum = 0;
  url_type = 0;
  url = 97 ∷ [];
  fatherurl = [];
  title = [];
  topicsource = [];
}

abbrev pub header : ResponseHeader
header = record { charset = []; contenttype = [] }

unfoldable pub page_head : ℕ → Bytes
page_head n = ok_or (write_page_head around (page n) header 2) []

abbrev pub content : Bytes
content = 60 ∷ 62 ∷ []

pub page_head_one : write_page_head around (page 1) header 2 ≡ ok (page_head 1)
unfolding page_head write_page_head lines line decimal print_int decimal_from
page_head_one = refl

pub page_head_two : write_page_head around (page 2) header 2 ≡ ok (page_head 2)
unfolding page_head write_page_head lines line decimal print_int decimal_from
page_head_two = refl

abbrev pub empty : Files
empty = λ n key. none

unfoldable pub one : Document
one = first_page (page 1) 1 (page_head 1 ++ content)

unfoldable pub two : Document
two = with_page (page 2) (page_head 2 ++ content) one

pub one-Fits : Fits one
unfolding one first_page piece_of document_head entries bodies page_head write_page_head lines line
    decimal print_int decimal_from AllFit
one-Fits = record {
  totallength = ltb→lt _ _ refl;
  totalpage = ltb→lt _ _ refl;
  counted = refl;
  few = ltb→lt _ _ refl;
  taskid = ltb→lt _ _ refl;
  batchid = ltb→lt _ _ refl;
  array = refl;
  all_fit = (
    record {
      id = ltb→lt _ _ refl;
      offset = ltb→lt _ _ refl;
      length = ltb→lt _ _ refl;
      page = ltb→lt _ _ refl;
    },
    tt,
  );
}

pub two-Fits : Fits two
unfolding two with_page one first_page piece_of document_head entries bodies page_head
    write_page_head lines line decimal print_int decimal_from AllFit
two-Fits = record {
  totallength = ltb→lt _ _ refl;
  totalpage = ltb→lt _ _ refl;
  counted = refl;
  few = ltb→lt _ _ refl;
  taskid = ltb→lt _ _ refl;
  batchid = ltb→lt _ _ refl;
  array = refl;
  all_fit = (
    record {
      id = ltb→lt _ _ refl;
      offset = ltb→lt _ _ refl;
      length = ltb→lt _ _ refl;
      page = ltb→lt _ _ refl;
    },
    (
      record {
        id = ltb→lt _ _ refl;
        offset = ltb→lt _ _ refl;
        length = ltb→lt _ _ refl;
        page = ltb→lt _ _ refl;
      },
      tt,
    ),
  );
}

pub one-Short : Short zlib db around one
unfolding one first_page piece_of document_head entries bodies page_head write_page_head lines line
    decimal print_int decimal_from record_of head_text pages_text sprintf print_field pack
one-Short = leb→le _ _ refl

pub two-Short : Short zlib db around two
unfolding two with_page one first_page piece_of document_head entries bodies page_head
    write_page_head lines line decimal print_int decimal_from record_of head_text pages_text sprintf
    print_field pack
two-Short = leb→le _ _ refl

pub one-accepted : (s : Files) → Accepts zlib db around s (page 1) one
unfolding one first_page piece_of document_head entries bodies page_head write_page_head lines line
    decimal print_int decimal_from record_of head_text pages_text sprintf print_field pack
one-accepted s = refl

pub two-accepted : (s : Files) → Accepts zlib db around s (page 2) two
unfolding two with_page one first_page piece_of document_head entries bodies page_head
    write_page_head lines line decimal print_int decimal_from record_of head_text pages_text sprintf
    print_field pack
two-accepted s = refl

-- The files with one document.
pub files : Document → Files
files d = write empty 116 (get_record_key_name 7) (record_of zlib db around d)

pub files-Holds :
    (d : Document) (n : ℕ)
    → length (record_of zlib db around d) < 2 ^ 64
    → Holds zlib db around (files d) (page n) d
unfolding files get_content_db_name
files-Holds d n small = record {
  dbd = record {
    datbuf = record_of zlib db around d;
    datlen = length (record_of zlib db around d);
    fileno = 49 ∷ [];
  };
  there = get-write empty 116 (get_record_key_name 7) (record_of zlib db around d);
  held = refl;
  room = omega arith;
  small = small;
}

pub one-short : length (record_of zlib db around one) < 2 ^ 64
unfolding one first_page piece_of document_head entries bodies page_head write_page_head lines line
    decimal print_int decimal_from record_of head_text pages_text sprintf print_field pack
one-short = ltb→lt _ _ refl
