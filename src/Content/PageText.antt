-- ===== src/Content/PageText.antt =====
-- writePageHead of src/module/LocalDbManager.cpp: the lines before the content of a page.
use bloom_server.Base.{ℕ, ◌+◌, List, [], ◌∷◌, ◌++◌, length, ltb, if◌then◌else◌, u32}
use bloom_server.Base.Run.{Run, ok, fault, buffer_overflow, ◌>>=◌}
use bloom_server.Bloom.Types.{Bytes}
use bloom_server.Content.Format.{decimal, print_int}

-- What of `UrlNode` the records depend on; `url_type` is `type`, and `fatherurl` is an array, which
-- is never null.
pub record UrlNode : Type 0 where
  pub id : ℕ
  pub taskid : ℕ
  pub taskbatch : ℕ
  pub page : ℕ
  pub nowpage : ℕ
  pub errornum : ℕ
  pub url_type : ℕ
  pub url : Bytes
  pub fatherurl : Bytes
  pub title : Bytes
  pub topicsource : Bytes

pub record ResponseHeader : Type 0 where
  pub charset : Bytes
  pub contenttype : Bytes

-- The clock and the number of the spider in the configuration.
pub record Surroundings : Type 0 where
  pub now : ℕ
  pub spiderid : ℕ

-- "version: 1.0\n"
abbrev version_line : Bytes
version_line = 118 ∷ 101 ∷ 114 ∷ 115 ∷ 105 ∷ 111 ∷ 110 ∷ 58 ∷ 32 ∷ 49 ∷ 46 ∷ 48 ∷ 10 ∷ []

-- "contentlength: "
abbrev contentlength_key : Bytes
contentlength_key =
    99 ∷ 111 ∷ 110 ∷ 116 ∷ 101 ∷ 110 ∷ 116 ∷ 108 ∷ 101 ∷ 110 ∷ 103 ∷ 116 ∷ 104 ∷ 58 ∷ 32 ∷ []

-- "url: "
abbrev url_key : Bytes
url_key = 117 ∷ 114 ∷ 108 ∷ 58 ∷ 32 ∷ []

-- "page: "
abbrev page_key : Bytes
page_key = 112 ∷ 97 ∷ 103 ∷ 101 ∷ 58 ∷ 32 ∷ []

-- "charset: "
abbrev charset_key : Bytes
charset_key = 99 ∷ 104 ∷ 97 ∷ 114 ∷ 115 ∷ 101 ∷ 116 ∷ 58 ∷ 32 ∷ []

-- "contenttype: "
abbrev contenttype_key : Bytes
contenttype_key = 99 ∷ 111 ∷ 110 ∷ 116 ∷ 101 ∷ 110 ∷ 116 ∷ 116 ∷ 121 ∷ 112 ∷ 101 ∷ 58 ∷ 32 ∷ []

-- "id: "
abbrev id_key : Bytes
id_key = 105 ∷ 100 ∷ 58 ∷ 32 ∷ []

-- "date: "
abbrev date_key : Bytes
date_key = 100 ∷ 97 ∷ 116 ∷ 101 ∷ 58 ∷ 32 ∷ []

-- "fatherurl: "
abbrev fatherurl_key : Bytes
fatherurl_key = 102 ∷ 97 ∷ 116 ∷ 104 ∷ 101 ∷ 114 ∷ 117 ∷ 114 ∷ 108 ∷ 58 ∷ 32 ∷ []

-- "title: "
abbrev title_key : Bytes
title_key = 116 ∷ 105 ∷ 116 ∷ 108 ∷ 101 ∷ 58 ∷ 32 ∷ []

-- "spiderid: "
abbrev spiderid_key : Bytes
spiderid_key = 115 ∷ 112 ∷ 105 ∷ 100 ∷ 101 ∷ 114 ∷ 105 ∷ 100 ∷ 58 ∷ 32 ∷ []

-- "topicsource: "
abbrev topicsource_key : Bytes
topicsource_key = 116 ∷ 111 ∷ 112 ∷ 105 ∷ 99 ∷ 115 ∷ 111 ∷ 117 ∷ 114 ∷ 99 ∷ 101 ∷ 58 ∷ 32 ∷ []

-- `sprintf` of one line into `tmp`, which has MAX_URL_LEN + 30 bytes.
unfoldable pub line : Bytes → Bytes → Run Bytes
line key text =
    let whole = key ++ text ++ (10 ∷ []) in
    if ltb (length whole) (1024 + 30) then ok whole else fault buffer_overflow

unfoldable pub lines : List (Bytes × Bytes) → Run Bytes
lines [] = ok []
lines ((key, text) ∷ rest) =
    line key text >>= (λ whole. lines rest >>= (λ more. ok (whole ++ more)))

-- `writePageHead`.
unfoldable pub write_page_head : Surroundings → UrlNode → ResponseHeader → ℕ → Run Bytes
write_page_head around u r contentlength =
    lines (
      (contentlength_key, print_int (u32 contentlength))
      ∷ (url_key, u.url)
      ∷ (page_key, print_int u.page)
      ∷ (charset_key, r.charset)
      ∷ (contenttype_key, r.contenttype)
      ∷ (id_key, decimal u.id)
      ∷ (date_key, decimal (u32 around.now))
      ∷ (fatherurl_key, u.fatherurl)
      ∷ (title_key, u.title)
      ∷ (spiderid_key, print_int around.spiderid)
      ∷ (topicsource_key, u.topicsource)
      ∷ [])
    >>= (λ text. ok (version_line ++ text ++ (10 ∷ 10 ∷ [])))
