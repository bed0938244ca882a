-- ===== src/Schedule/Keywords.antt =====
-- The keywords of the sources, src/module/TaskScheduleManager.cpp: InsertKeywordMap,
-- DelKeywordMap and keywordmapsize. A multimap is the list of its pairs, in any order of the
-- numbers; pairs of one number are in the order of insertion, as the multimap keeps them.
mod Laws
mod Tests
use bloom_server.Base.{
  ℕ, zero, suc, ◌+◌, Bool, true, false, ◌&&◌, List, [], ◌∷◌, ◌++◌, length, bytes_eq, ◌==◌,
  if◌then◌else◌,
}
use bloom_server.Bloom.Types.{Bytes}

pub record KeyWord : Type 0 where
  pub keyword : Bytes
  pub state : ℕ
  pub source_id : ℕ

abbrev pub same_word : KeyWord → KeyWord → Bool
same_word k x = (k.source_id == x.source_id) && bytes_eq x.keyword k.keyword

-- The loop finds the first pair with the number and the word.
abbrev pub has_word : KeyWord → List KeyWord → Bool
has_word k [] = false
has_word k (x ∷ xs) = if same_word k x then true else has_word k xs

abbrev pub erase_word : KeyWord → List KeyWord → List KeyWord
erase_word k [] = []
erase_word k (x ∷ xs) = let rest = erase_word k xs in if same_word k x then xs else x ∷ rest

-- The map, and whether the keyword was inserted.
unfoldable pub insert_keyword_map : KeyWord → List KeyWord → List KeyWord × Bool
insert_keyword_map k map =
    if has_word k map
    then if k.state == 0 then (erase_word k map, false) else (map, false)
    else if k.state == 0
    then (map, false)
    else (map ++ (k ∷ []), true)

pub del_keyword_map : List KeyWord → List KeyWord
del_keyword_map map = []

pub keywordmapsize : List KeyWord → ℕ
keywordmapsize map = length map
