-- ===== src/Ids.antt =====
-- GetMaxID and getMaxUrlId of src/module/CheckpointManager.cpp: 64-bit ids of the millisecond, the
-- number of the process and a serial number. Each call holds its mutex from its first to its last
-- access, also while it sleeps.
pub mod Laws
mod Tests
use bloom_server.Base.{
  ℕ, ◌+◌, ◌*◌, ◌/◌, ◌^◌, bit_or, Option, none, some, List, [], ◌∷◌, u64, ◌<<<◌, ltb, ◌==◌,
  if◌then◌else◌,
}

-- The static variables of `GetMaxID`.
pub record Ids : Type 0 where
  pub last_millisecond : ℕ
  pub last_id : ℕ

abbrev pub initial_ids : Ids
initial_ids = record { last_millisecond = 0; last_id = 0 }

-- `timeval`
pub record Time : Type 0 where
  pub tv_sec : ℕ
  pub tv_usec : ℕ

unfoldable pub millisecond : Time → ℕ
millisecond tv = u64 (u64 (tv.tv_sec * 1000) + tv.tv_usec / 1000)

-- `millisecond << 23 | (pcid << 12)`
unfoldable pub stamp : ℕ → ℕ → ℕ
stamp pcid ms = bit_or (u64 (ms <<< 23)) (u64 (pcid <<< 12))

-- A call that still sleeps is `waiting`.
pub data Issue : Type 0 where
  waiting : Issue
  issued : ℕ → Issue

-- What the clock reads at each `start:`; `none` is the result -1 of `gettimeofday`.
unfoldable pub get_max_id : ℕ → Ids → List (Option Time) → Ids × Issue
unfolding millisecond stamp
get_max_id pcid s [] = (s, waiting)
get_max_id pcid s (none ∷ rest) = (s, issued 0)
get_max_id pcid s (some tv ∷ rest) =
    let ms = millisecond tv in
    let later = get_max_id pcid s rest in
    if ltb s.last_millisecond ms
    then (record { last_millisecond = ms; last_id = 0 }, issued (stamp pcid ms))
    else if ms == s.last_millisecond
    then if ltb 4095 s.last_id
      then later
      else (record s { last_id = s.last_id + 1 }, issued (bit_or (stamp pcid ms) (s.last_id + 1)))
    else later

-- The id, and `maxurlid` after the call.
unfoldable pub get_max_url_id : ℕ → ℕ × ℕ
get_max_url_id maxurlid = (maxurlid, u64 (maxurlid + 1))
