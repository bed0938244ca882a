-- ===== src/Bloom/Example.antt =====
-- A small mathematics library, hash and archive, and tables over them, for tests.
use bloom_server.Base.{ℕ, ◌+◌, ◌-◌, ◌*◌, ◌/◌, ◌≡◌, refl, true, some, [], ◌∷◌, ltb, arith}
use bloom_server.Bloom.Types.{Bloom, Blooms, Bytes}
use bloom_server.Bloom.Platform.{Libm, Platform, Murmur}
use bloom_server.Bloom.Archive.{Boost, Saved}
use bloom_server.Bloom.Create.{fresh_bloom, bloom_init}
use bloom_server.Bloom.Size.{calculate}
use bloom_server.Bloom.Chain.{find}
use bloom_server.Bloom.Buckets.{bucket}
use bloom_server.Bloom.Store.{empty_blooms}
use bloom_server.Bloom.Store.Table.{view}
use bloom_server.Bloom.Store.Valid.{IsValid}
use bloom_server.Bloom.Store.Init.{empty-IsValid}
use bloom_server.Bloom.Store.Fresh.{IsFresh, bloom_init-IsFresh}
use bloom_server.Bloom.Store.Add.{with_new, with_new-IsValid}

-- Whole numbers for `double`; `pow` is 0, so that the loop of `calculate` runs once at the rate 0.
abbrev pub whole : Libm
whole = record {
  of_ℕ = λ n. n;
  to_int = λ n. n;
  mul = λ x y. x * y;
  sub = λ x y. x - y;
  div = λ x y. x / y;
  pow = λ x y. 0;
  neg = λ x. x;
  log = λ x. 1;
  exp = λ x. 1;
  ceil = λ x. x;
  gt = λ x y. ltb y x;
}

abbrev pub platform : Platform
platform = record { libm = whole; malloc = λ n. true; new_words = λ n. true }

abbrev sum : Bytes → ℕ
sum [] = 0
sum (c ∷ rest) = c + sum rest

instance abbrev pub sum_hash : Murmur
sum_hash = record { murmur_hash3 = λ key seed. record { h1 = sum key; h2 = 7 } }

abbrev pub news : Bytes
news = 110 ∷ 101 ∷ 119 ∷ 115 ∷ []

abbrev pub url : Bytes
url = 97 ∷ 46 ∷ 98 ∷ []

-- A filter of 20 bits for 10 elements.
abbrev pub news_filter : Bloom
news_filter = fresh_bloom news 10 0 (record { bytes = 140; m = 20; k = 2; tmp_e = 0 })

-- An archive that has written one table only, and reads it back.
abbrev pub boost : Saved → Boost
boost saved = record { encode = λ s. 1 ∷ []; decode = λ text. some saved; left_over = λ b. 3 }

abbrev pub no_filters : Blooms
no_filters = empty_blooms 4000

abbrev pub one_filter : Blooms
one_filter = with_new no_filters news news_filter

pub no_filters-IsValid : IsValid no_filters
no_filters-IsValid = empty-IsValid 4000 (omega arith)

pub news_filter-IsFresh : IsFresh no_filters news 10 0 news_filter
unfolding bloom_init calculate
news_filter-IsFresh =
    bloom_init-IsFresh platform no_filters news 10 0 news_filter (omega arith) (omega arith) refl

pub one_filter-IsValid : IsValid one_filter
unfolding view find
one_filter-IsValid = with_new-IsValid no_filters-IsValid refl news_filter-IsFresh

pub one_filter-news : view one_filter news ≡ some news_filter
unfolding view find bucket
one_filter-news = refl
