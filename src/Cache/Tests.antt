-- ===== src/Cache/Tests.antt =====
-- Concrete caches: of numbers with the first digit as index, and of transactions.
use elusiv_sdk.Base.{
  ℕ, Bool, true, false, none, some, List, [], ◌∷◌, ◌≡◌, refl, if◌then◌else◌, ◌==◌, ◌/◌, inl, In,
  zero, suc, Option,
}
use elusiv_sdk.Transaction.Samples.{sample_topup}
use elusiv_sdk.Cache.{read_at, bucket, cache, cache_overwrite}
use elusiv_sdk.Cache.Laws.{IsCache, cache-IsCache}
use elusiv_sdk.Cache.Transactions.{TxCache, tx_nonce, same_tx}

abbrev tens : ℕ → ℕ
tens n = n / 10

abbrev is_same : ℕ → ℕ → Bool
is_same a b = a == b

abbrev some_cached : List (Option (List ℕ))
some_cached = none ∷ some (11 ∷ []) ∷ []

cached_after :
    cache tens is_same (12 ∷ 31 ∷ 11 ∷ []) some_cached
    ≡ none ∷ some (11 ∷ 12 ∷ []) ∷ none ∷ some (31 ∷ []) ∷ []
unfolding cache
cached_after = refl

-- Two values with one index, written over: the first is lost.
overwritten : cache_overwrite tens is_same (12 ∷ 13 ∷ []) some_cached ≡ none ∷ some (13 ∷ []) ∷ []
unfolding cache_overwrite
overwritten = refl

some_cached-IsCache : IsCache tens is_same some_cached
unfolding read_at
some_cached-IsCache zero = (tt, tt)
some_cached-IsCache (suc zero) = ((refl, tt), (tt, tt))
some_cached-IsCache (suc (suc i)) = (tt, tt)

cache-IsCache_example :
    IsCache tens is_same (cache tens is_same (12 ∷ 12 ∷ []) some_cached)
    × IsCache tens is_same (cache_overwrite tens is_same (12 ∷ 12 ∷ []) some_cached)
cache-IsCache_example = cache-IsCache tens is_same (12 ∷ 12 ∷ []) some_cached some_cached-IsCache

first-In : In 11 (bucket (read_at some_cached 1))
unfolding read_at
first-In = inl refl

abbrev bytes_same : List ℕ → List ℕ → Bool
bytes_same [] [] = true
bytes_same (a ∷ as') (b ∷ bs) = if a == b then bytes_same as' bs else false
bytes_same _ _ = false

abbrev one_tx : TxCache
one_tx = none ∷ some (sample_topup 1 7 ∷ []) ∷ []

one_tx-IsCache : IsCache tx_nonce (same_tx bytes_same) one_tx
unfolding read_at
one_tx-IsCache zero = (tt, tt)
one_tx-IsCache (suc zero) = ((refl, tt), (tt, tt))
one_tx-IsCache (suc (suc i)) = (tt, tt)
