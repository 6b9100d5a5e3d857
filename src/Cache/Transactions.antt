-- ===== src/Cache/Transactions.antt =====
-- src/sdk/txManagers/TransactionCacher.ts: the cache of fetched transactions, by nonce.
-- `equalsUint8Arr` (of @elusiv/serialization) compares byte arrays and is a parameter.
pub mod Range
use elusiv_sdk.Base.{
  ℕ, Bool, true, ◌&&◌, Option, none, some, List, [], ◌∷◌, ◌++◌, keep_if, if◌then◌else◌, ◌==◌,
}
use elusiv_sdk.Base.Int.{ℤ, pos}
use elusiv_sdk.Base.Slice.{slice}
use elusiv_sdk.Token.{TokenType, token_beq}
use elusiv_sdk.Transaction.{ElusivTransaction}
use elusiv_sdk.Cache.{bucket, cache, cache_overwrite, is_cached, read_at}

abbrev pub TxCache : Type 0
TxCache = List (Option (List ElusivTransaction))

abbrev pub tx_nonce : ElusivTransaction → ℕ
tx_nonce tx = tx.nonce

-- `Array.prototype.flat` over buckets; it skips the gaps of the sparse array.
unfoldable pub flat {ℓ} : {T : Type ℓ} → List (Option (List T)) → List T
flat [] = []
flat (x ∷ xs) = bucket x ++ flat xs

-- A parameter that was left out takes its default.
abbrev from_or_zero : Option ℤ → ℤ
from_or_zero none = pos 0
from_or_zero (some n) = n

module _ (equals_uint8_arr : List ℕ → List ℕ → Bool) where
  -- The `equal` that the constructor gives to the cacher.
  abbrev pub same_tx : ElusivTransaction → ElusivTransaction → Bool
  same_tx tx1 tx2 =
      tx1.nonce == tx2.nonce && equals_uint8_arr tx1.commitment_hash tx2.commitment_hash

  unfoldable pub cache_txs : List ElusivTransaction → TxCache → TxCache
  unfolding cache
  cache_txs txs cached = cache tx_nonce same_tx txs cached

  unfoldable pub cache_overwrite_txs : List ElusivTransaction → TxCache → TxCache
  unfolding cache_overwrite
  cache_overwrite_txs txs cached = cache_overwrite tx_nonce same_tx txs cached

  unfoldable pub is_cached_tx : ElusivTransaction → TxCache → Bool
  unfolding is_cached
  is_cached_tx tx cached = is_cached tx_nonce same_tx tx cached

unfoldable pub get_at_nonce_from_cache : ℕ → TxCache → Option (List ElusivTransaction)
unfolding read_at
get_at_nonce_from_cache nonce cached = read_at cached nonce

unfoldable pub get_all_cached_txs : Option ℤ → Option ℤ → TxCache → List ElusivTransaction
unfolding slice flat
get_all_cached_txs from_nonce to_nonce cached =
    flat (slice cached (from_or_zero from_nonce) to_nonce)

abbrev filter_token : Option TokenType → List ElusivTransaction → List ElusivTransaction
filter_token none txs = txs
filter_token (some token_type) txs = keep_if (λ tx. token_beq tx.token_type token_type) txs

unfoldable pub get_cached_txs :
    Option TokenType → Option ℤ → Option ℤ → TxCache → List ElusivTransaction
unfolding get_all_cached_txs
get_cached_txs token_type from_nonce to_nonce cached =
    filter_token token_type (get_all_cached_txs from_nonce to_nonce cached)
