-- ===== src/TxFetch.antt =====
-- src/sdk/txManagers/AbstractTxManager.ts: fetching transactions by nonce through the cache.
-- The abstract method `getTxsFromNonces` is a parameter, and so is `equalsUint8Arr`. A nonce or a
-- bound is an integer, since -1 stands for "before the first". Batches are planned before the first
-- of them is awaited, so each sees the cache as it was; their results are cached in plan order.
pub mod Plan
pub mod Select
pub mod Tests
use mathlib.Core.Option
use mathlib.Core.List.{head?}
use elusiv_sdk.Base.{
  ℕ, zero, suc, ◌+◌, Bool, true, false, not, Option, none, some, List, [], ◌∷◌, ◌++◌, reverse, map,
  if◌then◌else◌, ltb, ◌==◌, take, drop, length,
}
use elusiv_sdk.Base.Int.{ℤ, pos, negsuc, pos_part, minus_one, ltb_ℤ, ◌+ℤ◌, ◌-ℤ◌}
use elusiv_sdk.Constants.{default_fetch_batch_size, max_safe_integer}
use elusiv_sdk.Transaction.{ElusivTransaction}
use elusiv_sdk.Cache.{is_none}
use elusiv_sdk.Cache.Transactions.{TxCache, cache_txs, get_cached_txs}

infixl 5 ◌>>=◌
abbrev ◌>>=◌ {ℓ κ} : {A : Type ℓ} {B : Type κ} → Option A → (A → Option B) → Option B
none >>= f = none
some a >>= f = f a

pub record TxFetchingInputs : Type 0 where
  pub batch_size : ℕ
  pub before : ℤ
  pub after : ℤ

-- Both ends are exclusive.
pub record CachedRange : Type 0 where
  pub before : ℤ
  pub after : ℤ

-- `Math.min` and `Math.max`.
abbrev pub min_ℤ : ℤ → ℤ → ℤ
min_ℤ a b = if ltb_ℤ b a then b else a

abbrev pub max_ℤ : ℤ → ℤ → ℤ
max_ℤ a b = if ltb_ℤ a b then b else a

unfoldable pub prepare_tx_fetching_params : CachedRange → Option ℕ → ℕ → Option ℤ → TxFetchingInputs
unfolding ◌-ℤ◌
prepare_tx_fetching_params pre_fetched_range count batch_size before =
    let default_before = pre_fetched_range.before in
    let before_inner : ℤ = elim before [
      | none ↦ default_before
      | some b ↦ min_ℤ b default_before
    ] in
    let after : ℤ = elim count [ none ↦ minus_one | some n ↦ before_inner -ℤ pos n -ℤ pos 1 ] in
    record { batch_size = batch_size; before = before_inner; after = max_ℤ after minus_one }

-- Newest first: the cacher's order is turned round, and its lower bound made exclusive.
unfoldable pub get_cached_txs_wrapper : Option ℤ → Option ℤ → TxCache → List ElusivTransaction
unfolding get_cached_txs ◌+ℤ◌
get_cached_txs_wrapper before_tx after_tx cached =
    reverse (get_cached_txs none (Option.map (λ n. n +ℤ pos 1) after_tx) before_tx cached)

unfoldable pub get_latest_cached_nonce : TxCache → ℤ
unfolding get_cached_txs_wrapper
get_latest_cached_nonce cached = elim (head? (get_cached_txs_wrapper none none cached)) [
  | none ↦ minus_one
  | some tx ↦ pos tx.nonce
]

unfoldable pub is_cached_nonce : TxCache → ℤ → Bool
unfolding get_cached_txs_wrapper ◌-ℤ◌
is_cached_nonce cached nonce = not (
    is_none (head? (get_cached_txs_wrapper (some (nonce +ℤ pos 1)) (some (nonce -ℤ pos 1)) cached)))

-- `getAndCacheNextTxBatch(batchSize, counter + 1, after)`: the range that it fetches.
unfoldable pub next_batch : ℕ → ℤ → ℤ → CachedRange
unfolding ◌-ℤ◌ ◌+ℤ◌
next_batch batch_size after before = record {
  before = before;
  after = max_ℤ after (before -ℤ pos batch_size -ℤ pos 1);
}

-- The `while` loop of `fetchTxsIntoCache`, as the ranges of the batches that it starts. `none` means
-- that the fuel ran out.
unfoldable pub plan_batches : ℕ → ℕ → ℤ → (ℤ → Bool) → ℤ → Option (List CachedRange)
unfolding next_batch
plan_batches zero batch_size after is_cached counter = none
plan_batches (suc fuel) batch_size after is_cached counter =
    let skipped = plan_batches fuel batch_size after is_cached (counter -ℤ pos 1) in
    let fetched =
      Option.map (λ batches. next_batch batch_size after (counter +ℤ pos 1) ∷ batches)
        (plan_batches fuel batch_size after is_cached (counter -ℤ pos batch_size)) in
    if ltb_ℤ after counter then (if is_cached counter then skipped else fetched) else some []

-- `for (let i = 0; i < n; i++) nonces[i] = { fst: first + i, snd: isCachedNonce(first + i) }`.
unfoldable pub flagged_nonces : ℕ → ℤ → (ℤ → Bool) → List (ℤ × Bool)
unfolding ◌+ℤ◌
flagged_nonces zero first is_cached = []
flagged_nonces (suc n) first is_cached =
    (first, is_cached first) ∷ flagged_nonces n (first +ℤ pos 1) is_cached

abbrev count_from : ElusivTransaction → List ElusivTransaction → List ElusivTransaction
count_from tx [] = []
count_from tx (u ∷ us) = if u.nonce == tx.nonce then u ∷ count_from tx us else []

-- The transactions after the cut that have the nonce of the first of them, up to the first that has
-- another.
abbrev same_nonce_run : List ElusivTransaction → List ElusivTransaction
same_nonce_run [] = []
same_nonce_run (tx ∷ txs) = count_from tx (tx ∷ txs)

-- `filtered[count - 1].nonce === filtered[count].nonce`, where the list is cut into `kept` and `rest`.
abbrev cut_inside_nonce : List ElusivTransaction → List ElusivTransaction → Bool
cut_inside_nonce [] rest = false
cut_inside_nonce (t ∷ []) [] = false
cut_inside_nonce (t ∷ []) (u ∷ us) = t.nonce == u.nonce
cut_inside_nonce (t ∷ t' ∷ ts) rest = cut_inside_nonce (t' ∷ ts) rest

abbrev keep_defined : List (Option ElusivTransaction) → List ElusivTransaction
keep_defined [] = []
keep_defined (none ∷ txs) = keep_defined txs
keep_defined (some tx ∷ txs) = tx ∷ keep_defined txs

-- `count = 0` would read `filtered[-1].nonce`, which throws: that call is `none`.
unfoldable pub get_txs_in_nonce_range :
    List (Option ElusivTransaction) → Option ℕ → Option (List ElusivTransaction)
get_txs_in_nonce_range txs none = some (keep_defined txs)
get_txs_in_nonce_range txs (some zero) = elim (keep_defined txs) [ [] ↦ some [] | tx ∷ more ↦ none ]
get_txs_in_nonce_range txs (some (suc n)) =
    let filtered = keep_defined txs in
    let kept = take (suc n) filtered in
    let rest = drop (suc n) filtered in
    some (kept ++ (if cut_inside_nonce kept rest then same_nonce_run rest else []))

-- The loop runs at most once for each nonce in the range, and its test fails once more.
abbrev pub fetch_fuel : TxFetchingInputs → ℕ
fetch_fuel inputs = suc (pos_part (inputs.before -ℤ inputs.after))

module _ (equals_uint8_arr : List ℕ → List ℕ → Bool)
    (get_txs_from_nonces : List (ℤ × Bool) → List ElusivTransaction) where
  unfoldable pub fetch_txs_in_range : CachedRange → TxCache → List ElusivTransaction
  unfolding flagged_nonces is_cached_nonce ◌-ℤ◌ ◌+ℤ◌
  fetch_txs_in_range range cached = get_txs_from_nonces (
      flagged_nonces (pos_part (range.before -ℤ (range.after +ℤ pos 1))) (range.after +ℤ pos 1)
        (is_cached_nonce cached))

  -- The cache after the fetch, and the fetched transactions.
  unfoldable pub fetch_and_cache_txs_in_range :
      CachedRange → TxCache → TxCache × List ElusivTransaction
  unfolding fetch_txs_in_range cache_txs
  fetch_and_cache_txs_in_range range cached =
      let txs = fetch_txs_in_range range cached in (cache_txs equals_uint8_arr txs cached, txs)

  -- The fetched batches, each over the cache `seen` that it was started on, are cached one by one.
  unfoldable pub cache_batches : List CachedRange → TxCache → TxCache → TxCache
  unfolding fetch_txs_in_range cache_txs
  cache_batches [] seen cached = cached
  cache_batches (range ∷ batches) seen cached =
      cache_batches batches seen (cache_txs equals_uint8_arr (fetch_txs_in_range range seen) cached)

  unfoldable pub fetch_txs_into_cache : TxFetchingInputs → TxCache → Option TxCache
  unfolding plan_batches cache_batches is_cached_nonce ◌-ℤ◌
  fetch_txs_into_cache inputs cached =
      Option.map (λ batches. cache_batches batches cached cached)
        (plan_batches (fetch_fuel inputs) inputs.batch_size inputs.after (is_cached_nonce cached)
          (inputs.before -ℤ pos 1))

  -- The `do` loop of `getLatestTransactionsIntoCache`; `none` means that the fuel ran out.
  unfoldable pub latest_loop : ℕ → ℕ → ℤ → TxCache → Option TxCache
  unfolding fetch_and_cache_txs_in_range ◌+ℤ◌
  latest_loop zero step_size i cached = none
  latest_loop (suc fuel) step_size i cached =
      let (cached', batch) =
        fetch_and_cache_txs_in_range (record { before = i +ℤ pos step_size +ℤ pos 1; after = i })
          cached in
      elim batch [
        | [] ↦ some cached'
        | tx ∷ txs ↦ latest_loop fuel step_size (i +ℤ pos step_size) cached'
      ]

  unfoldable pub get_latest_transactions_into_cache :
      ℕ → ℤ → ℕ → TxCache → Option (TxCache × CachedRange)
  unfolding latest_loop get_latest_cached_nonce ◌+ℤ◌
  get_latest_transactions_into_cache fuel latest_cached_nonce step_size cached =
      Option.map
        (λ cached'. (
          cached',
          record { after = latest_cached_nonce; before = get_latest_cached_nonce cached' +ℤ pos 1 },
        ))
        (latest_loop fuel step_size latest_cached_nonce cached)

  abbrev needs_latest : Option ℤ → ℤ → Bool
  needs_latest none latest = true
  needs_latest (some before) latest = ltb_ℤ latest before

  abbrev default_range : Option ℤ → CachedRange
  default_range none = record { before = pos max_safe_integer; after = minus_one }
  default_range (some before) = record { before = before; after = minus_one }

  -- `getTxs`: the cache that it leaves, and the transactions that it returns. `fuel` bounds the search
  -- for the latest transaction.
  unfoldable pub get_txs :
      ℕ → Option ℕ → Option ℤ → ℕ → TxCache → Option (TxCache × List ElusivTransaction)
  unfolding get_latest_transactions_into_cache fetch_txs_into_cache prepare_tx_fetching_params
      get_cached_txs_wrapper get_txs_in_nonce_range get_latest_cached_nonce
  get_txs fuel count before batch_size cached = do
    let latest = get_latest_cached_nonce cached
    (cached', range) ←
        if needs_latest before latest
        then get_latest_transactions_into_cache fuel latest default_fetch_batch_size cached
        else some (cached, default_range before)
    let inputs = prepare_tx_fetching_params range count batch_size before
    cached'' ← fetch_txs_into_cache inputs cached'
    txs ←
        get_txs_in_nonce_range
          (map some (get_cached_txs_wrapper before (some inputs.after) cached'')) count
    some (cached'', txs)
