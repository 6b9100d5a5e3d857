-- ===== src/TxManager.antt =====
-- src/sdk/txManagers/TransactionManager.ts: fetching transactions of one token, the private balance,
-- and the active transactions. The base class's `getTxs` (modelled in TxFetch.antt) is a parameter
-- over the state `S` that it changes; its `none`, a loop on fuel that ran out, is passed on as an error.
pub mod Active
pub mod Balance
pub mod Tests
use elusiv_sdk.Base.{
  ℕ, zero, suc, ◌+◌, Bool, true, false, not, ◌&&◌, ◌||◌, Option, none, some, List, [], ◌∷◌, ◌++◌,
  map, if◌then◌else◌, ltb, leb, ◌==◌, keep_if, find, length,
}
use elusiv_sdk.Base.Int.{ℤ, pos, minus_one, ltb_ℤ, ◌+ℤ◌, ◌-ℤ◌}
use elusiv_sdk.Result.{Result, ok, err, out_of_fuel, two_sends_same_nonce, invalid_access, ◌>>=◌}
use elusiv_sdk.Constants.{max_uint32, max_safe_integer, send_arity}
use elusiv_sdk.Token.{TokenType, token_beq}
use elusiv_sdk.Transaction.{
  ElusivTransaction, CommitmentMetadata, TransactionStatus, TxType, topup, send, tx_type_beq,
  confirmed,
}
use elusiv_sdk.Cache.{is_none}
use elusiv_sdk.TxFetch.{get_txs_in_nonce_range}

abbrev lower_of : ℕ → Option ElusivTransaction → ℕ
lower_of lowest none = lowest
lower_of lowest (some tx) = if ltb tx.nonce lowest then tx.nonce else lowest

unfoldable pub lowest_from : ℕ → List (Option ElusivTransaction) → ℕ
lowest_from lowest [] = lowest
lowest_from lowest (curr ∷ batch) = lowest_from (lower_of lowest curr) batch

unfoldable pub get_lowest_fetched_nonce_from_batch : List (Option ElusivTransaction) → ℤ
unfolding lowest_from
get_lowest_fetched_nonce_from_batch batch =
    let lowest = lowest_from max_uint32 batch in
    if lowest == max_uint32 then minus_one else pos lowest

abbrev pub of_token : Option TokenType → ElusivTransaction → Bool
of_token none tx = true
of_token (some token_type) tx = token_beq tx.token_type token_type

-- The batch with `undefined` for the transactions of other tokens, and the number of the others.
unfoldable pub filter_batch :
    Option TokenType → List ElusivTransaction → List (Option ElusivTransaction) × ℕ
filter_batch token_type [] = ([], 0)
filter_batch token_type (tx ∷ batch) =
    let (filtered, count) = filter_batch token_type batch in
    if of_token token_type tx then (some tx ∷ filtered, count + 1) else (none ∷ filtered, count)

-- All but the most recent transaction must be confirmed. The status is set on the returned copies; that
-- the cache shares the objects is left out.
abbrev confirm : ElusivTransaction → ElusivTransaction
confirm tx = record tx { transaction_status = some confirmed }

unfoldable pub confirm_older : List ElusivTransaction → List ElusivTransaction
confirm_older [] = []
confirm_older (tx ∷ txs) = tx ∷ map confirm txs

abbrev before_or_max : Option ℤ → ℤ
before_or_max none = pos max_safe_integer
before_or_max (some before) = before

abbrev pub is_nonneg : ℤ → Bool
is_nonneg n = not (ltb_ℤ n (pos 0))

abbrev or_out_of_fuel {ℓ} : {A : Type ℓ} → Option A → Result A
or_out_of_fuel none = err out_of_fuel
or_out_of_fuel (some a) = ok a

-- A read of `filtered[-1].nonce`, for a count of 0.
abbrev or_invalid {ℓ} : {A : Type ℓ} → Option A → Result A
or_invalid none = err invalid_access
or_invalid (some a) = ok a

module _ {S : Type 0} (get_txs : ℕ → Option ℤ → S → Option (S × List ElusivTransaction)) where
  -- The `while` loop of `fetchTxs`.
  unfoldable pub fetch_loop :
      ℕ
      → ℕ
      → Option TokenType
      → List (Option ElusivTransaction)
      → ℕ
      → ℤ
      → S
      → Result (S × List (Option ElusivTransaction))
  unfolding filter_batch get_lowest_fetched_nonce_from_batch
  fetch_loop zero count token_type res fetched_count before s = err out_of_fuel
  fetch_loop (suc fuel) count token_type res fetched_count before s =
      let next = (do
        (s', batch) ← or_out_of_fuel (get_txs count (some before) s)
        let filtered = filter_batch token_type batch
        fetch_loop fuel count token_type (res ++ filtered.0) (fetched_count + filtered.1)
            (get_lowest_fetched_nonce_from_batch (map some batch)) s') in
      if is_nonneg before && ltb fetched_count count then next else ok (s, res)

  unfoldable pub fetch_txs :
      ℕ → ℕ → Option TokenType → Option ℤ → S → Result (S × List ElusivTransaction)
  unfolding fetch_loop get_txs_in_nonce_range confirm_older
  fetch_txs fuel count token_type before s = do
    (s', res) ← fetch_loop fuel count token_type [] 0 (before_or_max before) s
    txs ← or_invalid (get_txs_in_nonce_range res (some count))
    ok (s', confirm_older txs)

-- What a transaction adds to the private balance.
abbrev pub balance_change : ElusivTransaction → ℤ → ℤ
balance_change tx total = elim tx.tx_type [
  | topup ↦ total +ℤ pos tx.amount
  | send ↦ total -ℤ pos tx.amount -ℤ pos tx.fee
]

unfoldable pub add_batch : List ElusivTransaction → ℤ → ℤ
add_batch [] total = total
add_batch (tx ∷ batch) total = add_batch batch (balance_change tx total)

-- `fetch` is `fetchTxs(batchSize, tokenType, lowestFetchedNonce)` over the state.
module _ {S : Type 0} (fetch : ℤ → S → Result (S × List ElusivTransaction)) where
  unfoldable pub history_loop : ℕ → ℤ → ℤ → S → Result (S × ℤ)
  unfolding add_batch get_lowest_fetched_nonce_from_batch
  history_loop zero lowest total s = err out_of_fuel
  history_loop (suc fuel) lowest total s =
      let next = (do
        (s', batch) ← fetch lowest s
        history_loop fuel (get_lowest_fetched_nonce_from_batch (map some batch))
            (add_batch batch total) s') in
      if is_nonneg lowest then next else ok (s, total)

  unfoldable pub get_private_balance_from_tx_history : ℕ → Option ℤ → S → Result (S × ℤ)
  unfolding history_loop
  get_private_balance_from_tx_history fuel before s =
      history_loop fuel (before_or_max before) (pos 0) s

abbrev pub same_nonce : ℕ → List ElusivTransaction → List ElusivTransaction
same_nonce n txs = keep_if (λ tx. tx.nonce == n) txs

unfoldable pub topup_sum : List ElusivTransaction → ℕ
topup_sum [] = 0
topup_sum (tx ∷ txs) = elim tx.tx_type [ topup ↦ tx.amount | send ↦ 0 ] + topup_sum txs

abbrev pub is_send : ElusivTransaction → Bool
is_send tx = tx_type_beq tx.tx_type send

-- A batch either settles the balance or leaves a running total.
pub data Settled : Type 0 where
  settled : ℤ → Settled
  running : ℤ → Settled

-- The send with its metadata, and what follows it in the batch.
unfoldable pub settle :
    ElusivTransaction → CommitmentMetadata → List ElusivTransaction → ℤ → Result Settled
unfolding topup_sum
settle tx metadata remaining total =
    if is_none (find is_send (same_nonce tx.nonce remaining))
    then ok
        (settled (pos metadata.balance +ℤ total +ℤ pos (topup_sum (same_nonce tx.nonce remaining))))
    else err two_sends_same_nonce

-- The `for` loop over one batch of `getPrivateBalanceFromMetadata`.
unfoldable pub settle_batch : List ElusivTransaction → ℤ → Result Settled
unfolding settle
settle_batch [] total = ok (running total)
settle_batch (tx ∷ remaining) total =
    let older = settle_batch remaining (balance_change tx total) in
    elim tx.tx_type [
      | topup ↦ older
      | send ↦ elim tx.metadata [
        | none ↦ older
        | some metadata ↦ settle tx metadata remaining total
      ]
    ]

module _ {S : Type 0} (fetch : ℤ → S → Result (S × List ElusivTransaction)) where
  unfoldable pub metadata_loop : ℕ → ℤ → ℤ → S → Result (S × ℤ)
  unfolding settle_batch get_lowest_fetched_nonce_from_batch
  metadata_loop zero lowest total s = err out_of_fuel
  metadata_loop (suc fuel) lowest total s =
      let next = (do
        (s', batch) ← fetch lowest s
        outcome ← settle_batch batch total
        elim outcome [
          | settled balance ↦ ok (s', balance)
          | running total' ↦
              metadata_loop fuel (get_lowest_fetched_nonce_from_batch (map some batch)) total' s'
        ]) in
      if is_nonneg lowest then next else ok (s, total)

  unfoldable pub get_private_balance_from_metadata : ℕ → Option ℤ → S → Result (S × ℤ)
  unfolding metadata_loop
  get_private_balance_from_metadata fuel before s =
      metadata_loop fuel (before_or_max before) (pos 0) s
