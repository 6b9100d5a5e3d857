-- ===== src/Client.antt =====
-- src/public/elusiv.ts: the facade. Its managers, the senders and the network are parameters: what they
-- answer is an argument, one for each call where an answer can change. A rejected promise is an error.
pub mod Batch
pub mod Tracking
pub mod Tests
use elusiv_sdk.Base.{
  ℕ, zero, suc, ◌+◌, Bool, true, false, not, ◌&&◌, ◌||◌, String, Option, none, some, List, [], ◌∷◌,
  find, if◌then◌else◌, ◌==◌,
}
use elusiv_sdk.Base.Int.{ℤ, pos}
use elusiv_sdk.Result.{
  Result, ok, err, Error, map_result, merge_needed, fetch_failed, no_sig_found, ◌>>=◌,
}
use elusiv_sdk.Constants.{send_arity}
use elusiv_sdk.Token.{TokenType, lamports, token_beq}
use elusiv_sdk.Transaction.{ElusivTransaction, TxType, send, topup, tx_type_beq}
use elusiv_sdk.Cache.{is_none}
use elusiv_sdk.Commitments.{need_merge}
use elusiv_sdk.Fee.{Fee, FeeCalculator, get_store_fee}
use elusiv_sdk.Fee.Amounts.{add_fees}
use elusiv_sdk.Fee.Send.{estimate_send_fee}
use elusiv_sdk.Building.{
  Builder, Pricing, OptionalFee, TopupRemoteParams, lamport_fee_to_token_fee,
  topup_params_to_send_params,
}
use elusiv_sdk.Building.Send.{SendTxData, build_merge_tx_data, send_total_fee_amount}
use elusiv_sdk.Building.Topup.{StoreTx, TopupTxData, build_topup_tx_data}

-- src/public/types.ts; amounts are whole, as `cleanUserInput` makes them.
pub record TopupFeeCalcInfo : Type 0 where
  pub amount : ℕ
  pub token_type : TokenType

pub record SendFeeCalcInfo : Type 0 where
  pub amount : ℕ
  pub token_type : TokenType
  pub recipient : String
  pub extra_fee : Option OptionalFee
  pub custom_recipient_ta : Option String

-- What the estimates ask for. There is a price for each token: `getTokenPriceMap` fetches them all, so
-- that `?? -1` and the test for it are never used.
pub record Estimates : Type 0 where
  pub fee_calculator : FeeCalculator
  pub token_acc_rent : ℕ
  pub price_of : TokenType → Pricing
  pub get_associated_token_acc : String → TokenType → Bool → String
  pub token_acc_exists : String → Bool
  pub system_program : String
  pub serialize_uint256_le : ℕ → List ℕ

abbrev pub extra_amount : Option OptionalFee → ℕ
extra_amount none = 0
extra_amount (some fee) = fee.amount

-- The number of topups that were seen of each token.
abbrev pub Counts : Type 0
Counts = TokenType → ℕ

abbrev pub set_count : Counts → TokenType → ℕ → Counts
set_count counts t n u = if token_beq t u then n else counts u

module _ (env : Estimates) where
  abbrev pub recipient_ta : SendFeeCalcInfo → Bool → String
  recipient_ta info allow_owner_off_curve = elim info.custom_recipient_ta [
    | none ↦ env.get_associated_token_acc info.recipient info.token_type allow_owner_off_curve
    | some ta ↦ ta
  ]

  unfoldable pub estimate_send_fee_internal : SendFeeCalcInfo → Bool → Result Fee
  unfolding estimate_send_fee lamport_fee_to_token_fee
  estimate_send_fee_internal info allow_owner_off_curve = do
    let exists_ta =
        token_beq info.token_type lamports
        || env.token_acc_exists (recipient_ta info allow_owner_off_curve)
    lamport_fee ←
        estimate_send_fee env.serialize_uint256_le env.fee_calculator info.amount exists_ta
          env.token_acc_rent
    lamport_fee_to_token_fee (env.price_of info.token_type) lamport_fee info.token_type
        (extra_amount info.extra_fee)

  unfoldable pub estimate_topup_fee_internal : TopupFeeCalcInfo → Result Fee
  unfolding get_store_fee lamport_fee_to_token_fee
  estimate_topup_fee_internal info = do
    lamport_fee ← get_store_fee env.fee_calculator info.amount
    lamport_fee_to_token_fee (env.price_of info.token_type) lamport_fee info.token_type 0

  -- The topup after a merge, whose recipient is the system program.
  unfoldable pub estimate_merge_and_topup : TopupFeeCalcInfo → Result Fee
  unfolding estimate_send_fee_internal estimate_topup_fee_internal add_fees
  estimate_merge_and_topup info = do
    send_fee ←
        estimate_send_fee_internal
          (record {
            amount = info.amount;
            token_type = info.token_type;
            recipient = env.system_program;
            extra_fee = none;
            custom_recipient_ta = none;
          })
          false
    topup_fee ← estimate_topup_fee_internal info
    add_fees send_fee topup_fee

  -- The loop, with `tokenTxCountMap`.
  unfoldable pub estimate_batch_loop : Counts → List TopupFeeCalcInfo → Result (List Fee)
  unfolding estimate_merge_and_topup estimate_topup_fee_internal
  estimate_batch_loop counts [] = ok []
  estimate_batch_loop counts (info ∷ infos) =
      let full = counts info.token_type == send_arity in
      let seen = if full then 2 else counts info.token_type + 1 in
      let rest = estimate_batch_loop (set_count counts info.token_type seen) infos in
      (if full then estimate_merge_and_topup info else estimate_topup_fee_internal info) >>= λ fee.
      rest >>= λ fees. ok (fee ∷ fees)

  unfoldable pub estimate_topup_fees_batch : List TopupFeeCalcInfo → Result (List Fee)
  unfolding estimate_batch_loop
  estimate_topup_fees_batch infos = estimate_batch_loop (λ t. 0) infos

  unfoldable pub estimate_send_fees_batch : List SendFeeCalcInfo → Bool → Result (List Fee)
  unfolding estimate_send_fee_internal map_result
  estimate_send_fees_batch infos allow_owner_off_curve =
      map_result (λ info. estimate_send_fee_internal info allow_owner_off_curve) infos

-- Is a transaction of the nonce and type among those that were fetched?
abbrev pub is_tx : ℕ → TxType → ElusivTransaction → Bool
is_tx nonce tx_type tx = tx.nonce == nonce && tx_type_beq tx.tx_type tx_type

abbrev pub has_tx : ℕ → TxType → List ElusivTransaction → Bool
has_tx nonce tx_type txs = not (is_none (find (is_tx nonce tx_type) txs))

-- `lastNonce + 1`, or `lastNonce + 2` after a merge; `lastNonce` is -1 before the first transaction, so
-- the argument here is `lastNonce + 1`.
abbrev pub curr_nonce : ℕ → Bool → ℕ
curr_nonce next_nonce is_merge = if is_merge then next_nonce + 1 else next_nonce

-- `findSig`, over what each call of `fetchTxs(5)` answers.
unfoldable pub find_sig : ℕ → TxType → Bool → List (List ElusivTransaction) → Bool
find_sig next_nonce tx_type is_merge [] = false
find_sig next_nonce tx_type is_merge (priv_txs ∷ calls) =
    let later = find_sig next_nonce tx_type is_merge calls in
    if has_tx (curr_nonce next_nonce is_merge) tx_type priv_txs
      && (not is_merge || has_tx next_nonce send priv_txs)
    then true
    else later

-- The number of the transaction's signature, or the error of the sender, where a failed fetch is looked
-- up in `fetchTxs(1)`.
unfoldable pub send_or_most_recent : Result ℕ → ℕ → Option (ℕ × ℕ) → Result ℕ
send_or_most_recent (err fetch_failed) next_nonce (some (nonce, signature)) =
    if nonce == next_nonce then ok signature else err fetch_failed
send_or_most_recent sent next_nonce most_recent = sent

-- What the promise of the insertion answers.
unfoldable pub insertion_result :
    Bool → ℕ → TxType → Bool → List (List ElusivTransaction) → Result Bool
unfolding find_sig
insertion_result found_comm next_nonce tx_type merge calls =
    let is_merge = tx_type_beq tx_type topup && merge in
    let found_sig = find_sig next_nonce tx_type is_merge calls in
    if found_comm && found_sig then ok true else err no_sig_found

module _ {C I P R : Type 0} (lib : Builder C I P)
    (build_raw_topup_transaction : StoreTx C → Result R)
    (send_elusiv_tx : SendTxData P → Result Bool) where
  -- `buildTopUpTx`, with the parameters that were fetched. Only the block hash of a new fetch after a
  -- merge is left out.
  unfoldable pub build_top_up_tx :
      ℕ
      → TokenType
      → Bool
      → TopupRemoteParams C
      → String
      → String
      → String
      → ℕ
      → Result (TopupTxData R)
  unfolding need_merge build_merge_tx_data send_total_fee_amount build_topup_tx_data
      topup_params_to_send_params
  build_top_up_tx amount token_type manual_merge params owner sender warden hash_acc_index = do
    merge ← need_merge params.active_commitments
    let build = λ (merge_fee : Option ℤ).
        build_topup_tx_data lib build_raw_topup_transaction amount token_type sender false params
          warden merge_fee hash_acc_index
    if not merge then build none else if manual_merge then err merge_needed else (do
      merge_tx_data ←
          build_merge_tx_data lib token_type owner (topup_params_to_send_params params) warden none
      sent ← send_elusiv_tx merge_tx_data
      build (some (send_total_fee_amount merge_tx_data)))
