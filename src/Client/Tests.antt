-- ===== src/Client/Tests.antt =====
-- Concrete estimates, a topup that follows a merge, and the search for its signature.
use elusiv_sdk.Base.{
  ℕ, ◌≡◌, ◌↔◌, refl, true, false, ◌&&◌, none, some, List, [], ◌∷◌, In, inl, inr, length, ◌==◌,
}
use elusiv_sdk.Base.Int.{pos}
use elusiv_sdk.Result.{ok, err, or_else, map_result, fetch_failed}
use elusiv_sdk.Constants.{send_arity}
use elusiv_sdk.Token.{
  lamports, usdc, get_number_from_token_type, get_token_type_from_number, get_token_info,
}
use elusiv_sdk.Transaction.{ElusivTransaction, topup}
use elusiv_sdk.Transaction.Samples.{sample_topup, sample_send}
use elusiv_sdk.Metadata.{make_metadata}
use elusiv_sdk.Commitments.{build_commitment_for_send, need_merge}
use elusiv_sdk.Fee.{get_store_fee, get_store_total_fee}
use elusiv_sdk.Fee.Send.{get_send_fee, get_send_total_fee, get_send_total_fee_inner}
use elusiv_sdk.Fee.Tests.{calculator, serialize}
use elusiv_sdk.Building.{
  lamport_fee_to_token_fee, topup_params_to_send_params, is_valid_amount, sum_balances,
  from_commitment,
}
use elusiv_sdk.Building.Send.{
  check_send, generate_send_fee, generate_next_send_commitment, build_send_tx, build_send_tx_data,
  build_merge_tx_data, send_tx_to_send_tx_data, send_total_fee_amount,
}
use elusiv_sdk.Building.Topup.{
  TopupTxData, generate_topup_fee, build_topup_commitment, build_store_tx, topup_store_tx,
  build_topup_tx_data,
}
use elusiv_sdk.Building.Tests.{builder, one_to_one, params}
use elusiv_sdk.Client.{
  TopupFeeCalcInfo, Estimates, estimate_topup_fees_batch, find_sig, send_or_most_recent,
  build_top_up_tx,
}
use elusiv_sdk.Client.Batch.{numbered, needs_merge, fee_at, estimate_topup_fees_batch_lem}
use elusiv_sdk.Client.Tracking.{Confirms, find_sig_lem, build_top_up_tx_lem}

abbrev estimates : Estimates
estimates = record {
  fee_calculator = calculator 100;
  token_acc_rent = 2_000;
  price_of = λ t. one_to_one;
  get_associated_token_acc = λ owner t allow. owner;
  token_acc_exists = λ acc. true;
  system_program = "system";
  serialize_uint256_le = serialize;
}

abbrev in_lamports : TopupFeeCalcInfo
in_lamports = record { amount = 5_000; token_type = lamports }

abbrev in_usdc : TopupFeeCalcInfo
in_usdc = record { amount = 7_000; token_type = usdc }

abbrev infos : List TopupFeeCalcInfo
infos = in_lamports ∷ in_usdc ∷ in_lamports ∷ in_lamports ∷ in_lamports ∷ in_usdc ∷ in_lamports ∷ []

-- The fifth topup in lamports is the last one here.
places :
    numbered [] infos
    ≡ (0, in_lamports)
      ∷ (0, in_usdc)
      ∷ (1, in_lamports)
      ∷ (2, in_lamports)
      ∷ (3, in_lamports)
      ∷ (1, in_usdc)
      ∷ (4, in_lamports)
      ∷ []
places = refl

fifth : needs_merge 4 ≡ true
fifth = refl

estimate_topup_fees_batch_lem_example :
    estimate_topup_fees_batch estimates infos ≡ map_result (fee_at estimates) (numbered [] infos)
estimate_topup_fees_batch_lem_example = estimate_topup_fees_batch_lem estimates infos

abbrev both_found : List ElusivTransaction
both_found = sample_topup 5 10 ∷ sample_send 4 0 ∷ []

both_found-Confirms : Confirms 4 topup true both_found
both_found-Confirms =
    ((sample_topup 5 10, inl refl, refl, refl), (sample_send 4 0, inr (inl refl), refl, refl))

find_sig_lem_example :
    (find_sig 4 topup true ([] ∷ both_found ∷ []) ≡ true)
    ↔ ((txs : List ElusivTransaction) × In txs ([] ∷ both_found ∷ []) × Confirms 4 topup true txs)
find_sig_lem_example = find_sig_lem 4 topup true ([] ∷ both_found ∷ [])

-- The topup after a merge is found, but not by the search for the most recent transaction.
lost_answer :
    (find_sig 4 topup true (both_found ∷ []) ≡ true)
    × (send_or_most_recent (err fetch_failed) 4 (some (5, 9)) ≡ err fetch_failed)
unfolding find_sig send_or_most_recent
lost_answer = (refl, refl)

abbrev no_data : TopupTxData ℕ
no_data = record {
  fee = record {
    token_type = lamports;
    tx_fee = pos 0;
    privacy_fee = pos 0;
    token_acc_rent = pos 0;
    extra_fee = pos 0;
    lamports_per_token = none;
  };
  token_type = lamports;
  last_nonce = pos 0;
  commitment_hash = [];
  merkle_start_index = 0;
  tx = 0;
  signed = true;
  hash_acc_index = 0;
  merge = false;
}

abbrev built : TopupTxData ℕ
built =
    or_else
      (build_top_up_tx builder (λ store. ok 8) (λ tx. ok true) 700_000 lamports false params "owner"
        "sender" "warden" 1)
      no_data

top_up_built :
    build_top_up_tx builder
      (λ store. ok 8)
      (λ tx. ok true)
      700_000
      lamports
      false
      params
      "owner"
      "sender"
      "warden"
      1
    ≡ ok built
unfolding build_top_up_tx need_merge build_merge_tx_data send_total_fee_amount build_topup_tx_data
    topup_params_to_send_params build_send_tx_data build_send_tx send_tx_to_send_tx_data check_send
    generate_send_fee get_send_fee get_send_total_fee get_send_total_fee_inner
    lamport_fee_to_token_fee generate_next_send_commitment build_commitment_for_send from_commitment
    get_token_type_from_number make_metadata sum_balances topup_store_tx build_store_tx
    is_valid_amount get_token_info get_number_from_token_type generate_topup_fee get_store_fee
    get_store_total_fee build_topup_commitment
top_up_built = refl

build_top_up_tx_lem_example :
    (built.merge ≡ (length params.active_commitments == send_arity))
    × ((built.merge && false) ≡ false)
    × (built.last_nonce ≡ params.last_nonce)
    × (built.signed ≡ false)
build_top_up_tx_lem_example =
    build_top_up_tx_lem builder (λ store. ok 8) (λ tx. ok true) 700_000 lamports false params
      "owner" "sender" "warden" 1 built top_up_built
