-- ===== src/Building/Remote.antt =====
-- src/sdk/transactions/txBuilding/RemoteParamFetching.ts: the parameters that a topup and a send are built
-- with. What the managers and the network answer are the fields of `Remote`, one for each request; of
-- several requests that fail the first one in the list is reported.
use elusiv_sdk.Base.{ℕ, ◌≡◌, refl, ap, ◌∙◌, Bool, String, Option, none, some, List, if◌then◌else◌}
use elusiv_sdk.Base.Int.{ℤ, pos, minus_one}
use elusiv_sdk.Result.{Result, ok, err, not_confirmed, >>=-eq-ok, ok-injective, ◌>>=◌}
use elusiv_sdk.Transaction.{ElusivTransaction}
use elusiv_sdk.Fee.{FeeCalculator}
use elusiv_sdk.Building.{
  Pricing, FeeVersionData, TopupRemoteParams, SendRemoteParams, topup_params_to_send_params,
}

pub record Remote (C : Type 0) : Type 0 where
  pub get_fee_calculator : Result (FeeCalculator × FeeVersionData)
  pub get_active_commitments : Result (List C)
  pub get_most_recent_tx : Result (Option ElusivTransaction)
  pub is_transaction_confirmed : ElusivTransaction → Result Bool
  pub get_latest_leaf_index : Result ℕ
  pub get_lamports_per_token : Result Pricing
  pub get_latest_blockhash : Result String
  pub get_minimum_balance : Result ℕ

pub record BaseSendRemoteParams : Type 0 where
  pub fee_calculator : FeeCalculator
  pub merkle_start_index : ℕ
  pub price : Pricing
  pub token_acc_rent : ℕ
  pub fee_version : ℕ

module _ {C : Type 0} (remote : Remote C) where
  abbrev pub nonce_of : Option ElusivTransaction → Result ℤ
  nonce_of none = ok minus_one
  nonce_of (some tx) = do
    confirmed ← remote.is_transaction_confirmed tx
    if confirmed then ok (pos tx.nonce) else err not_confirmed

  unfoldable pub get_most_recent_nonce : Result ℤ
  get_most_recent_nonce = remote.get_most_recent_tx >>= nonce_of

  unfoldable pub fetch_topup_remote_params : Result (TopupRemoteParams C)
  unfolding get_most_recent_nonce
  fetch_topup_remote_params = do
    fees ← remote.get_fee_calculator
    active ← remote.get_active_commitments
    last_nonce ← get_most_recent_nonce
    start ← remote.get_latest_leaf_index
    price ← remote.get_lamports_per_token
    chain_state ← remote.get_latest_blockhash
    rent ← remote.get_minimum_balance
    ok (record {
      fee_calculator = fees.0;
      merkle_start_index = start;
      price = price;
      token_acc_rent = rent;
      fee_version_data = fees.1;
      active_commitments = active;
      last_nonce = last_nonce;
    })

  unfoldable pub fetch_base_send_remote_params : Result BaseSendRemoteParams
  fetch_base_send_remote_params = do
    start ← remote.get_latest_leaf_index
    fees ← remote.get_fee_calculator
    price ← remote.get_lamports_per_token
    rent ← remote.get_minimum_balance
    ok (record {
      fee_calculator = fees.0;
      merkle_start_index = start;
      price = price;
      token_acc_rent = rent;
      fee_version = fees.1.fee_version;
    })

  unfoldable pub fetch_send_remote_params : Result (SendRemoteParams C)
  unfolding get_most_recent_nonce fetch_base_send_remote_params
  fetch_send_remote_params = do
    active ← remote.get_active_commitments
    last_nonce ← get_most_recent_nonce
    base ← fetch_base_send_remote_params
    ok (record {
      fee_calculator = base.fee_calculator;
      merkle_start_index = base.merkle_start_index;
      price = base.price;
      token_acc_rent = base.token_acc_rent;
      fee_version = base.fee_version;
      active_commitments = active;
      last_nonce = last_nonce;
    })

  sent_with :
      (fees : FeeCalculator × FeeVersionData) (active : List C) (last_nonce : ℤ) (start rent : ℕ)
      (price : Pricing)
      → remote.get_fee_calculator ≡ ok fees
      → remote.get_active_commitments ≡ ok active
      → get_most_recent_nonce ≡ ok last_nonce
      → remote.get_latest_leaf_index ≡ ok start
      → remote.get_lamports_per_token ≡ ok price
      → remote.get_minimum_balance ≡ ok rent
      → fetch_send_remote_params
        ≡ ok (
            topup_params_to_send_params (record {
              fee_calculator = fees.0;
              merkle_start_index = start;
              price = price;
              token_acc_rent = rent;
              fee_version_data = fees.1;
              active_commitments = active;
              last_nonce = last_nonce;
            }))
  sent_with fees active last_nonce start rent price e1 e2 e3 e4 e5 e7 =
      let base : fetch_base_send_remote_params
          ≡ ok (record {
            fee_calculator = fees.0;
            merkle_start_index = start;
            price = price;
            token_acc_rent = rent;
            fee_version = fees.1.fee_version;
          }) =
        unfold fetch_base_send_remote_params in rw (e4, e1, e5, e7) refl in
      unfold fetch_send_remote_params topup_params_to_send_params in simp (e2, e3, base) refl

  -- What a merge is built with from the parameters of its topup is what a send at the same time would
  -- fetch.
  pub fetch_send_remote_params-fetch_topup_remote_params :
      (params : TopupRemoteParams C)
      → fetch_topup_remote_params ≡ ok params
      → fetch_send_remote_params ≡ ok (topup_params_to_send_params params)
  fetch_send_remote_params-fetch_topup_remote_params params done =
      unfold fetch_topup_remote_params in
      let (fees, e1, f1) = >>=-eq-ok remote.get_fee_calculator _ done in
      let (active, e2, f2) = >>=-eq-ok remote.get_active_commitments _ f1 in
      let (last_nonce, e3, f3) = >>=-eq-ok get_most_recent_nonce _ f2 in
      let (start, e4, f4) = >>=-eq-ok remote.get_latest_leaf_index _ f3 in
      let (price, e5, f5) = >>=-eq-ok remote.get_lamports_per_token _ f4 in
      let (state, e6, f6) = >>=-eq-ok remote.get_latest_blockhash _ f5 in
      let (rent, e7, f7) = >>=-eq-ok remote.get_minimum_balance _ f6 in
      sent_with fees active last_nonce start rent price e1 e2 e3 e4 e5 e7
      ∙ ap (λ p. ok (topup_params_to_send_params p)) (ok-injective f7)
