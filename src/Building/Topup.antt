-- ===== src/Building/Topup.antt =====
-- TransactionBuilding.ts: building a topup, with public/txData/TopupTxData.ts. The random index of the
-- hashing account is an argument, and the instructions of the raw transaction (InstructionBuilding.ts)
-- are a parameter.
use elusiv_sdk.Base.{
  ℕ, Bool, true, false, not, ◌&&◌, String, Option, none, some, List, length, if◌then◌else◌, ◌==◌,
}
use elusiv_sdk.Base.Int.{ℤ, pos, ◌+ℤ◌, ◌-ℤ◌}
use elusiv_sdk.Result.{Result, ok, err, merge_needed, invalid_token_amount, invalid_tx_data, ◌>>=◌}
use elusiv_sdk.Constants.{send_arity}
use elusiv_sdk.Token.{TokenType, get_number_from_token_type}
use elusiv_sdk.Fee.{Fee, FeeCalculator, get_store_fee}
use elusiv_sdk.Fee.Amounts.{get_total_fee_amount}
use elusiv_sdk.Building.{
  Pricing, Builder, TopupRemoteParams, lamport_fee_to_token_fee, is_valid_amount, sum_balances,
}

pub record StoreTx (C : Type 0) : Type 0 where
  pub nonce : ℤ
  pub amount : ℕ
  pub commitment : C
  pub sender : String
  pub token_type : TokenType
  pub parsed_private_balance : ℤ
  pub merkle_start_index : ℕ
  pub commitment_hash : List ℕ
  pub is_recipient : Bool
  pub hash_acc_index : ℕ
  pub identifier : String
  pub warden : String
  pub fee : ℤ

pub record TopupTxData (R : Type 0) : Type 0 where
  pub fee : Fee
  pub token_type : TokenType
  pub last_nonce : ℤ
  pub commitment_hash : List ℕ
  pub merkle_start_index : ℕ
  pub tx : R
  pub signed : Bool
  pub hash_acc_index : ℕ
  pub merge : Bool

-- `setSignedTx`: the test is on the transaction that was built, not on the argument.
unfoldable pub set_signed_tx :
    {R : Type 0} → (R → Bool) → R → TopupTxData R → Result (TopupTxData R)
set_signed_tx verify_signatures tx tx_data =
    if not (verify_signatures tx_data.tx)
    then err invalid_tx_data
    else ok (record tx_data { tx = tx; signed = true })

abbrev pub is_defined : Option ℤ → Bool
is_defined none = false
is_defined (some fee) = true

abbrev pub fee_or_zero : Option ℤ → ℤ
fee_or_zero none = pos 0
fee_or_zero (some fee) = fee

-- The nonce before that of the topup: that of the merge, if there was one.
unfoldable pub prev_nonce : ℤ → Option ℤ → ℤ
unfolding ◌+ℤ◌
prev_nonce last_nonce merge_fee = if is_defined merge_fee then last_nonce +ℤ pos 1 else last_nonce

module _ {C I P : Type 0} (lib : Builder C I P) where
  unfoldable pub generate_topup_fee : FeeCalculator → TokenType → ℕ → Pricing → Result Fee
  unfolding get_store_fee lamport_fee_to_token_fee
  generate_topup_fee calculator token_type amount price = do
    lamport_fee ← get_store_fee calculator amount
    lamport_fee_to_token_fee price lamport_fee token_type 0

  unfoldable pub build_topup_commitment : ℤ → ℕ → TokenType → ℕ → Result C
  unfolding get_number_from_token_type
  build_topup_commitment nonce amount token_type recent_comm_index = do
    token ← get_number_from_token_type token_type
    ok (
        lib.commitments.incomplete (lib.generate_nullifier nonce) (pos amount) token
          recent_comm_index)

  unfoldable pub build_store_tx :
      ℕ
      → ℤ
      → TopupRemoteParams C
      → TokenType
      → String
      → ℤ
      → Bool
      → ℕ
      → String
      → Result (StoreTx C × Fee)
  unfolding is_valid_amount generate_topup_fee build_topup_commitment get_total_fee_amount ◌+ℤ◌
  build_store_tx amount last_nonce params token_type sender private_balance is_recipient
        hash_acc_index warden =
      do
        valid ←
            is_valid_amount amount token_type
              (params.price.lamports_to_token params.token_acc_rent).floor
        passed ← if valid then ok true else err invalid_token_amount
        let nonce = last_nonce +ℤ pos 1
        store_fee ← generate_topup_fee params.fee_calculator token_type amount params.price
        commitment ← build_topup_commitment nonce amount token_type params.merkle_start_index
        ok (
          record {
            nonce = nonce;
            amount = amount;
            commitment = commitment;
            sender = sender;
            token_type = token_type;
            parsed_private_balance = private_balance;
            merkle_start_index = params.merkle_start_index;
            commitment_hash = lib.commitments.hash commitment;
            is_recipient = is_recipient;
            hash_acc_index = hash_acc_index;
            identifier = lib.get_identifier_key nonce;
            warden = warden;
            fee = get_total_fee_amount store_fee;
          },
          store_fee,
        )

  -- The balance after the topup: what is active and the amount, less the fee of a merge.
  unfoldable pub private_balance : List C → ℕ → Option ℤ → ℤ
  unfolding sum_balances ◌+ℤ◌ ◌-ℤ◌
  private_balance active amount merge_fee =
      sum_balances lib active +ℤ pos amount -ℤ fee_or_zero merge_fee

  -- The store transaction of `buildTopUpTxData`.
  unfoldable pub topup_store_tx :
      ℕ
      → TokenType
      → String
      → Bool
      → TopupRemoteParams C
      → String
      → Option ℤ
      → ℕ
      → Result (StoreTx C × Fee)
  unfolding prev_nonce private_balance build_store_tx
  topup_store_tx amount token_type owner is_recipient params warden merge_fee hash_acc_index =
      if (length params.active_commitments == send_arity) && not (is_defined merge_fee)
      then err merge_needed
      else build_store_tx amount (prev_nonce params.last_nonce merge_fee) params token_type owner
          (private_balance params.active_commitments amount merge_fee) is_recipient hash_acc_index
          warden

  module _ {R : Type 0} (build_raw_topup_transaction : StoreTx C → Result R) where
    unfoldable pub build_topup_tx_data :
        ℕ
        → TokenType
        → String
        → Bool
        → TopupRemoteParams C
        → String
        → Option ℤ
        → ℕ
        → Result (TopupTxData R)
    unfolding topup_store_tx
    build_topup_tx_data amount token_type owner is_recipient params warden merge_fee
          hash_acc_index =
        do
          (store, fee) ←
              topup_store_tx amount token_type owner is_recipient params warden merge_fee
                hash_acc_index
          raw_tx ← build_raw_topup_transaction store
          ok (record {
            fee = fee;
            token_type = token_type;
            last_nonce = params.last_nonce;
            commitment_hash = lib.commitments.hash store.commitment;
            merkle_start_index = params.merkle_start_index;
            tx = raw_tx;
            signed = false;
            hash_acc_index = hash_acc_index;
            merge = is_defined merge_fee;
          })
