-- ===== src/Building/Send.antt =====
-- TransactionBuilding.ts: building a send or a merge. `recipient.exists` is read before `recipient` is
-- compared with `undefined`, so the branches for a missing recipient are never taken and are left out.
use elusiv_sdk.Base.{
  ℕ, ◌+◌, Bool, true, false, not, ◌&&◌, ◌||◌, String, Option, none, some, List, length,
  if◌then◌else◌, ltb, ◌==◌,
}
use elusiv_sdk.Base.Int.{ℤ, pos, ◌+ℤ◌, ◌-ℤ◌}
use elusiv_sdk.Base.Eq.{beq, string_eq}
use elusiv_sdk.Result.{
  Result, ok, err, too_small_size, too_large_size, invalid_token_amount, invalid_tx_data, ◌>>=◌,
}
use elusiv_sdk.Token.{TokenType, lamports, token_beq, get_number_from_token_type}
use elusiv_sdk.Commitments.{build_commitment_for_send}
use elusiv_sdk.Fee.{Fee, FeeCalculator}
use elusiv_sdk.Fee.Amounts.{get_computation_fee_total, get_total_fee_amount}
use elusiv_sdk.Fee.Send.{get_send_fee}
use elusiv_sdk.Instruction.{EncryptedValue}
use elusiv_sdk.Building.{
  Pricing, OptionalFee, TokenAcc, ProofRequest, Builder, SendRemoteParams, lamport_fee_to_token_fee,
  is_greater_than_min_amount, sum_balances, from_commitment,
}

-- The arguments that a send can go without.
pub record SendOptions : Type 0 where
  pub ref_key : Option String
  pub memo : Option String
  pub extra_fee : OptionalFee
  pub is_solana_pay_transfer : Bool
  pub is_merge : Bool

-- `inputCommitments` is the list of `commitmentArrToSet`: the active commitments come from a set, so no two
-- have one hash, and they come back from the set as they are.
pub record SendTx (C P : Type 0) : Type 0 where
  pub nonce : ℤ
  pub token_type : TokenType
  pub commitment : C
  pub fee : ℤ
  pub encrypted_owner : EncryptedValue
  pub amount : ℕ
  pub merkle_start_index : ℕ
  pub commitment_hash : List ℕ
  pub recipient : String
  pub is_associated_token_acc : Bool
  pub options : SendOptions
  pub input_commitments : Option (List C)
  pub proof : Option P
  pub identifier : String
  pub warden : String

-- src/public/txData/SendTxData.ts and SharedTxData.ts
pub record SendTxData (P : Type 0) : Type 0 where
  pub fee : Fee
  pub token_type : TokenType
  pub last_nonce : ℤ
  pub commitment_hash : List ℕ
  pub merkle_start_index : ℕ
  pub proof : P
  pub is_solana_pay_transfer : Bool
  pub extra_fee : OptionalFee

unfoldable pub send_total_fee_amount : {P : Type 0} → SendTxData P → ℤ
unfolding get_total_fee_amount
send_total_fee_amount tx_data = get_total_fee_amount tx_data.fee

-- `!recipient.exists && tokenType !== 'LAMPORTS'`
unfoldable pub pays_rent : TokenAcc → TokenType → Bool
pays_rent recipient token_type = not recipient.exists && not (token_beq token_type lamports)

-- The amount of the send, with the rent of an account and the extra fee.
unfoldable pub real_amount : TokenAcc → TokenType → ℕ → ℕ → ℕ → ℕ
real_amount recipient token_type amount rent extra =
    (if recipient.exists || token_beq token_type lamports then amount else amount + rent) + extra

module _ {C I P : Type 0} (lib : Builder C I P) where
  -- An empty text is no memo.
  abbrev pub memo_bytes : Option String → Option (List ℕ)
  memo_bytes none = none
  memo_bytes (some memo) = if beq memo "" then none else some (lib.utf8_bytes memo)

  abbrev pub memo_length : Option (List ℕ) → ℕ
  memo_length none = 0
  memo_length (some bytes) = length bytes

  abbrev pub key_or_zero : Option String → ℕ
  key_or_zero none = 0
  key_or_zero (some key) = lib.pub_key_to_big_int key

  unfoldable pub generate_next_send_commitment : List C → ℤ → ℤ → ℕ → TokenType → ℕ → Result C
  unfolding build_commitment_for_send sum_balances
  generate_next_send_commitment comms nonce total_fee amount_sent token_type recent_comm_index =
      build_commitment_for_send lib.commitments (lib.generate_nullifier nonce) token_type
        (sum_balances lib comms) amount_sent total_fee recent_comm_index

  unfoldable pub generate_send_fee :
      I → TokenType → ℕ → ℕ → FeeCalculator → ℕ → Pricing → Bool → Result Fee
  unfolding get_send_fee lamport_fee_to_token_fee
  generate_send_fee inputs token_type amount recent_comm_index calculator rent price exists = do
    let fee_inputs = lib.fee_inputs inputs
    lamport_fee ←
        get_send_fee lib.serialize_uint256_le calculator fee_inputs amount recent_comm_index rent
          exists
    lamport_fee_to_token_fee price lamport_fee token_type fee_inputs.optional_fee_amount

  -- The tests before anything is built.
  unfoldable pub check_send : ℕ → SendRemoteParams C → TokenType → SendOptions → Result Bool
  unfolding is_greater_than_min_amount
  check_send amount params token_type options =
      if length params.active_commitments == 0
      then err too_small_size
      else if ltb 128 (memo_length (memo_bytes options.memo))
      then err too_large_size
      else if options.is_merge
      then ok true
      else (do
        enough ←
            is_greater_than_min_amount amount token_type
              (params.price.lamports_to_token params.token_acc_rent).floor
        if enough then ok true else err invalid_token_amount)

  -- The proof's inputs, which do not know the amount yet.
  unfoldable pub proof_request :
      SendRemoteParams C → TokenType → ℕ → TokenAcc → String → SendOptions → ProofRequest C
  unfolding pays_rent
  proof_request params token_type token recipient owner options =
      let nonce = params.last_nonce +ℤ pos 1 in
      let encrypted = lib.encrypt_owner owner nonce in
      let associated = pays_rent recipient token_type in
      record {
        commitments = params.active_commitments;
        recipient = lib.pub_key_to_big_int (if associated then recipient.owner else recipient.ta);
        identifier = lib.pub_key_to_big_int (lib.get_identifier_key nonce);
        iv = lib.bytes_to_big_int_le encrypted.iv;
        encrypted_owner = lib.bytes_to_big_int_le encrypted.cipher_text;
        is_associated_token_acc = associated;
        fee_version = params.fee_version;
        token_id = token;
        solana_pay_id = key_or_zero options.ref_key;
        fee_collector = lib.pub_key_to_big_int options.extra_fee.collector;
        fee_amount = options.extra_fee.amount;
        memo = memo_bytes options.memo;
      }

  unfoldable pub build_send_tx :
      ℕ
      → SendRemoteParams C
      → TokenType
      → TokenAcc
      → String
      → String
      → SendOptions
      → Result (SendTx C P × Fee)
  unfolding check_send get_number_from_token_type proof_request pays_rent real_amount
      generate_send_fee generate_next_send_commitment get_computation_fee_total get_total_fee_amount
      from_commitment ◌+ℤ◌
  build_send_tx amount params token_type recipient owner warden options = do
    checked ← check_send amount params token_type options
    let nonce = params.last_nonce +ℤ pos 1
    token ← get_number_from_token_type token_type
    let inputs =
        lib.generate_proof_inputs (proof_request params token_type token recipient owner options)
    let sent =
        real_amount recipient token_type amount
          (params.price.lamports_to_token params.token_acc_rent).ceil options.extra_fee.amount
    fee ←
        generate_send_fee inputs token_type sent params.merkle_start_index params.fee_calculator
          params.token_acc_rent params.price (not (pays_rent recipient token_type))
    next ←
        generate_next_send_commitment params.active_commitments nonce
          (get_computation_fee_total fee) sent token_type params.merkle_start_index
    metadata ← from_commitment lib nonce next
    encrypted_metadata ← lib.encrypt_metadata metadata (lib.commitments.hash next)
    proof ← lib.generate_proof inputs next (lib.bytes_to_big_int_le encrypted_metadata)
    ok (
      record {
        nonce = nonce;
        token_type = token_type;
        commitment = next;
        fee = get_total_fee_amount fee;
        encrypted_owner = lib.encrypt_owner owner nonce;
        amount = sent;
        merkle_start_index = params.merkle_start_index;
        commitment_hash = lib.commitments.hash next;
        recipient = if pays_rent recipient token_type then recipient.owner else recipient.ta;
        is_associated_token_acc = pays_rent recipient token_type;
        options = options;
        input_commitments = some params.active_commitments;
        proof = some proof;
        identifier = lib.get_identifier_key nonce;
        warden = warden;
      },
      fee,
    )

  abbrev pub with_proof : {A : Type 0} → Option P → Option (List C) → (P → A) → Result A
  with_proof (some proof) (some comms) make = ok (make proof)
  with_proof _ _ make = err invalid_tx_data

  unfoldable pub send_tx_to_send_tx_data : SendTx C P → Fee → ℕ → Result (SendTxData P)
  unfolding ◌-ℤ◌
  send_tx_to_send_tx_data tx fee merkle_start_index =
      with_proof tx.proof tx.input_commitments (λ proof. record {
        fee = fee;
        token_type = tx.token_type;
        last_nonce = tx.nonce -ℤ pos 1;
        commitment_hash = lib.commitments.hash tx.commitment;
        merkle_start_index = merkle_start_index;
        proof = proof;
        is_solana_pay_transfer = tx.options.is_solana_pay_transfer;
        extra_fee = tx.options.extra_fee;
      })

  unfoldable pub build_send_tx_data :
      ℕ
      → TokenType
      → TokenAcc
      → String
      → SendRemoteParams C
      → String
      → SendOptions
      → Result (SendTxData P)
  unfolding build_send_tx send_tx_to_send_tx_data
  build_send_tx_data amount token_type recipient owner params warden options = do
    (tx, fee) ← build_send_tx amount params token_type recipient owner warden options
    send_tx_to_send_tx_data tx fee params.merkle_start_index

  -- The default of `isSolanaPayTransfer` is whether there is a reference key.
  abbrev pub is_set : Option String → Bool
  is_set none = false
  is_set (some key) = true

  abbrev pub merge_recipient : TokenAcc
  merge_recipient = record { owner = lib.system_program; ta = lib.system_program; exists = true }

  abbrev pub merge_options : Option String → SendOptions
  merge_options ref_key = record {
    ref_key = ref_key;
    memo = none;
    extra_fee = record { amount = 0; collector = lib.system_program };
    is_solana_pay_transfer = is_set ref_key;
    is_merge = true;
  }

  unfoldable pub build_merge_tx_data :
      TokenType → String → SendRemoteParams C → String → Option String → Result (SendTxData P)
  unfolding build_send_tx_data
  build_merge_tx_data token_type owner params warden ref_key =
      build_send_tx_data 0 token_type merge_recipient owner params warden (merge_options ref_key)
