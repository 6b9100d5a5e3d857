-- ===== src/Building.antt =====
-- src/sdk/transactions/txBuilding/TransactionBuilding.ts: building topups, sends and merges, with the
-- types of RemoteParamFetching.ts, public/txData and public/Fee.ts, and paramManagers/fee/FeeUtils.ts. A
-- nonce and a balance are integers, since the last nonce can be -1. The library calls (elusiv-circuits,
-- @elusiv/cryptojs, the seed's keys) are a record. A token's price is a floating point number, so what
-- the code computes from it is a parameter: the rounded amounts of `Pricing`.
pub mod Topup
pub mod Send
pub mod Balance
pub mod TopupLaws
pub mod Merge
pub mod Remote
pub mod Tests
use elusiv_sdk.Base.{
  ℕ, ◌≡◌, Bool, true, false, not, ◌&&◌, String, Option, none, some, List, [], ◌∷◌, map,
  if◌then◌else◌, ltb,
}
use elusiv_sdk.Base.Int.{ℤ, pos, negsuc, ◌+ℤ◌}
use elusiv_sdk.Result.{Result, ok, err, invalid_token_type, invalid_nonce, invalid_amount, ◌>>=◌}
use elusiv_sdk.Token.{TokenType, lamports, token_beq, get_token_info, get_token_type_from_number}
use elusiv_sdk.Transaction.{CommitmentMetadata}
use elusiv_sdk.Metadata.{Serialization, make_metadata}
use elusiv_sdk.Commitments.{Commitments}
use elusiv_sdk.Fee.{Fee, FeeCalculator}
use elusiv_sdk.Fee.Send.{ProofInputs}
use elusiv_sdk.Instruction.{Rvk, EncryptedValue}

-- `lamportsToToken` of an amount, rounded down and up.
pub record Rounded : Type 0 where
  pub floor : ℕ
  pub ceil : ℕ

-- The price of a token: the rate, `lamportsToToken` and `Math.ceil(lamportsToToken(x) * multiplier)`
-- with the multiplier 1.02 if the Boolean is true, and 1 otherwise.
pub record Pricing : Type 0 where
  pub lamports_per_token : Option ℕ
  pub lamports_to_token : ℕ → Rounded
  pub buffered : Bool → ℤ → ℤ

-- src/sdk/paramManagers/fee/FeeUtils.ts
unfoldable pub lamport_fee_to_token_fee : Pricing → Fee → TokenType → ℕ → Result Fee
lamport_fee_to_token_fee price lamport_fee token_type extra_fee_in_token =
    let add_buffer = not (token_beq token_type lamports) in
    if not (token_beq lamport_fee.token_type lamports)
    then err invalid_token_type
    else ok (record {
      token_type = token_type;
      tx_fee = price.buffered add_buffer lamport_fee.tx_fee;
      privacy_fee = price.buffered add_buffer lamport_fee.privacy_fee;
      token_acc_rent = price.buffered add_buffer lamport_fee.token_acc_rent;
      extra_fee = pos extra_fee_in_token;
      lamports_per_token = price.lamports_per_token;
    })

pub record OptionalFee : Type 0 where
  pub amount : ℕ
  pub collector : String

pub record TokenAcc : Type 0 where
  pub owner : String
  pub ta : String
  pub exists : Bool

-- The arguments of `generateSendQuadraProofInputsNoAmountNoNextCommitment`.
pub record ProofRequest (C : Type 0) : Type 0 where
  pub commitments : List C
  pub recipient : ℕ
  pub identifier : ℕ
  pub iv : ℕ
  pub encrypted_owner : ℕ
  pub is_associated_token_acc : Bool
  pub fee_version : ℕ
  pub token_id : ℕ
  pub solana_pay_id : ℕ
  pub fee_collector : ℕ
  pub fee_amount : ℕ
  pub memo : Option (List ℕ)

-- What the builder calls, over the libraries' commitments, proof inputs and proofs.
pub record Builder (C I P : Type 0) : Type 0 where
  pub commitments : Commitments C
  pub get_balance : C → ℤ
  pub get_token_id : C → ℕ
  pub get_assoc_comm_index : C → ℕ
  pub generate_nullifier : ℤ → List ℕ
  pub get_identifier_key : ℤ → String
  pub encrypt_owner : String → ℤ → EncryptedValue
  pub encrypt_metadata : CommitmentMetadata → List ℕ → Result (List ℕ)
  pub pub_key_to_big_int : String → ℕ
  pub bytes_to_big_int_le : List ℕ → ℕ
  pub utf8_bytes : String → List ℕ
  pub serialize_uint256_le : ℕ → List ℕ
  pub system_program : String
  pub generate_proof_inputs : ProofRequest C → I
  pub fee_inputs : I → ProofInputs
  pub generate_proof : I → C → ℕ → Result P

-- What a commitment and the inputs of a proof keep of their parts.
pub record IsBuilder {C I P : Type 0} (lib : Builder C I P) : Type 0 where
  pub keeps_balance :
      (nullifier : List ℕ) (balance : ℤ) (token index : ℕ)
      → lib.get_balance (lib.commitments.incomplete nullifier balance token index) ≡ balance
  pub keeps_fee :
      (r : ProofRequest C)
      → (lib.fee_inputs (lib.generate_proof_inputs r)).optional_fee_amount ≡ r.fee_amount

pub record SendRemoteParams (C : Type 0) : Type 0 where
  pub fee_calculator : FeeCalculator
  pub merkle_start_index : ℕ
  pub price : Pricing
  pub token_acc_rent : ℕ
  pub fee_version : ℕ
  pub active_commitments : List C
  pub last_nonce : ℤ

pub record FeeVersionData : Type 0 where
  pub fee_version : ℕ
  pub min_batching_rate : ℕ

pub record TopupRemoteParams (C : Type 0) : Type 0 where
  pub fee_calculator : FeeCalculator
  pub merkle_start_index : ℕ
  pub price : Pricing
  pub token_acc_rent : ℕ
  pub fee_version_data : FeeVersionData
  pub active_commitments : List C
  pub last_nonce : ℤ

unfoldable pub topup_params_to_send_params : {C : Type 0} → TopupRemoteParams C → SendRemoteParams C
topup_params_to_send_params tr = record {
  fee_calculator = tr.fee_calculator;
  merkle_start_index = tr.merkle_start_index;
  price = tr.price;
  token_acc_rent = tr.token_acc_rent;
  fee_version = tr.fee_version_data.fee_version;
  active_commitments = tr.active_commitments;
  last_nonce = tr.last_nonce;
}

-- `amount > accountRentFee && amount > tokenInfo.min`, with the rent rounded down.
unfoldable pub is_greater_than_min_amount : ℕ → TokenType → ℕ → Result Bool
unfolding get_token_info
is_greater_than_min_amount amount token_type account_rent_fee = do
  token_info ← get_token_info token_type
  ok (ltb account_rent_fee amount && ltb token_info.min_amount amount)

unfoldable pub is_valid_amount : ℕ → TokenType → ℕ → Result Bool
unfolding get_token_info
is_valid_amount amount token_type account_rent_fee = do
  token_info ← get_token_info token_type
  ok (
      ltb account_rent_fee amount
      && (ltb token_info.min_amount amount && ltb amount token_info.max_amount))

module _ {C I P : Type 0} (lib : Builder C I P) where
  -- `sumBigInt` of the balances.
  unfoldable pub sum_balances : List C → ℤ
  unfolding ◌+ℤ◌
  sum_balances [] = pos 0
  sum_balances (c ∷ comms) = lib.get_balance c +ℤ sum_balances comms

  abbrev pub metadata_of : ℤ → TokenType → ℕ → ℤ → Result CommitmentMetadata
  metadata_of (negsuc n) token_type index balance = err invalid_nonce
  metadata_of (pos nonce) token_type index (negsuc b) = err invalid_amount
  metadata_of (pos nonce) token_type index (pos b) = make_metadata nonce token_type index b

  -- src/sdk/clientCrypto/CommitmentMetadata.ts
  unfoldable pub from_commitment : ℤ → C → Result CommitmentMetadata
  unfolding get_token_type_from_number make_metadata
  from_commitment nonce comm = do
    token_type ← get_token_type_from_number (lib.get_token_id comm)
    metadata_of nonce token_type (lib.get_assoc_comm_index comm) (lib.get_balance comm)
