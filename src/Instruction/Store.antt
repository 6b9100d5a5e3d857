-- ===== src/Instruction/Store.antt =====
-- src/sdk/transactions/instructions/StoreInstructionBase.ts, StoreInstruction.ts and
-- StoreInstructionLegacy.ts, with borshTypes/StoreBaseCommitmentBorsh.ts and
-- borshTypes/legacy/BaseCommitmentHashRequestBorsh.ts: the instruction that stores a commitment.
use elusiv_sdk.Base.{ℕ, Bool, true, false, String, Option, none, some, List, [], ◌∷◌}
use elusiv_sdk.Result.{Result, ok, ◌>>=◌}
use elusiv_sdk.Token.{
  TokenType, lamports, Cluster, token_beq, get_number_from_token_type, get_token_type_from_number,
  get_pyth_price_account,
}
use elusiv_sdk.Transaction.{CommitmentMetadata}
use elusiv_sdk.Instruction.{
  Codec, Rvk, Library, Instruction, AccountMeta, TransactionInstruction, account_at,
  get_elusiv_program_id, deserialize_and_decrypt, store_base_comm_ix_code,
}

pub record BaseCommitmentHashRequestBorsh : Type 0 where
  pub base_commitment : ℕ
  pub commitment_index : ℕ
  pub amount : ℕ
  pub token_id : ℕ
  pub commitment : ℕ
  pub fee_version : ℕ
  pub min_batching_rate : ℕ

pub record StoreBaseCommitmentBorsh : Type 0 where
  pub instruction_index : ℕ
  pub hash_account_index : ℕ
  pub hash_account_bump : ℕ
  pub request : BaseCommitmentHashRequestBorsh
  pub metadata : List ℕ

-- borshTypes/legacy/StoreBaseCommitmentBorshLegacy.ts
pub record StoreBaseCommitmentBorshLegacy : Type 0 where
  pub instruction_index : ℕ
  pub hash_account_index : ℕ
  pub hash_account_bump : ℕ
  pub request : BaseCommitmentHashRequestBorsh

-- The fields of the two subclasses: metadata and its encrypted bytes, or token, amount and index.
pub data StoreDetails : Type 0 where
  current : CommitmentMetadata → List ℕ → StoreDetails
  legacy : TokenType → ℕ → ℕ → StoreDetails

pub record StoreInstruction : Type 0 where
  pub hash_acc_index : ℕ
  pub core_commitment_hash : List ℕ
  pub commitment_hash : List ℕ
  pub fee_version : ℕ
  pub min_batching_rate : ℕ
  pub details : StoreDetails

unfoldable pub store_token_type : StoreDetails → TokenType
store_token_type (current metadata bytes) = metadata.token_type
store_token_type (legacy token_type amount index) = token_type

unfoldable pub store_amount : StoreDetails → ℕ
store_amount (current metadata bytes) = metadata.balance
store_amount (legacy token_type amount index) = amount

unfoldable pub store_assoc_comm_index : StoreDetails → ℕ
store_assoc_comm_index (current metadata bytes) = metadata.assoc_comm_index
store_assoc_comm_index (legacy token_type amount index) = index

unfoldable pub store_sender_acc : Instruction → Option String
store_sender_acc ix = account_at ix 0

unfoldable pub store_identifier_acc : Instruction → Option String
store_identifier_acc ix = account_at ix 16

unfoldable pub store_warden_acc : Instruction → Option String
store_warden_acc ix = account_at ix 2

abbrev meta : String → Bool → Bool → AccountMeta
meta pubkey is_signer is_writable = record {
  pubkey = pubkey;
  is_signer = is_signer;
  is_writable = is_writable;
}

-- The accounts that depend on the token.
pub record TokenAccounts : Type 0 where
  pub sender : String
  pub fee_payer : String
  pub pool : String
  pub fee_collector : String
  pub sol_price : String
  pub token_price : String
  pub program : String

module _ (lib : Library) where
  abbrev pub pda : String → String → String
  pda seed program = (lib.generate_elusiv_pda_from (seed ∷ []) program none).0

  unfoldable pub token_accounts :
      TokenType → Cluster → String → String → String → String → Result TokenAccounts
  unfolding get_pyth_price_account
  token_accounts token_type cluster sender warden pool_acc fee_collector_acc =
      elim (token_beq token_type lamports) [
        | true ↦ ok (record {
          sender = sender;
          fee_payer = warden;
          pool = pool_acc;
          fee_collector = fee_collector_acc;
          sol_price = lib.system_program;
          token_price = lib.system_program;
          program = lib.system_program;
        })
        | false ↦ do
          sol_price ← get_pyth_price_account lamports cluster
          token_price ← get_pyth_price_account token_type cluster
          ok (record {
            sender = lib.get_associated_token_acc sender token_type cluster;
            fee_payer = lib.get_associated_token_acc warden token_type cluster;
            pool = lib.get_associated_token_acc pool_acc token_type cluster;
            fee_collector = lib.get_associated_token_acc fee_collector_acc token_type cluster;
            sol_price = sol_price;
            token_price = token_price;
            program = lib.token_program;
          })
      ]

  -- `getAccounts`.
  unfoldable pub store_accounts :
      StoreDetails → Rvk → ℕ → String → Cluster → String → String → Result (List AccountMeta)
  unfolding get_elusiv_program_id store_token_type token_accounts
  store_accounts details rvk nonce hashing_acc cluster sender warden = do
    program ← get_elusiv_program_id cluster
    let pool_acc = pda "Pool" program
    let fee_collector_acc = pda "FeeCollector" program
    accs ←
        token_accounts (store_token_type details) cluster sender warden pool_acc fee_collector_acc
    ok (
        meta sender true false
        ∷ meta accs.sender false true
        ∷ meta warden true true
        ∷ meta accs.fee_payer false true
        ∷ meta pool_acc false true
        ∷ meta accs.pool false true
        ∷ meta fee_collector_acc false true
        ∷ meta accs.fee_collector false true
        ∷ meta accs.sol_price false false
        ∷ meta accs.token_price false false
        ∷ meta (pda "Governor" program) false false
        ∷ meta (pda "Storage" program) false false
        ∷ meta hashing_acc false true
        ∷ meta (pda "BaseCommitmentBuffer" program) false true
        ∷ meta accs.program false false
        ∷ meta lib.system_program false false
        ∷ meta (rvk.get_identifier_key nonce) false false
        ∷ [])

  abbrev pub store_request : StoreInstruction → ℕ → BaseCommitmentHashRequestBorsh
  store_request ix token = record {
    base_commitment = lib.deserialize_uint256_le ix.core_commitment_hash;
    commitment_index = store_assoc_comm_index ix.details;
    amount = store_amount ix.details;
    token_id = token;
    commitment = lib.deserialize_uint256_le ix.commitment_hash;
    fee_version = ix.fee_version;
    min_batching_rate = ix.min_batching_rate;
  }

  module _ (codec : Codec StoreBaseCommitmentBorsh)
      (legacy_codec : Codec StoreBaseCommitmentBorshLegacy) where
    -- The payload of `compileInstruction`, of either class.
    abbrev pub store_payload : StoreInstruction → ℕ → ℕ → List ℕ
    store_payload ix token bump = elim ix.details [
      | current metadata serialized_metadata ↦ codec.serialize (record {
        instruction_index = store_base_comm_ix_code;
        hash_account_index = ix.hash_acc_index;
        hash_account_bump = bump;
        request = store_request ix token;
        metadata = serialized_metadata;
      })
      | legacy token_type amount index ↦ legacy_codec.serialize (record {
        instruction_index = store_base_comm_ix_code;
        hash_account_index = ix.hash_acc_index;
        hash_account_bump = bump;
        request = store_request ix token;
      })
    ]

    unfoldable pub compile_store :
        StoreInstruction → Rvk → Cluster → ℕ → String → String → Result TransactionInstruction
    unfolding get_number_from_token_type store_token_type get_elusiv_program_id store_accounts
    compile_store ix rvk cluster nonce sender warden = do
      token ← get_number_from_token_type (store_token_type ix.details)
      program ← get_elusiv_program_id cluster
      let hashing =
          lib.generate_elusiv_pda_from ("BaseCommitmentHashing" ∷ []) program
            (some ix.hash_acc_index)
      keys ← store_accounts ix.details rvk nonce hashing.0 cluster sender warden
      ok (record { keys = keys; program_id = program; ix_data = store_payload ix token hashing.1 })

    -- `StoreInstruction.parseInstruction`; `null` is `none`.
    unfoldable pub parse_store : Rvk → Instruction → Result (Option StoreInstruction)
    unfolding deserialize_and_decrypt
    parse_store rvk ix = elim (codec.deserialize ix.ix_data) [
      | none ↦ ok none
      | some parsed ↦ do
        metadata ←
            deserialize_and_decrypt lib parsed.metadata rvk
              (lib.serialize_uint256_le parsed.request.commitment)
        ok (
            some (record {
              hash_acc_index = parsed.hash_account_index;
              core_commitment_hash = lib.serialize_uint256_le parsed.request.base_commitment;
              commitment_hash = lib.serialize_uint256_le parsed.request.commitment;
              fee_version = parsed.request.fee_version;
              min_batching_rate = parsed.request.min_batching_rate;
              details = current metadata parsed.metadata;
            }))
    ]

    unfoldable pub parse_store_legacy : Instruction → Result (Option StoreInstruction)
    unfolding get_token_type_from_number
    parse_store_legacy ix = elim (legacy_codec.deserialize ix.ix_data) [
      | none ↦ ok none
      | some parsed ↦ do
        token_type ← get_token_type_from_number parsed.request.token_id
        ok (
            some (record {
              hash_acc_index = parsed.hash_account_index;
              core_commitment_hash = lib.serialize_uint256_le parsed.request.base_commitment;
              commitment_hash = lib.serialize_uint256_le parsed.request.commitment;
              fee_version = parsed.request.fee_version;
              min_batching_rate = parsed.request.min_batching_rate;
              details = legacy token_type parsed.request.amount parsed.request.commitment_index;
            }))
    ]
