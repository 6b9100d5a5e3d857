-- ===== src/Instruction/Init.antt =====
-- src/sdk/transactions/instructions/InitVerificationInstructionBase.ts, InitVerificationInstruction.ts
-- and InitVerificationInstructionLegacy.ts, with borshTypes/InitVerificationInstructionBorsh.ts and its
-- legacy kin: the instruction that starts the verification of a send. The code compares roots by
-- identity, so a root is an object: a number for it, and its bytes.
use elusiv_sdk.Base.{ℕ, Bool, String, Option, List}
use elusiv_sdk.Token.{TokenType}
use elusiv_sdk.Transaction.{CommitmentMetadata}
use elusiv_sdk.Serialization.Borsh.{InputCommitmentBorsh, SendPublicInputsBorsh}
use elusiv_sdk.Instruction.{Instruction, account_at}

pub record InitVerificationInstructionBorsh : Type 0 where
  pub instruction_index : ℕ
  pub verification_account_index : ℕ
  pub vkey_id : ℕ
  pub tree_indices : List ℕ
  pub request : SendPublicInputsBorsh
  pub skip_nullifier_pda : Bool

pub record JoinSplitBorshLegacy : Type 0 where
  pub input_commitments : List InputCommitmentBorsh
  pub output_commitment : ℕ
  pub output_commitment_index : ℕ
  pub fee_version : ℕ
  pub amount : ℕ
  pub fee : ℕ
  pub token_id : ℕ

pub record SendPublicInputsBorshLegacy : Type 0 where
  pub proof_type : ℕ
  pub join_split : JoinSplitBorshLegacy
  pub recipient_is_associated_token_account : Bool
  pub solana_pay_transfer : Bool
  pub hashed_inputs : ℕ

pub record InitVerificationInstructionBorshLegacy : Type 0 where
  pub instruction_index : ℕ
  pub verification_account_index : ℕ
  pub vkey_id : ℕ
  pub tree_indices : List ℕ
  pub request : SendPublicInputsBorshLegacy
  pub skip_nullifier_pda : Bool

pub record Root : Type 0 where
  pub object : ℕ
  pub bytes : List ℕ

-- `CommitmentMetadata | { tokenType, assocCommIndex }`.
pub data InitMetadata : Type 0 where
  decrypted : CommitmentMetadata → InitMetadata
  token_and_index : TokenType → ℕ → InitMetadata

pub record OptionalFee : Type 0 where
  pub collector : String
  pub amount : ℕ

-- The fields of the two subclasses.
pub data InitDetails : Type 0 where
  current : OptionalFee → InitMetadata → List ℕ → InitDetails
  legacy : ℕ → TokenType → InitDetails

pub record InitVerificationInstruction : Type 0 where
  pub ver_acc_index : ℕ
  pub v_key_id : ℕ
  pub tree_indices : List ℕ
  pub commitment_count : ℕ
  pub roots : List Root
  pub nullifier_hashes : List (List ℕ)
  pub commitment_hash : List ℕ
  pub fee_version : ℕ
  pub send_amount : ℕ
  pub fee : ℕ
  pub recipient_is_associated_token_account : Bool
  pub hashed_inputs : List ℕ
  pub skip_nullifier_pda : Bool
  pub is_solana_pay_transfer : Bool
  pub details : InitDetails

abbrev pub metadata_token : InitMetadata → TokenType
metadata_token (decrypted m) = m.token_type
metadata_token (token_and_index token_type index) = token_type

abbrev pub metadata_index : InitMetadata → ℕ
metadata_index (decrypted m) = m.assoc_comm_index
metadata_index (token_and_index token_type index) = index

unfoldable pub init_token_type : InitDetails → TokenType
init_token_type (current opt_fee metadata bytes) = metadata_token metadata
init_token_type (legacy comm_index token_id) = token_id

unfoldable pub init_assoc_comm_index : InitDetails → ℕ
init_assoc_comm_index (current opt_fee metadata bytes) = metadata_index metadata
init_assoc_comm_index (legacy comm_index token_id) = comm_index

unfoldable pub init_warden_acc : Instruction → Option String
init_warden_acc ix = account_at ix 0

unfoldable pub init_verification_acc : Instruction → Option String
init_verification_acc ix = account_at ix 1

unfoldable pub init_identifier_acc : Instruction → Option String
init_identifier_acc ix = account_at ix 5
