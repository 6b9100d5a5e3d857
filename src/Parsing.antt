-- ===== src/Parsing.antt =====
-- src/sdk/transactions/txParsing: from the chain's messages to the SDK's transactions. This file is
-- InstructionParsing.ts: which instructions are whose, and how they are parsed. `getElusivProgramId` is
-- looked up before: the program's id is a parameter. The text of a transferred amount is its number.
pub mod Parts
pub mod Find
pub mod Raw
pub mod Response
pub mod History
pub mod Marks
pub mod Pairing
pub mod Converter
pub mod Tests
use elusiv_sdk.Base.{
  ℕ, suc, Bool, true, false, not, ◌&&◌, ◌||◌, String, Option, none, some, List, [], ◌∷◌, length,
  take, drop, if◌then◌else◌, ◌==◌,
}
use elusiv_sdk.Base.Eq.{beq, string_eq}
use elusiv_sdk.Result.{
  Result, ok, err, failed_to_parse, failed_to_find_transfer, invalid_size, ◌>>=◌,
}
use elusiv_sdk.Token.{TokenType, lamports, token_beq}
use elusiv_sdk.Instruction.{
  Codec, Rvk, Library, Instruction, store_base_comm_ix_code, compute_comm_hash_ix_code,
  init_verification_ix_code, finalize_verification_ix_code,
}
use elusiv_sdk.Instruction.Store.{
  StoreBaseCommitmentBorsh, StoreBaseCommitmentBorshLegacy, StoreInstruction, store_sender_acc,
  store_identifier_acc, store_warden_acc, parse_store, parse_store_legacy,
}
use elusiv_sdk.Instruction.Compute.{
  ComputeBaseCommitmentHashBorsh, ComputeHashIxEncryptedPayloadBorsh, ComputeHashInstruction,
  parse_compute,
}
use elusiv_sdk.Instruction.Init.{
  InitVerificationInstruction, InitVerificationInstructionBorsh,
  InitVerificationInstructionBorshLegacy, init_identifier_acc, init_warden_acc,
}
use elusiv_sdk.Instruction.InitCodec.{parse_init, parse_init_legacy}
use elusiv_sdk.Instruction.Finalize.{
  FinalizeVerificationBorsh, FinalizeVerificationInstruction, finalize_identifier_acc,
  finalize_recipient_acc, finalize_reference_key_acc, parse_finalize_with_key, parse_finalize,
}

-- What the code reads of an instruction that the RPC node has parsed.
pub data ParsedInstruction : Type 0 where
  lamport_transfer : ℕ → ParsedInstruction
  spl_transfer : ℕ → ParsedInstruction
  other_parsed : ParsedInstruction

-- `ParsedInstruction | PartiallyDecodedInstruction`: the type guards tell the two apart.
pub data ChainInstruction : Type 0 where
  decoded : Instruction → ChainInstruction
  parsed : ParsedInstruction → ChainInstruction

-- The instructions of a `ParsedMessage`.
abbrev pub Message : Type 0
Message = List ChainInstruction

pub record InnerInstruction : Type 0 where
  pub index : ℕ
  pub instructions : List ChainInstruction

pub record Codecs : Type 0 where
  pub store : Codec StoreBaseCommitmentBorsh
  pub store_legacy : Codec StoreBaseCommitmentBorshLegacy
  pub compute : Codec ComputeBaseCommitmentHashBorsh
  pub payload : Codec ComputeHashIxEncryptedPayloadBorsh
  pub init : Codec InitVerificationInstructionBorsh
  pub init_legacy : Codec InitVerificationInstructionBorshLegacy
  pub finalize : Codec FinalizeVerificationBorsh

abbrev pub store_ix_index : ℕ
store_ix_index = 2

unfoldable pub get_compiled_variable_ixs {ℓ} : {A : Type ℓ} → List A → Result (List A)
get_compiled_variable_ixs store_ixs =
    if not (length store_ixs == 4)
    then err invalid_size
    else ok (drop store_ix_index (take 4 store_ixs))

unfoldable pub get_compiled_constant_ixs {ℓ} : {A : Type ℓ} → List A → Result (List A)
get_compiled_constant_ixs store_ixs =
    if not (length store_ixs == 4) then err invalid_size else ok (take store_ix_index store_ixs)

module _ (program : String) where
  unfoldable pub is_elusiv_ix : Instruction → Bool
  is_elusiv_ix ix = beq ix.program_id program

  abbrev pub has_account : String → List String → Bool
  has_account key [] = false
  has_account key (k ∷ keys) = beq k key || has_account key keys

  unfoldable pub is_identifier_ix : Instruction → String → Bool
  unfolding is_elusiv_ix
  is_identifier_ix ix id_key = is_elusiv_ix ix && has_account id_key ix.accounts

  abbrev pub starts_with : ℕ → List ℕ → Bool
  starts_with code [] = false
  starts_with code (byte ∷ bytes) = byte == code

  unfoldable pub is_store_base_comm_ix : Instruction → String → Bool
  unfolding is_identifier_ix
  is_store_base_comm_ix ix id_key =
      is_identifier_ix ix id_key && starts_with store_base_comm_ix_code ix.ix_data

  unfoldable pub is_compute_hash_ix : Instruction → String → Bool
  unfolding is_identifier_ix
  is_compute_hash_ix ix id_key =
      is_identifier_ix ix id_key && starts_with compute_comm_hash_ix_code ix.ix_data

  unfoldable pub is_init_verification_ix : Instruction → String → Bool
  unfolding is_identifier_ix
  is_init_verification_ix ix id_key =
      is_identifier_ix ix id_key && starts_with init_verification_ix_code ix.ix_data

  unfoldable pub is_finalize_verification_ix : Instruction → String → Bool
  unfolding is_identifier_ix
  is_finalize_verification_ix ix id_key =
      is_identifier_ix ix id_key && starts_with finalize_verification_ix_code ix.ix_data

  unfoldable pub is_send_ix : Instruction → String → Bool
  unfolding is_init_verification_ix is_finalize_verification_ix
  is_send_ix ix id_key = is_init_verification_ix ix id_key || is_finalize_verification_ix ix id_key

  unfoldable pub is_store_ix : Instruction → String → Bool
  unfolding is_store_base_comm_ix is_compute_hash_ix
  is_store_ix ix id_key = is_store_base_comm_ix ix id_key || is_compute_hash_ix ix id_key

-- `transferIxs.instructions[0]` and its guards, of a store with that number of instructions.
abbrev transferred : Bool → List ChainInstruction → Result ℕ
transferred true (parsed (lamport_transfer amount) ∷ ixs) =
    if length ixs == 4 then ok amount else err failed_to_parse
transferred false (parsed (spl_transfer amount) ∷ ixs) =
    if length ixs == 5 then ok amount else err failed_to_parse
transferred in_lamports ixs = err failed_to_parse

unfoldable pub fee_from_store_cpis : List InnerInstruction → TokenType → Result ℕ
fee_from_store_cpis [] token_type = err failed_to_find_transfer
fee_from_store_cpis (cpi ∷ cpis) token_type =
    let later = fee_from_store_cpis cpis token_type in
    if cpi.index == store_ix_index
    then transferred (token_beq token_type lamports) cpi.instructions
    else later

pub record ParsedStore : Type 0 where
  pub store_ix : StoreInstruction
  pub compute_ix : ComputeHashInstruction
  pub identifier_acc : Option String
  pub sender_acc : Option String
  pub warden_acc : Option String

pub record ParsedInit : Type 0 where
  pub init_ix : InitVerificationInstruction
  pub id_acc : Option String
  pub warden_acc : Option String

pub record ParsedFinalize : Type 0 where
  pub finalize_ix : FinalizeVerificationInstruction
  pub id_acc : Option String
  pub recipient_acc : Option String
  pub ref_key_acc : Option String

-- What `null` means to the caller.
abbrev pub or_failed {ℓ} : {A : Type ℓ} → Option A → Result A
or_failed none = err failed_to_parse
or_failed (some a) = ok a
