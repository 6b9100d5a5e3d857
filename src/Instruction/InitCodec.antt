-- ===== src/Instruction/InitCodec.antt =====
-- InitVerificationInstruction.ts and InitVerificationInstructionLegacy.ts: reading and writing the
-- instruction.
use elusiv_sdk.Base.{ℕ, not, Option, none, some, List, map, length, if◌then◌else◌, ◌==◌}
use elusiv_sdk.Result.{Result, ok, err, map_ok, invalid_size, ◌>>=◌}
use elusiv_sdk.Token.{TokenType, get_token_type_from_number, get_number_from_token_type}
use elusiv_sdk.Serialization.Borsh.{
  InputCommitmentBorsh, JoinSplitBorsh, make_send_public_inputs, send_public_input_ix_code,
}
use elusiv_sdk.Instruction.{
  Codec, Rvk, Library, Instruction, deserialize_and_decrypt, init_verification_ix_code,
  max_mt_count,
}
use elusiv_sdk.Instruction.Init.{
  InitVerificationInstruction, InitVerificationInstructionBorsh,
  InitVerificationInstructionBorshLegacy, JoinSplitBorshLegacy, InitMetadata, decrypted,
  token_and_index, OptionalFee, current, legacy, init_token_type, init_assoc_comm_index,
}
use elusiv_sdk.Instruction.Roots.{hash_bytes, parse_roots, encode_input_commitments}

module _ (lib : Library) where
  -- The metadata, or what of it is not encrypted where there is no key.
  unfoldable pub parse_metadata : JoinSplitBorsh → Option Rvk → Result InitMetadata
  unfolding deserialize_and_decrypt get_token_type_from_number
  parse_metadata join_split (some rvk) = map_ok decrypted (
      deserialize_and_decrypt lib join_split.metadata rvk
        (lib.serialize_uint256_le join_split.output_commitment))
  parse_metadata join_split none = do
    token_type ← get_token_type_from_number join_split.token_id
    ok (token_and_index token_type join_split.recent_commitment_index)

  module _ (codec : Codec InitVerificationInstructionBorsh)
      (legacy_codec : Codec InitVerificationInstructionBorshLegacy) where
    unfoldable pub parse_init :
        Instruction → Option Rvk → Result (Option InitVerificationInstruction)
    unfolding parse_metadata parse_roots
    parse_init ix rvk = elim (codec.deserialize ix.ix_data) [
      | none ↦ ok none
      | some parsed ↦ do
        let inputs = parsed.request
        let comms = inputs.join_split.input_commitments
        metadata ← parse_metadata inputs.join_split rvk
        roots ← parse_roots lib (map (λ (c : InputCommitmentBorsh). c.root) comms)
        ok (
            some (record {
              ver_acc_index = parsed.verification_account_index;
              v_key_id = parsed.vkey_id;
              tree_indices = parsed.tree_indices;
              commitment_count = length comms;
              roots = roots;
              nullifier_hashes = hash_bytes lib comms;
              commitment_hash = lib.serialize_uint256_le inputs.join_split.output_commitment;
              fee_version = inputs.join_split.fee_version;
              send_amount = inputs.join_split.amount;
              fee = inputs.join_split.fee;
              recipient_is_associated_token_account = inputs.recipient_is_associated_token_account;
              hashed_inputs = lib.serialize_uint256_le inputs.hashed_inputs;
              skip_nullifier_pda = parsed.skip_nullifier_pda;
              is_solana_pay_transfer = inputs.solana_pay_transfer;
              details =
                  current
                    (record {
                      collector = lib.public_key inputs.join_split.optional_fee.collector;
                      amount = inputs.join_split.optional_fee.amount;
                    })
                    metadata inputs.join_split.metadata;
            }))
    ]

    unfoldable pub parse_init_legacy : Instruction → Result (Option InitVerificationInstruction)
    unfolding get_token_type_from_number parse_roots
    parse_init_legacy ix = elim (legacy_codec.deserialize ix.ix_data) [
      | none ↦ ok none
      | some parsed ↦ do
        let inputs = parsed.request
        let comms = inputs.join_split.input_commitments
        token_id ← get_token_type_from_number inputs.join_split.token_id
        roots ← parse_roots lib (map (λ (c : InputCommitmentBorsh). c.root) comms)
        ok (
            some (record {
              ver_acc_index = parsed.verification_account_index;
              v_key_id = parsed.vkey_id;
              tree_indices = parsed.tree_indices;
              commitment_count = length comms;
              roots = roots;
              nullifier_hashes = hash_bytes lib comms;
              commitment_hash = lib.serialize_uint256_le inputs.join_split.output_commitment;
              fee_version = inputs.join_split.fee_version;
              send_amount = inputs.join_split.amount;
              fee = inputs.join_split.fee;
              recipient_is_associated_token_account = inputs.recipient_is_associated_token_account;
              hashed_inputs = lib.serialize_uint256_le inputs.hashed_inputs;
              skip_nullifier_pda = parsed.skip_nullifier_pda;
              is_solana_pay_transfer = inputs.solana_pay_transfer;
              details = legacy inputs.join_split.output_commitment_index token_id;
            }))
    ]

    unfoldable pub encode_join_split :
        InitVerificationInstruction → OptionalFee → List ℕ → Result JoinSplitBorsh
    unfolding encode_input_commitments get_number_from_token_type init_token_type
        init_assoc_comm_index
    encode_join_split ix opt_fee serialized_metadata = do
      comms ← encode_input_commitments lib ix.roots ix.nullifier_hashes ix.commitment_count
      token ← get_number_from_token_type (init_token_type ix.details)
      ok (record {
        input_commitments = comms;
        output_commitment = lib.deserialize_uint256_le ix.commitment_hash;
        recent_commitment_index = init_assoc_comm_index ix.details;
        fee_version = ix.fee_version;
        amount = ix.send_amount;
        fee = ix.fee;
        optional_fee = record {
          collector = lib.key_bytes opt_fee.collector;
          amount = opt_fee.amount;
        };
        token_id = token;
        metadata = serialized_metadata;
      })

    unfoldable pub encode_join_split_legacy :
        InitVerificationInstruction → ℕ → TokenType → Result JoinSplitBorshLegacy
    unfolding encode_input_commitments get_number_from_token_type
    encode_join_split_legacy ix comm_index token_id = do
      comms ← encode_input_commitments lib ix.roots ix.nullifier_hashes ix.commitment_count
      token ← get_number_from_token_type token_id
      ok (record {
        input_commitments = comms;
        output_commitment = lib.deserialize_uint256_le ix.commitment_hash;
        output_commitment_index = comm_index;
        fee_version = ix.fee_version;
        amount = ix.send_amount;
        fee = ix.fee;
        token_id = token;
      })

    -- `compile` of either class, without the test on the tree indices.
    unfoldable pub init_payload : InitVerificationInstruction → Result (List ℕ)
    unfolding encode_join_split encode_join_split_legacy make_send_public_inputs
    init_payload ix = elim ix.details [
      | current opt_fee metadata serialized_metadata ↦ do
        join_split ← encode_join_split ix opt_fee serialized_metadata
        request ←
            make_send_public_inputs send_public_input_ix_code join_split
              ix.recipient_is_associated_token_account ix.is_solana_pay_transfer
              (lib.deserialize_uint256_le ix.hashed_inputs)
        ok (
            codec.serialize (record {
              instruction_index = init_verification_ix_code;
              verification_account_index = ix.ver_acc_index;
              vkey_id = ix.v_key_id;
              tree_indices = ix.tree_indices;
              request = request;
              skip_nullifier_pda = ix.skip_nullifier_pda;
            }))
      | legacy comm_index token_id ↦ do
        join_split ← encode_join_split_legacy ix comm_index token_id
        ok (
            legacy_codec.serialize (record {
              instruction_index = init_verification_ix_code;
              verification_account_index = ix.ver_acc_index;
              vkey_id = ix.v_key_id;
              tree_indices = ix.tree_indices;
              request = record {
                proof_type = send_public_input_ix_code;
                join_split = join_split;
                recipient_is_associated_token_account = ix.recipient_is_associated_token_account;
                solana_pay_transfer = ix.is_solana_pay_transfer;
                hashed_inputs = lib.deserialize_uint256_le ix.hashed_inputs;
              };
              skip_nullifier_pda = ix.skip_nullifier_pda;
            }))
    ]

    unfoldable pub compile_init : InitVerificationInstruction → Result (List ℕ)
    unfolding init_payload
    compile_init ix =
        if not (length ix.tree_indices == max_mt_count) then err invalid_size else init_payload ix
