-- ===== src/Instruction/Finalize.antt =====
-- src/sdk/transactions/instructions/FinalizeVerificationInstruction.ts, with
-- borshTypes/legacy/FinalizeVerificationBorsh.ts and FinalizeSendDataBorsh.ts: the instruction that
-- pays out a verified send and carries its owner, encrypted.
use elusiv_sdk.Base.{
  ℕ, Bool, true, String, Option, none, some, List, [], ◌∷◌, take, drop, if◌then◌else◌, ◌==◌, ◌&&◌,
}
use elusiv_sdk.Result.{Result, ok, ◌>>=◌}
use elusiv_sdk.Token.{TokenType, get_token_type_from_number, get_number_from_token_type}
use elusiv_sdk.Instruction.{Codec, Rvk, Library, EncryptedValue, Instruction, account_at}

pub record FinalizeSendDataBorsh : Type 0 where
  pub total_amount : ℕ
  pub token_id : ℕ
  pub mt_index : ℕ
  pub commitment_index : ℕ
  pub iv : ℕ
  pub encrypted_owner : ℕ

pub record FinalizeVerificationBorsh : Type 0 where
  pub verification_account_index : ℕ
  pub send_data : FinalizeSendDataBorsh
  pub uses_memo : Bool

pub record FinalizeVerificationInstruction : Type 0 where
  pub amount : ℕ
  pub token_id : TokenType
  pub mt_index : ℕ
  pub encrypted_owner : EncryptedValue
  pub verification_account_index : ℕ
  pub owner : String

unfoldable pub finalize_recipient_acc : Instruction → Option String
finalize_recipient_acc ix = account_at ix 0

unfoldable pub finalize_identifier_acc : Instruction → Option String
finalize_identifier_acc ix = account_at ix 1

unfoldable pub finalize_reference_key_acc : Instruction → Option String
finalize_reference_key_acc ix = account_at ix 2

unfoldable pub finalize_verification_acc : Instruction → Option String
finalize_verification_acc ix = account_at ix 5

abbrev pub all_zero : List ℕ → Bool
all_zero [] = true
all_zero (x ∷ xs) = (x == 0) && all_zero xs

module _ (lib : Library) (codec : Codec FinalizeVerificationBorsh) where
  unfoldable pub parse_finalize_with_key :
      Instruction → List ℕ → Result (Option FinalizeVerificationInstruction)
  unfolding get_token_type_from_number
  parse_finalize_with_key ix key = elim (codec.deserialize ix.ix_data) [
    | none ↦ ok none
    | some parsed ↦
        let raw_iv = lib.serialize_uint256_le parsed.send_data.iv in
        let encrypted : EncryptedValue = record {
          cipher_text = lib.serialize_uint256_le parsed.send_data.encrypted_owner;
          iv = take 16 raw_iv;
        } in
        if all_zero (take 16 (drop 16 raw_iv))
        then (do
          token_id ← get_token_type_from_number parsed.send_data.token_id
          ok (
              some (record {
                amount = parsed.send_data.total_amount;
                token_id = token_id;
                mt_index = parsed.send_data.mt_index;
                encrypted_owner = encrypted;
                verification_account_index = parsed.verification_account_index;
                owner = lib.public_key (lib.decrypt_with_key encrypted key);
              })))
        else ok none
  ]

  unfoldable pub parse_finalize :
      Instruction → Rvk → ℕ → Result (Option FinalizeVerificationInstruction)
  unfolding parse_finalize_with_key
  parse_finalize ix rvk nonce = parse_finalize_with_key ix (rvk.generate_decryption_key nonce)

  unfoldable pub compile_finalize : FinalizeVerificationInstruction → Bool → ℕ → Result (List ℕ)
  unfolding get_number_from_token_type
  compile_finalize ix uses_memo comm_index = do
    token ← get_number_from_token_type ix.token_id
    ok (
        codec.serialize (record {
          verification_account_index = ix.verification_account_index;
          send_data = record {
            total_amount = ix.amount;
            token_id = token;
            mt_index = ix.mt_index;
            commitment_index = comm_index;
            iv = lib.deserialize_uint256_le (lib.pad_le ix.encrypted_owner.iv 32);
            encrypted_owner = lib.deserialize_uint256_le ix.encrypted_owner.cipher_text;
          };
          uses_memo = uses_memo;
        }))
