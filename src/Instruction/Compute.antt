-- ===== src/Instruction/Compute.antt =====
-- src/sdk/transactions/instructions/ComputeHashInstruction.ts, with
-- borshTypes/legacy/ComputeBaseCommitmentHashBorsh.ts and ComputeHashIxEncryptedPayloadBorsh.ts: the
-- instruction that starts the hashing of a commitment and carries the private balance, encrypted.
use elusiv_sdk.Base.{ℕ, Bool, true, false, Option, none, some, List, [], ◌∷◌, if◌then◌else◌}
use elusiv_sdk.Result.{Result, ok, ◌>>=◌}
use elusiv_sdk.Token.{Cluster}
use elusiv_sdk.Instruction.{
  Codec, Rvk, Library, EncryptedValue, Instruction, AccountMeta, TransactionInstruction,
  get_elusiv_program_id,
}

pub record ComputeBaseCommitmentHashBorsh : Type 0 where
  pub hash_account_index : ℕ
  pub nonce : ℕ
  pub iv : List ℕ
  pub cipher_text : List ℕ

pub record ComputeHashIxEncryptedPayloadBorsh : Type 0 where
  pub curr_priv_balance : ℕ
  pub is_recipient : Bool
  pub checksum : List ℕ

pub record ComputeHashInstruction : Type 0 where
  pub nonce : ℕ
  pub hash_acc_index : ℕ
  pub curr_private_balance : ℕ
  pub is_recipient : Bool
  pub program_nonce : ℕ

-- `Buffer.from('elusiv', 'utf-8')`.
abbrev pub checksum : List ℕ
checksum = 101 ∷ 108 ∷ 117 ∷ 115 ∷ 105 ∷ 118 ∷ []

module _ (lib : Library) (codec : Codec ComputeBaseCommitmentHashBorsh)
    (payload_codec : Codec ComputeHashIxEncryptedPayloadBorsh) where
  -- `parseEncryptedData`; what it throws the caller turns into `null`.
  unfoldable pub parse_encrypted_data :
      Rvk → ℕ → EncryptedValue → Option ComputeHashIxEncryptedPayloadBorsh
  parse_encrypted_data rvk nonce encrypted =
      elim (payload_codec.deserialize (rvk.decrypt_seeded_salted encrypted nonce)) [
        | none ↦ none
        | some parsed ↦ if lib.equals_uint8_arr parsed.checksum checksum then some parsed else none
      ]

  unfoldable pub parse_compute : Instruction → Rvk → ℕ → Option ComputeHashInstruction
  unfolding parse_encrypted_data
  parse_compute ix rvk nonce = elim (codec.deserialize ix.ix_data) [
    | none ↦ none
    | some parsed ↦
        elim (parse_encrypted_data rvk nonce
          (record { cipher_text = parsed.cipher_text; iv = parsed.iv })) [
            | none ↦ none
            | some decrypted ↦ some (record {
              nonce = nonce;
              hash_acc_index = parsed.hash_account_index;
              curr_private_balance = decrypted.curr_priv_balance;
              is_recipient = decrypted.is_recipient;
              program_nonce = parsed.nonce;
            })
          ]
  ]

  unfoldable pub compile_encrypted_data : ComputeHashInstruction → Rvk → EncryptedValue
  compile_encrypted_data ix rvk =
      rvk.encrypt_seeded_salted
        (payload_codec.serialize (record {
          curr_priv_balance = ix.curr_private_balance;
          is_recipient = ix.is_recipient;
          checksum = checksum;
        }))
        ix.nonce

  unfoldable pub compute_accounts : ComputeHashInstruction → Cluster → Result (List AccountMeta)
  unfolding get_elusiv_program_id
  compute_accounts ix cluster = do
    program ← get_elusiv_program_id cluster
    ok (
        record {
          pubkey =
              (lib.generate_elusiv_pda_from ("BaseCommitmentHashing" ∷ []) program
                (some ix.hash_acc_index)).0;
          is_signer = false;
          is_writable = true;
        }
        ∷ [])

  abbrev pub compute_payload : ComputeHashInstruction → EncryptedValue → List ℕ
  compute_payload ix encrypted = codec.serialize (record {
    hash_account_index = ix.hash_acc_index;
    nonce = ix.program_nonce;
    iv = encrypted.iv;
    cipher_text = encrypted.cipher_text;
  })

  unfoldable pub compile_compute :
      ComputeHashInstruction → Rvk → Cluster → Result TransactionInstruction
  unfolding compile_encrypted_data compute_accounts get_elusiv_program_id
  compile_compute ix rvk cluster = do
    keys ← compute_accounts ix cluster
    program ← get_elusiv_program_id cluster
    ok (record {
      keys = keys;
      program_id = program;
      ix_data = compute_payload ix (compile_encrypted_data ix rvk);
    })
