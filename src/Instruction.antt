-- ===== src/Instruction.antt =====
-- src/sdk/transactions/instructions: the program's instructions as the SDK builds and reads them, with
-- what they share. A `PublicKey` is its base58 text and the data of an instruction its bytes. Borsh (one
-- codec for each class of serializedTypes/borshTypes), the number formats of @elusiv/serialization,
-- the AES calls of clientCrypto/encryption.ts behind a root viewing key (RVKWrapper.ts) and the
-- address derivations of @solana are parameters.
pub mod Store
pub mod Compute
pub mod Init
pub mod Roots
pub mod InitCodec
pub mod RootLaws
pub mod Finalize
pub mod Laws
pub mod Payloads
pub mod Tests
use elusiv_sdk.Base.{
  ℕ, ◌^◌, ◌<◌, ◌≡◌, Bool, String, Option, none, some, List, [], ◌∷◌, get_elem?, length,
}
use elusiv_sdk.Result.{Result, ok, err, unknown_cluster, ◌>>=◌}
use elusiv_sdk.Token.{TokenType, Cluster, devnet, testnet, mainnet_beta}
use elusiv_sdk.Transaction.{CommitmentMetadata}
use elusiv_sdk.Metadata.{Serialization, to_bytes, from_bytes}

-- `serialize` and `deserialize` of @dao-xyz/borsh for one class; `none` where it throws. The widths of the
-- class's fields are not modelled: a codec takes every number and list.
pub record Codec (T : Type 0) : Type 0 where
  pub serialize : T → List ℕ
  pub deserialize : List ℕ → Option T

abbrev pub IsCodec : {T : Type 0} → Codec T → Type 0
IsCodec {T} c = (x : T) → c.deserialize (c.serialize x) ≡ some x

pub record EncryptedValue : Type 0 where
  pub cipher_text : List ℕ
  pub iv : List ℕ

-- A root viewing key.
pub record Rvk : Type 0 where
  pub get_identifier_key : ℕ → String
  pub generate_decryption_key : ℕ → List ℕ
  pub encrypt_seeded_salted : List ℕ → ℕ → EncryptedValue
  pub decrypt_seeded_salted : EncryptedValue → ℕ → List ℕ
  pub encrypt_metadata : List ℕ → List ℕ → List ℕ
  pub decrypt_metadata : List ℕ → List ℕ → List ℕ

-- What the instructions call of their libraries.
pub record Library : Type 0 where
  pub formats : Serialization
  pub serialize_uint256_le : ℕ → List ℕ
  pub deserialize_uint256_le : List ℕ → ℕ
  pub pad_le : List ℕ → ℕ → List ℕ
  pub equals_uint8_arr : List ℕ → List ℕ → Bool
  pub decrypt_with_key : EncryptedValue → List ℕ → List ℕ
  pub public_key : List ℕ → String
  pub key_bytes : String → List ℕ
  pub system_program : String
  pub token_program : String
  pub get_associated_token_acc : String → TokenType → Cluster → String
  pub generate_elusiv_pda_from : List String → String → Option ℕ → String × ℕ

-- `PartiallyDecodedInstruction` of @solana/web3.js.
pub record Instruction : Type 0 where
  pub program_id : String
  pub accounts : List String
  pub ix_data : List ℕ

pub record AccountMeta : Type 0 where
  pub pubkey : String
  pub is_signer : Bool
  pub is_writable : Bool

pub record TransactionInstruction : Type 0 where
  pub keys : List AccountMeta
  pub program_id : String
  pub ix_data : List ℕ

-- `ix.accounts[i]`; `undefined` past the end.
abbrev pub account_at : Instruction → ℕ → Option String
account_at ix i = get_elem? ix.accounts i

-- src/public/WardenInfo.ts
unfoldable pub get_elusiv_program_id : Cluster → Result String
get_elusiv_program_id mainnet_beta = ok "4CgyHKuP6yi1vbmcdsArngEKcETR4nZupqYEMk2hEoQd"
get_elusiv_program_id devnet = ok "B5TTFPKCd2Rkw3vAJigLeRCDGK673vfAWefmrrZKou9V"
get_elusiv_program_id testnet = err unknown_cluster

-- src/sdk/clientCrypto/CommitmentMetadata.ts: the metadata's bytes under the root viewing key.
module _ (lib : Library) where
  unfoldable pub serialize_and_encrypt : CommitmentMetadata → Rvk → List ℕ → Result (List ℕ)
  unfolding to_bytes
  serialize_and_encrypt m rvk comm_hash = do
    bytes ← to_bytes lib.formats m
    ok (rvk.encrypt_metadata bytes comm_hash)

  unfoldable pub deserialize_and_decrypt : List ℕ → Rvk → List ℕ → Result CommitmentMetadata
  unfolding from_bytes
  deserialize_and_decrypt bytes rvk comm_hash =
      from_bytes lib.formats (rvk.decrypt_metadata bytes comm_hash)

-- The codes of src/constants.ts, the first byte of each instruction.
abbrev pub store_base_comm_ix_code : ℕ
store_base_comm_ix_code = 0

abbrev pub compute_comm_hash_ix_code : ℕ
compute_comm_hash_ix_code = 1

abbrev pub init_verification_ix_code : ℕ
init_verification_ix_code = 7

abbrev pub finalize_verification_ix_code : ℕ
finalize_verification_ix_code = 11

abbrev pub max_mt_count : ℕ
max_mt_count = 2
