-- ===== src/Serialization/Store.antt =====
-- TransactionSerialization.ts: the request that carries a store transaction, signed by its sender.
-- `compileMessage` of @solana/web3.js is done already: a transaction comes with its compiled message.
use elusiv_sdk.Base.{
  ℕ, not, Option, none, some, String, List, [], ◌∷◌, map, length, if◌then◌else◌, ◌==◌,
}
use elusiv_sdk.Result.{Result, ok, err, missing_signature}
use elusiv_sdk.Serialization.{
  Serializer, DataSerialized, ParamedWardenRequest, build_warden_request, elusiv_store, zeros,
}

pub record MessageHeader : Type 0 where
  pub num_required_signatures : ℕ
  pub num_readonly_signed_accounts : ℕ
  pub num_readonly_unsigned_accounts : ℕ

pub record MessageCompiledInstruction : Type 0 where
  pub program_id_index : ℕ
  pub account_key_indexes : List ℕ
  pub ix_data : List ℕ

-- A key is its bytes.
pub record CompiledMessage : Type 0 where
  pub header : MessageHeader
  pub account_keys : List (List ℕ)
  pub recent_blockhash : String
  pub compiled_instructions : List MessageCompiledInstruction

-- `null` for a signature that is missing is `none`.
pub record StoreTransaction : Type 0 where
  pub signatures : List (Option (List ℕ))
  pub message : CompiledMessage

pub record TxInstructionSerialized : Type 0 where
  pub program_id_index : ℕ
  pub accounts : DataSerialized ℕ
  pub ix_data : DataSerialized ℕ

pub record TxMessageSerialized : Type 0 where
  pub header : MessageHeader
  pub account_keys : DataSerialized (List ℕ)
  pub recent_blockhash : List ℕ
  pub instructions : DataSerialized TxInstructionSerialized

pub record TransactionSerialized : Type 0 where
  pub signatures : DataSerialized (List ℕ)
  pub message : TxMessageSerialized

unfoldable pub serialize_message_compiled_ix : MessageCompiledInstruction → TxInstructionSerialized
serialize_message_compiled_ix ix = record {
  program_id_index = ix.program_id_index;
  accounts = record { count = length ix.account_key_indexes ∷ []; items = ix.account_key_indexes };
  ix_data = record { count = length ix.ix_data ∷ []; items = ix.ix_data };
}

unfoldable pub serialize_message_compiled_ixs :
    List MessageCompiledInstruction → DataSerialized TxInstructionSerialized
unfolding serialize_message_compiled_ix
serialize_message_compiled_ixs ixs = record {
  count = length ixs ∷ [];
  items = map serialize_message_compiled_ix ixs;
}

abbrev pub signature_bytes : Option (List ℕ) → List ℕ
signature_bytes none = zeros 64
signature_bytes (some signature) = signature

unfoldable pub serialize_signatures : List (Option (List ℕ)) → DataSerialized (List ℕ)
serialize_signatures sigs = record { count = length sigs ∷ []; items = map signature_bytes sigs }

unfoldable pub serialize_keys : List (List ℕ) → DataSerialized (List ℕ)
serialize_keys keys = record { count = length keys ∷ []; items = keys }

module _ (lib : Serializer) where
  unfoldable pub serialize_base58 : String → List ℕ
  serialize_base58 to_serialize = lib.bs58_to_bytes to_serialize

  unfoldable pub serialize_partially_signed_store :
      StoreTransaction → Result (ParamedWardenRequest TransactionSerialized)
  unfolding serialize_signatures serialize_keys serialize_base58 serialize_message_compiled_ixs
      build_warden_request
  serialize_partially_signed_store tx =
      if not (length tx.signatures == 2)
      then err missing_signature
      else ok (
          build_warden_request elusiv_store (record {
            signatures = serialize_signatures tx.signatures;
            message = record {
              header = tx.message.header;
              account_keys = serialize_keys tx.message.account_keys;
              recent_blockhash = serialize_base58 tx.message.recent_blockhash;
              instructions = serialize_message_compiled_ixs tx.message.compiled_instructions;
            };
          }))
