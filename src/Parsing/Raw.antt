-- ===== src/Parsing/Raw.antt =====
-- TransactionParsing.ts: the transactions of a store and of a send, with SendTx.ts and StoreTx.ts. A
-- signature is the number of its object and its memo.
use elusiv_sdk.Base.{ℕ, Bool, String, Option, none, some, List, [], ◌∷◌, keep_if}
use elusiv_sdk.Result.{
  Result, ok, err, failed_to_parse, invalid_store, invalid_send, invalid_access, ◌>>=◌,
}
use elusiv_sdk.Transaction.{
  ElusivTransaction, CommitmentMetadata, TransactionStatus, pending, processed, topup, send,
}
use elusiv_sdk.Instruction.{Rvk, Library, Instruction, EncryptedValue}
use elusiv_sdk.Instruction.Store.{store_token_type, store_amount, store_assoc_comm_index}
use elusiv_sdk.Instruction.Init.{
  InitVerificationInstruction, InitDetails, InitMetadata, decrypted, token_and_index, OptionalFee,
  init_token_type, init_assoc_comm_index,
}
use elusiv_sdk.Instruction.Init
use elusiv_sdk.Parsing.{
  ChainInstruction, decoded, parsed, Message, InnerInstruction, Codecs, ParsedInit, ParsedFinalize,
  get_compiled_variable_ixs, fee_from_store_cpis, is_elusiv_ix,
}
use elusiv_sdk.Parsing.Parts.{
  try_parse_variable_store, try_parse_variable_init, try_parse_variable_finalize,
}
use elusiv_sdk.Parsing.Find.{find_send_init_tx, find_send_finalize_tx}

pub record SigInfo : Type 0 where
  pub signature : ℕ
  pub memo : Option String

pub record PartialStoreTx : Type 0 where
  pub base : ElusivTransaction
  pub sender : Option String
  pub parsed_private_balance : ℕ
  pub hash_acc_index : ℕ
  pub is_recipient : Bool
  pub identifier : String
  pub warden : Option String

-- `inputCommitments` and `proof` are not parsed.
pub record PartialSendTx : Type 0 where
  pub base : ElusivTransaction
  pub identifier : Option String
  pub owner : Option String
  pub memo : Option String
  pub recipient : Option String
  pub ref_key : Option String
  pub is_associated_token_acc : Bool
  pub is_solana_pay_transfer : Bool
  pub encrypted_owner : Option EncryptedValue
  pub warden : Option String
  pub extra_fee : OptionalFee

-- `filter(isPartiallyDecodedInstruction)`.
abbrev pub decoded_ixs : List ChainInstruction → List Instruction
decoded_ixs [] = []
decoded_ixs (parsed p ∷ ixs) = decoded_ixs ixs
decoded_ixs (decoded ix ∷ ixs) = ix ∷ decoded_ixs ixs

-- `catch (err) { throw new Error(…) }`.
abbrev pub throw_instead {ℓ} : {A : Type ℓ} → Result A → Result A → Result A
throw_instead (err thrown) instead = instead
throw_instead (ok a) instead = ok a

-- What a send has of its two messages.
abbrev pub message_of : Option (Message × ℕ) → Option Message
message_of none = none
message_of (some (tx, index)) = some tx

module _ (lib : Library) (codecs : Codecs) where
  unfoldable pub try_parse_raw_store :
      Message → List InnerInstruction → SigInfo → ℕ → String → Rvk → Result PartialStoreTx
  unfolding get_compiled_variable_ixs try_parse_variable_store fee_from_store_cpis store_token_type
      store_amount store_assoc_comm_index
  try_parse_raw_store store_tx cpis signature nonce identifier rvk = do
    variable_ixs ← get_compiled_variable_ixs store_tx
    (res, fee) ←
        throw_instead
          (do
            res ← try_parse_variable_store lib codecs (decoded_ixs variable_ixs) nonce rvk
            fee ← fee_from_store_cpis cpis (store_token_type res.store_ix.details)
            ok (res, fee))
          (err invalid_store)
    ok (record {
      base = record {
        nonce = nonce;
        tx_type = topup;
        token_type = store_token_type res.store_ix.details;
        amount = store_amount res.store_ix.details;
        fee = fee;
        commitment_hash = res.store_ix.commitment_hash;
        merkle_start_index = store_assoc_comm_index res.store_ix.details;
        transaction_status = some pending;
        signature = some signature.signature;
        metadata = none;
      };
      sender = res.sender_acc;
      parsed_private_balance = res.compute_ix.curr_private_balance;
      hash_acc_index = res.store_ix.hash_acc_index;
      is_recipient = res.compute_ix.is_recipient;
      identifier = identifier;
      warden = res.warden_acc;
    })

  -- The metadata of a current instruction, if it could be decrypted.
  abbrev pub init_metadata : InitDetails → Option CommitmentMetadata
  init_metadata (Init.current fee (decrypted m) bytes) = some m
  init_metadata (Init.current fee (token_and_index token index) bytes) = none
  init_metadata (Init.legacy index token) = none

  abbrev pub init_extra_fee : InitDetails → OptionalFee
  init_extra_fee (Init.current fee m bytes) = fee
  init_extra_fee (Init.legacy index token) = record { collector = lib.system_program; amount = 0 }

  abbrev pub status_of : Option ParsedFinalize → TransactionStatus
  status_of none = pending
  status_of (some f) = processed

  abbrev pub of_finalize {ℓ} :
      {A : Type ℓ} → (ParsedFinalize → Option A) → Option ParsedFinalize → Option A
  of_finalize field none = none
  of_finalize field (some f) = field f

  unfoldable pub parse_finalize_message : Option Message → List ℕ → Result (Option ParsedFinalize)
  unfolding try_parse_variable_finalize
  parse_finalize_message none decryption_key = ok none
  parse_finalize_message (some message) decryption_key = do
    finalize ← try_parse_variable_finalize lib codecs message decryption_key
    ok (some finalize)

  abbrev pub init_or_invalid : Option Message → Result Message
  init_or_invalid none = err invalid_send
  init_or_invalid (some m) = ok m

  abbrev pub first_signature : List SigInfo → Result SigInfo
  first_signature [] = err invalid_access
  first_signature (s ∷ signature) = ok s

  unfoldable pub send_tx_of : ParsedInit → Option ParsedFinalize → SigInfo → ℕ → PartialSendTx
  unfolding init_token_type init_assoc_comm_index
  send_tx_of init finalize signature nonce = record {
    base = record {
      nonce = nonce;
      tx_type = send;
      token_type = init_token_type init.init_ix.details;
      amount = init.init_ix.send_amount;
      fee = init.init_ix.fee;
      commitment_hash = init.init_ix.commitment_hash;
      merkle_start_index = init_assoc_comm_index init.init_ix.details;
      transaction_status = some (status_of finalize);
      signature = some signature.signature;
      metadata = init_metadata init.init_ix.details;
    };
    identifier = init.id_acc;
    owner = of_finalize (λ f. some f.finalize_ix.owner) finalize;
    memo = signature.memo;
    recipient = of_finalize (λ f. f.recipient_acc) finalize;
    ref_key = of_finalize (λ f. f.ref_key_acc) finalize;
    is_associated_token_acc = init.init_ix.recipient_is_associated_token_account;
    is_solana_pay_transfer = init.init_ix.is_solana_pay_transfer;
    encrypted_owner = of_finalize (λ f. some f.finalize_ix.encrypted_owner) finalize;
    warden = init.warden_acc;
    extra_fee = init_extra_fee init.init_ix.details;
  }

  module _ (program : String) where
    unfoldable pub try_parse_raw_send_from_decryption_key :
        List Message → List SigInfo → List ℕ → String → Option Rvk → ℕ → Result PartialSendTx
    unfolding find_send_init_tx find_send_finalize_tx try_parse_variable_init is_elusiv_ix
        parse_finalize_message send_tx_of
    try_parse_raw_send_from_decryption_key raw_send signature decryption_key identifier rvk nonce =
        do
          init_tx ← init_or_invalid (message_of (find_send_init_tx program raw_send identifier))
          (init, finalize) ←
              throw_instead
                (do
                  init ←
                      try_parse_variable_init lib codecs
                        (keep_if (is_elusiv_ix program) (decoded_ixs init_tx)) rvk
                  finalize ←
                      parse_finalize_message
                        (message_of (find_send_finalize_tx program raw_send identifier))
                        decryption_key
                  ok (init, finalize))
                (err failed_to_parse)
          sig ← first_signature signature
          ok (send_tx_of init finalize sig nonce)

    unfoldable pub try_parse_raw_send :
        List Message → List SigInfo → ℕ → String → Rvk → Result PartialSendTx
    unfolding try_parse_raw_send_from_decryption_key
    try_parse_raw_send raw_send signature nonce identifier rvk =
        try_parse_raw_send_from_decryption_key raw_send signature
          (rvk.generate_decryption_key nonce) identifier (some rvk) nonce
