-- ===== src/Transaction.antt =====
-- src/sdk/transactions: the transaction record that the managers pass on. A bigint amount of the
-- chain is a natural number, a byte array a list of numbers, and an object that the code compares by
-- identity (a signature) the number of that object. `PublicKey` fields are left out: the modelled
-- code only copies them.
pub mod Samples
use elusiv_sdk.Base.{ℕ, Option, List, Bool, true, false, ◌≡◌, ◌↔◌, arith}
use elusiv_sdk.Token.{TokenType}

pub data TxType : Type 0 where
  topup send : TxType

abbrev pub tx_type_beq : TxType → TxType → Bool
tx_type_beq topup topup = true
tx_type_beq send send = true
tx_type_beq _ _ = false

pub data TransactionStatus : Type 0 where
  pending processed confirmed : TransactionStatus

-- src/sdk/clientCrypto/CommitmentMetadata.ts: the fields.
pub record CommitmentMetadata : Type 0 where
  pub nonce : ℕ
  pub token_type : TokenType
  pub assoc_comm_index : ℕ
  pub balance : ℕ

-- `metadata` is a field of `PartialSendTx`, and `none` for a topup and a legacy send.
pub record ElusivTransaction : Type 0 where
  pub nonce : ℕ
  pub tx_type : TxType
  pub token_type : TokenType
  pub amount : ℕ
  pub fee : ℕ
  pub commitment_hash : List ℕ
  pub merkle_start_index : ℕ
  pub transaction_status : Option TransactionStatus
  pub signature : Option ℕ
  pub metadata : Option CommitmentMetadata
