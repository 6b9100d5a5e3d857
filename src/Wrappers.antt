-- ===== src/Wrappers.antt =====
-- src/public/transactionWrappers/TxWrappers.ts, with getPrivateTransactions of src/public/elusivViewer.ts
-- and getOwnerFromAcc of src/sdk/utils/pubKeyUtils.ts: past transactions as the user is shown them. A
-- transaction is what Parsing makes of the chain's responses. What the node answers about an account is
-- a parameter, as are the curve and the addresses of @solana.
pub mod Laws
pub mod Tests
use elusiv_sdk.Base.{
  ℕ, Bool, true, false, ◌||◌, String, Option, none, some, List, [], ◌∷◌, if◌then◌else◌,
}
use elusiv_sdk.Base.Int.{ℤ, pos, ◌-ℤ◌}
use elusiv_sdk.Base.Eq.{beq, string_eq}
use elusiv_sdk.Result.{Result, ok, err, map_result, map_ok, missing_signature, account_error, ◌>>=◌}
use elusiv_sdk.Token.{TokenType, lamports, token_beq}
use elusiv_sdk.Transaction.{ElusivTransaction, TxType, topup, send, TransactionStatus, confirmed}
use elusiv_sdk.Parsing.Raw.{PartialStoreTx, PartialSendTx}
use elusiv_sdk.Parsing.Response.{Converted, converted_store, converted_send, converted_base}

-- The fields of `SendTxWrapper` and `TopUpTxWrapper` that the other one lacks.
pub data WrapperDetails : Type 0 where
  send_details : Option String → Bool → Option String → ℕ → Option String → WrapperDetails
  topup_details : Option String → WrapperDetails

pub record PrivateTxWrapper : Type 0 where
  pub tx_type : TxType
  pub amount : ℤ
  pub fee : ℕ
  pub sig : ℕ
  pub token_type : TokenType
  pub transaction_status : Option TransactionStatus
  pub warden : Option String
  pub nonce : ℕ
  pub details : WrapperDetails

abbrev pub signature_or_throw : Option ℕ → Result ℕ
signature_or_throw none = err missing_signature
signature_or_throw (some signature) = ok signature

-- What `getAccount` answers: an account with its owner, one of the two errors that stand for a missing
-- account, or another error.
pub data AccountLookup : Type 0 where
  found : String → AccountLookup
  missing failed : AccountLookup

pub record Accounts : Type 0 where
  pub system_program : String
  pub is_on_curve : String → Bool
  pub get_account : String → AccountLookup
  pub get_associated_token_acc : String → TokenType → String

abbrev pub exists_of : AccountLookup → Result Bool
exists_of (found owner) = ok true
exists_of missing = ok false
exists_of failed = err account_error

module _ (env : Accounts) where
  -- The system program stands for no reference key.
  abbrev pub reference_of : Option String → Option String
  reference_of none = none
  reference_of (some key) = if beq env.system_program key then none else some key

  unfoldable pub to_wrapper_send : PartialSendTx → Result PrivateTxWrapper
  to_wrapper_send tx = do
    sig ← signature_or_throw tx.base.signature
    ok (record {
      tx_type = tx.base.tx_type;
      amount = pos tx.base.amount -ℤ pos tx.extra_fee.amount;
      fee = tx.base.fee;
      sig = sig;
      token_type = tx.base.token_type;
      transaction_status = tx.base.transaction_status;
      warden = tx.warden;
      nonce = tx.base.nonce;
      details =
          send_details tx.recipient tx.is_solana_pay_transfer (reference_of tx.ref_key)
            tx.extra_fee.amount tx.memo;
    })

  unfoldable pub to_wrapper_top_up : PartialStoreTx → Result PrivateTxWrapper
  to_wrapper_top_up tx = do
    sig ← signature_or_throw tx.base.signature
    ok (record {
      tx_type = tx.base.tx_type;
      amount = pos tx.base.amount;
      fee = tx.base.fee;
      sig = sig;
      token_type = tx.base.token_type;
      transaction_status = tx.base.transaction_status;
      warden = tx.warden;
      nonce = tx.base.nonce;
      details = topup_details tx.sender;
    })

  unfoldable pub to_private_tx_wrapper : Converted → Result PrivateTxWrapper
  unfolding to_wrapper_send to_wrapper_top_up
  to_private_tx_wrapper (converted_store tx) = to_wrapper_top_up tx
  to_private_tx_wrapper (converted_send tx) = to_wrapper_send tx

  unfoldable pub token_acc_exists : String → Result Bool
  token_acc_exists acc = exists_of (env.get_account acc)

  -- The `catch` of `getOwnerFromAcc`.
  abbrev pub owner_or : String → Bool → Result String
  owner_or acc exists = if exists then ok acc else err account_error

  unfoldable pub get_owner_from_acc : String → TokenType → Result String
  unfolding token_acc_exists
  get_owner_from_acc acc token_type =
      if token_beq token_type lamports || env.is_on_curve acc
      then ok acc
      else elim (env.get_account acc) [
        | found owner ↦ ok owner
        | missing ↦
            (token_acc_exists (env.get_associated_token_acc acc token_type) >>= owner_or acc)
        | failed ↦ err account_error
      ]

  -- The recipient of a send becomes the owner of its token account.
  unfoldable pub owner_details : TokenType → WrapperDetails → Result WrapperDetails
  unfolding get_owner_from_acc
  owner_details token_type (topup_details origin) = ok (topup_details origin)
  owner_details token_type (send_details none solana_pay reference extra memo) =
      ok (send_details none solana_pay reference extra memo)
  owner_details token_type (send_details (some acc) solana_pay reference extra memo) = do
    owner ← get_owner_from_acc acc token_type
    ok (send_details (some owner) solana_pay reference extra memo)

  unfoldable pub with_owner : PrivateTxWrapper → Result PrivateTxWrapper
  unfolding owner_details
  with_owner tx = do
    details ← owner_details tx.token_type tx.details
    ok (record tx { details = details })

  -- Whether the commitment of the latest transaction is inserted decides on its status.
  abbrev pub confirm_latest : Bool → List PrivateTxWrapper → List PrivateTxWrapper
  confirm_latest inserted [] = []
  confirm_latest inserted (latest ∷ older) =
      (if inserted then record latest { transaction_status = some confirmed } else latest) ∷ older

  unfoldable pub get_private_transactions : Bool → List Converted → Result (List PrivateTxWrapper)
  unfolding to_private_tx_wrapper with_owner map_result
  get_private_transactions inserted txs = do
    res ← map_result to_private_tx_wrapper txs
    map_result with_owner (confirm_latest inserted res)
