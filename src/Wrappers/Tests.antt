-- ===== src/Wrappers/Tests.antt =====
-- A topup and a send with a fee for a third party, as the user is shown them.
use elusiv_sdk.Base.{◌≡◌, refl, true, false, none, some, List, [], ◌∷◌}
use elusiv_sdk.Result.{ok, err, or_else, map_result, account_error}
use elusiv_sdk.Token.{usdc}
use elusiv_sdk.Transaction.Samples.{sample_topup, sample_send}
use elusiv_sdk.Parsing.Response.{Converted, converted_store, converted_send}
use elusiv_sdk.Wrappers.{
  Accounts, found, missing, PrivateTxWrapper, to_private_tx_wrapper, to_wrapper_send,
  to_wrapper_top_up, token_acc_exists, get_owner_from_acc, owner_details, with_owner,
  get_private_transactions,
}
use elusiv_sdk.Wrappers.Laws.{ShowsAll, get_private_transactions-ShowsAll}

abbrev env : Accounts
env = record {
  system_program = "system";
  is_on_curve = λ acc. false;
  get_account = λ acc. found "owner";
  get_associated_token_acc = λ acc t. "associated";
}

abbrev shown_topup : Converted
shown_topup = converted_store (record {
  base = record (sample_topup 5 10) { signature = some 1 };
  sender = some "sender";
  parsed_private_balance = 0;
  hash_acc_index = 0;
  is_recipient = false;
  identifier = "id";
  warden = none;
})

abbrev shown_send : Converted
shown_send = converted_send (record {
  base = record (sample_send 4 90) { amount = 30; token_type = usdc; signature = some 2 };
  identifier = none;
  owner = none;
  memo = none;
  recipient = some "account";
  ref_key = some "system";
  is_associated_token_acc = false;
  is_solana_pay_transfer = false;
  encrypted_owner = none;
  warden = none;
  extra_fee = record { collector = "collector"; amount = 8 };
})

abbrev shown : List PrivateTxWrapper
shown = or_else (get_private_transactions env true (shown_topup ∷ shown_send ∷ [])) []

all_shown : get_private_transactions env true (shown_topup ∷ shown_send ∷ []) ≡ ok shown
unfolding get_private_transactions to_private_tx_wrapper to_wrapper_send to_wrapper_top_up
    map_result with_owner owner_details get_owner_from_acc token_acc_exists
all_shown = refl

get_private_transactions-ShowsAll_example :
    ShowsAll (some true) (shown_topup ∷ shown_send ∷ []) shown
get_private_transactions-ShowsAll_example =
    get_private_transactions-ShowsAll env true (shown_topup ∷ shown_send ∷ []) shown all_shown

-- An account that is missing has no owner, unless it owns a token account.
abbrev empty : Accounts
empty = record env { get_account = λ acc. missing }

no_owner : get_owner_from_acc empty "account" usdc ≡ err account_error
unfolding get_owner_from_acc token_acc_exists
no_owner = refl
