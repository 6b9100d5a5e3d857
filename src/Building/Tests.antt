-- ===== src/Building/Tests.antt =====
-- Concrete topups and sends in lamports, where a commitment is its nullifier, balance, token and start
-- index, a proof is trivial and a price is 1.
use elusiv_sdk.Base.{ℕ, ◌≡◌, refl, true, false, none, some, List, [], ◌∷◌}
use elusiv_sdk.Base.Int.{ℤ, pos, ◌+ℤ◌}
use elusiv_sdk.Result.{ok, or_else}
use elusiv_sdk.Token.{
  lamports, get_number_from_token_type, get_token_type_from_number, get_token_info,
}
use elusiv_sdk.Metadata.{make_metadata}
use elusiv_sdk.Commitments.{build_commitment_for_send}
use elusiv_sdk.Fee.{Fee, get_store_fee, get_store_total_fee}
use elusiv_sdk.Fee.Amounts.{get_total_fee_amount}
use elusiv_sdk.Fee.Send.{ProofInputs, get_send_fee, get_send_total_fee, get_send_total_fee_inner}
use elusiv_sdk.Fee.Tests.{calculator, serialize}
use elusiv_sdk.Building.{
  Builder, IsBuilder, Pricing, TokenAcc, TopupRemoteParams, lamport_fee_to_token_fee,
  topup_params_to_send_params, is_greater_than_min_amount, is_valid_amount, sum_balances,
  from_commitment,
}
use elusiv_sdk.Building.Send.{
  SendTx, SendOptions, merge_recipient, merge_options, check_send, generate_send_fee,
  generate_next_send_commitment, build_send_tx,
}
use elusiv_sdk.Building.Balance.{IsBalanced, build_send_tx-IsBalanced}
use elusiv_sdk.Building.Topup.{
  StoreTx, generate_topup_fee, build_topup_commitment, build_store_tx, topup_store_tx,
}
use elusiv_sdk.Building.TopupLaws.{IsTopup, topup_store_tx-IsTopup}
use elusiv_sdk.Building.Merge.{topup_store_tx-build_send_tx}

abbrev pub Comm : Type 0
Comm = List ℕ × ℤ × ℕ × ℕ

abbrev pub builder : Builder Comm ProofInputs ℕ
builder = record {
  commitments = record {
    incomplete = λ nullifier balance token index. (nullifier, balance, token, index);
    hash = λ c. c.0;
    hash_big_int = λ c. 1;
    generate_nullifier = λ nonce. nonce ∷ [];
    equals_uint8_arr = λ a b. false;
    private_balance_from_tx_history = λ token nonce. ok (pos 0);
  };
  get_balance = λ c. c.1;
  get_token_id = λ c. c.2;
  get_assoc_comm_index = λ c. c.3;
  generate_nullifier = λ nonce. 5 ∷ [];
  get_identifier_key = λ nonce. "identifier";
  encrypt_owner = λ owner nonce. record { cipher_text = 1 ∷ []; iv = 2 ∷ [] };
  encrypt_metadata = λ m hash. ok (3 ∷ []);
  pub_key_to_big_int = λ key. 4;
  bytes_to_big_int_le = λ bytes. 5;
  utf8_bytes = λ text. [];
  serialize_uint256_le = serialize;
  system_program = "system";
  generate_proof_inputs = λ r. record {
    n_hashes = 1 ∷ [];
    roots = 7 ∷ [];
    fee_version = r.fee_version;
    token_id = r.token_id;
    optional_fee_amount = r.fee_amount;
  };
  fee_inputs = λ inputs. inputs;
  generate_proof = λ inputs next metadata. ok 6;
}

builder-IsBuilder : IsBuilder builder
builder-IsBuilder = record {
  keeps_balance = λ nullifier balance token index. refl;
  keeps_fee = λ r. refl;
}

abbrev pub one_to_one : Pricing
one_to_one = record {
  lamports_per_token = some 1;
  lamports_to_token = λ n. record { floor = n; ceil = n };
  buffered = λ b n. n;
}

abbrev pub params : TopupRemoteParams Comm
params = record {
  fee_calculator = calculator 100;
  merkle_start_index = 9;
  price = one_to_one;
  token_acc_rent = 2_000;
  fee_version_data = record { fee_version = 0; min_batching_rate = 2 };
  active_commitments =
      (1 ∷ [], pos 1_000_000, 0, 3)
      ∷ (2 ∷ [], pos 2_000_000, 0, 4)
      ∷ (3 ∷ [], pos 10_000, 0, 5)
      ∷ (4 ∷ [], pos 20_000, 0, 6)
      ∷ [];
  last_nonce = pos 3;
}

abbrev no_fee : Fee
no_fee = record {
  token_type = lamports;
  tx_fee = pos 0;
  privacy_fee = pos 0;
  token_acc_rent = pos 0;
  extra_fee = pos 0;
  lamports_per_token = none;
}

abbrev no_send : SendTx Comm ℕ
no_send = record {
  nonce = pos 0;
  token_type = lamports;
  commitment = ([], pos 0, 0, 0);
  fee = pos 0;
  encrypted_owner = record { cipher_text = []; iv = [] };
  amount = 0;
  merkle_start_index = 0;
  commitment_hash = [];
  recipient = "";
  is_associated_token_acc = false;
  options = merge_options builder none;
  input_commitments = none;
  proof = none;
  identifier = "";
  warden = "";
}

abbrev no_topup : StoreTx Comm
no_topup = record {
  nonce = pos 0;
  amount = 0;
  commitment = ([], pos 0, 0, 0);
  sender = "";
  token_type = lamports;
  parsed_private_balance = pos 0;
  merkle_start_index = 0;
  commitment_hash = [];
  is_recipient = false;
  hash_acc_index = 0;
  identifier = "";
  warden = "";
  fee = pos 0;
}

abbrev recipient : TokenAcc
recipient = record { owner = "recipient"; ta = "recipient"; exists = true }

abbrev options : SendOptions
options = record {
  ref_key = none;
  memo = none;
  extra_fee = record { amount = 50; collector = "collector" };
  is_solana_pay_transfer = false;
  is_merge = false;
}

abbrev sent : SendTx Comm ℕ × Fee
sent =
    or_else
      (build_send_tx builder 500_000 (topup_params_to_send_params params) lamports recipient "owner"
        "warden" options)
      (no_send, no_fee)

sent_built :
    build_send_tx builder 500_000
      (topup_params_to_send_params params)
      lamports
      recipient
      "owner"
      "warden"
      options
    ≡ ok sent
unfolding build_send_tx check_send is_greater_than_min_amount get_token_info
    get_number_from_token_type generate_send_fee get_send_fee get_send_total_fee
    get_send_total_fee_inner lamport_fee_to_token_fee generate_next_send_commitment
    build_commitment_for_send from_commitment get_token_type_from_number make_metadata
    topup_params_to_send_params sum_balances
sent_built = refl

build_send_tx-IsBalanced_example :
    IsBalanced builder (topup_params_to_send_params params) sent.0 sent.1
build_send_tx-IsBalanced_example =
    build_send_tx-IsBalanced builder 500_000 (topup_params_to_send_params params) lamports recipient
      "owner" "warden" options sent.0 sent.1 builder-IsBuilder sent_built

abbrev merged : SendTx Comm ℕ × Fee
merged =
    or_else
      (build_send_tx builder 0 (topup_params_to_send_params params) lamports
        (merge_recipient builder) "owner" "warden" (merge_options builder none))
      (no_send, no_fee)

merged_built :
    build_send_tx builder 0
      (topup_params_to_send_params params)
      lamports
      (merge_recipient builder)
      "owner"
      "warden"
      (merge_options builder none)
    ≡ ok merged
unfolding build_send_tx check_send get_number_from_token_type generate_send_fee get_send_fee
    get_send_total_fee get_send_total_fee_inner lamport_fee_to_token_fee
    generate_next_send_commitment build_commitment_for_send from_commitment
    get_token_type_from_number make_metadata topup_params_to_send_params sum_balances
merged_built = refl

abbrev topup : StoreTx Comm × Fee
topup =
    or_else
      (topup_store_tx builder 700_000 lamports "sender" true params "warden"
        (some (get_total_fee_amount merged.1)) 1)
      (no_topup, no_fee)

topup_built :
    topup_store_tx builder 700_000 lamports "sender" true params "warden"
      (some (get_total_fee_amount merged.1))
      1
    ≡ ok topup
unfolding topup_store_tx build_store_tx is_valid_amount get_token_info get_number_from_token_type
    generate_topup_fee get_store_fee get_store_total_fee lamport_fee_to_token_fee
    build_topup_commitment
topup_built = refl

topup_store_tx-IsTopup_example :
    IsTopup builder params (some (get_total_fee_amount merged.1)) 700_000 topup.0
topup_store_tx-IsTopup_example =
    topup_store_tx-IsTopup builder 700_000 lamports "sender" true params "warden"
      (some (get_total_fee_amount merged.1)) 1 topup.0 topup.1 builder-IsBuilder topup_built

topup_store_tx-build_send_tx_example :
    (topup.0.nonce ≡ merged.0.nonce +ℤ pos 1)
    × (topup.0.parsed_private_balance ≡ merged.0.commitment.1 +ℤ pos 700_000)
topup_store_tx-build_send_tx_example =
    topup_store_tx-build_send_tx builder 700_000 lamports "owner" "sender" true params "warden" none
      1 merged.0 merged.1 topup.0 topup.1 builder-IsBuilder (λ b. refl) merged_built topup_built
