-- ===== src/Transaction/Samples.antt =====
-- Concrete transactions for the tests of the modules.
use elusiv_sdk.Base.{ℕ, ◌+◌, none, some, ◌∷◌, []}
use elusiv_sdk.Token.{lamports}
use elusiv_sdk.Transaction.{ElusivTransaction, topup, send}

abbrev pub sample_topup : ℕ → ℕ → ElusivTransaction
sample_topup nonce amount = record {
  nonce = nonce;
  tx_type = topup;
  token_type = lamports;
  amount = amount;
  fee = 5;
  commitment_hash = nonce ∷ amount ∷ [];
  merkle_start_index = 100 + nonce;
  transaction_status = none;
  signature = some (10 + nonce);
  metadata = none;
}

abbrev pub sample_send : ℕ → ℕ → ElusivTransaction
sample_send nonce amount = record {
  nonce = nonce;
  tx_type = send;
  token_type = lamports;
  amount = amount;
  fee = 5;
  commitment_hash = 0 ∷ [];
  merkle_start_index = 200 + nonce;
  transaction_status = none;
  signature = some (20 + nonce);
  metadata =
      some (record { nonce = nonce; token_type = lamports; assoc_comm_index = 3; balance = 60 });
}
