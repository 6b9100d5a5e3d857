-- ===== src/TxManager/Tests.antt =====
-- Concrete histories, and the theorems on balances at concrete inputs.
use elusiv_sdk.Base.{arith, ℕ, none, some, List, [], ◌∷◌, ◌++◌, ◌≡◌, refl, ap, sym, Option}
use elusiv_sdk.Base.Int.{pos, ◌+ℤ◌, ◌-ℤ◌}
use elusiv_sdk.Result.{ok}
use elusiv_sdk.Transaction.{ElusivTransaction, CommitmentMetadata, confirmed}
use elusiv_sdk.Transaction.Samples.{sample_topup, sample_send}
use elusiv_sdk.TxManager.{add_batch, settle_batch, settled}
use elusiv_sdk.TxManager.Active.{
  HasOwnSignatures, IsActive, confirm_first, active_txs, active_txs-IsActive,
}
use elusiv_sdk.TxManager.Balance.{HasRightMetadata, settle_batch-add_batch}

-- The send at nonce 3 leaves 60 of the 85 topped up before it; the topup with its nonce came after.
abbrev older_txs : List ElusivTransaction
older_txs = sample_topup 0 85 ∷ []

abbrev last_batch : List ElusivTransaction
last_batch = sample_topup 4 9 ∷ sample_send 3 20 ∷ sample_topup 3 7 ∷ []

history_balance : add_batch (last_batch ++ older_txs) (pos 0) ≡ pos 76
unfolding add_batch ◌+ℤ◌ ◌-ℤ◌
history_balance = refl

settled_balance : settle_batch last_batch (pos 0) ≡ ok (settled (pos 76))
unfolding settle_batch ◌+ℤ◌ ◌-ℤ◌
settled_balance = refl

balance_or : ℕ → Option CommitmentMetadata → ℕ
balance_or d none = d
balance_or d (some m) = m.balance

last_batch-HasRightMetadata : HasRightMetadata older_txs last_batch
unfolding add_batch balance_or ◌+ℤ◌ ◌-ℤ◌
last_batch-HasRightMetadata =
    (λ m e _. cc, (λ m _ e. ap (λ o. pos (balance_or 60 o)) (sym e), (λ m e _. cc, tt)))

settle_batch-add_batch_example : pos 76 ≡ add_batch (last_batch ++ older_txs) (pos 0)
settle_batch-add_batch_example =
    settle_batch-add_batch older_txs last_batch (pos 0) (pos 76) last_batch-HasRightMetadata
      settled_balance

-- The topup with the send's nonce comes along, the older one does not.
active :
    active_txs (last_batch ++ older_txs)
    ≡ record (sample_topup 4 9) { transaction_status = some confirmed }
      ∷ sample_send 3 20
      ∷ sample_topup 3 7
      ∷ []
unfolding active_txs
active = refl

last_batch-HasOwnSignatures : HasOwnSignatures last_batch
last_batch-HasOwnSignatures = ground arith

active_txs-IsActive_example : IsActive (confirm_first last_batch) (active_txs last_batch)
active_txs-IsActive_example = active_txs-IsActive last_batch last_batch-HasOwnSignatures
