-- ===== src/Parsing/Find.antt =====
-- src/sdk/transactions/txParsing/TransactionParsing.ts: finding the messages of a store or a send.
use elusiv_sdk.Base.{
  ℕ, Bool, false, ◌||◌, String, Option, none, some, List, [], ◌∷◌, get_elem?, if◌then◌else◌, ◌==◌,
}
use elusiv_sdk.Token.{index_of}
use elusiv_sdk.Instruction.{Instruction}
use elusiv_sdk.Parsing.{
  decoded, parsed, Message, is_store_base_comm_ix, is_compute_hash_ix, is_init_verification_ix,
  is_finalize_verification_ix, is_send_ix, is_store_ix,
}

-- `instructions.some((ix) => isPartiallyDecodedInstruction(ix) && test(ix))`.
abbrev pub has_ix : (Instruction → Bool) → Message → Bool
has_ix test [] = false
has_ix test (parsed p ∷ ixs) = has_ix test ixs
has_ix test (decoded ix ∷ ixs) = test ix || has_ix test ixs

-- `instructions.find` with the same test.
abbrev pub find_ix : (Instruction → Bool) → Message → Option Instruction
find_ix test [] = none
find_ix test (parsed p ∷ ixs) = find_ix test ixs
find_ix test (decoded ix ∷ ixs) = let later = find_ix test ixs in if test ix then some ix else later

-- `{ tx: rawTxs[index], index }`, or `undefined` for -1.
abbrev pub tx_at : List Message → Option ℕ → Option (Message × ℕ)
tx_at raw_txs none = none
tx_at raw_txs (some index) = with_index (get_elem? raw_txs index)
  where
    with_index : Option Message → Option (Message × ℕ)
    with_index none = none
    with_index (some tx) = some (tx, index)

-- Both places are there, and are one.
abbrev pub same_index : Option ℕ → Option ℕ → Option ℕ
same_index (some i) (some j) = if i == j then some i else none
same_index _ _ = none

module _ (program : String) where
  unfoldable pub find_store_tx : List Message → String → Option (Message × ℕ)
  unfolding is_store_base_comm_ix is_compute_hash_ix
  find_store_tx raw_txs identifier = tx_at raw_txs (
      same_index (index_of (has_ix (λ ix. is_store_base_comm_ix program ix identifier)) raw_txs)
        (index_of (has_ix (λ ix. is_compute_hash_ix program ix identifier)) raw_txs))

  unfoldable pub find_send_init_tx : List Message → String → Option (Message × ℕ)
  unfolding is_init_verification_ix
  find_send_init_tx raw_txs identifier =
      tx_at raw_txs
        (index_of (has_ix (λ ix. is_init_verification_ix program ix identifier)) raw_txs)

  unfoldable pub find_send_finalize_tx : List Message → String → Option (Message × ℕ)
  unfolding is_finalize_verification_ix
  find_send_finalize_tx raw_txs identifier =
      tx_at raw_txs
        (index_of (has_ix (λ ix. is_finalize_verification_ix program ix identifier)) raw_txs)

  unfoldable pub get_send_finalize_ix : Message → String → Option Instruction
  unfolding is_finalize_verification_ix
  get_send_finalize_ix message id_pub_key =
      find_ix (λ ix. is_finalize_verification_ix program ix id_pub_key) message

  unfoldable pub get_send_init_ix : Message → String → Option Instruction
  unfolding is_init_verification_ix
  get_send_init_ix message id_pub_key =
      find_ix (λ ix. is_init_verification_ix program ix id_pub_key) message

  unfoldable pub is_send_tx : Message → String → Bool
  unfolding is_send_ix
  is_send_tx message id_pub_key = has_ix (λ ix. is_send_ix program ix id_pub_key) message

  unfoldable pub is_store_tx : Message → String → Bool
  unfolding is_store_ix
  is_store_tx message id_pub_key = has_ix (λ ix. is_store_ix program ix id_pub_key) message

  unfoldable pub is_elusiv_tx : Message → String → Bool
  unfolding is_store_tx is_send_tx
  is_elusiv_tx message id_pub_key = is_store_tx message id_pub_key || is_send_tx message id_pub_key
