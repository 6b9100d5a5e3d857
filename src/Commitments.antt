-- ===== src/Commitments.antt =====
-- src/sdk/paramManagers/CommitmentManager.ts: rebuilding the commitments of transactions, and pairing
-- them with the places in the tree from which to search for them.
-- A commitment (of @elusiv/cryptojs), the seed's nullifiers, the tree search of TreeManager.ts and the
-- slow balance of TransactionManager.ts are parameters. A bigint's `toString` is one to one, so a
-- commitment's id in a set is the number itself. Promises are awaited in the order of the code.
pub mod Pairing
pub mod Fallback
pub mod Tests
use elusiv_sdk.Base.{
  ℕ, zero, suc, ◌+◌, Bool, true, false, Option, none, some, List, [], ◌∷◌, ◌++◌, map, length,
  if◌then◌else◌, ltb, ◌==◌,
}
use elusiv_sdk.Base.Int.{ℤ, pos, ◌+ℤ◌, ◌-ℤ◌}
use elusiv_sdk.Base.Eq.{nat_eq}
use elusiv_sdk.Result.{
  Result, ok, err, map_result, different_lengths, invalid_size, invalid_access,
  failed_to_reconstruct, ◌>>=◌,
}
use elusiv_sdk.Constants.{send_arity}
use elusiv_sdk.Token.{TokenType, get_number_from_token_type}
use elusiv_sdk.Transaction.{ElusivTransaction, CommitmentMetadata, TxType, topup, send}
use elusiv_sdk.GeneralSet.{GeneralSet, empty_set, add, add_arr, to_array}

-- src/sdk/utils/utils.ts
unfoldable pub zip_same_length {ℓ κ} :
    {A : Type ℓ} {B : Type κ} → List A → List B → Result (List (A × B))
zip_same_length [] [] = ok []
zip_same_length (a ∷ as') (b ∷ bs) = do rest ← zip_same_length as' bs; ok ((a, b) ∷ rest)
zip_same_length _ _ = err different_lengths

-- The default is always the last defined start index.
unfoldable pub normalize_from : ℕ → List (Option ℕ) → List ℕ
normalize_from default_start_index [] = []
normalize_from default_start_index (none ∷ sis) =
    default_start_index ∷ normalize_from default_start_index sis
normalize_from default_start_index (some si ∷ sis) = si ∷ normalize_from si sis

unfoldable pub normalize_start_indices : List (Option ℕ) → List ℕ
unfolding normalize_from
normalize_start_indices start_indices = normalize_from 0 start_indices

unfoldable pub need_merge {ℓ} : {C : Type ℓ} → List C → Result Bool
need_merge active_commitments =
    if ltb send_arity (length active_commitments)
    then err invalid_size
    else ok (length active_commitments == send_arity)

-- What the manager uses of a commitment, and of the other components.
pub record Commitments (C : Type 0) : Type 0 where
  pub incomplete : List ℕ → ℤ → ℕ → ℕ → C
  pub hash : C → List ℕ
  pub hash_big_int : C → ℕ
  pub generate_nullifier : ℕ → List ℕ
  pub equals_uint8_arr : List ℕ → List ℕ → Bool
  pub private_balance_from_tx_history : TokenType → ℕ → Result ℤ

-- The transactions of one type, in their order.
abbrev pub of_type : TxType → List ElusivTransaction → List ElusivTransaction
of_type ty [] = []
of_type topup (tx ∷ txs) =
    let rest = of_type topup txs in elim tx.tx_type [ topup ↦ tx ∷ rest | send ↦ rest ]
of_type send (tx ∷ txs) =
    let rest = of_type send txs in elim tx.tx_type [ topup ↦ rest | send ↦ tx ∷ rest ]

-- `res.map((r, i) => …ics[i]…)`: one completed commitment for each info.
unfoldable pub complete_all {ℓ κ λ'} :
    {C : Type ℓ} {I : Type κ} {D : Type λ'} → (C → I → D) → List C → List I → Result (List D)
complete_all complete ics [] = ok []
complete_all complete [] (info ∷ infos) = err invalid_access
complete_all complete (ic ∷ ics) (info ∷ infos) = do
  rest ← complete_all complete ics infos
  ok (complete ic info ∷ rest)

module _ {C : Type 0} (lib : Commitments C) where
  unfoldable pub build_commitment_for_partial_store : ElusivTransaction → Result C
  unfolding get_number_from_token_type
  build_commitment_for_partial_store tx = do
    token ← get_number_from_token_type tx.token_type
    ok (
        lib.incomplete (lib.generate_nullifier tx.nonce) (pos tx.amount) token
          tx.merkle_start_index)

  -- The fees for an extra party and for rent are part of `send_amount` already.
  unfoldable pub build_commitment_for_send : List ℕ → TokenType → ℤ → ℕ → ℤ → ℕ → Result C
  unfolding get_number_from_token_type ◌-ℤ◌
  build_commitment_for_send nullifier token_type balance_before send_amount total_fee assoc = do
    token ← get_number_from_token_type token_type
    ok (lib.incomplete nullifier (balance_before -ℤ pos send_amount -ℤ total_fee) token assoc)

  unfoldable pub build_commitment_for_partial_send : ElusivTransaction → ℤ → Result C
  unfolding build_commitment_for_send
  build_commitment_for_partial_send tx balance_before =
      build_commitment_for_send (lib.generate_nullifier tx.nonce) tx.token_type balance_before
        tx.amount (pos tx.fee) tx.merkle_start_index

  unfoldable pub comm_from_metadata : CommitmentMetadata → Result C
  unfolding get_number_from_token_type
  comm_from_metadata meta = do
    token ← get_number_from_token_type meta.token_type
    ok (
        lib.incomplete (lib.generate_nullifier meta.nonce) (pos meta.balance) token
          meta.assoc_comm_index)

  -- The slow way, from the history.
  unfoldable pub rebuild_from_history : ElusivTransaction → Result C
  unfolding build_commitment_for_partial_send
  rebuild_from_history tx = do
    balance ← lib.private_balance_from_tx_history tx.token_type tx.nonce
    slow ← build_commitment_for_partial_send tx balance
    if lib.equals_uint8_arr (lib.hash slow) tx.commitment_hash
        then ok slow
        else err failed_to_reconstruct

  unfoldable pub with_metadata : ElusivTransaction → Option CommitmentMetadata → Result C
  unfolding comm_from_metadata rebuild_from_history
  with_metadata tx none = rebuild_from_history tx
  with_metadata tx (some meta) = do
    quick ← comm_from_metadata meta
    if lib.equals_uint8_arr (lib.hash quick) tx.commitment_hash
        then ok quick
        else rebuild_from_history tx

  unfoldable pub get_commitment_for_partial_send : ElusivTransaction → Result C
  unfolding with_metadata
  get_commitment_for_partial_send tx = with_metadata tx tx.metadata

  unfoldable pub get_commitment_for_transaction : ElusivTransaction → Result C
  unfolding build_commitment_for_partial_store get_commitment_for_partial_send
  get_commitment_for_transaction tx = elim tx.tx_type [
    | topup ↦ build_commitment_for_partial_store tx
    | send ↦ get_commitment_for_partial_send tx
  ]

  -- `forEach` adds the commitments of topups at once and only starts the sends', which are added when
  -- all of them are there; the start indices are collected in the order of the transactions.
  unfoldable pub get_incomplete_commitments_for_txs :
      List ElusivTransaction → Result (GeneralSet ℕ C × List (Option ℕ))
  unfolding build_commitment_for_partial_store get_commitment_for_partial_send add_arr map_result
  get_incomplete_commitments_for_txs txs = do
    topups ← map_result build_commitment_for_partial_store (of_type topup txs)
    sends ← map_result get_commitment_for_partial_send (of_type send txs)
    ok (
      add_arr lib.hash_big_int sends (add_arr lib.hash_big_int topups empty_set),
      map (λ (tx : ElusivTransaction). some tx.merkle_start_index) txs,
    )

  -- The searches that `activateCommitments` asks the tree for: each commitment with the place from
  -- which to search for it.
  unfoldable pub activation_requests : GeneralSet ℕ C → List (Option ℕ) → Result (List (List ℕ × ℕ))
  unfolding zip_same_length normalize_start_indices to_array
  activation_requests incomplete_commitments start_indices =
      zip_same_length (map lib.hash (to_array incomplete_commitments))
        (normalize_start_indices start_indices)

  -- `activateCommitments`: `infos` is `treeManager.getCommitmentsInfo`, and `complete` makes the
  -- commitment with its tree data.
  unfoldable pub activate_commitments {κ λ'} :
      {I : Type κ} {D : Type λ'} (infos : List (List ℕ × ℕ) → Result (List I))
      (complete : C → I → D)
      → (D → ℕ)
      → GeneralSet ℕ C
      → List (Option ℕ)
      → Result (GeneralSet ℕ D)
  unfolding activation_requests add_arr to_array complete_all
  activate_commitments infos complete id_of incomplete_commitments start_indices = do
    requests ← activation_requests incomplete_commitments start_indices
    found ← infos requests
    completed ← complete_all complete (to_array incomplete_commitments) found
    ok (add_arr id_of completed empty_set)
