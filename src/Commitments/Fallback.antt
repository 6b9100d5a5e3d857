-- ===== src/Commitments/Fallback.antt =====
-- CommitmentManager.ts, `getCommitmentForPartialSend`: the quick way from the metadata is only taken
-- when its commitment has the hash that the chain shows.
use elusiv_sdk.Base.{true, Option, none, some, ◌≡◌, Bool-cases, inl, inr, if◌then◌else◌}
use elusiv_sdk.Result.{Result, ok, err, failed_to_reconstruct, ◌>>=◌, >>=-eq-ok, ok-injective}
use elusiv_sdk.Transaction.{ElusivTransaction, CommitmentMetadata}
use elusiv_sdk.Commitments.{
  Commitments, comm_from_metadata, rebuild_from_history, build_commitment_for_partial_send,
  with_metadata, get_commitment_for_partial_send,
}

module _ {C : Type 0} (lib : Commitments C) where
  -- The commitment has the hash that the chain shows for the transaction.
  abbrev pub Matches : ElusivTransaction → C → Type 0
  Matches tx c = lib.equals_uint8_arr (lib.hash c) tx.commitment_hash ≡ true

  checked :
      (tx : ElusivTransaction) (made other : Result C) (c : C)
      → ((d : C) → other ≡ ok d → Matches tx d)
      → (made >>= λ d. if lib.equals_uint8_arr (lib.hash d) tx.commitment_hash then ok d else other)
        ≡ ok c
      → Matches tx c
  checked tx (err x) other c k e = cc
  checked tx (ok d) other c k e =
      elim (Bool-cases (lib.equals_uint8_arr (lib.hash d) tx.commitment_hash)) [
        | inl same ↦ rw (← ok-injective (rw same at e)) same
        | inr differs ↦ k c (rw differs at e)
      ]

  rebuild_from_history-Matches :
      (tx : ElusivTransaction) (c : C) → rebuild_from_history lib tx ≡ ok c → Matches tx c
  unfolding rebuild_from_history
  rebuild_from_history-Matches tx c e =
      let (balance, known, e1) =
        >>=-eq-ok (lib.private_balance_from_tx_history tx.token_type tx.nonce) _ e in
      checked tx (build_commitment_for_partial_send lib tx balance) (err failed_to_reconstruct) c
        (λ d w. cc) e1

  with_metadata-Matches :
      (tx : ElusivTransaction) (m : Option CommitmentMetadata) (c : C)
      → with_metadata lib tx m ≡ ok c
      → Matches tx c
  with_metadata-Matches tx none c e = rebuild_from_history-Matches tx c (unfold with_metadata in e)
  with_metadata-Matches tx (some meta) c e =
      checked tx (comm_from_metadata lib meta) (rebuild_from_history lib tx) c
        (rebuild_from_history-Matches tx) (unfold with_metadata in e)

  -- Whatever the metadata says, a commitment that is returned has the hash that the chain shows.
  pub get_commitment_for_partial_send-Matches :
      (tx : ElusivTransaction) (c : C)
      → get_commitment_for_partial_send lib tx ≡ ok c
      → Matches tx c
  unfolding get_commitment_for_partial_send
  get_commitment_for_partial_send-Matches tx c e = with_metadata-Matches tx tx.metadata c e
