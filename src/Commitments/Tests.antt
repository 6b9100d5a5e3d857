-- ===== src/Commitments/Tests.antt =====
-- Concrete commitments: one is its balance and its start index, and the theorems on them.
use elusiv_sdk.Base.{
  ℕ, Bool, true, false, none, some, List, [], ◌∷◌, ◌++◌, map, ◌≡◌, refl, if◌then◌else◌, ◌==◌,
}
use elusiv_sdk.Base.Int.{pos, pos_part}
use elusiv_sdk.Base.Eq.{nat_eq}
use elusiv_sdk.Base.JsMap.{map_has}
use elusiv_sdk.Result.{ok, map_result, ◌>>=◌}
use elusiv_sdk.Transaction.{ElusivTransaction}
use elusiv_sdk.Transaction.Samples.{sample_topup, sample_send}
use elusiv_sdk.GeneralSet.Laws.{HasFreshIds}
use elusiv_sdk.Commitments.{
  Commitments, zip_same_length, normalize_start_indices, get_commitment_for_transaction,
  get_commitment_for_partial_send, get_incomplete_commitments_for_txs, activation_requests,
}
use elusiv_sdk.Commitments.Pairing.{merkle_starts, topups_first_paired, send_before_topup_swapped}
use elusiv_sdk.Commitments.Fallback.{Matches, get_commitment_for_partial_send-Matches}

abbrev bytes_same : List ℕ → List ℕ → Bool
bytes_same [] [] = true
bytes_same (a ∷ as') (b ∷ bs) = if a == b then bytes_same as' bs else false
bytes_same _ _ = false

-- A commitment is its nonce, its balance and its start index; the hash is the balance alone.
abbrev Comm : Type 0
Comm = List ℕ × ℕ × ℕ

abbrev sample_lib : Commitments Comm
sample_lib = record {
  incomplete = λ nullifier balance token start. (nullifier, pos_part balance, start);
  hash = λ c. c.1 ∷ [];
  hash_big_int = λ c. c.1;
  generate_nullifier = λ nonce. nonce ∷ [];
  equals_uint8_arr = bytes_same;
  private_balance_from_tx_history = λ token nonce. ok (pos 50);
}

-- The hash is the balance that the metadata gives.
abbrev quick_send : ElusivTransaction
quick_send = record (sample_send 3 20) { commitment_hash = 60 ∷ [] }

defaults : normalize_start_indices (none ∷ some 7 ∷ none ∷ []) ≡ 0 ∷ 7 ∷ 7 ∷ []
unfolding normalize_start_indices
defaults = refl

quick : get_commitment_for_partial_send sample_lib quick_send ≡ ok (3 ∷ [], 60, 3)
unfolding get_commitment_for_partial_send
quick = refl

quick_send_comm : get_commitment_for_transaction sample_lib quick_send ≡ ok (3 ∷ [], 60, 3)
unfolding get_commitment_for_transaction
quick_send_comm = refl

topup_comm : get_commitment_for_transaction sample_lib (sample_topup 3 7) ≡ ok (3 ∷ [], 7, 103)
unfolding get_commitment_for_transaction
topup_comm = refl

both_comms :
    map_result (get_commitment_for_transaction sample_lib) (sample_topup 3 7 ∷ quick_send ∷ [])
    ≡ ok ((3 ∷ [], 7, 103) ∷ (3 ∷ [], 60, 3) ∷ [])
unfolding map_result get_commitment_for_transaction
both_comms = refl

fresh_comms : HasFreshIds sample_lib.hash_big_int ((3 ∷ [], 7, 103) ∷ (3 ∷ [], 60, 3) ∷ []) []
unfolding map_has
fresh_comms = (refl, (refl, tt))

topups_first_paired_example :
    (get_incomplete_commitments_for_txs sample_lib ((sample_topup 3 7 ∷ []) ++ (quick_send ∷ []))
      >>= λ r. activation_requests sample_lib r.0 r.1)
    ≡ zip_same_length
        (map sample_lib.hash ((3 ∷ [], 7, 103) ∷ (3 ∷ [], 60, 3) ∷ []))
        (merkle_starts ((sample_topup 3 7 ∷ []) ++ (quick_send ∷ [])))
topups_first_paired_example =
    topups_first_paired sample_lib (sample_topup 3 7 ∷ []) (quick_send ∷ [])
      ((3 ∷ [], 7, 103) ∷ (3 ∷ [], 60, 3) ∷ []) (refl, tt) (refl, tt) both_comms fresh_comms

send_before_topup_swapped_example :
    (get_incomplete_commitments_for_txs sample_lib (quick_send ∷ sample_topup 3 7 ∷ []) >>= λ r.
    activation_requests sample_lib r.0 r.1)
    ≡ ok (
        (sample_lib.hash (3 ∷ [], 7, 103), quick_send.merkle_start_index)
        ∷ (sample_lib.hash (3 ∷ [], 60, 3), (sample_topup 3 7).merkle_start_index)
        ∷ [])
send_before_topup_swapped_example =
    send_before_topup_swapped sample_lib quick_send (sample_topup 3 7) (3 ∷ [], 60, 3)
      (3 ∷ [], 7, 103) refl refl quick_send_comm topup_comm fresh_comms

get_commitment_for_partial_send-Matches_example : Matches sample_lib quick_send (3 ∷ [], 60, 3)
get_commitment_for_partial_send-Matches_example =
    get_commitment_for_partial_send-Matches sample_lib quick_send (3 ∷ [], 60, 3) quick
