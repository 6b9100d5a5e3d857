-- ===== src/TxFetch/Tests.antt =====
-- Concrete fetches, and the theorems on planning and cutting them at concrete inputs.
use elusiv_sdk.Base.{
  Bool, true, Option, none, some, List, [], ◌∷◌, ◌≡◌, refl, arith, All, ◌⊎◌, ◌==◌,
}
use elusiv_sdk.Base.Int.{ℤ, pos, minus_one, ◌-ℤ◌, pos_part}
use elusiv_sdk.Transaction.{ElusivTransaction}
use elusiv_sdk.Transaction.Samples.{sample_topup, sample_send}
use elusiv_sdk.TxFetch.{
  TxFetchingInputs, CachedRange, prepare_tx_fetching_params, plan_batches, fetch_fuel,
  get_txs_in_nonce_range, keep_defined,
}
use elusiv_sdk.TxFetch.Plan.{fetch_plan_complete, ◌<ℤ◌, IsPlanned, IsBatch}
use elusiv_sdk.TxFetch.Select.{IsNonceCut, IsDescending, get_txs_in_nonce_range-IsNonceCut}

abbrev fetched_range : CachedRange
fetched_range = record { before = pos 9; after = minus_one }

abbrev three_of_nine : TxFetchingInputs
three_of_nine = record { batch_size = 5; before = pos 7; after = pos 3 }

prepared : prepare_tx_fetching_params fetched_range (some 3) 5 (some (pos 7)) ≡ three_of_nine
unfolding prepare_tx_fetching_params
prepared = refl

-- A cached nonce moves the plan by one, an uncached one by a batch.
abbrev is_six : ℤ → Bool
is_six n = pos_part n == 6

planned :
    plan_batches (fetch_fuel three_of_nine) 2 (pos 3) is_six (pos 6)
    ≡ some (record { before = pos 6; after = pos 3 } ∷ [])
unfolding plan_batches ◌-ℤ◌
planned = refl

abbrev newest_first : List (Option ElusivTransaction)
newest_first =
    some (sample_topup 4 1)
    ∷ none
    ∷ some (sample_send 3 2)
    ∷ some (sample_topup 3 1)
    ∷ some (sample_topup 2 9)
    ∷ []

-- Two are asked for, and a third comes with the nonce of the second.
cut_three :
    get_txs_in_nonce_range newest_first (some 2)
    ≡ some (sample_topup 4 1 ∷ sample_send 3 2 ∷ sample_topup 3 1 ∷ [])
unfolding get_txs_in_nonce_range
cut_three = refl

newest_first-IsDescending : IsDescending (keep_defined newest_first)
newest_first-IsDescending = ground arith

get_txs_in_nonce_range-IsNonceCut_example :
    (res : List ElusivTransaction) × (get_txs_in_nonce_range newest_first (some 2) ≡ some res)
    × IsNonceCut (keep_defined newest_first) 2 res
get_txs_in_nonce_range-IsNonceCut_example =
    get_txs_in_nonce_range-IsNonceCut newest_first 1 newest_first-IsDescending

fetch_plan_complete_example :
    (batches : List CachedRange) × (plan_batches
        (fetch_fuel three_of_nine)
        three_of_nine.batch_size
        three_of_nine.after
        is_six
        (three_of_nine.before -ℤ pos 1)
      ≡ some batches)
    × ((n : ℤ)
        → three_of_nine.after <ℤ n
        → n <ℤ three_of_nine.before
        → (is_six n ≡ true) ⊎ IsPlanned n batches)
    × All (IsBatch three_of_nine.batch_size three_of_nine.after is_six three_of_nine.before) batches
fetch_plan_complete_example = fetch_plan_complete three_of_nine is_six (omega arith)
