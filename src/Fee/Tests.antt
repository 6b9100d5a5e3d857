-- ===== src/Fee/Tests.antt =====
-- Concrete fees, and the theorems on them at concrete inputs.
use elusiv_sdk.Base.{
  some, ℕ, zero, suc, ◌+◌, ◌-◌, ◌*◌, ◌/◌, ◌≤◌, ◌<◌, List, [], ◌∷◌, ◌≡◌, refl, arith, ltb→lt,
}
use elusiv_sdk.Base.Int.{ℤ, pos, negsuc, ◌+ℤ◌}
use elusiv_sdk.Result.{ok}
use elusiv_sdk.Fee.{
  Fee, FeeCalculator, div_ceil_big_int, proof_tx_compensation,
  get_input_preparation_tx_count_no_amount,
}
use elusiv_sdk.Token.{lamports}
use elusiv_sdk.Fee.Amounts.{add_fees}
use elusiv_sdk.Fee.Send.{get_send_fee_fixed_costs, get_send_total_fee_inner, get_send_privacy_fee}
use elusiv_sdk.Fee.Send.Laws.{
  send_cost, spare_start, IsEnough, get_send_total_fee_inner_pays, get_send_total_fee_inner_covered,
}

abbrev bytes_le : ℕ → ℕ → List ℕ
bytes_le zero n = []
bytes_le (suc k) n = (n - n / 256 * 256) ∷ bytes_le k (n / 256)

abbrev pub serialize : ℕ → List ℕ
serialize n = bytes_le 32 n

-- A calculator whose subvention for a proof is `subvention`.
abbrev pub calculator : ℕ → FeeCalculator
calculator subvention = record {
  program_fee = record {
    lamports_per_tx = 5000;
    base_commitment_network_fee = 10;
    proof_network_fee = 50;
    base_commitment_subvention = 0;
    proof_subvention = subvention;
    warden_hash_tx_reward = 300;
    warden_proof_reward = 700;
    proof_base_tx_count = 2;
  };
  min_batching_rate = 2;
}

five_thirds : div_ceil_big_int 5 3 ≡ ok 2
unfolding div_ceil_big_int
five_thirds = refl

one_input :
    get_input_preparation_tx_count_no_amount serialize (7 ∷ [])
    ≡ record { tx_count = 1; used_cus_last_tx = 52_000 }
unfolding get_input_preparation_tx_count_no_amount
one_input = refl

fixed_costs : get_send_fee_fixed_costs (calculator 100) ≡ ok 45_225
unfolding get_send_fee_fixed_costs
fixed_costs = refl

-- The subvention of 100,000 covers the costs, and the fee is below zero by the whole of it.
covered_fee :
    get_send_total_fee_inner serialize (calculator 100_000) (7 ∷ []) 1000 ≡ ok (negsuc 100_999)
unfolding get_send_total_fee_inner
covered_fee = refl

above :
    (calculator 100).program_fee.proof_subvention
    < send_cost serialize (calculator 100) (7 ∷ []) 1000 45_225
unfolding get_send_privacy_fee get_input_preparation_tx_count_no_amount proof_tx_compensation
above = ltb→lt _ _ refl

get_send_total_fee_inner_pays_example :
    (extra : ℕ) × (fee : ℤ) × (get_send_total_fee_inner serialize (calculator 100) (7 ∷ []) 1000
      ≡ ok fee)
    × (fee +ℤ pos 1000 +ℤ pos 100
        ≡ pos (
            send_cost serialize (calculator 100) (7 ∷ []) 1000 45_225
            + extra * proof_tx_compensation (calculator 100)))
    × IsEnough serialize
        (send_cost serialize (calculator 100) (7 ∷ []) 1000 45_225 - 100)
        (proof_tx_compensation (calculator 100))
        (spare_start serialize (7 ∷ []))
        extra
get_send_total_fee_inner_pays_example =
    get_send_total_fee_inner_pays serialize (calculator 100) (7 ∷ []) 1000 45_225 fixed_costs above

fixed_costs' : get_send_fee_fixed_costs (calculator 100_000) ≡ ok 45_225
unfolding get_send_fee_fixed_costs
fixed_costs' = refl

below : send_cost serialize (calculator 100_000) (7 ∷ []) 1000 45_225 ≤ 100_000
unfolding get_send_privacy_fee get_input_preparation_tx_count_no_amount proof_tx_compensation
below = omega arith

get_send_total_fee_inner_covered_example :
    (extra : ℕ) × (fee : ℤ) × (extra ≤ 1)
    × (get_send_total_fee_inner serialize (calculator 100_000) (7 ∷ []) 1000 ≡ ok fee)
    × (fee +ℤ pos 1000 +ℤ pos 100_000 ≡ pos (extra * proof_tx_compensation (calculator 100_000)))
get_send_total_fee_inner_covered_example =
    get_send_total_fee_inner_covered serialize (calculator 100_000) (7 ∷ []) 1000 45_225
      fixed_costs' below

abbrev some_fee : ℕ → Fee
some_fee n = record {
  token_type = lamports;
  tx_fee = pos n;
  privacy_fee = pos 1;
  token_acc_rent = pos 2;
  extra_fee = pos 3;
  lamports_per_token = some 1;
}

abbrev summed_fee : Fee
summed_fee = record {
  token_type = lamports;
  tx_fee = pos 15;
  privacy_fee = pos 2;
  token_acc_rent = pos 4;
  extra_fee = pos 6;
  lamports_per_token = some 1;
}

summed : add_fees (some_fee 10) (some_fee 5) ≡ ok summed_fee
unfolding add_fees
summed = refl
