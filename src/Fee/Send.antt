-- ===== src/Fee/Send.antt =====
-- FeeCalculator.ts: the fee of a send. The amount is a public input itself, so the fee that is added
-- to it can call for one more transaction, which raises the fee.
pub mod Laws
use elusiv_sdk.Base.{
  ℕ, zero, suc, ◌+◌, ◌-◌, ◌*◌, ◌/◌, ◌^◌, Bool, true, false, List, some, [], ◌∷◌, ◌++◌,
  if◌then◌else◌, ltb,
}
use elusiv_sdk.Base.Int.{ℤ, pos, ltb_ℤ, ◌+ℤ◌, ◌-ℤ◌}
use elusiv_sdk.Result.{Result, ok, err, too_large_size, ◌>>=◌}
use elusiv_sdk.Constants.{merkle_tree_height, add_mixed_cost, add_cost, max_cus}
use elusiv_sdk.Token.{lamports}
use elusiv_sdk.Fee.{
  FeeCalculator, Fee, commitment_hash_fee, proof_tx_compensation, proof_verification_network_fee,
  get_input_preparation_tx_count_no_amount, get_tx_count_for_extra_input,
}

-- The fields that the fee depends on of `IncompleteSendQuadraProofInputs` (of elusiv-circuits).
pub record ProofInputs : Type 0 where
  pub n_hashes : List ℕ
  pub roots : List ℕ
  pub fee_version : ℕ
  pub token_id : ℕ
  pub optional_fee_amount : ℕ

-- `0b1…1` with 253 digits, for a hash that is not known yet.
abbrev pub ones_253 : ℕ
ones_253 = 2 ^ 253 - 1

unfoldable pub get_public_inputs_for_fee_calc : ProofInputs → ℕ → List ℕ
get_public_inputs_for_fee_calc inputs recent_comm_index =
    inputs.n_hashes
    ++ (inputs.roots
        ++ inputs.fee_version ∷ inputs.token_id ∷ ones_253 ∷ ones_253 ∷ recent_comm_index ∷ [])

unfoldable pub get_send_fee_fixed_costs : FeeCalculator → Result ℕ
unfolding commitment_hash_fee proof_tx_compensation
get_send_fee_fixed_costs c = do
  hash_fee ← commitment_hash_fee c
  ok (
      c.program_fee.warden_proof_reward
      + hash_fee
      + c.program_fee.proof_base_tx_count * proof_tx_compensation c)

unfoldable pub get_send_privacy_fee : FeeCalculator → ℕ → ℕ
unfolding proof_verification_network_fee
get_send_privacy_fee c amount = proof_verification_network_fee c amount

-- `Math.ceil((31 * ADD_MIXED_COST + ADD_COST) / MAX_CUS)`.
abbrev pub max_extra_tx : ℕ
max_extra_tx = (31 * add_mixed_cost + add_cost + max_cus - 1) / max_cus

-- What is left to pay of `cost`, and the subvention that remains. Where the subvention covers the cost
-- the code clears the cost before it subtracts it, so the subvention remains whole.
unfoldable pub apply_subvention : ℕ → ℕ → ℕ × ℕ
apply_subvention cost subvention =
    if ltb subvention cost then (cost - subvention, 0) else (0, subvention)

-- `getDummyIncompleteSendQuadraInputs`: numbers with as many 1 bits as 0 bits.
abbrev pub get_dummy_inputs : ProofInputs
get_dummy_inputs = record {
  n_hashes = alternating_256 ∷ alternating_256 ∷ alternating_256 ∷ alternating_256 ∷ [];
  roots = alternating_256 ∷ alternating_256 ∷ alternating_256 ∷ alternating_256 ∷ [];
  fee_version = 255;
  token_id = 255;
  optional_fee_amount = 0;
}
  where
    alternating_256 : ℕ
    alternating_256 = 340_282_366_920_938_463_463_374_607_431_768_211_455

module _ (serialize_uint256_le : ℕ → List ℕ) where
  -- `for (let i = 0; i < maxExtraTx + 1; i++)`, with the rounds that are left and `i`.
  unfoldable pub extra_tx_loop : ℕ → ℕ → ℕ → ℕ → ℕ → ℕ → ℕ → Result ℤ
  unfolding get_tx_count_for_extra_input ◌-ℤ◌
  extra_tx_loop zero i base comp used_cus amount remaining = err too_large_size
  extra_tx_loop (suc left) i base comp used_cus amount remaining =
      let next = extra_tx_loop left (i + 1) base comp used_cus amount remaining in
      let total = base + i * comp in
      if ltb_ℤ (pos i) (get_tx_count_for_extra_input serialize_uint256_le total used_cus)
      then next
      else ok (pos total -ℤ pos amount -ℤ pos remaining)

  unfoldable pub get_send_total_fee_inner : FeeCalculator → List ℕ → ℕ → Result ℤ
  unfolding get_input_preparation_tx_count_no_amount get_send_fee_fixed_costs get_send_privacy_fee
      proof_tx_compensation apply_subvention extra_tx_loop
  get_send_total_fee_inner c pub_inputs_no_amount amount_to_send = do
    let count = get_input_preparation_tx_count_no_amount serialize_uint256_le pub_inputs_no_amount
    fixed ← get_send_fee_fixed_costs c
    let cost =
        amount_to_send
        + fixed
        + get_send_privacy_fee c amount_to_send
        + count.tx_count * proof_tx_compensation c
    let (base, remaining) = apply_subvention cost c.program_fee.proof_subvention
    extra_tx_loop (max_extra_tx + 1) 0 base (proof_tx_compensation c) count.used_cus_last_tx
        amount_to_send remaining

  unfoldable pub get_send_total_fee : FeeCalculator → ProofInputs → ℕ → ℕ → Result ℤ
  unfolding get_public_inputs_for_fee_calc get_send_total_fee_inner
  get_send_total_fee c inputs amount_to_send recent_comm_index =
      get_send_total_fee_inner c (get_public_inputs_for_fee_calc inputs recent_comm_index)
        amount_to_send

  unfoldable pub get_send_fee : FeeCalculator → ProofInputs → ℕ → ℕ → ℕ → Bool → Result Fee
  unfolding get_send_total_fee get_send_privacy_fee ◌-ℤ◌
  get_send_fee c inputs amount_to_send recent_comm_index token_acc_rent_lamports recipient_exists =
      do
        total_fee ← get_send_total_fee c inputs amount_to_send recent_comm_index
        ok (record {
          token_type = lamports;
          tx_fee = total_fee -ℤ pos (get_send_privacy_fee c amount_to_send);
          privacy_fee = pos (get_send_privacy_fee c amount_to_send);
          token_acc_rent = pos (if recipient_exists then 0 else token_acc_rent_lamports);
          extra_fee = pos inputs.optional_fee_amount;
          lamports_per_token = some 1;
        })

  unfoldable pub estimate_send_fee : FeeCalculator → ℕ → Bool → ℕ → Result Fee
  unfolding get_send_fee
  estimate_send_fee c amount recipient_exists token_acc_rent_lamports =
      get_send_fee c get_dummy_inputs amount (2 ^ merkle_tree_height - 1) token_acc_rent_lamports
        recipient_exists
