-- ===== src/Fee/Send/Laws.antt =====
-- FeeCalculator.ts: the send fee can always be computed, pays for the transactions that it causes, and
-- is wrong where the subvention covers the costs.
use elusiv_sdk.Base.{
  ℕ, suc, ◌+◌, ◌-◌, ◌*◌, ◌≤◌, ◌<◌, ◌≡◌, refl, arith, List, if◌then◌else◌, true, false, Bool-cases,
  inl, inr, ltb, lt→ltb, ◌∙◌,
}
use elusiv_sdk.Base.Int.{ℤ, pos, ◌≤ℤ◌, ltb_ℤ, ◌-ℤ◌, ◌+ℤ◌, int_laws}
use elusiv_sdk.Result.{ok}
use elusiv_sdk.Fee.{
  FeeCalculator, proof_tx_compensation, get_input_preparation_tx_count_no_amount,
  get_tx_count_for_extra_input,
}
use elusiv_sdk.Fee.Units.{get_tx_count_for_extra_input_cases}
use elusiv_sdk.Fee.Send.{
  get_send_fee_fixed_costs, get_send_privacy_fee, apply_subvention, extra_tx_loop, max_extra_tx,
  get_send_total_fee_inner,
}

module _ (serialize_uint256_le : ℕ → List ℕ) where
  abbrev needed : ℕ → ℕ → ℤ
  needed total used = get_tx_count_for_extra_input serialize_uint256_le total used

  needed-le : (total used : ℕ) → needed total used ≤ℤ pos 1
  needed-le total used =
      rw (get_tx_count_for_extra_input_cases serialize_uint256_le total used) (ground arith)

  loop_step :
      (left i base comp used amount remaining : ℕ)
      → extra_tx_loop serialize_uint256_le (suc left) i base comp used amount remaining ≡ (
          if ltb_ℤ (pos i) (needed (base + i * comp) used)
          then extra_tx_loop serialize_uint256_le left (i + 1) base comp used amount remaining
          else ok (pos (base + i * comp) -ℤ pos amount -ℤ pos remaining))
  unfolding extra_tx_loop
  loop_step left i base comp used amount remaining = refl

  -- The loop ends at its second round at the latest, at the first number of extra transactions that
  -- is enough for the total with their cost.
  loop_result :
      (base comp used amount remaining : ℕ)
      → (extra : ℕ) × (extra ≤ 1)
        × (extra_tx_loop serialize_uint256_le (max_extra_tx + 1) 0 base comp used amount remaining
            ≡ ok (pos (base + extra * comp) -ℤ pos amount -ℤ pos remaining))
        × (needed (base + extra * comp) used ≤ℤ pos extra)
        × (extra ≡ 1 → pos 1 ≤ℤ needed (base + 0 * comp) used)
  loop_result base comp used amount remaining =
      elim (Bool-cases (ltb_ℤ (pos 0) (needed (base + 0 * comp) used))) [
        | inr enough ↦ (
          0,
          omega arith,
          loop_step 1 0 base comp used amount remaining ∙ rw enough,
          not_more 0 _ enough,
          λ e. absurd (omega arith),
        )
        | inl more ↦ (
          1,
          omega arith,
          loop_step 1 0 base comp used amount remaining
              ∙ rw more (loop_step 0 1 base comp used amount remaining ∙ rw last),
          needed-le (base + 1 * comp) used,
          λ e. at_least 0 _ more,
        )
      ]
    where
      not_more : (i : ℕ) (n : ℤ) → ltb_ℤ (pos i) n ≡ false → n ≤ℤ pos i
      not_more i n h = ground arith

      at_least : (i : ℕ) (n : ℤ) → ltb_ℤ (pos i) n ≡ true → pos (i + 1) ≤ℤ n
      at_least i n h = ground arith

      not_above : (n : ℤ) → n ≤ℤ pos 1 → ltb_ℤ (pos 1) n ≡ false
      not_above n h = ground arith

      last : ltb_ℤ (pos 1) (needed (base + 1 * comp) used) ≡ false
      last = not_above _ (needed-le (base + 1 * comp) used)

  -- All costs of a send but those of the extra transaction: the amount, the fixed costs, the fee of the
  -- network, and the transactions for the other public inputs.
  abbrev pub send_cost : FeeCalculator → List ℕ → ℕ → ℕ → ℕ
  send_cost c inputs amount fixed =
      amount
      + fixed
      + get_send_privacy_fee c amount
      + (get_input_preparation_tx_count_no_amount serialize_uint256_le inputs).tx_count
        * proof_tx_compensation c

  abbrev pub spare_start : List ℕ → ℕ
  spare_start inputs =
      (get_input_preparation_tx_count_no_amount serialize_uint256_le inputs).used_cus_last_tx

  inner_eq :
      (c : FeeCalculator) (inputs : List ℕ) (amount fixed : ℕ)
      → get_send_fee_fixed_costs c ≡ ok fixed
      → get_send_total_fee_inner serialize_uint256_le c inputs amount ≡ (
          let s =
            apply_subvention (send_cost c inputs amount fixed) c.program_fee.proof_subvention in
          extra_tx_loop serialize_uint256_le
            (max_extra_tx + 1)
            0
            s.0
            (proof_tx_compensation c)
            (spare_start inputs)
            amount
            s.1)
  unfolding get_send_total_fee_inner
  inner_eq c inputs amount fixed e = rw e

  -- What is sent in the end is the amount with its fee. `extra` is the number of extra transactions
  -- that the fee pays for; it is enough for that total, and 1 only if none is not enough.
  abbrev pub IsEnough : ℕ → ℕ → ℕ → ℕ → Type 0
  IsEnough base comp used extra =
      (extra ≤ 1)
      × (needed (base + extra * comp) used ≤ℤ pos extra)
      × (extra ≡ 1 → pos 1 ≤ℤ needed (base + 0 * comp) used)

  -- Where the costs exceed the subvention the send fee is computed without an error: amount, fee and
  -- subvention together pay exactly the costs, those of the extra transaction included, which is added
  -- exactly if the total needs it.
  pub get_send_total_fee_inner_pays :
      (c : FeeCalculator) (inputs : List ℕ) (amount fixed : ℕ)
      → get_send_fee_fixed_costs c ≡ ok fixed
      → c.program_fee.proof_subvention < send_cost c inputs amount fixed
      → (extra : ℕ) × (fee : ℤ) × (get_send_total_fee_inner serialize_uint256_le c inputs amount
          ≡ ok fee)
        × (fee +ℤ pos amount +ℤ pos c.program_fee.proof_subvention
            ≡ pos (send_cost c inputs amount fixed + extra * proof_tx_compensation c))
        × IsEnough
            (send_cost c inputs amount fixed - c.program_fee.proof_subvention)
            (proof_tx_compensation c)
            (spare_start inputs)
            extra
  unfolding apply_subvention
  get_send_total_fee_inner_pays c inputs amount fixed e h =
      let cost : ℕ = send_cost c inputs amount fixed in
      let sub : ℕ = c.program_fee.proof_subvention in
      let comp : ℕ = proof_tx_compensation c in
      let above : ltb sub cost ≡ true = lt→ltb sub cost h in
      let (extra, at_most, result, enough, least) =
        loop_result (cost - sub) comp (spare_start inputs) amount 0 in
      (
        extra,
        pos (cost - sub + extra * comp) -ℤ pos amount -ℤ pos 0,
        inner_eq c inputs amount fixed e ∙ rw above result,
        adds_up cost sub amount (extra * comp) h,
        (at_most, enough, least),
      )
    where
      adds_up :
          (cost sub amount more : ℕ)
          → sub < cost
          → (pos (cost - sub + more) -ℤ pos amount -ℤ pos 0) +ℤ pos amount +ℤ pos sub
            ≡ pos (cost + more)
      adds_up cost sub amount more k = omega int_laws

  -- Where the subvention covers the costs, the costs are cleared before they are subtracted from the
  -- subvention: the fee is minus the amount and minus the whole subvention, plus at most the price of
  -- one transaction.
  pub get_send_total_fee_inner_covered :
      (c : FeeCalculator) (inputs : List ℕ) (amount fixed : ℕ)
      → get_send_fee_fixed_costs c ≡ ok fixed
      → send_cost c inputs amount fixed ≤ c.program_fee.proof_subvention
      → (extra : ℕ) × (fee : ℤ) × (extra ≤ 1)
        × (get_send_total_fee_inner serialize_uint256_le c inputs amount ≡ ok fee)
        × (fee +ℤ pos amount +ℤ pos c.program_fee.proof_subvention
            ≡ pos (extra * proof_tx_compensation c))
  unfolding apply_subvention
  get_send_total_fee_inner_covered c inputs amount fixed e h =
      let cost : ℕ = send_cost c inputs amount fixed in
      let sub : ℕ = c.program_fee.proof_subvention in
      let comp : ℕ = proof_tx_compensation c in
      let below : ltb sub cost ≡ false = not_above sub cost h in
      let (extra, at_most, result, _, _) = loop_result 0 comp (spare_start inputs) amount sub in
      (
        extra,
        pos (0 + extra * comp) -ℤ pos amount -ℤ pos sub,
        at_most,
        inner_eq c inputs amount fixed e ∙ rw below result,
        adds_up amount sub (extra * comp),
      )
    where
      not_above : (a b : ℕ) → b ≤ a → ltb a b ≡ false
      not_above a b k = ground arith

      adds_up :
          (amount sub more : ℕ)
          → (pos (0 + more) -ℤ pos amount -ℤ pos sub) +ℤ pos amount +ℤ pos sub ≡ pos more
      adds_up amount sub more = omega int_laws
