-- ===== src/Building/Merge.antt =====
-- TransactionBuilding.ts and public/elusiv.ts: the merge that makes room for a topup.
use elusiv_sdk.Base.{
  ℕ, ◌≡◌, refl, sym, ap, ◌∙◌, Bool, true, false, not, Option, some, String, List, if◌then◌else◌,
}
use elusiv_sdk.Base.Int.{ℤ, pos, ◌+ℤ◌, ◌-ℤ◌, int_laws}
use elusiv_sdk.Result.{ok, err, >>=-eq-ok, ok-injective, invalid_token_type}
use elusiv_sdk.Token.{TokenType, lamports, token_beq}
use elusiv_sdk.Fee.{Fee, FeeCalculator}
use elusiv_sdk.Fee.Amounts.{get_computation_fee_total, get_total_fee_amount}
use elusiv_sdk.Fee.Send.{ProofInputs, get_send_fee, get_send_total_fee}
use elusiv_sdk.Building.{
  Pricing, Builder, IsBuilder, TopupRemoteParams, SendRemoteParams, lamport_fee_to_token_fee,
  sum_balances, topup_params_to_send_params,
}
use elusiv_sdk.Building.Send.{
  SendTx, pays_rent, real_amount, proof_request, generate_send_fee, build_send_tx, merge_recipient,
  merge_options,
}
use elusiv_sdk.Building.Balance.{build_send_tx_parts}
use elusiv_sdk.Building.Topup.{StoreTx, prev_nonce, private_balance, topup_store_tx}
use elusiv_sdk.Building.TopupLaws.{topup_store_tx-IsComposed}

converted :
    (price : Pricing) (lamport_fee : Fee) (token_type : TokenType) (extra : ℕ) (fee : Fee)
    → lamport_fee_to_token_fee price lamport_fee token_type extra ≡ ok fee
    → (fee.token_acc_rent
        ≡ price.buffered (not (token_beq token_type lamports)) lamport_fee.token_acc_rent)
      × (fee.extra_fee ≡ pos extra)
converted price lamport_fee token_type extra fee done =
    unfold lamport_fee_to_token_fee in
    guarded (not (token_beq lamport_fee.token_type lamports)) _ done
  where
    guarded :
        (b : Bool) (f : Fee)
        → (if b then err invalid_token_type else ok f) ≡ ok fee
        → (fee.token_acc_rent ≡ f.token_acc_rent) × (fee.extra_fee ≡ f.extra_fee)
    guarded true f e = cc
    guarded false f e = let same = ok-injective e in rw (sym same) (refl, refl)

rent_free :
    (ser : ℕ → List ℕ) (c : FeeCalculator) (inputs : ProofInputs) (amount index rent : ℕ)
    (fee : Fee)
    → get_send_fee ser c inputs amount index rent true ≡ ok fee
    → fee.token_acc_rent ≡ pos 0
rent_free ser c inputs amount index rent fee done =
    unfold get_send_fee in
    let (total, e, f) = >>=-eq-ok (get_send_total_fee ser c inputs amount index) _ done in
    rw (sym (ok-injective f)) refl

-- No token costs 0 lamports.
abbrev pub IsFair : Pricing → Type 0
IsFair price = (b : Bool) → price.buffered b (pos 0) ≡ pos 0

module _ {C I P : Type 0} (lib : Builder C I P) where
  charged :
      (inputs : I) (token_type : TokenType) (amount index : ℕ) (c : FeeCalculator) (rent : ℕ)
      (price : Pricing) (fee : Fee)
      → IsFair price
      → generate_send_fee lib inputs token_type amount index c rent price true ≡ ok fee
      → (fee.token_acc_rent ≡ pos 0)
        × (fee.extra_fee ≡ pos (lib.fee_inputs inputs).optional_fee_amount)
  charged inputs token_type amount index c rent price fee fair done =
      unfold generate_send_fee in
      let (lamport_fee, e, f) =
        >>=-eq-ok
          (get_send_fee lib.serialize_uint256_le c (lib.fee_inputs inputs) amount index rent true) _
          done in
      let (rent_of, extra_of) =
        converted price lamport_fee token_type (lib.fee_inputs inputs).optional_fee_amount fee f in
      let free =
        rent_free lib.serialize_uint256_le c (lib.fee_inputs inputs) amount index rent lamport_fee
          e in
      (rent_of ∙ ap (price.buffered _) free ∙ fair _, extra_of)

  no_rent : (token_type : TokenType) → not (pays_rent (merge_recipient lib) token_type) ≡ true
  no_rent token_type = unfold pays_rent in refl

  nothing_sent :
      (token_type : TokenType) (rent : ℕ)
      → real_amount (merge_recipient lib) token_type 0 rent 0 ≡ 0
  nothing_sent token_type rent = unfold real_amount in refl

  no_extra :
      (params : SendRemoteParams C) (token_type : TokenType) (token : ℕ) (owner : String)
      (ref_key : Option String)
      → (proof_request lib params token_type token
          (merge_recipient lib)
          owner
          (merge_options lib ref_key)).fee_amount
        ≡ 0
  no_extra params token_type token owner ref_key = unfold proof_request in refl

  same_params :
      (params : TopupRemoteParams C)
      → (((topup_params_to_send_params params).active_commitments ≡ params.active_commitments)
          × ((topup_params_to_send_params params).last_nonce ≡ params.last_nonce))
        × ((topup_params_to_send_params params).price ≡ params.price)
  same_params params = unfold topup_params_to_send_params in ((refl, refl), refl)

  only_computation :
      (fee : Fee)
      → fee.token_acc_rent ≡ pos 0
      → fee.extra_fee ≡ pos 0
      → get_total_fee_amount fee ≡ get_computation_fee_total fee
  unfolding get_computation_fee_total
  only_computation fee rent extra =
      let parts : get_total_fee_amount fee
          ≡ get_computation_fee_total fee +ℤ fee.token_acc_rent +ℤ fee.extra_fee =
        unfold get_total_fee_amount in refl in
      parts ∙ rw (rent, extra) (zeros (get_computation_fee_total fee))
    where
      zeros : (f : ℤ) → f +ℤ pos 0 +ℤ pos 0 ≡ f
      zeros f = omega int_laws

  merge_charges :
      (inputs : I) (token_type : TokenType) (amount index : ℕ) (c : FeeCalculator) (rent : ℕ)
      (price : Pricing) (fee : Fee)
      → IsFair price
      → (lib.fee_inputs inputs).optional_fee_amount ≡ 0
      → generate_send_fee lib inputs token_type amount index c rent price true ≡ ok fee
      → get_total_fee_amount fee ≡ get_computation_fee_total fee
  merge_charges inputs token_type amount index c rent price fee fair none_extra done =
      let (free, extra) = charged inputs token_type amount index c rent price fee fair done in
      only_computation fee free (extra ∙ ap pos none_extra)

  after_merge :
      (total fee left : ℤ) (amount : ℕ)
      → total ≡ pos 0 +ℤ fee +ℤ left
      → total +ℤ pos amount -ℤ fee ≡ left +ℤ pos amount
  after_merge total fee left amount conserved = rw conserved (cancel fee left (pos amount))
    where
      cancel : (f l a : ℤ) → pos 0 +ℤ f +ℤ l +ℤ a -ℤ f ≡ l +ℤ a
      cancel f l a = omega int_laws

  follows : (last fee : ℤ) → prev_nonce last (some fee) ≡ last +ℤ pos 1
  follows last fee = unfold prev_nonce in refl

  reported :
      (active : List C) (amount : ℕ) (fee : ℤ)
      → private_balance lib active amount (some fee) ≡ sum_balances lib active +ℤ pos amount -ℤ fee
  reported active amount fee = unfold private_balance in refl

  -- A topup built after a merge, with the merge's total fee as `buildTopUpTx` passes it, takes the nonce
  -- after the merge's and reports the balance that the merge leaves and its own amount, if no token
  -- costs no lamports.
  pub topup_store_tx-build_send_tx :
      (amount : ℕ) (token_type : TokenType) (owner sender : String) (is_recipient : Bool)
      (params : TopupRemoteParams C) (warden : String) (ref_key : Option String) (index : ℕ)
      (m : SendTx C P) (merge_fee : Fee) (t : StoreTx C) (fee : Fee)
      → IsBuilder lib
      → IsFair params.price
      → build_send_tx lib 0
          (topup_params_to_send_params params)
          token_type
          (merge_recipient lib)
          owner
          warden
          (merge_options lib ref_key)
        ≡ ok (m, merge_fee)
      → topup_store_tx lib amount token_type sender is_recipient params warden
          (some (get_total_fee_amount merge_fee))
          index
        ≡ ok (t, fee)
      → (t.nonce ≡ m.nonce +ℤ pos 1)
        × (t.parsed_private_balance ≡ lib.get_balance m.commitment +ℤ pos amount)
  topup_store_tx-build_send_tx amount token_type owner sender is_recipient params warden ref_key
        index m merge_fee t fee laws fair merged built =
      let send_params = topup_params_to_send_params params in
      let ((active, last), price) = same_params params in
      let (balanced, sent, token, charge) =
        build_send_tx_parts lib 0 send_params token_type (merge_recipient lib) owner warden
          (merge_options lib ref_key) m merge_fee laws merged in
      let topup =
        topup_store_tx-IsComposed lib amount token_type sender is_recipient params warden
          (some (get_total_fee_amount merge_fee)) index t fee laws built in
      let fair' : IsFair send_params.price = rw price fair in
      let total =
        merge_charges _ token_type m.amount send_params.merkle_start_index
          send_params.fee_calculator send_params.token_acc_rent send_params.price merge_fee fair'
          (laws.keeps_fee (
              proof_request lib send_params token_type token (merge_recipient lib) owner
                (merge_options lib ref_key))
            ∙ no_extra send_params token_type token owner ref_key)
          (rw (no_rent token_type) at charge) in
      let none_sent : m.amount ≡ 0 = sent ∙ nothing_sent token_type _ in
      let conserved = rw (none_sent, active) at balanced.conserved in
      let left = lib.get_balance m.commitment in
      let whole =
        after_merge (sum_balances lib params.active_commitments)
          (get_computation_fee_total merge_fee) left amount conserved in
      (
        topup.nonce
            ∙ ap (λ (n : ℤ). n +ℤ pos 1)
                (follows params.last_nonce (get_total_fee_amount merge_fee)
                  ∙ sym (rw last at balanced.next_nonce)),
        topup.balance
            ∙ reported params.active_commitments amount (get_total_fee_amount merge_fee)
            ∙ rw total whole,
      )
