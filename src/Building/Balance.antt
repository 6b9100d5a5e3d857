-- ===== src/Building/Balance.antt =====
-- TransactionBuilding.ts: a send moves no more than its inputs hold.
use mathlib.Core.Path.{subst}
use elusiv_sdk.Base.{ℕ, ◌≤◌, ◌≡◌, refl, sym, ap, ◌∙◌, arith, not, some, String, List}
use elusiv_sdk.Base.Int.{ℤ, pos, negsuc, ◌+ℤ◌, ◌-ℤ◌, ◌≤ℤ◌, int_laws}
use elusiv_sdk.Result.{ok, >>=-eq-ok, ok-injective}
use elusiv_sdk.Constants.{max_uint64}
use elusiv_sdk.Token.{TokenType, get_number_from_token_type, get_token_type_from_number}
use elusiv_sdk.Transaction.{CommitmentMetadata}
use elusiv_sdk.Metadata.{make_metadata}
use elusiv_sdk.Commitments.{build_commitment_for_send}
use elusiv_sdk.Fee.{Fee}
use elusiv_sdk.Fee.Amounts.{get_computation_fee_total}
use elusiv_sdk.Building.{
  Builder, IsBuilder, TokenAcc, SendRemoteParams, sum_balances, metadata_of, from_commitment,
}
use elusiv_sdk.Building.Send.{
  SendOptions, SendTx, check_send, pays_rent, real_amount, proof_request, generate_send_fee,
  generate_next_send_commitment, build_send_tx,
}

-- What holds of a send that was built.
pub record IsBalanced {C I P : Type 0} (lib : Builder C I P) (params : SendRemoteParams C)
    (tx : SendTx C P) (fee : Fee) : Type 0 where
  pub next_nonce : tx.nonce ≡ params.last_nonce +ℤ pos 1
  pub inputs : tx.input_commitments ≡ some params.active_commitments
  pub conserved :
      sum_balances lib params.active_commitments
      ≡ pos tx.amount +ℤ get_computation_fee_total fee +ℤ lib.get_balance tx.commitment
  pub covered : pos 0 ≤ℤ lib.get_balance tx.commitment
  pub fits : lib.get_balance tx.commitment ≤ℤ pos max_uint64

fitting :
    (nonce : ℕ) (token : TokenType) (index b : ℕ) (m : CommitmentMetadata)
    → make_metadata nonce token index b ≡ ok m
    → b ≤ max_uint64
unfolding make_metadata
fitting nonce token index b m done = ground arith

metadata_fits :
    {C I P : Type 0} (lib : Builder C I P) (nonce : ℤ) (token : TokenType) (index : ℕ) (balance : ℤ)
    (m : CommitmentMetadata)
    → metadata_of lib nonce token index balance ≡ ok m
    → (pos 0 ≤ℤ balance) × (balance ≤ℤ pos max_uint64)
metadata_fits lib (negsuc n) token index balance m done = cc
metadata_fits lib (pos n) token index (negsuc b) m done = cc
metadata_fits lib (pos n) token index (pos b) m done =
    let small = fitting n token index b m done in (omega arith, omega (arith, small))

module _ {C I P : Type 0} (lib : Builder C I P) where
  next_balance :
      (comms : List C) (nonce total : ℤ) (sent : ℕ) (token_type : TokenType) (index : ℕ) (next : C)
      → IsBuilder lib
      → generate_next_send_commitment lib comms nonce total sent token_type index ≡ ok next
      → lib.get_balance next ≡ sum_balances lib comms -ℤ pos sent -ℤ total
  next_balance comms nonce total sent token_type index next laws done =
      unfold generate_next_send_commitment build_commitment_for_send in
      let (token, e, f) = >>=-eq-ok (get_number_from_token_type token_type) _ done in
      ap lib.get_balance (sym (ok-injective f))
      ∙ laws.keeps_balance (lib.generate_nullifier nonce)
          (sum_balances lib comms -ℤ pos sent -ℤ total) token index

  from_commitment_fits :
      (nonce : ℤ) (comm : C) (m : CommitmentMetadata)
      → from_commitment lib nonce comm ≡ ok m
      → (pos 0 ≤ℤ lib.get_balance comm) × (lib.get_balance comm ≤ℤ pos max_uint64)
  from_commitment_fits nonce comm m done =
      unfold from_commitment in
      let (token, e, f) = >>=-eq-ok (get_token_type_from_number (lib.get_token_id comm)) _ done in
      metadata_fits lib nonce token (lib.get_assoc_comm_index comm) (lib.get_balance comm) m f

  regroup : (total sent fee : ℤ) → total ≡ sent +ℤ fee +ℤ (total -ℤ sent -ℤ fee)
  regroup total sent fee = omega int_laws

  pub build_send_tx_parts :
      (amount : ℕ) (params : SendRemoteParams C) (token_type : TokenType) (recipient : TokenAcc)
      (owner warden : String) (options : SendOptions) (tx : SendTx C P) (fee : Fee)
      → IsBuilder lib
      → build_send_tx lib amount params token_type recipient owner warden options ≡ ok (tx, fee)
      → IsBalanced lib params tx fee
        × (tx.amount
            ≡ real_amount recipient token_type amount
                (params.price.lamports_to_token params.token_acc_rent).ceil
                options.extra_fee.amount)
        × (token : ℕ) × (generate_send_fee lib
              (lib.generate_proof_inputs
                (proof_request lib params token_type token recipient owner options))
              token_type
              tx.amount
              params.merkle_start_index
              params.fee_calculator
              params.token_acc_rent
              params.price
              (not (pays_rent recipient token_type))
            ≡ ok fee)
  build_send_tx_parts amount params token_type recipient owner warden options tx fee laws done =
      unfold build_send_tx in
      let (checked, e1, f1) = >>=-eq-ok (check_send lib amount params token_type options) _ done in
      let nonce = params.last_nonce +ℤ pos 1 in
      let (token, e2, f2) = >>=-eq-ok (get_number_from_token_type token_type) _ f1 in
      let inputs =
        lib.generate_proof_inputs
          (proof_request lib params token_type token recipient owner options) in
      let sent =
        real_amount recipient token_type amount
          (params.price.lamports_to_token params.token_acc_rent).ceil options.extra_fee.amount in
      let (fee', e3, f3) =
        >>=-eq-ok
          (generate_send_fee lib inputs token_type sent params.merkle_start_index
            params.fee_calculator params.token_acc_rent params.price
            (not (pays_rent recipient token_type)))
          _ f2 in
      let (next, e4, f4) =
        >>=-eq-ok
          (generate_next_send_commitment lib params.active_commitments nonce
            (get_computation_fee_total fee') sent token_type params.merkle_start_index)
          _ f3 in
      let (m, e5, f5) = >>=-eq-ok (from_commitment lib nonce next) _ f4 in
      let (enc, e6, f6) = >>=-eq-ok (lib.encrypt_metadata m (lib.commitments.hash next)) _ f5 in
      let (proof, e7, f7) =
        >>=-eq-ok (lib.generate_proof inputs next (lib.bytes_to_big_int_le enc)) _ f6 in
      let made = ok-injective f7 in
      let balance =
        next_balance params.active_commitments nonce (get_computation_fee_total fee') sent
          token_type params.merkle_start_index next laws e4 in
      let (covered, fits) = from_commitment_fits nonce next m e5 in
      let conserved = rw (sym balance) at (
        regroup (sum_balances lib params.active_commitments) (pos sent)
          (get_computation_fee_total fee')) in
      subst
        (λ (r : SendTx C P × Fee).
          IsBalanced lib params r.0 r.1
          × (r.0.amount ≡ sent)
          × (token' : ℕ) × (generate_send_fee lib
                (lib.generate_proof_inputs
                  (proof_request lib params token_type token' recipient owner options))
                token_type r.0.amount params.merkle_start_index params.fee_calculator
                params.token_acc_rent params.price (not (pays_rent recipient token_type))
              ≡ ok r.1))
        made
        (
          record {
            next_nonce = refl;
            inputs = refl;
            conserved = conserved;
            covered = covered;
            fits = fits;
          },
          refl,
          token,
          e3,
        )

  -- A send that is built takes the nonce after the last one, and what its inputs hold is what it sends, the
  -- computation fee and the balance that is left, which is not negative and has 64 bits.
  pub build_send_tx-IsBalanced :
      (amount : ℕ) (params : SendRemoteParams C) (token_type : TokenType) (recipient : TokenAcc)
      (owner warden : String) (options : SendOptions) (tx : SendTx C P) (fee : Fee)
      → IsBuilder lib
      → build_send_tx lib amount params token_type recipient owner warden options ≡ ok (tx, fee)
      → IsBalanced lib params tx fee
  build_send_tx-IsBalanced amount params token_type recipient owner warden options tx fee laws
        done =
      (build_send_tx_parts amount params token_type recipient owner warden options tx fee laws
        done).0
