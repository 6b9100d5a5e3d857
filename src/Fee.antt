-- ===== src/Fee.antt =====
-- src/sdk/paramManagers/fee/FeeCalculator.ts: the fees of topups and sends, in lamports. A bigint that
-- the code builds from unsigned chain data by sums, products and quotients is a natural number; what
-- it subtracts from is an integer. `serializeUint256LE` (of @elusiv/serialization) gives the 32 bytes
-- of a public input and is a parameter. `bigIntToNumber` is the identity on the values in question.
pub mod Amounts
pub mod Units
pub mod Send
pub mod Store
pub mod Tests
use elusiv_sdk.Base.{
  ℕ, zero, suc, ◌+◌, ◌-◌, ◌*◌, ◌/◌, ◌^◌, Bool, true, false, Option, none, some, List, [], ◌∷◌, ◌++◌,
  length, get_elem?, if◌then◌else◌, ltb, leb, ◌==◌,
}
use elusiv_sdk.Base.Int.{ℤ, pos, ◌+ℤ◌, ◌-ℤ◌}
use elusiv_sdk.Result.{Result, ok, err, division_by_zero, too_large_size, ◌>>=◌}
use elusiv_sdk.Constants.{
  merkle_tree_height, base_tx_per_hash, max_batching_rate, add_mixed_cost, add_cost, max_cus,
}
use elusiv_sdk.Token.{TokenType, lamports}

-- src/sdk/utils/bigIntUtils.ts
unfoldable pub div_ceil_big_int : ℕ → ℕ → Result ℕ
div_ceil_big_int a b =
    if b == 0 then err division_by_zero else ok (if ltb (a / b * b) a then a / b + 1 else a / b)

unfoldable pub sum_big_int : List ℕ → ℕ
sum_big_int [] = 0
sum_big_int (val ∷ arr) = val + sum_big_int arr

-- src/sdk/transactions/txBuilding/serializedTypes/borshTypes/accounts/ProgramFeeBorsh.ts
pub record ProgramFee : Type 0 where
  pub lamports_per_tx : ℕ
  pub base_commitment_network_fee : ℕ
  pub proof_network_fee : ℕ
  pub base_commitment_subvention : ℕ
  pub proof_subvention : ℕ
  pub warden_hash_tx_reward : ℕ
  pub warden_proof_reward : ℕ
  pub proof_base_tx_count : ℕ

pub record FeeCalculator : Type 0 where
  pub program_fee : ProgramFee
  pub min_batching_rate : ℕ

-- src/public/Fee.ts, with the fees in the smallest unit of the token. The rate is a number that the
-- modelled code sets to 1, compares and copies.
pub record Fee : Type 0 where
  pub token_type : TokenType
  pub tx_fee : ℤ
  pub privacy_fee : ℤ
  pub token_acc_rent : ℤ
  pub extra_fee : ℤ
  pub lamports_per_token : Option ℕ

unfoldable pub hash_tx_compensation : FeeCalculator → ℕ
hash_tx_compensation c = c.program_fee.lamports_per_tx + c.program_fee.warden_hash_tx_reward

unfoldable pub proof_tx_compensation : FeeCalculator → ℕ
proof_tx_compensation c = c.program_fee.lamports_per_tx + c.program_fee.warden_proof_reward

unfoldable pub proof_verification_network_fee : FeeCalculator → ℕ → ℕ
proof_verification_network_fee c amount = c.program_fee.proof_network_fee * amount / 10_000

unfoldable pub base_comm_network_fee : FeeCalculator → ℕ → ℕ
base_comm_network_fee c amount = c.program_fee.base_commitment_network_fee * amount / 10_000

-- The table's length is its own check against `MAX_BATCHING_RATE`.
abbrev pub tx_count_mapping : List ℕ
tx_count_mapping = 24 ∷ 24 ∷ 25 ∷ 29 ∷ 37 ∷ []

abbrev elem_or_too_large : Option ℕ → Result ℕ
elem_or_too_large none = err too_large_size
elem_or_too_large (some n) = ok n

unfoldable pub get_commitment_hash_tx_count : FeeCalculator → Result ℕ
get_commitment_hash_tx_count c =
    if ltb max_batching_rate c.min_batching_rate
    then err too_large_size
    else elem_or_too_large (get_elem? tx_count_mapping c.min_batching_rate)

unfoldable pub get_commitments_per_batch : FeeCalculator → Result ℕ
get_commitments_per_batch c =
    if leb 53 c.min_batching_rate then err too_large_size else ok (2 ^ c.min_batching_rate)

unfoldable pub commitment_hash_fee : FeeCalculator → Result ℕ
unfolding get_commitment_hash_tx_count get_commitments_per_batch hash_tx_compensation
    div_ceil_big_int
commitment_hash_fee c = do
  tx_count ← get_commitment_hash_tx_count c
  comms_per_batch ← get_commitments_per_batch c
  div_ceil_big_int (tx_count * hash_tx_compensation c) comms_per_batch

-- The subvention is taken off last, and can exceed the rest.
unfoldable pub get_store_total_fee : FeeCalculator → ℕ → Result ℤ
unfolding commitment_hash_fee hash_tx_compensation base_comm_network_fee ◌-ℤ◌
get_store_total_fee c amount = do
  hash_fee ← commitment_hash_fee c
  ok (
      pos (
        base_tx_per_hash * hash_tx_compensation c
        + base_comm_network_fee c amount
        + hash_fee
        + c.program_fee.lamports_per_tx)
      -ℤ pos c.program_fee.base_commitment_subvention)

abbrev pub get_store_privacy_fee : ℕ
get_store_privacy_fee = 0

unfoldable pub get_store_fee : FeeCalculator → ℕ → Result Fee
unfolding get_store_total_fee
get_store_fee c amount = do
  total ← get_store_total_fee c amount
  ok (record {
    token_type = lamports;
    tx_fee = total;
    privacy_fee = pos get_store_privacy_fee;
    token_acc_rent = pos 0;
    extra_fee = pos 0;
    lamports_per_token = some 1;
  })

-- The state of the loop of `getInputPreparationTxCountNoAmount`: finished instructions, and the rounds
-- and compute units of the current one.
pub record Preparation : Type 0 where
  pub instructions : List ℕ
  pub rounds : ℕ
  pub compute_units : ℕ

unfoldable pub add_round : ℕ → Preparation → Preparation
add_round cus p =
    if ltb max_cus (p.compute_units + cus)
    then record { instructions = p.instructions ++ p.rounds ∷ []; rounds = 1; compute_units = cus }
    else record p { rounds = p.rounds + 1; compute_units = p.compute_units + cus }

-- A byte past the end is `undefined`, which is not 0.
abbrev byte_cost : Option ℕ → ℕ
byte_cost none = add_mixed_cost
byte_cost (some byte) = if byte == 0 then 0 else add_mixed_cost

unfoldable pub round_cost : List ℕ → ℕ → ℕ → ℕ
round_cost bytes public_input b =
    if b == 32 then (if public_input == 0 then 0 else add_cost) else byte_cost (get_elem? bytes b)

-- `for (let b = 0; b < 33; b++)`, with the rounds that are left and the next `b`.
unfoldable pub input_rounds : ℕ → ℕ → List ℕ → ℕ → Preparation → Preparation
unfolding add_round round_cost
input_rounds zero b bytes public_input p = p
input_rounds (suc left) b bytes public_input p =
    input_rounds left (b + 1) bytes public_input (add_round (round_cost bytes public_input b) p)

pub record TxCount : Type 0 where
  pub tx_count : ℕ
  pub used_cus_last_tx : ℕ

abbrev pub no_rounds : Preparation
no_rounds = record { instructions = []; rounds = 0; compute_units = 0 }

module _ (serialize_uint256_le : ℕ → List ℕ) where
  unfoldable pub prepare_inputs : List ℕ → Preparation → Preparation
  unfolding input_rounds
  prepare_inputs [] p = p
  prepare_inputs (public_input ∷ inputs) p =
      prepare_inputs inputs (input_rounds 33 0 (serialize_uint256_le public_input) public_input p)

  unfoldable pub get_input_preparation_tx_count_no_amount : List ℕ → TxCount
  unfolding prepare_inputs
  get_input_preparation_tx_count_no_amount public_inputs =
      let p = prepare_inputs public_inputs no_rounds in
      record {
        tx_count =
            length (if ltb 0 p.rounds then p.instructions ++ p.rounds ∷ [] else p.instructions);
        used_cus_last_tx = p.compute_units;
      }

  unfoldable pub get_tx_count_for_extra_input : ℕ → ℕ → ℤ
  unfolding get_input_preparation_tx_count_no_amount ◌-ℤ◌ ◌+ℤ◌
  get_tx_count_for_extra_input input starting_cus =
      let c = get_input_preparation_tx_count_no_amount (input ∷ []) in
      pos c.tx_count
      -ℤ pos 1
      +ℤ pos (if ltb max_cus (c.used_cus_last_tx + starting_cus) then 1 else 0)
