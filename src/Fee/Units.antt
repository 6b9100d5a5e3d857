-- ===== src/Fee/Units.antt =====
-- FeeCalculator.ts, `getInputPreparationTxCountNoAmount`: the split of the input preparation into
-- transactions, and their compute units.
use elusiv_sdk.Base.{
  ℕ, zero, suc, ◌+◌, ◌-◌, ◌*◌, ◌≤◌, ◌<◌, List, [], ◌∷◌, ◌++◌, ◌≡◌, refl, arith, if◌then◌else◌, ltb,
  length, length-append,
}
use elusiv_sdk.Base.Int.{pos}
use elusiv_sdk.Constants.{add_mixed_cost, add_cost, max_cus}
use elusiv_sdk.Fee.{
  Preparation, add_round, round_cost, input_rounds, prepare_inputs, no_rounds,
  get_input_preparation_tx_count_no_amount, get_tx_count_for_extra_input, sum_big_int,
}

-- `spent` compute units in `done` rounds so far.
record IsPacked (spent done : ℕ) (p : Preparation) : Type 0 where
  within : p.compute_units ≤ max_cus
  enough : spent ≤ length p.instructions * max_cus + p.compute_units
  tight : length p.instructions * (max_cus - add_cost) + p.compute_units ≤ spent
  all_rounds : sum_big_int p.instructions + p.rounds ≡ done

sum_big_int-append : (xs : List ℕ) (y : ℕ) → sum_big_int (xs ++ y ∷ []) ≡ sum_big_int xs + y
unfolding sum_big_int
sum_big_int-append [] y = omega arith
sum_big_int-append (x ∷ xs) y = omega (arith, sum_big_int-append xs y)

add_round-IsPacked :
    (cus spent done : ℕ) (p : Preparation)
    → cus ≤ add_cost
    → IsPacked spent done p
    → IsPacked (spent + cus) (done + 1) (add_round cus p)
unfolding add_round
add_round-IsPacked cus spent done p small h = ground (
  arith,
  length-append p.instructions (p.rounds ∷ []),
  sum_big_int-append p.instructions p.rounds,
)

round_cost-le : (bytes : List ℕ) (input b : ℕ) → round_cost bytes input b ≤ add_cost
unfolding round_cost
round_cost-le bytes input b = ground arith

-- What the rounds `b`, `b + 1` and so on of an input cost.
unfoldable pub rounds_total : ℕ → ℕ → List ℕ → ℕ → ℕ
unfolding round_cost
rounds_total zero b bytes input = 0
rounds_total (suc left) b bytes input =
    round_cost bytes input b + rounds_total left (b + 1) bytes input

input_rounds-IsPacked :
    (left b : ℕ) (bytes : List ℕ) (input spent done spent' done' : ℕ) (p : Preparation)
    → spent + rounds_total left b bytes input ≡ spent'
    → done + left ≡ done'
    → IsPacked spent done p
    → IsPacked spent' done' (input_rounds left b bytes input p)
unfolding input_rounds rounds_total
input_rounds-IsPacked zero b bytes input spent done spent' done' p e e' h = omega arith
input_rounds-IsPacked (suc left) b bytes input spent done spent' done' p e e' h =
    let cost : ℕ = round_cost bytes input b in
    input_rounds-IsPacked left (b + 1) bytes input (spent + cost) (done + 1) spent' done'
      (add_round cost p) (omega arith) (omega arith)
      (add_round-IsPacked cost spent done p (round_cost-le bytes input b) h)

-- One input costs at most 32 mixed additions and one addition.
rounds_total-le :
    (left b : ℕ) (bytes : List ℕ) (input : ℕ)
    → b + left ≡ 33
    → 0 < left
    → rounds_total left b bytes input ≤ (left - 1) * add_mixed_cost + add_cost
unfolding rounds_total round_cost
rounds_total-le zero b bytes input e h = absurd (omega arith)
rounds_total-le (suc zero) b bytes input e h = ground arith
rounds_total-le (suc (suc left)) b bytes input e h =
    ground (arith, rounds_total-le (suc left) (b + 1) bytes input)

module _ (serialize_uint256_le : ℕ → List ℕ) where
  -- The compute units that the preparation of all inputs costs.
  unfoldable pub inputs_total : List ℕ → ℕ
  unfolding rounds_total
  inputs_total [] = 0
  inputs_total (x ∷ xs) = rounds_total 33 0 (serialize_uint256_le x) x + inputs_total xs

  prepare_inputs-IsPacked :
      (inputs : List ℕ) (spent done spent' done' : ℕ) (p : Preparation)
      → spent + inputs_total inputs ≡ spent'
      → done + 33 * length inputs ≡ done'
      → IsPacked spent done p
      → IsPacked spent' done' (prepare_inputs serialize_uint256_le inputs p)
  unfolding prepare_inputs inputs_total
  prepare_inputs-IsPacked [] spent done spent' done' p e e' h = omega arith
  prepare_inputs-IsPacked (x ∷ xs) spent done spent' done' p e e' h =
      let bytes : List ℕ = serialize_uint256_le x in
      prepare_inputs-IsPacked xs (spent + rounds_total 33 0 bytes x) (done + 33) spent' done'
        (input_rounds 33 0 bytes x p) (omega arith) (omega arith)
        (input_rounds-IsPacked 33 0 bytes x spent done _ _ p refl refl h)

  rounds_positive :
      (left b : ℕ) (bytes : List ℕ) (input : ℕ) (p : Preparation)
      → 0 < left + p.rounds
      → 0 < (input_rounds left b bytes input p).rounds
  unfolding input_rounds add_round
  rounds_positive zero b bytes input p h = omega arith
  rounds_positive (suc left) b bytes input p h =
      rounds_positive left (b + 1) bytes input (add_round (round_cost bytes input b) p)
        (ground arith)

  prepare_positive :
      (inputs : List ℕ) (p : Preparation)
      → 0 < length inputs + p.rounds
      → 0 < (prepare_inputs serialize_uint256_le inputs p).rounds
  unfolding prepare_inputs
  prepare_positive [] p h = omega arith
  prepare_positive (x ∷ xs) p h =
      let first = rounds_positive 33 0 (serialize_uint256_le x) x p (omega arith) in
      prepare_positive xs _ (omega arith)

  -- For one or more public inputs: there is a transaction, the last one stays within the compute limit,
  -- the transactions have room for all compute units, and all but the last are filled up to the cost of
  -- one addition.
  pub get_input_preparation_tx_count_no_amount_bounds :
      (inputs : List ℕ)
      → 0 < length inputs
      → let c = get_input_preparation_tx_count_no_amount serialize_uint256_le inputs in
        (1 ≤ c.tx_count)
        × (c.used_cus_last_tx ≤ max_cus)
        × (inputs_total inputs ≤ (c.tx_count - 1) * max_cus + c.used_cus_last_tx)
        × ((c.tx_count - 1) * (max_cus - add_cost) + c.used_cus_last_tx ≤ inputs_total inputs)
  unfolding get_input_preparation_tx_count_no_amount
  get_input_preparation_tx_count_no_amount_bounds inputs h =
      let packed =
        prepare_inputs-IsPacked inputs 0 0 (inputs_total inputs) (33 * length inputs) no_rounds
          (omega arith) (omega arith) start in
      let p = prepare_inputs serialize_uint256_le inputs no_rounds in
      ground (
        arith,
        prepare_positive inputs no_rounds (omega arith),
        length-append p.instructions (p.rounds ∷ []),
        packed,
      )
    where
      start : IsPacked 0 0 no_rounds
      start = unfold sum_big_int in omega arith

  single :
      (input : ℕ)
      → let c = get_input_preparation_tx_count_no_amount serialize_uint256_le (input ∷ []) in
        (c.tx_count ≡ 1)
        × (c.used_cus_last_tx ≡ rounds_total 33 0 (serialize_uint256_le input) input)
  unfolding inputs_total
  single input =
      let bounds = get_input_preparation_tx_count_no_amount_bounds (input ∷ []) (omega arith) in
      omega
        (arith, bounds, rounds_total-le 33 0 (serialize_uint256_le input) input refl (omega arith))

  -- The amount, as one more public input, needs no transaction of its own or one, by what the last
  -- transaction has left.
  pub get_tx_count_for_extra_input_cases :
      (input starting_cus : ℕ)
      → get_tx_count_for_extra_input serialize_uint256_le input starting_cus
        ≡ pos (
            if ltb max_cus (rounds_total 33 0 (serialize_uint256_le input) input + starting_cus)
            then 1
            else 0)
  unfolding get_tx_count_for_extra_input inputs_total
  get_tx_count_for_extra_input_cases input starting_cus =
      let (one, used) = single input in rw (one, used) (ground arith)
