-- ===== src/Serialization/JoinSplit.antt =====
-- TransactionSerialization.ts: the join split of a proof (`serializeJoinSplit` and what it calls), with
-- the JSON types of borshTypes/JoinSplitBorsh.ts, OptionalFeeBorsh.ts and legacy/InputCommitmentBorsh.ts.
use elusiv_sdk.Base.{
  ℕ, Bool, not, ◌||◌, Option, none, some, List, [], ◌∷◌, length, take, keep_if, if◌then◌else◌, ◌==◌,
}
use elusiv_sdk.Base.Int.{ℤ, pos, ◌-ℤ◌}
use elusiv_sdk.Result.{
  Result, ok, err, map_result, map_ok, empty_n_hashes_not_last, invalid_access, ◌>>=◌,
}
use elusiv_sdk.Fee.{Fee}
use elusiv_sdk.Fee.Amounts.{get_computation_fee_total}
use elusiv_sdk.Serialization.{Serializer, U256Serialized, serialize_u256_big_int}

-- `ExtraDataHashInputs` of elusiv-circuits: the numbers that the public input hash covers.
pub record ExtraData : Type 0 where
  pub recipient : ℕ
  pub identifier : ℕ
  pub iv : ℕ
  pub encrypted_owner : ℕ
  pub solana_pay_id : ℕ
  pub is_associated_token_account : Bool
  pub optional_fee_amount : ℕ
  pub optional_fee_collector : ℕ
  pub memo : Option (List ℕ)

-- `SendQuadraPublicInputs` of elusiv-circuits.
pub record PublicInputs : Type 0 where
  pub roots : List ℕ
  pub nullifier_hashes : List ℕ
  pub next_commitment : ℕ
  pub next_assoc_comm_index : ℕ
  pub fee_version : ℕ
  pub amount : ℕ
  pub token_id : ℕ
  pub serialized_metadata : ℕ
  pub hash : ℕ
  pub extra_data_hash_inputs : ExtraData

-- `null` is `none`.
pub record InputCommitmentJson : Type 0 where
  pub root : Option U256Serialized
  pub nullifier_hash : U256Serialized

pub record OptionalFeeJson : Type 0 where
  pub collector : U256Serialized
  pub amount : ℕ

pub record JoinSplitJson : Type 0 where
  pub input_commitments : List InputCommitmentJson
  pub output_commitment : U256Serialized
  pub recent_commitment_index : ℕ
  pub fee_version : ℕ
  pub amount : ℤ
  pub fee : ℤ
  pub token_id : ℕ
  pub optional_fee : OptionalFeeJson
  pub metadata : List ℕ

-- `filter((n) => n !== BigInt(0))`.
abbrev pub nonzero : List ℕ → List ℕ
nonzero ns = keep_if (λ n. not (n == 0)) ns

-- The pairs of the loop, one for each hash; a root past the end is `undefined`, which no JSON carries.
unfoldable pub pair_up :
    List (Option U256Serialized) → List U256Serialized → Result (List InputCommitmentJson)
pair_up roots [] = ok []
pair_up [] (n ∷ n_hashes) = err invalid_access
pair_up (r ∷ roots) (n ∷ n_hashes) = do
  rest ← pair_up roots n_hashes
  ok (record { root = r; nullifier_hash = n } ∷ rest)

module _ (lib : Serializer) where
  unfoldable pub serialize_n_hashes : List ℕ → Result (List U256Serialized)
  unfolding serialize_u256_big_int map_result
  serialize_n_hashes n_hashes =
      let filtered = nonzero n_hashes in
      if not (lib.are_equal_arrs filtered (take (length filtered) n_hashes))
      then err empty_n_hashes_not_last
      else map_result (serialize_u256_big_int lib) filtered

  -- A root after the first one.
  unfoldable pub serialize_later_root : ℕ → ℕ → Result (Option U256Serialized)
  unfolding serialize_u256_big_int
  serialize_later_root first_root root =
      if root == 0 || root == first_root
      then ok none
      else map_ok some (serialize_u256_big_int lib root)

  unfoldable pub serialize_roots : List ℕ → Result (List (Option U256Serialized))
  unfolding serialize_u256_big_int serialize_later_root map_result
  serialize_roots [] = ok []
  serialize_roots (first_root ∷ raw_roots) = do
    first ← serialize_u256_big_int lib first_root
    rest ← map_result (serialize_later_root first_root) raw_roots
    ok (some first ∷ rest)

  unfoldable pub serialize_input_commitments : List ℕ → List ℕ → Result (List InputCommitmentJson)
  unfolding serialize_n_hashes serialize_roots pair_up
  serialize_input_commitments raw_roots raw_n_hashes = do
    serialized_n_hashes ← serialize_n_hashes raw_n_hashes
    serialized_roots ← serialize_roots raw_roots
    pair_up serialized_roots serialized_n_hashes

  unfoldable pub serialize_optional_fee : ℕ → ℕ → Result OptionalFeeJson
  unfolding serialize_u256_big_int
  serialize_optional_fee amount collector = do
    serialized ← serialize_u256_big_int lib collector
    ok (record { collector = serialized; amount = amount })

  -- The amount that the circuit sees holds the computation fee; the Wardens are told the two apart.
  unfoldable pub serialize_join_split : PublicInputs → Fee → Result JoinSplitJson
  unfolding serialize_input_commitments serialize_u256_big_int serialize_optional_fee
      get_computation_fee_total ◌-ℤ◌
  serialize_join_split public_inputs fee = do
    comms ← serialize_input_commitments public_inputs.roots public_inputs.nullifier_hashes
    next ← serialize_u256_big_int lib public_inputs.next_commitment
    optional ←
        serialize_optional_fee public_inputs.extra_data_hash_inputs.optional_fee_amount
          public_inputs.extra_data_hash_inputs.optional_fee_collector
    ok (record {
      input_commitments = comms;
      output_commitment = next;
      recent_commitment_index = public_inputs.next_assoc_comm_index;
      fee_version = public_inputs.fee_version;
      amount = pos public_inputs.amount -ℤ get_computation_fee_total fee;
      fee = get_computation_fee_total fee;
      token_id = public_inputs.token_id;
      optional_fee = optional;
      metadata =
          lib.serialize_uint_le public_inputs.serialized_metadata lib.commitment_metadata_length;
    })
