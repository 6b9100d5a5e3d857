-- ===== src/Serialization/Borsh.antt =====
-- src/sdk/transactions/txBuilding/serializedTypes/borshTypes (JoinSplitBorsh.ts, OptionalFeeBorsh.ts,
-- SendPublicInputsBorsh.ts, legacy/InputCommitmentBorsh.ts): the structures that are read back from
-- the chain, and the JSON that they are written as. The borsh decorators are left out.
use elusiv_sdk.Base.{
  ℕ, Bool, not, Option, none, some, List, [], ◌∷◌, map, length, take, if◌then◌else◌, ◌==◌,
}
use elusiv_sdk.Base.Int.{pos}
use elusiv_sdk.Result.{
  Result, ok, err, map_result, map_ok, empty_n_hashes_not_last, root_required, invalid_access,
  invalid_metadata_length, invalid_proof_type, ◌>>=◌,
}
use elusiv_sdk.Serialization.{
  Serializer, U256Serialized, serialize_u256_big_int, serialize_u256_bytes,
}
use elusiv_sdk.Serialization.JoinSplit.{
  InputCommitmentJson, OptionalFeeJson, JoinSplitJson, nonzero,
}

pub record InputCommitmentBorsh : Type 0 where
  pub root : Option ℕ
  pub nullifier_hash : ℕ

pub record OptionalFeeBorsh : Type 0 where
  pub collector : List ℕ
  pub amount : ℕ

pub record JoinSplitBorsh : Type 0 where
  pub input_commitments : List InputCommitmentBorsh
  pub output_commitment : ℕ
  pub recent_commitment_index : ℕ
  pub fee_version : ℕ
  pub amount : ℕ
  pub fee : ℕ
  pub optional_fee : OptionalFeeBorsh
  pub token_id : ℕ
  pub metadata : List ℕ

pub record SendPublicInputsBorsh : Type 0 where
  pub proof_type : ℕ
  pub join_split : JoinSplitBorsh
  pub recipient_is_associated_token_account : Bool
  pub solana_pay_transfer : Bool
  pub hashed_inputs : ℕ

pub record SendPublicInputsJson : Type 0 where
  pub join_split : JoinSplitJson
  pub recipient_is_associated_token_account : Bool
  pub hashed_inputs : U256Serialized
  pub solana_pay_transfer : Bool

-- `SEND_PUBLIC_INPUT_IX_CODE` of src/constants.ts.
abbrev pub send_public_input_ix_code : ℕ
send_public_input_ix_code = 0

-- The constructor.
unfoldable pub make_send_public_inputs :
    ℕ → JoinSplitBorsh → Bool → Bool → ℕ → Result SendPublicInputsBorsh
make_send_public_inputs proof_type join_split is_associated solana_pay hashed_inputs =
    if not (proof_type == send_public_input_ix_code)
    then err invalid_proof_type
    else ok (record {
      proof_type = proof_type;
      join_split = join_split;
      recipient_is_associated_token_account = is_associated;
      solana_pay_transfer = solana_pay;
      hashed_inputs = hashed_inputs;
    })

module _ (lib : Serializer) where
  unfoldable pub root_json : Option ℕ → Result (Option U256Serialized)
  unfolding serialize_u256_big_int
  root_json none = ok none
  root_json (some root) =
      if root == 0 then ok none else map_ok some (serialize_u256_big_int lib root)

  unfoldable pub input_commitment_json : InputCommitmentBorsh → Result InputCommitmentJson
  unfolding root_json serialize_u256_big_int
  input_commitment_json c = do
    root ← root_json c.root
    n_hash ← serialize_u256_big_int lib c.nullifier_hash
    ok (record { root = root; nullifier_hash = n_hash })

  -- A root that equals the first one is written as `null`.
  unfoldable pub clear_root : U256Serialized → InputCommitmentJson → InputCommitmentJson
  clear_root first_root c = record c {
    root = elim c.root [
      | none ↦ none
      | some curr_root ↦ if lib.are_equal_arrs curr_root first_root then none else some curr_root
    ];
  }

  unfoldable pub clear_roots : List InputCommitmentJson → Result (List InputCommitmentJson)
  unfolding clear_root
  clear_roots [] = err invalid_access
  clear_roots (first ∷ comms) = elim first.root [
    | none ↦ err root_required
    | some first_root ↦ ok (first ∷ map (clear_root first_root) comms)
  ]

  unfoldable pub input_commitments_json :
      List InputCommitmentBorsh → Result (List InputCommitmentJson)
  unfolding input_commitment_json clear_roots map_result
  input_commitments_json comms =
      let n_hashes = map (λ (c : InputCommitmentBorsh). c.nullifier_hash) comms in
      let filtered = nonzero n_hashes in
      if not (lib.are_equal_arrs filtered (take (length filtered) n_hashes))
      then err empty_n_hashes_not_last
      else (map_result input_commitment_json comms >>= clear_roots)

  unfoldable pub optional_fee_json : OptionalFeeBorsh → Result OptionalFeeJson
  unfolding serialize_u256_bytes
  optional_fee_json f = do
    collector ← serialize_u256_bytes lib f.collector
    ok (record { collector = collector; amount = f.amount })

  unfoldable pub join_split_json : JoinSplitBorsh → Result JoinSplitJson
  unfolding input_commitments_json optional_fee_json serialize_u256_big_int
  join_split_json j = do
    serialized_comms ← input_commitments_json j.input_commitments
    if not (length j.metadata == lib.commitment_metadata_length)
        then err invalid_metadata_length
        else (do
          output ← serialize_u256_big_int lib j.output_commitment
          optional ← optional_fee_json j.optional_fee
          ok (record {
            input_commitments = serialized_comms;
            output_commitment = output;
            recent_commitment_index = j.recent_commitment_index;
            fee_version = j.fee_version;
            amount = pos j.amount;
            fee = pos j.fee;
            token_id = j.token_id;
            optional_fee = optional;
            metadata = j.metadata;
          }))

  unfoldable pub send_public_inputs_json : SendPublicInputsBorsh → Result SendPublicInputsJson
  unfolding join_split_json serialize_u256_big_int
  send_public_inputs_json s = do
    join_split ← join_split_json s.join_split
    hashed ← serialize_u256_big_int lib s.hashed_inputs
    ok (record {
      join_split = join_split;
      recipient_is_associated_token_account = s.recipient_is_associated_token_account;
      hashed_inputs = hashed;
      solana_pay_transfer = s.solana_pay_transfer;
    })
