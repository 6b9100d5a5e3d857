-- ===== src/Serialization/Send.antt =====
-- TransactionSerialization.ts: the request that carries the proof of a send or of a merge.
use elusiv_sdk.Base.{ℕ, Bool, false, Option, none, some, String, List}
use elusiv_sdk.Result.{Result, ok, ◌>>=◌}
use elusiv_sdk.Fee.{Fee}
use elusiv_sdk.Serialization.{
  Serializer, U256Serialized, ParamedWardenRequest, build_warden_request, elusiv_send,
  serialize_u256_bytes, serialize_u256_big_int,
}
use elusiv_sdk.Serialization.JoinSplit.{PublicInputs, serialize_join_split}
use elusiv_sdk.Serialization.Borsh.{SendPublicInputsJson}

-- `ProofPointG1`, `ProofPointG2`, `Groth16Proof` and `SendQuadraProof` of elusiv-circuits.
abbrev pub ProofPointG1 : Type 0
ProofPointG1 = List ℕ × List ℕ × Bool

abbrev pub ProofPointG2 : Type 0
ProofPointG2 = (List ℕ × List ℕ) × (List ℕ × List ℕ) × Bool

pub record Groth16Proof : Type 0 where
  pub pi_a : ProofPointG1
  pub pi_b : ProofPointG2
  pub pi_c : ProofPointG1

pub record SendQuadraProof : Type 0 where
  pub proof : Groth16Proof
  pub public_inputs : PublicInputs

pub record RawG1A : Type 0 where
  pub x : U256Serialized
  pub y : U256Serialized
  pub infinity : Bool

pub record RawG2A : Type 0 where
  pub x : U256Serialized × U256Serialized
  pub y : U256Serialized × U256Serialized
  pub infinity : Bool

pub record RawProof : Type 0 where
  pub a : RawG1A
  pub b : RawG2A
  pub c : RawG1A

-- A tuple of eight; `null` is `none`.
pub record SendProofSerialized : Type 0 where
  pub proof : RawProof
  pub public_inputs : SendPublicInputsJson
  pub recipient : U256Serialized
  pub identifier : U256Serialized
  pub iv : U256Serialized
  pub encrypted_owner : U256Serialized
  pub solana_pay_id : U256Serialized
  pub memo : Option String

module _ (lib : Serializer) where
  unfoldable pub serialize_g1_point : ProofPointG1 → Result RawG1A
  unfolding serialize_u256_bytes
  serialize_g1_point (x, y, infinity) = do
    sx ← serialize_u256_bytes lib x
    sy ← serialize_u256_bytes lib y
    ok (record { x = sx; y = sy; infinity = infinity })

  unfoldable pub serialize_g2_point : ProofPointG2 → Result RawG2A
  unfolding serialize_u256_bytes
  serialize_g2_point ((x0, x1), (y0, y1), infinity) = do
    sx0 ← serialize_u256_bytes lib x0
    sx1 ← serialize_u256_bytes lib x1
    sy0 ← serialize_u256_bytes lib y0
    sy1 ← serialize_u256_bytes lib y1
    ok (record { x = (sx0, sx1); y = (sy0, sy1); infinity = infinity })

  unfoldable pub serialize_proof : Groth16Proof → Result RawProof
  unfolding serialize_g1_point serialize_g2_point
  serialize_proof proof = do
    a ← serialize_g1_point proof.pi_a
    b ← serialize_g2_point proof.pi_b
    c ← serialize_g1_point proof.pi_c
    ok (record { a = a; b = b; c = c })

  unfoldable pub serialize_send_public_inputs :
      PublicInputs → Fee → Bool → Result SendPublicInputsJson
  unfolding serialize_join_split serialize_u256_big_int
  serialize_send_public_inputs public_inputs fee is_solana_pay_transfer = do
    join_split ← serialize_join_split lib public_inputs fee
    hashed ← serialize_u256_big_int lib public_inputs.hash
    ok (record {
      join_split = join_split;
      recipient_is_associated_token_account =
          public_inputs.extra_data_hash_inputs.is_associated_token_account;
      hashed_inputs = hashed;
      solana_pay_transfer = is_solana_pay_transfer;
    })

  -- The bytes of a memo are an object, so that an empty one is truthy as well.
  abbrev pub memo_string : Option (List ℕ) → Option String
  memo_string none = none
  memo_string (some memo) = some (lib.utf8_byte_codes_to_string memo)

  unfoldable pub serialize_send_proof : SendQuadraProof → Fee → Bool → Result SendProofSerialized
  unfolding serialize_proof serialize_send_public_inputs serialize_u256_big_int
  serialize_send_proof proof fee is_solana_pay_transfer = do
    let extra = proof.public_inputs.extra_data_hash_inputs
    groth16 ← serialize_proof proof.proof
    inputs ← serialize_send_public_inputs proof.public_inputs fee is_solana_pay_transfer
    recipient ← serialize_u256_big_int lib extra.recipient
    identifier ← serialize_u256_big_int lib extra.identifier
    iv ← serialize_u256_big_int lib extra.iv
    encrypted_owner ← serialize_u256_big_int lib extra.encrypted_owner
    solana_pay_id ← serialize_u256_big_int lib extra.solana_pay_id
    ok (record {
      proof = groth16;
      public_inputs = inputs;
      recipient = recipient;
      identifier = identifier;
      iv = iv;
      encrypted_owner = encrypted_owner;
      solana_pay_id = solana_pay_id;
      memo = memo_string extra.memo;
    })

  unfoldable pub serialize_send :
      SendQuadraProof → Fee → Bool → Result (ParamedWardenRequest SendProofSerialized)
  unfolding serialize_send_proof build_warden_request
  serialize_send proof fee is_solana_pay_transfer = do
    serialized ← serialize_send_proof proof fee is_solana_pay_transfer
    ok (build_warden_request elusiv_send serialized)

  unfoldable pub serialize_merge :
      SendQuadraProof → Fee → Result (ParamedWardenRequest SendProofSerialized)
  unfolding serialize_send
  serialize_merge proof fee = serialize_send proof fee false
