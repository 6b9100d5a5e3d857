-- ===== src/Serialization/Amounts.antt =====
-- TransactionSerialization.ts: the numbers that a request to send carries.
use elusiv_sdk.Base.{◌≡◌, Bool}
use elusiv_sdk.Base.Int.{pos, ◌+ℤ◌}
use elusiv_sdk.Fee.{Fee}
use elusiv_sdk.Serialization.{ParamedWardenRequest, elusiv_send}
use elusiv_sdk.Serialization.Numbers.{Encodes}
use elusiv_sdk.Serialization.Send.{SendQuadraProof, SendProofSerialized}

-- What a request to send carries of its proof: the numbers of the proof as 32 bytes each.
pub record Reports (proof : SendQuadraProof) (is_solana_pay : Bool)
    (r : ParamedWardenRequest SendProofSerialized) : Type 0 where
  pub to_send : r.method ≡ elusiv_send
  pub whole :
      r.params.public_inputs.join_split.amount +ℤ r.params.public_inputs.join_split.fee
      ≡ pos proof.public_inputs.amount
  pub flag : r.params.public_inputs.solana_pay_transfer ≡ is_solana_pay
  pub hashed : Encodes proof.public_inputs.hash r.params.public_inputs.hashed_inputs
  pub output :
      Encodes proof.public_inputs.next_commitment
        r.params.public_inputs.join_split.output_commitment
  pub recipient : Encodes proof.public_inputs.extra_data_hash_inputs.recipient r.params.recipient
  pub identifier : Encodes proof.public_inputs.extra_data_hash_inputs.identifier r.params.identifier
  pub iv : Encodes proof.public_inputs.extra_data_hash_inputs.iv r.params.iv
  pub owner :
      Encodes proof.public_inputs.extra_data_hash_inputs.encrypted_owner r.params.encrypted_owner
  pub pay_id :
      Encodes proof.public_inputs.extra_data_hash_inputs.solana_pay_id r.params.solana_pay_id
