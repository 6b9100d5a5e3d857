-- ===== src/Metadata.antt =====
-- src/sdk/clientCrypto/CommitmentMetadata.ts: the metadata of a commitment and its 17 bytes. The
-- number formats of @elusiv/serialization and the length of elusiv-circuits are parameters.
pub mod RoundTrip
pub mod Tests
use elusiv_sdk.Base.{
  ℕ, ◌^◌, ◌≤◌, ◌<◌, ◌≡◌, Bool, not, some, List, [], ◌∷◌, concat, length, if◌then◌else◌, ltb, ◌==◌,
}
use elusiv_sdk.Base.Int.{pos}
use elusiv_sdk.Base.Slice.{slice}
use elusiv_sdk.Result.{
  Result, ok, err, invalid_nonce, invalid_assoc_comm_index, invalid_amount, invalid_metadata_length,
  ◌>>=◌,
}
use elusiv_sdk.Constants.{max_uint20, max_uint32, max_uint64}
use elusiv_sdk.Token.{TokenType, get_number_from_token_type, get_token_type_from_number}
use elusiv_sdk.Transaction.{CommitmentMetadata}

pub record Serialization : Type 0 where
  pub serialize_uint16_le : ℕ → List ℕ
  pub serialize_uint32_le : ℕ → List ℕ
  pub serialize_uint64_le : ℕ → List ℕ
  pub serialize_uint_le : ℕ → ℕ → List ℕ
  pub deserialize_uint16_le : List ℕ → ℕ
  pub deserialize_uint32_le : List ℕ → ℕ
  pub deserialize_uint64_le : List ℕ → ℕ
  pub deserialize_uint_le : List ℕ → ℕ → ℕ
  pub commitment_metadata_length : ℕ

-- The constructor. Its arguments are natural numbers, so its tests for negative ones never hold.
unfoldable pub make_metadata : ℕ → TokenType → ℕ → ℕ → Result CommitmentMetadata
make_metadata nonce token_type assoc_comm_index balance =
    if ltb max_uint32 nonce
    then err invalid_nonce
    else if ltb max_uint20 assoc_comm_index
    then err invalid_assoc_comm_index
    else if ltb max_uint64 balance
    then err invalid_amount
    else ok (record {
      nonce = nonce;
      token_type = token_type;
      assoc_comm_index = assoc_comm_index;
      balance = balance;
    })

module _ (lib : Serialization) where
  unfoldable pub to_bytes : CommitmentMetadata → Result (List ℕ)
  unfolding get_number_from_token_type
  to_bytes m = do
    token ← get_number_from_token_type m.token_type
    ok (
        concat (
          lib.serialize_uint32_le m.nonce
          ∷ lib.serialize_uint16_le token
          ∷ lib.serialize_uint_le m.assoc_comm_index 3
          ∷ lib.serialize_uint64_le m.balance
          ∷ []))

  unfoldable pub from_bytes : List ℕ → Result CommitmentMetadata
  unfolding slice get_token_type_from_number make_metadata
  from_bytes bytes =
      if not (length bytes == lib.commitment_metadata_length)
      then err invalid_metadata_length
      else (do
        token_type ←
            get_token_type_from_number
              (lib.deserialize_uint16_le (slice bytes (pos 4) (some (pos 6))))
        make_metadata (lib.deserialize_uint32_le (slice bytes (pos 0) (some (pos 4)))) token_type
            (lib.deserialize_uint_le (slice bytes (pos 6) (some (pos 9))) 3)
            (lib.deserialize_uint64_le (slice bytes (pos 9) (some (pos 17)))))

-- What the library documents: each format has its number of bytes, and reads what it wrote.
pub record IsSerialization (lib : Serialization) : Type 0 where
  pub length16 : (n : ℕ) → length (lib.serialize_uint16_le n) ≡ 2
  pub length32 : (n : ℕ) → length (lib.serialize_uint32_le n) ≡ 4
  pub length64 : (n : ℕ) → length (lib.serialize_uint64_le n) ≡ 8
  pub length_any : (n w : ℕ) → length (lib.serialize_uint_le n w) ≡ w
  pub read16 : (n : ℕ) → n < 2 ^ 16 → lib.deserialize_uint16_le (lib.serialize_uint16_le n) ≡ n
  pub read32 : (n : ℕ) → n < 2 ^ 32 → lib.deserialize_uint32_le (lib.serialize_uint32_le n) ≡ n
  pub read64 : (n : ℕ) → n < 2 ^ 64 → lib.deserialize_uint64_le (lib.serialize_uint64_le n) ≡ n
  pub read_any : (n w : ℕ) → n < 256 ^ w → lib.deserialize_uint_le (lib.serialize_uint_le n w) w ≡ n
  pub metadata_length : lib.commitment_metadata_length ≡ 17
