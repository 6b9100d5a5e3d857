-- ===== src/Serialization.antt =====
-- src/sdk/transactions/txBuilding: how proofs and transactions are written for the Wardens
-- (wardenSerialization/TransactionSerialization.ts, wardenSerialization/utils.ts and
-- serializedTypes/types.ts). A byte array is a list of numbers. The number formats and the comparison
-- of @elusiv/serialization, bs58, Node's Buffer and the length of elusiv-circuits are parameters;
-- `bigIntToNumber` is the identity on the values in question.
pub mod Numbers
pub mod JoinSplit
pub mod Roots
pub mod Hashes
pub mod Borsh
pub mod LaterRoots
pub mod Equivalence
pub mod Send
pub mod Store
pub mod Framing
pub mod Amounts
pub mod Tests
use elusiv_sdk.Base.{
  ℕ, zero, suc, ◌+◌, ◌-◌, ◌*◌, ◌^◌, ◌≤◌, ◌<◌, ◌≡◌, ◌↔◌, Bool, true, String, List, [], ◌∷◌, ◌++◌,
  length, if◌then◌else◌, ltb, All,
}
use elusiv_sdk.Result.{Result, ok, err, too_large_size, ◌>>=◌}

-- What the code calls of its libraries. `are_equal_arrs` is the one with `(a, b) => a === b`.
pub record Serializer : Type 0 where
  pub big_int_to_uint8_arr_le : ℕ → List ℕ
  pub pad_le : List ℕ → ℕ → List ℕ
  pub serialize_uint_le : ℕ → ℕ → List ℕ
  pub are_equal_arrs : List ℕ → List ℕ → Bool
  pub utf8_byte_codes_to_string : List ℕ → String
  pub bs58_to_bytes : String → List ℕ
  pub commitment_metadata_length : ℕ

abbrev pub zeros : ℕ → List ℕ
zeros zero = []
zeros (suc n) = 0 ∷ zeros n

-- What bytes stand for, the lowest first.
abbrev pub le_value : List ℕ → ℕ
le_value [] = 0
le_value (b ∷ bs) = b + 256 * le_value bs

-- What the libraries document.
pub record IsSerializer (lib : Serializer) : Type 0 where
  pub are_bytes : (n : ℕ) → All (λ b. b < 256) (lib.big_int_to_uint8_arr_le n)
  pub reads_back : (n : ℕ) → le_value (lib.big_int_to_uint8_arr_le n) ≡ n
  pub fits : (n : ℕ) → n < 256 ^ 32 → length (lib.big_int_to_uint8_arr_le n) ≤ 32
  pub pads : (bs : List ℕ) (n : ℕ) → length bs < n → lib.pad_le bs n ≡ bs ++ zeros (n - length bs)
  pub compares : (xs ys : List ℕ) → (lib.are_equal_arrs xs ys ≡ true) ↔ (xs ≡ ys)

-- 32 numbers.
abbrev pub U256Serialized : Type 0
U256Serialized = List ℕ

-- `[[number], ...T[]]`.
pub record DataSerialized {ℓ} (T : Type ℓ) : Type ℓ where
  pub count : List ℕ
  pub items : List T

-- The members of `WardenMethod` with parameters that the serialization builds.
pub data WardenMethod : Type 0 where
  elusiv_store elusiv_send : WardenMethod

pub record ParamedWardenRequest {ℓ} (V : Type ℓ) : Type ℓ where
  pub jsonrpc : String
  pub id : String
  pub version : String
  pub method : WardenMethod
  pub params : V

unfoldable pub build_warden_request {ℓ} : {V : Type ℓ} → WardenMethod → V → ParamedWardenRequest V
build_warden_request method params = record {
  jsonrpc = "2.0";
  id = "1";
  version = "1.0";
  method = method;
  params = params;
}

module _ (lib : Serializer) where
  unfoldable pub serialize_u256_bytes : List ℕ → Result U256Serialized
  serialize_u256_bytes bytes =
      if ltb 32 (length bytes)
      then err too_large_size
      else ok (if ltb (length bytes) 32 then lib.pad_le bytes 32 else bytes)

  unfoldable pub serialize_u256_big_int : ℕ → Result U256Serialized
  unfolding serialize_u256_bytes
  serialize_u256_big_int b = serialize_u256_bytes (lib.big_int_to_uint8_arr_le b)
