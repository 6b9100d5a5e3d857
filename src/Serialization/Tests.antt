-- ===== src/Serialization/Tests.antt =====
-- Concrete runs of the serialization, with numbers written by their digits in base 256.
use native.Mathlib.Nat.{pow-succ'}
use elusiv_sdk.Base.{
  ℕ, zero, suc, ◌-◌, ◌*◌, ◌/◌, ◌%◌, ◌^◌, ◌≤◌, ◌<◌, ◌≡◌, ◌≢◌, ◌⊎◌, refl, sym, arith, Bool, true,
  false, ◌&&◌, none, some, List, [], ◌∷◌, ◌++◌, length, All, ◌==◌, ==_iff, Bool-cases, inl, inr,
}
use elusiv_sdk.Base.Int.{pos}
use elusiv_sdk.Result.{
  ok, err, map_result, too_large_size, empty_n_hashes_not_last, missing_signature,
}
use elusiv_sdk.Token.{lamports}
use elusiv_sdk.Fee.{Fee}
use elusiv_sdk.Serialization.{
  Serializer, IsSerializer, ParamedWardenRequest, zeros, le_value, serialize_u256_big_int,
  serialize_u256_bytes, elusiv_send,
}
use elusiv_sdk.Serialization.Numbers.{Encodes, serialize_u256_big_int_lem}
use elusiv_sdk.Serialization.JoinSplit.{
  InputCommitmentJson, nonzero, pair_up, serialize_n_hashes, serialize_roots, serialize_later_root,
  serialize_input_commitments,
}
use elusiv_sdk.Serialization.Roots.{read_roots, read_roots-serialize_roots}
use elusiv_sdk.Serialization.Hashes.{serialize_n_hashes_lem}
use elusiv_sdk.Serialization.Borsh.{input_commitments_json}
use elusiv_sdk.Serialization.LaterRoots.{stored}
use elusiv_sdk.Serialization.Equivalence.{input_commitments_json-eq-serialize_input_commitments}
use elusiv_sdk.Serialization.Send.{SendQuadraProof, SendProofSerialized}
use elusiv_sdk.Serialization.Store.{
  StoreTransaction, TransactionSerialized, serialize_partially_signed_store,
}
use elusiv_sdk.Serialization.Framing.{Carries, serialize_partially_signed_store-Carries}

abbrev pub digits : ℕ → ℕ → List ℕ
digits zero n = []
digits (suc fuel) n = elim (n == 0) [ true ↦ [] | false ↦ n % 256 ∷ digits fuel (n / 256) ]

digits-AreBytes : (fuel n : ℕ) → All (λ b. b < 256) (digits fuel n)
digits-AreBytes zero n = tt
digits-AreBytes (suc fuel) n = elim (Bool-cases (n == 0)) [
  | inl none_left ↦ rw (none_left, digits) tt
  | inr more ↦ rw (more, digits) (omega arith, digits-AreBytes fuel (n / 256))
]

le_value-digits : (fuel n : ℕ) → n ≤ fuel → le_value (digits fuel n) ≡ n
le_value-digits zero n enough = omega arith
le_value-digits (suc fuel) n enough = elim (Bool-cases (n == 0)) [
  | inl none_left ↦ let zero_left : n ≡ 0 = ground arith in rw (none_left, digits) (sym zero_left)
  | inr more ↦
      let positive : n ≢ 0 = ground arith in
      let less : n / 256 ≤ fuel = omega (arith, enough, positive) in
      let rest = le_value-digits fuel (n / 256) less in rw (more, digits) (omega (arith, rest))
]

length-digits : (fuel n k : ℕ) → n < 256 ^ k → length (digits fuel n) ≤ k
length-digits zero n k small = omega arith
length-digits (suc fuel) n zero small =
    let zero_left : n ≡ 0 = omega arith in rw zero_left (omega arith)
length-digits (suc fuel) n (suc k) small = elim (Bool-cases (n == 0)) [
  | inl none_left ↦ rw (none_left, digits) (omega arith)
  | inr more ↦
      let larger : n < 256 * 256 ^ k = rw pow-succ' at small in
      let rest = length-digits fuel (n / 256) k (omega arith) in
      rw (more, digits) (omega (arith, rest))
]

abbrev pub same_list : List ℕ → List ℕ → Bool
same_list [] [] = true
same_list (x ∷ xs) (y ∷ ys) = (x == y) && same_list xs ys
same_list _ _ = false

pub same_list_eq : (xs ys : List ℕ) → same_list xs ys ≡ true → xs ≡ ys
same_list_eq [] [] h = refl
same_list_eq [] (y ∷ ys) h = cc
same_list_eq (x ∷ xs) [] h = cc
same_list_eq (x ∷ xs) (y ∷ ys) h =
    let first : x ≡ y = ground (arith, h) in
    let rest : same_list xs ys ≡ true = ground (arith, h) in
    rw (first, same_list_eq xs ys rest) refl

pub same_list_refl : (xs : List ℕ) → same_list xs xs ≡ true
same_list_refl [] = refl
same_list_refl (x ∷ xs) = let same = (==_iff x x).1 refl in rw (same, same_list_refl xs) refl

abbrev sample : Serializer
sample = record {
  big_int_to_uint8_arr_le = λ n. digits n n;
  pad_le = λ bs n. bs ++ zeros (n - length bs);
  serialize_uint_le = λ n w. digits w n;
  are_equal_arrs = same_list;
  utf8_byte_codes_to_string = λ bs. "memo";
  bs58_to_bytes = λ text. 1 ∷ 2 ∷ [];
  commitment_metadata_length = 17;
}

sample-IsSerializer : IsSerializer sample
sample-IsSerializer = record {
  are_bytes = λ n. digits-AreBytes n n;
  reads_back = λ n. le_value-digits n n (omega arith);
  fits = λ n small. length-digits n n 32 small;
  pads = λ bs n short. refl;
  compares = λ xs ys. (same_list_eq xs ys, λ same. rw same (same_list_refl ys));
}

abbrev pub one_fee : Fee
one_fee = record {
  token_type = lamports;
  tx_fee = pos 5;
  privacy_fee = pos 0;
  token_acc_rent = pos 0;
  extra_fee = pos 0;
  lamports_per_token = none;
}

serialize_u256_big_int_lem_example :
    ((300 < 256 ^ 32) × (r : List ℕ) × (serialize_u256_big_int sample 300 ≡ ok r) × Encodes 300 r)
    ⊎ ((256 ^ 32 ≤ 300) × (serialize_u256_big_int sample 300 ≡ err too_large_size))
serialize_u256_big_int_lem_example = serialize_u256_big_int_lem sample sample-IsSerializer 300

abbrev bytes_of : ℕ → List ℕ
bytes_of n = n ∷ zeros 31

two_roots :
    serialize_roots sample (5 ∷ 5 ∷ 9 ∷ []) ≡ ok (some (bytes_of 5) ∷ none ∷ some (bytes_of 9) ∷ [])
unfolding serialize_roots serialize_later_root serialize_u256_big_int serialize_u256_bytes
    map_result
two_roots = refl

read_roots-serialize_roots_example :
    map_result (serialize_u256_big_int sample) (5 ∷ 5 ∷ 9 ∷ [])
    ≡ ok (read_roots (some (bytes_of 5) ∷ none ∷ some (bytes_of 9) ∷ []))
read_roots-serialize_roots_example =
    read_roots-serialize_roots sample 5 (5 ∷ 9 ∷ [])
      (some (bytes_of 5) ∷ none ∷ some (bytes_of 9) ∷ []) (omega arith, (omega arith, tt)) two_roots

serialize_n_hashes_lem_example :
    ((k : ℕ) × (4 ∷ 6 ∷ 0 ∷ [] ≡ nonzero (4 ∷ 6 ∷ 0 ∷ []) ++ zeros k)
      × (serialize_n_hashes sample (4 ∷ 6 ∷ 0 ∷ [])
          ≡ map_result (serialize_u256_big_int sample) (nonzero (4 ∷ 6 ∷ 0 ∷ []))))
    ⊎ (((k : ℕ) → 4 ∷ 6 ∷ 0 ∷ [] ≢ nonzero (4 ∷ 6 ∷ 0 ∷ []) ++ zeros k)
        × (serialize_n_hashes sample (4 ∷ 6 ∷ 0 ∷ []) ≡ err empty_n_hashes_not_last))
serialize_n_hashes_lem_example = serialize_n_hashes_lem sample sample-IsSerializer (4 ∷ 6 ∷ 0 ∷ [])

abbrev two_comms : List InputCommitmentJson
two_comms =
    record { root = some (bytes_of 5); nullifier_hash = bytes_of 4 }
    ∷ record { root = none; nullifier_hash = bytes_of 6 }
    ∷ []

two_comms_written : serialize_input_commitments sample (5 ∷ 5 ∷ []) (4 ∷ 6 ∷ []) ≡ ok two_comms
unfolding serialize_input_commitments serialize_roots serialize_later_root serialize_u256_big_int
    serialize_u256_bytes map_result serialize_n_hashes pair_up
two_comms_written = refl

input_commitments_json-eq-serialize_input_commitments_example :
    input_commitments_json sample (stored (5 ∷ 5 ∷ []) (4 ∷ 6 ∷ [])) ≡ ok two_comms
input_commitments_json-eq-serialize_input_commitments_example =
    input_commitments_json-eq-serialize_input_commitments sample sample-IsSerializer 5 (5 ∷ []) 4
      (6 ∷ []) two_comms refl (omega arith, (omega arith, tt)) (omega arith, (omega arith, tt))
      two_comms_written

abbrev sample_tx : StoreTransaction
sample_tx = record {
  signatures = some (7 ∷ []) ∷ none ∷ [];
  message = record {
    header = record {
      num_required_signatures = 2;
      num_readonly_signed_accounts = 0;
      num_readonly_unsigned_accounts = 1;
    };
    account_keys = (1 ∷ []) ∷ (2 ∷ []) ∷ [];
    recent_blockhash = "hash";
    compiled_instructions =
        record { program_id_index = 1; account_key_indexes = 0 ∷ 1 ∷ []; ix_data = 9 ∷ [] } ∷ [];
  };
}

serialize_partially_signed_store-Carries_example :
    ((length sample_tx.signatures ≡ 2)
      × (r : ParamedWardenRequest TransactionSerialized) × (serialize_partially_signed_store sample
            sample_tx
          ≡ ok r)
      × Carries sample sample_tx r)
    ⊎ ((length sample_tx.signatures ≢ 2)
        × (serialize_partially_signed_store sample sample_tx ≡ err missing_signature))
serialize_partially_signed_store-Carries_example =
    serialize_partially_signed_store-Carries sample sample_tx

abbrev sample_proof : SendQuadraProof
sample_proof = record {
  proof = record {
    pi_a = (1 ∷ [], 2 ∷ [], false);
    pi_b = ((3 ∷ [], 4 ∷ []), (5 ∷ [], 6 ∷ []), false);
    pi_c = (7 ∷ [], 8 ∷ [], false);
  };
  public_inputs = record {
    roots = 5 ∷ 5 ∷ [];
    nullifier_hashes = 4 ∷ 6 ∷ [];
    next_commitment = 10;
    next_assoc_comm_index = 1;
    fee_version = 0;
    amount = 100;
    token_id = 0;
    serialized_metadata = 0;
    hash = 11;
    extra_data_hash_inputs = record {
      recipient = 12;
      identifier = 13;
      iv = 14;
      encrypted_owner = 15;
      solana_pay_id = 0;
      is_associated_token_account = false;
      optional_fee_amount = 0;
      optional_fee_collector = 0;
      memo = none;
    };
  };
}

abbrev sample_request : ParamedWardenRequest SendProofSerialized
sample_request = record {
  jsonrpc = "2.0";
  id = "1";
  version = "1.0";
  method = elusiv_send;
  params = record {
    proof = record {
      a = record { x = bytes_of 1; y = bytes_of 2; infinity = false };
      b = record { x = (bytes_of 3, bytes_of 4); y = (bytes_of 5, bytes_of 6); infinity = false };
      c = record { x = bytes_of 7; y = bytes_of 8; infinity = false };
    };
    public_inputs = record {
      join_split = record {
        input_commitments = two_comms;
        output_commitment = bytes_of 10;
        recent_commitment_index = 1;
        fee_version = 0;
        amount = pos 95;
        fee = pos 5;
        token_id = 0;
        optional_fee = record { collector = zeros 32; amount = 0 };
        metadata = [];
      };
      recipient_is_associated_token_account = false;
      hashed_inputs = bytes_of 11;
      solana_pay_transfer = true;
    };
    recipient = bytes_of 12;
    identifier = bytes_of 13;
    iv = bytes_of 14;
    encrypted_owner = bytes_of 15;
    solana_pay_id = zeros 32;
    memo = none;
  };
}
