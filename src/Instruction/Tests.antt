-- ===== src/Instruction/Tests.antt =====
-- Concrete runs of the instructions, with numbers written in little-endian order, codecs that list the
-- fields and ciphers that mark what they were given.
use elusiv_sdk.Base.{
  ℕ, zero, suc, ◌+◌, ◌-◌, ◌*◌, ◌/◌, ◌%◌, ◌≡◌, refl, arith, Bool, true, false, Option, none, some,
  List, [], ◌∷◌, ◌++◌, length, take, drop, if◌then◌else◌, ◌==◌,
}
use elusiv_sdk.Base.Slice.{take-append, drop-append}
use elusiv_sdk.Result.{ok, or_else, ◌>>=◌}
use elusiv_sdk.Token.{
  usdc, mainnet_beta, get_number_from_token_type, get_pyth_price_account, get_token_info,
}
use elusiv_sdk.Metadata.{to_bytes}
use elusiv_sdk.Metadata.Tests.{
  bytes_le, read_le, length-bytes_le, read_le-bytes_le, little_endian,
  little_endian-IsSerialization, sample, sample-IsValid,
}
use elusiv_sdk.Serialization.{zeros}
use elusiv_sdk.Serialization.Numbers.{AreBytes}
use elusiv_sdk.Serialization.Tests.{same_list, same_list_refl}
use elusiv_sdk.Serialization.Borsh.{InputCommitmentBorsh}
use elusiv_sdk.Instruction.{
  Codec, IsCodec, Rvk, Library, TransactionInstruction, serialize_and_encrypt,
  get_elusiv_program_id,
}
use elusiv_sdk.Instruction.Store.{
  StoreBaseCommitmentBorsh, StoreBaseCommitmentBorshLegacy, compile_store, parse_store,
  store_accounts, token_accounts, store_token_type,
}
use elusiv_sdk.Instruction.Compute.{
  ComputeBaseCommitmentHashBorsh, ComputeHashIxEncryptedPayloadBorsh, ComputeHashInstruction,
  checksum, compute_accounts, compile_compute, parse_compute,
}
use elusiv_sdk.Instruction.Finalize.{
  FinalizeVerificationBorsh, FinalizeVerificationInstruction, compile_finalize,
  parse_finalize_with_key,
}
use elusiv_sdk.Instruction.Roots.{parse_roots, encode_input_commitments, hash_bytes}
use elusiv_sdk.Instruction.Laws.{
  WritesBack, Decrypts, HasParties, on_chain, made_store, parse_store-compile_store,
}
use elusiv_sdk.Instruction.RootLaws.{encode_input_commitments-parse_roots}
use elusiv_sdk.Instruction.Payloads.{
  parse_compute-compile_compute, parse_finalize_with_key-compile_finalize,
}

bytes_le-AreBytes : (k n : ℕ) → AreBytes (bytes_le k n)
bytes_le-AreBytes zero n = tt
bytes_le-AreBytes (suc k) n = (omega arith, bytes_le-AreBytes k (n / 256))

bytes_le-read_le : (bs : List ℕ) → AreBytes bs → bytes_le (length bs) (read_le bs) ≡ bs
bytes_le-read_le [] h = refl
bytes_le-read_le (b ∷ bs) (small, h) =
    let low : (b + 256 * read_le bs) % 256 ≡ b = omega (arith, small) in
    let high : (b + 256 * read_le bs) / 256 ≡ read_le bs = omega (arith, small) in
    rw (low, high, bytes_le-read_le bs h) refl

abbrev pub lib : Library
lib = record {
  formats = little_endian;
  serialize_uint256_le = bytes_le 32;
  deserialize_uint256_le = read_le;
  pad_le = λ bs n. bs ++ zeros (n - length bs);
  equals_uint8_arr = same_list;
  decrypt_with_key = λ encrypted key. drop 1 encrypted.cipher_text;
  public_key = λ bytes. "owner";
  key_bytes = λ key. 1 ∷ 2 ∷ [];
  system_program = "system";
  token_program = "token";
  get_associated_token_acc = λ owner token_type cluster. owner;
  generate_elusiv_pda_from = λ seeds program index. (program, 255);
}

lib-WritesBack : WritesBack lib
lib-WritesBack bs size h = rw size at (bytes_le-read_le bs h)

abbrev pub rvk : Rvk
rvk = record {
  get_identifier_key = λ nonce. "identifier";
  generate_decryption_key = λ nonce. nonce ∷ [];
  encrypt_seeded_salted = λ bs nonce. record { cipher_text = nonce ∷ bs; iv = 7 ∷ 8 ∷ [] };
  decrypt_seeded_salted = λ encrypted nonce. drop 1 encrypted.cipher_text;
  encrypt_metadata = λ bs hash. 99 ∷ bs;
  decrypt_metadata = λ bs hash. drop 1 bs;
}

rvk-Decrypts : Decrypts rvk
rvk-Decrypts = record { seeded = λ bs nonce. refl; metadata = λ bs hash. refl }

abbrev read_store : List ℕ → Option StoreBaseCommitmentBorsh
read_store
      (ix ∷ index ∷ bump ∷ base ∷ comm_index ∷ amount ∷ token ∷ comm ∷ version ∷ rate ∷ bytes) =
    some (record {
      instruction_index = ix;
      hash_account_index = index;
      hash_account_bump = bump;
      request = record {
        base_commitment = base;
        commitment_index = comm_index;
        amount = amount;
        token_id = token;
        commitment = comm;
        fee_version = version;
        min_batching_rate = rate;
      };
      metadata = bytes;
    })
read_store _ = none

abbrev pub store_codec : Codec StoreBaseCommitmentBorsh
store_codec = record {
  serialize = λ s.
      s.instruction_index ∷ s.hash_account_index ∷ s.hash_account_bump ∷ s.request.base_commitment
      ∷ s.request.commitment_index ∷ s.request.amount ∷ s.request.token_id ∷ s.request.commitment
      ∷ s.request.fee_version ∷ s.request.min_batching_rate ∷ s.metadata;
  deserialize = read_store;
}

abbrev no_codec : Codec StoreBaseCommitmentBorshLegacy
no_codec = record { serialize = λ s. []; deserialize = λ bs. none }

store_codec-IsCodec : IsCodec store_codec
store_codec-IsCodec s = refl

abbrev sample_metadata : List ℕ
sample_metadata = or_else (serialize_and_encrypt lib sample rvk (bytes_le 32 6)) []

abbrev no_instruction : TransactionInstruction
no_instruction = record { keys = []; program_id = ""; ix_data = [] }

abbrev sample_store : TransactionInstruction
sample_store =
    or_else
      (compile_store lib store_codec no_codec
        (made_store 3 (bytes_le 32 5) (bytes_le 32 6) 1 2 sample sample_metadata) rvk mainnet_beta
        258 "sender" "warden")
      no_instruction

encrypted : serialize_and_encrypt lib sample rvk (bytes_le 32 6) ≡ ok sample_metadata
unfolding serialize_and_encrypt to_bytes
encrypted = refl

compiled :
    compile_store lib store_codec no_codec
      (made_store 3 (bytes_le 32 5) (bytes_le 32 6) 1 2 sample sample_metadata)
      rvk
      mainnet_beta
      258
      "sender"
      "warden"
    ≡ ok sample_store
unfolding compile_store store_accounts token_accounts store_token_type get_elusiv_program_id
    get_number_from_token_type get_pyth_price_account get_token_info
compiled = refl

parse_store-compile_store_example :
    HasParties rvk 258 "sender" "warden" (on_chain sample_store)
    × (parse_store lib store_codec no_codec rvk (on_chain sample_store)
        ≡ ok (some (made_store 3 (bytes_le 32 5) (bytes_le 32 6) 1 2 sample sample_metadata)))
parse_store-compile_store_example =
    parse_store-compile_store lib store_codec no_codec 3 1 2 (bytes_le 32 5) (bytes_le 32 6)
      sample_metadata sample rvk mainnet_beta 258 "sender" "warden" sample_store
      little_endian-IsSerialization lib-WritesBack store_codec-IsCodec rvk-Decrypts sample-IsValid
      (length-bytes_le 32 5) (bytes_le-AreBytes 32 5) (length-bytes_le 32 6)
      (bytes_le-AreBytes 32 6) encrypted compiled

abbrev read_compute : List ℕ → Option ComputeBaseCommitmentHashBorsh
read_compute (index ∷ nonce ∷ size ∷ bytes) = some (record {
  hash_account_index = index;
  nonce = nonce;
  iv = take size bytes;
  cipher_text = drop size bytes;
})
read_compute _ = none

abbrev pub compute_codec : Codec ComputeBaseCommitmentHashBorsh
compute_codec = record {
  serialize = λ c. c.hash_account_index ∷ c.nonce ∷ length c.iv ∷ c.iv ++ c.cipher_text;
  deserialize = read_compute;
}

compute_codec-IsCodec : IsCodec compute_codec
compute_codec-IsCodec c = rw (take-append c.iv c.cipher_text, drop-append c.iv c.cipher_text) refl

abbrev read_payload : List ℕ → Option ComputeHashIxEncryptedPayloadBorsh
read_payload (balance ∷ flag ∷ bytes) =
    some (record { curr_priv_balance = balance; is_recipient = flag == 1; checksum = bytes })
read_payload _ = none

abbrev pub payload_codec : Codec ComputeHashIxEncryptedPayloadBorsh
payload_codec = record {
  serialize = λ p. p.curr_priv_balance ∷ (if p.is_recipient then 1 else 0) ∷ p.checksum;
  deserialize = read_payload;
}

flag_back : (b : Bool) → ((if b then 1 else 0) == 1) ≡ b
flag_back true = refl
flag_back false = refl

payload_codec-IsCodec : IsCodec payload_codec
payload_codec-IsCodec p = rw (flag_back p.is_recipient) refl

abbrev sample_compute : ComputeHashInstruction
sample_compute = record {
  nonce = 4;
  hash_acc_index = 1;
  curr_private_balance = 500;
  is_recipient = true;
  program_nonce = 0;
}

abbrev compute_instruction : TransactionInstruction
compute_instruction =
    or_else (compile_compute lib compute_codec payload_codec sample_compute rvk mainnet_beta)
      no_instruction

compute_compiled :
    compile_compute lib compute_codec payload_codec sample_compute rvk mainnet_beta
    ≡ ok compute_instruction
unfolding compile_compute compute_accounts get_elusiv_program_id
compute_compiled = refl

parse_compute-compile_compute_example :
    parse_compute lib compute_codec payload_codec (on_chain compute_instruction) rvk 4
    ≡ some sample_compute
parse_compute-compile_compute_example =
    parse_compute-compile_compute lib compute_codec payload_codec sample_compute rvk mainnet_beta
      compute_instruction compute_codec-IsCodec payload_codec-IsCodec rvk-Decrypts
      (same_list_refl checksum) compute_compiled

abbrev read_finalize : List ℕ → Option FinalizeVerificationBorsh
read_finalize (index ∷ amount ∷ token ∷ mt ∷ comm ∷ iv ∷ owner ∷ memo ∷ bytes) = some (record {
  verification_account_index = index;
  send_data = record {
    total_amount = amount;
    token_id = token;
    mt_index = mt;
    commitment_index = comm;
    iv = iv;
    encrypted_owner = owner;
  };
  uses_memo = memo == 1;
})
read_finalize _ = none

abbrev pub finalize_codec : Codec FinalizeVerificationBorsh
finalize_codec = record {
  serialize = λ f.
      f.verification_account_index
      ∷ f.send_data.total_amount
      ∷ f.send_data.token_id
      ∷ f.send_data.mt_index
      ∷ f.send_data.commitment_index
      ∷ f.send_data.iv
      ∷ f.send_data.encrypted_owner
      ∷ (if f.uses_memo then 1 else 0)
      ∷ [];
  deserialize = read_finalize;
}

finalize_codec-IsCodec : IsCodec finalize_codec
finalize_codec-IsCodec f = rw (flag_back f.uses_memo) refl

abbrev sample_finalize : FinalizeVerificationInstruction
sample_finalize = record {
  amount = 1_000;
  token_id = usdc;
  mt_index = 2;
  encrypted_owner = record { cipher_text = bytes_le 32 77; iv = bytes_le 16 9 };
  verification_account_index = 1;
  owner = "owner";
}

abbrev finalize_bytes : List ℕ
finalize_bytes = or_else (compile_finalize lib finalize_codec sample_finalize false 5) []

finalize_compiled : compile_finalize lib finalize_codec sample_finalize false 5 ≡ ok finalize_bytes
unfolding compile_finalize get_number_from_token_type
finalize_compiled = refl

parse_finalize_with_key-compile_finalize_example :
    parse_finalize_with_key lib finalize_codec
      (record { program_id = "program"; accounts = []; ix_data = finalize_bytes })
      (3 ∷ [])
    ≡ ok (some sample_finalize)
parse_finalize_with_key-compile_finalize_example =
    parse_finalize_with_key-compile_finalize lib finalize_codec sample_finalize (3 ∷ []) false 5
      "program" [] finalize_bytes finalize_codec-IsCodec lib-WritesBack (λ bs n short. refl)
      (length-bytes_le 16 9) (bytes_le-AreBytes 16 9) (length-bytes_le 32 77)
      (bytes_le-AreBytes 32 77) refl finalize_compiled

abbrev later_comms : List InputCommitmentBorsh
later_comms =
    record { root = none; nullifier_hash = 12 }
    ∷ record { root = some 300; nullifier_hash = 13 }
    ∷ []

abbrev all_comms : List InputCommitmentBorsh
all_comms = record { root = some 7; nullifier_hash = 11 } ∷ later_comms

encode_input_commitments-parse_roots_example :
    (parse_roots lib (some 7 ∷ none ∷ some 300 ∷ []) >>= λ roots.
    encode_input_commitments lib roots (hash_bytes lib all_comms) 3)
    ≡ ok all_comms
encode_input_commitments-parse_roots_example =
    encode_input_commitments-parse_roots lib (λ n small. read_le-bytes_le 32 n small) 7 11
      later_comms (omega arith)
      ((omega arith, omega arith), ((tt, omega arith), ((omega arith, omega arith), tt)))
