-- ===== src/Instruction/Payloads.antt =====
-- ComputeHashInstruction.ts and FinalizeVerificationInstruction.ts: instructions that are compiled and
-- read again.
use elusiv_sdk.Base.{
  ℕ, ◌-◌, ◌<◌, ◌≡◌, refl, sym, ap, ◌∙◌, arith, Bool, true, String, some, List, ◌++◌, length, take,
  drop, length-append, All-append,
}
use elusiv_sdk.Base.Slice.{take-append, drop-append}
use elusiv_sdk.Result.{ok, >>=-eq-ok, ok-injective, ◌>>=◌}
use elusiv_sdk.Token.{TokenType, Cluster, get_number_from_token_type, get_token_type_from_number}
use elusiv_sdk.Token.Laws.{get_token_type_from_number-get_number_from_token_type}
use elusiv_sdk.Serialization.{zeros}
use elusiv_sdk.Serialization.Numbers.{AreBytes, zeros-AreBytes}
use elusiv_sdk.Instruction.{
  Codec, IsCodec, Rvk, Library, EncryptedValue, Instruction, TransactionInstruction,
  get_elusiv_program_id,
}
use elusiv_sdk.Instruction.Laws.{WritesBack, Decrypts, on_chain}
use elusiv_sdk.Instruction.Compute.{
  ComputeBaseCommitmentHashBorsh, ComputeHashIxEncryptedPayloadBorsh, ComputeHashInstruction,
  checksum, parse_encrypted_data, parse_compute, compile_encrypted_data, compute_accounts,
  compute_payload, compile_compute,
}
use elusiv_sdk.Instruction.Finalize.{
  FinalizeVerificationBorsh, FinalizeVerificationInstruction, parse_finalize_with_key,
  compile_finalize,
}

module _ (lib : Library) (codec : Codec ComputeBaseCommitmentHashBorsh)
    (payload_codec : Codec ComputeHashIxEncryptedPayloadBorsh) where
  compute_inv :
      (ix : ComputeHashInstruction) (rvk : Rvk) (cluster : Cluster) (t : TransactionInstruction)
      → compile_compute lib codec payload_codec ix rvk cluster ≡ ok t
      → t.ix_data
        ≡ compute_payload lib codec payload_codec ix
            (compile_encrypted_data lib codec payload_codec ix rvk)
  compute_inv ix rvk cluster t done =
      unfold compile_compute in
      let (keys, e1, f1) = >>=-eq-ok (compute_accounts lib codec payload_codec ix cluster) _ done in
      let (program, e2, f2) = >>=-eq-ok (get_elusiv_program_id cluster) _ f1 in
      rw (sym (ok-injective f2)) refl

  payload_back :
      (ix : ComputeHashInstruction) (rvk : Rvk)
      → IsCodec payload_codec
      → Decrypts rvk
      → lib.equals_uint8_arr checksum checksum ≡ true
      → parse_encrypted_data lib codec payload_codec rvk ix.nonce
          (compile_encrypted_data lib codec payload_codec ix rvk)
        ≡ some (record {
          curr_priv_balance = ix.curr_private_balance;
          is_recipient = ix.is_recipient;
          checksum = checksum;
        })
  unfolding parse_encrypted_data
  payload_back ix rvk codes cipher same =
      let plain = payload_codec.serialize (record {
        curr_priv_balance = ix.curr_private_balance;
        is_recipient = ix.is_recipient;
        checksum = checksum;
      }) in
      let read = ap payload_codec.deserialize (cipher.seeded plain ix.nonce) ∙ codes _ in
      unfold compile_encrypted_data in rw (read, parse_encrypted_data) (rw same refl)

  parsed_eq :
      (ix : Instruction) (rvk : Rvk) (nonce : ℕ) (parsed : ComputeBaseCommitmentHashBorsh)
      (payload : ComputeHashIxEncryptedPayloadBorsh)
      → codec.deserialize ix.ix_data ≡ some parsed
      → parse_encrypted_data lib codec payload_codec rvk nonce
          (record { cipher_text = parsed.cipher_text; iv = parsed.iv })
        ≡ some payload
      → parse_compute lib codec payload_codec ix rvk nonce
        ≡ some (record {
          nonce = nonce;
          hash_acc_index = parsed.hash_account_index;
          curr_private_balance = payload.curr_priv_balance;
          is_recipient = payload.is_recipient;
          program_nonce = parsed.nonce;
        })
  unfolding parse_compute
  parsed_eq ix rvk nonce parsed payload e e' = rw (e, parse_compute) (rw e' refl)

  -- A compute instruction is read back as it was with the nonce that it was encrypted with, if the
  -- libraries read what they write and the checksum equals itself.
  pub parse_compute-compile_compute :
      (ix : ComputeHashInstruction) (rvk : Rvk) (cluster : Cluster) (t : TransactionInstruction)
      → IsCodec codec
      → IsCodec payload_codec
      → Decrypts rvk
      → lib.equals_uint8_arr checksum checksum ≡ true
      → compile_compute lib codec payload_codec ix rvk cluster ≡ ok t
      → parse_compute lib codec payload_codec (on_chain t) rvk ix.nonce ≡ some ix
  parse_compute-compile_compute ix rvk cluster t codes codes' cipher same done =
      parsed_eq (on_chain t) rvk ix.nonce _ _
        (ap codec.deserialize (compute_inv ix rvk cluster t done) ∙ codes _)
        (payload_back ix rvk codes' cipher same)

-- What `padLE` documents.
abbrev pub Pads : Library → Type 0
Pads lib = (bs : List ℕ) (n : ℕ) → length bs < n → lib.pad_le bs n ≡ bs ++ zeros (n - length bs)

module _ (lib : Library) (codec : Codec FinalizeVerificationBorsh) where
  finalize_eq :
      (ix : Instruction) (key : List ℕ) (parsed : FinalizeVerificationBorsh) (token : TokenType)
      (iv cipher : List ℕ)
      → codec.deserialize ix.ix_data ≡ some parsed
      → lib.serialize_uint256_le parsed.send_data.iv ≡ iv ++ zeros 16
      → lib.serialize_uint256_le parsed.send_data.encrypted_owner ≡ cipher
      → length iv ≡ 16
      → get_token_type_from_number parsed.send_data.token_id ≡ ok token
      → let encrypted : EncryptedValue = record { cipher_text = cipher; iv = iv } in
        parse_finalize_with_key lib codec ix key
        ≡ ok (
            some (record {
              amount = parsed.send_data.total_amount;
              token_id = token;
              mt_index = parsed.send_data.mt_index;
              encrypted_owner = encrypted;
              verification_account_index = parsed.verification_account_index;
              owner = lib.public_key (lib.decrypt_with_key encrypted key);
            }))
  unfolding parse_finalize_with_key
  finalize_eq ix key parsed token iv cipher e padded shown size named =
      let taken : take 16 (iv ++ zeros 16) ≡ iv = rw size at (take-append iv (zeros 16)) in
      let dropped : drop 16 (iv ++ zeros 16) ≡ zeros 16 = rw size at (drop-append iv (zeros 16)) in
      rw (e, parse_finalize_with_key) (rw (padded, taken, dropped, named, shown) refl)

  opened :
      (ix : FinalizeVerificationInstruction) (uses_memo : Bool) (comm_index : ℕ) (bytes : List ℕ)
      → compile_finalize lib codec ix uses_memo comm_index ≡ ok bytes
      → (get_number_from_token_type ix.token_id >>= λ token. ok (
          codec.serialize (record {
            verification_account_index = ix.verification_account_index;
            send_data = record {
              total_amount = ix.amount;
              token_id = token;
              mt_index = ix.mt_index;
              commitment_index = comm_index;
              iv = lib.deserialize_uint256_le (lib.pad_le ix.encrypted_owner.iv 32);
              encrypted_owner = lib.deserialize_uint256_le ix.encrypted_owner.cipher_text;
            };
            uses_memo = uses_memo;
          })))
        ≡ ok bytes
  unfolding compile_finalize
  opened ix uses_memo comm_index bytes done = done

  -- A finalize instruction whose cipher text has 32 bytes and whose iv has 16 is read back as it was
  -- with the key of its owner's cipher text, if the libraries read what they write.
  pub parse_finalize_with_key-compile_finalize :
      (ix : FinalizeVerificationInstruction) (key : List ℕ) (uses_memo : Bool) (comm_index : ℕ)
      (program : String) (accounts : List String) (bytes : List ℕ)
      → IsCodec codec
      → WritesBack lib
      → Pads lib
      → length ix.encrypted_owner.iv ≡ 16
      → AreBytes ix.encrypted_owner.iv
      → length ix.encrypted_owner.cipher_text ≡ 32
      → AreBytes ix.encrypted_owner.cipher_text
      → ix.owner ≡ lib.public_key (lib.decrypt_with_key ix.encrypted_owner key)
      → compile_finalize lib codec ix uses_memo comm_index ≡ ok bytes
      → parse_finalize_with_key lib codec
          (record { program_id = program; accounts = accounts; ix_data = bytes })
          key
        ≡ ok (some ix)
  parse_finalize_with_key-compile_finalize ix key uses_memo comm_index program accounts bytes codes
        writes pads iv16 iv_bytes cipher32 cipher_bytes owned done =
      let (token, e, f) =
        >>=-eq-ok (get_number_from_token_type ix.token_id) _
          (opened ix uses_memo comm_index bytes done) in
      let (token', numbered, small, back, named) =
        get_token_type_from_number-get_number_from_token_type ix.token_id in
      let same : token' ≡ token = ok-injective (sym numbered ∙ e) in
      let padded = pads ix.encrypted_owner.iv 32 (omega (arith, iv16)) in
      let more : 32 - length ix.encrypted_owner.iv ≡ 16 = omega (arith, iv16) in
      let padded' : lib.pad_le ix.encrypted_owner.iv 32 ≡ ix.encrypted_owner.iv ++ zeros 16 =
        rw more at padded in
      let long : length (lib.pad_le ix.encrypted_owner.iv 32) ≡ 32 =
        rw padded' (length-append ix.encrypted_owner.iv (zeros 16) ∙ rw iv16 refl) in
      let bytes' : AreBytes (lib.pad_le ix.encrypted_owner.iv 32) =
        rw padded' (All-append _ ix.encrypted_owner.iv (zeros 16) iv_bytes (zeros-AreBytes 16)) in
      finalize_eq (record { program_id = program; accounts = accounts; ix_data = bytes }) key _
        ix.token_id ix.encrypted_owner.iv ix.encrypted_owner.cipher_text
        (ap codec.deserialize (sym (ok-injective f)) ∙ codes _)
        (writes (lib.pad_le ix.encrypted_owner.iv 32) long bytes' ∙ padded')
        (writes ix.encrypted_owner.cipher_text cipher32 cipher_bytes) iv16 (rw same at back)
      ∙ rw (sym owned) refl
