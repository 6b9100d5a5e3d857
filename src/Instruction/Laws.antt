-- ===== src/Instruction/Laws.antt =====
-- StoreInstruction.ts and StoreInstructionBase.ts: a store instruction that is compiled and read again.
use elusiv_sdk.Base.{ℕ, ◌≡◌, refl, sym, ap, ◌∙◌, String, some, List, [], ◌∷◌, map, length}
use elusiv_sdk.Result.{ok, >>=-eq-ok, ok-injective}
use elusiv_sdk.Token.{Cluster, get_number_from_token_type}
use elusiv_sdk.Transaction.{CommitmentMetadata}
use elusiv_sdk.Metadata.{IsSerialization, to_bytes, from_bytes}
use elusiv_sdk.Metadata.RoundTrip.{IsValid, from_bytes-to_bytes}
use elusiv_sdk.Serialization.Numbers.{AreBytes}
use elusiv_sdk.Instruction.{
  Codec, IsCodec, Rvk, Library, Instruction, AccountMeta, TransactionInstruction,
  get_elusiv_program_id, serialize_and_encrypt, deserialize_and_decrypt,
}
use elusiv_sdk.Instruction.Store.{
  StoreBaseCommitmentBorsh, StoreBaseCommitmentBorshLegacy, StoreInstruction, StoreDetails, current,
  store_token_type, store_sender_acc, store_identifier_acc, store_warden_acc, pda, token_accounts,
  store_accounts, store_payload, compile_store, parse_store,
}

-- What the libraries document of the 32 bytes of a number, and of the ciphers of a viewing key.
abbrev pub WritesBack : Library → Type 0
WritesBack lib =
    (bs : List ℕ)
    → length bs ≡ 32
    → AreBytes bs
    → lib.serialize_uint256_le (lib.deserialize_uint256_le bs) ≡ bs

pub record Decrypts (rvk : Rvk) : Type 0 where
  pub seeded :
      (bs : List ℕ) (nonce : ℕ)
      → rvk.decrypt_seeded_salted (rvk.encrypt_seeded_salted bs nonce) nonce ≡ bs
  pub metadata :
      (bs comm_hash : List ℕ)
      → rvk.decrypt_metadata (rvk.encrypt_metadata bs comm_hash) comm_hash ≡ bs

-- How a transaction instruction is shown by the chain.
abbrev pub on_chain : TransactionInstruction → Instruction
on_chain t = record {
  program_id = t.program_id;
  accounts = map (λ (k : AccountMeta). k.pubkey) t.keys;
  ix_data = t.ix_data;
}

-- The accounts that the readers look up by their places.
pub record HasParties (rvk : Rvk) (nonce : ℕ) (sender warden : String) (ix : Instruction)
    : Type 0 where
  pub from_sender : store_sender_acc ix ≡ some sender
  pub by_warden : store_warden_acc ix ≡ some warden
  pub identified : store_identifier_acc ix ≡ some (rvk.get_identifier_key nonce)

abbrev pub made_store : ℕ → List ℕ → List ℕ → ℕ → ℕ → CommitmentMetadata → List ℕ → StoreInstruction
made_store index core hash version rate metadata bytes = record {
  hash_acc_index = index;
  core_commitment_hash = core;
  commitment_hash = hash;
  fee_version = version;
  min_batching_rate = rate;
  details = current metadata bytes;
}

module _ (lib : Library) where
  accounts-HasParties :
      (details : StoreDetails) (rvk : Rvk) (nonce : ℕ) (hashing : String) (cluster : Cluster)
      (sender warden program : String) (data' : List ℕ) (keys : List AccountMeta)
      → store_accounts lib details rvk nonce hashing cluster sender warden ≡ ok keys
      → HasParties rvk nonce sender warden
          (on_chain (record { keys = keys; program_id = program; ix_data = data' }))
  unfolding store_sender_acc store_warden_acc store_identifier_acc
  accounts-HasParties details rvk nonce hashing cluster sender warden program data' keys done =
      unfold store_accounts in
      let (id, e, f) = >>=-eq-ok (get_elusiv_program_id cluster) _ done in
      let (accs, e', f') =
        >>=-eq-ok
          (token_accounts lib (store_token_type details) cluster sender warden (pda lib "Pool" id)
            (pda lib "FeeCollector" id))
          _ f in
      rw (sym (ok-injective f'))
        (record { from_sender = refl; by_warden = refl; identified = refl })

  metadata_back :
      (m : CommitmentMetadata) (rvk : Rvk) (hash bytes : List ℕ)
      → IsSerialization lib.formats
      → Decrypts rvk
      → IsValid m
      → serialize_and_encrypt lib m rvk hash ≡ ok bytes
      → deserialize_and_decrypt lib bytes rvk hash ≡ ok m
  metadata_back m rvk hash bytes formats cipher valid done =
      unfold serialize_and_encrypt deserialize_and_decrypt in
      let (plain, e, f) = >>=-eq-ok (to_bytes lib.formats m) _ done in
      let back = from_bytes-to_bytes lib.formats m formats valid in
      let read : from_bytes lib.formats plain ≡ ok m = rw e at back in
      rw (sym (ok-injective f), cipher.metadata plain hash) read

  module _ (codec : Codec StoreBaseCommitmentBorsh)
      (legacy_codec : Codec StoreBaseCommitmentBorshLegacy) where
    compile_inv :
        (ix : StoreInstruction) (rvk : Rvk) (cluster : Cluster) (nonce : ℕ) (sender warden : String)
        (t : TransactionInstruction)
        → compile_store lib codec legacy_codec ix rvk cluster nonce sender warden ≡ ok t
        → (token : ℕ) × (bump : ℕ) × (hashing : String) × (keys : List AccountMeta)
          × (store_accounts lib ix.details rvk nonce hashing cluster sender warden ≡ ok keys)
          × (t.keys ≡ keys)
          × (t.ix_data ≡ store_payload lib codec legacy_codec ix token bump)
    compile_inv ix rvk cluster nonce sender warden t done =
        unfold compile_store in
        let (token, e1, f1) =
          >>=-eq-ok (get_number_from_token_type (store_token_type ix.details)) _ done in
        let (program, e2, f2) = >>=-eq-ok (get_elusiv_program_id cluster) _ f1 in
        let hashing =
          lib.generate_elusiv_pda_from ("BaseCommitmentHashing" ∷ []) program
            (some ix.hash_acc_index) in
        let (keys, e3, f3) =
          >>=-eq-ok (store_accounts lib ix.details rvk nonce hashing.0 cluster sender warden) _
            f2 in
        let made = sym (ok-injective f3) in
        (token, hashing.1, hashing.0, keys, e3, rw made refl, rw made refl)

    read_parsed :
        (rvk : Rvk) (ix : Instruction) (parsed : StoreBaseCommitmentBorsh) (m : CommitmentMetadata)
        → codec.deserialize ix.ix_data ≡ some parsed
        → deserialize_and_decrypt lib parsed.metadata rvk
            (lib.serialize_uint256_le parsed.request.commitment)
          ≡ ok m
        → parse_store lib codec legacy_codec rvk ix
          ≡ ok (
              some (
                made_store parsed.hash_account_index
                  (lib.serialize_uint256_le parsed.request.base_commitment)
                  (lib.serialize_uint256_le parsed.request.commitment)
                  parsed.request.fee_version
                  parsed.request.min_batching_rate
                  m
                  parsed.metadata))
    unfolding parse_store
    read_parsed rvk ix parsed m e e' = rw (e, parse_store) (rw e' refl)

    -- A store instruction whose hashes are 32 bytes and whose metadata is encrypted with its commitment
    -- hash names its sender, Warden and identifier at the places where they are looked up, and is
    -- read back as it was, if the libraries read what they write.
    pub parse_store-compile_store :
        (index version rate : ℕ) (core hash bytes : List ℕ) (m : CommitmentMetadata) (rvk : Rvk)
        (cluster : Cluster) (nonce : ℕ) (sender warden : String) (t : TransactionInstruction)
        → IsSerialization lib.formats
        → WritesBack lib
        → IsCodec codec
        → Decrypts rvk
        → IsValid m
        → length core ≡ 32
        → AreBytes core
        → length hash ≡ 32
        → AreBytes hash
        → serialize_and_encrypt lib m rvk hash ≡ ok bytes
        → compile_store lib codec legacy_codec
            (made_store index core hash version rate m bytes)
            rvk
            cluster
            nonce
            sender
            warden
          ≡ ok t
        → HasParties rvk nonce sender warden (on_chain t)
          × (parse_store lib codec legacy_codec rvk (on_chain t)
              ≡ ok (some (made_store index core hash version rate m bytes)))
    parse_store-compile_store index version rate core hash bytes m rvk cluster nonce sender warden t
          formats writes codes cipher valid core32 core_bytes hash32 hash_bytes encrypted done =
        let ix = made_store index core hash version rate m bytes in
        let (token, bump, hashing, keys, made_keys, same_keys, same_data) =
          compile_inv ix rvk cluster nonce sender warden t done in
        let parties =
          accounts-HasParties ix.details rvk nonce hashing cluster sender warden t.program_id
            t.ix_data keys made_keys in
        let comm = writes hash hash32 hash_bytes in
        let decrypted = metadata_back m rvk hash bytes formats cipher valid encrypted in
        (
          rw (sym same_keys) at parties,
          read_parsed rvk (on_chain t) _ m (ap codec.deserialize same_data ∙ codes _)
                (rw comm decrypted)
              ∙ rw (comm, writes core core32 core_bytes) refl,
        )
