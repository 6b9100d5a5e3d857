-- ===== src/Serialization/Framing.antt =====
-- TransactionSerialization.ts: what the two requests carry.
use elusiv_sdk.Base.{
  ℕ, zero, suc, ◌≡◌, refl, ap, true, false, Option, none, some, List, [], ◌∷◌, map, length, All,
  ◌==◌, ==_iff, Bool-cases, inl, inr, ◌≢◌, ◌⊎◌,
}
use elusiv_sdk.Result.{ok, err, missing_signature}
use elusiv_sdk.Serialization.{
  Serializer, DataSerialized, ParamedWardenRequest, elusiv_store, build_warden_request, zeros,
}
use elusiv_sdk.Serialization.Store.{
  MessageCompiledInstruction, StoreTransaction, TxInstructionSerialized, TransactionSerialized,
  signature_bytes, serialize_message_compiled_ix, serialize_message_compiled_ixs,
  serialize_signatures, serialize_keys, serialize_base58, serialize_partially_signed_store,
}

-- The format `DataSerialized<T> = [[number], ...T[]]`: the elements after their number.
abbrev Announces {ℓ} : {T : Type ℓ} → DataSerialized T → List T → Type ℓ
Announces d items = (d.count ≡ length items ∷ []) × (d.items ≡ items)

-- A signature stands as it is, and one that is missing as 64 zeros.
abbrev StandsFor : List ℕ → Option (List ℕ) → Type 0
StandsFor bytes (some signature) = bytes ≡ signature
StandsFor bytes none = (length bytes ≡ 64) × All (λ (byte : ℕ). byte ≡ 0) bytes

abbrev AllStandFor : List (List ℕ) → List (Option (List ℕ)) → Type 0
AllStandFor [] [] = Unit
AllStandFor (b ∷ bs) (s ∷ ss) = StandsFor b s × AllStandFor bs ss
AllStandFor _ _ = ⊥

-- An instruction keeps its program, and announces its accounts and its data.
pub record Encodes (ix : MessageCompiledInstruction) (e : TxInstructionSerialized) : Type 0 where
  pub program : e.program_id_index ≡ ix.program_id_index
  pub accounts : Announces e.accounts ix.account_key_indexes
  pub content : Announces e.ix_data ix.ix_data

abbrev AllEncode : List MessageCompiledInstruction → List TxInstructionSerialized → Type 0
AllEncode [] [] = Unit
AllEncode (ix ∷ ixs) (e ∷ es) = Encodes ix e × AllEncode ixs es
AllEncode _ _ = ⊥

-- As many are announced as there are in the transaction.
abbrev IsCountOf {ℓ κ} : {S : Type ℓ} {T : Type κ} → DataSerialized T → List S → Type 0
IsCountOf d items = d.count ≡ length items ∷ []

zeros_lem : (n : ℕ) → (length (zeros n) ≡ n) × All (λ (byte : ℕ). byte ≡ 0) (zeros n)
zeros_lem zero = (refl, tt)
zeros_lem (suc n) = let (len, all) = zeros_lem n in (ap suc len, (refl, all))

signature_bytes-StandsFor : (s : Option (List ℕ)) → StandsFor (signature_bytes s) s
signature_bytes-StandsFor none = zeros_lem 64
signature_bytes-StandsFor (some signature) = refl

signatures-AllStandFor :
    (sigs : List (Option (List ℕ))) → AllStandFor (map signature_bytes sigs) sigs
signatures-AllStandFor [] = tt
signatures-AllStandFor (s ∷ sigs) = (signature_bytes-StandsFor s, signatures-AllStandFor sigs)

ix-Encodes : (ix : MessageCompiledInstruction) → Encodes ix (serialize_message_compiled_ix ix)
unfolding serialize_message_compiled_ix
ix-Encodes ix = record { program = refl; accounts = (refl, refl); content = (refl, refl) }

ixs-AllEncode :
    (ixs : List MessageCompiledInstruction) → AllEncode ixs (map serialize_message_compiled_ix ixs)
ixs-AllEncode [] = tt
ixs-AllEncode (ix ∷ ixs) = (ix-Encodes ix, ixs-AllEncode ixs)

-- What a request to store carries of its transaction.
pub record Carries (lib : Serializer) (tx : StoreTransaction)
    (r : ParamedWardenRequest TransactionSerialized) : Type 0 where
  pub to_store : r.method ≡ elusiv_store
  pub header : r.params.message.header ≡ tx.message.header
  pub signature_count : IsCountOf r.params.signatures tx.signatures
  pub signed : AllStandFor r.params.signatures.items tx.signatures
  pub keys : Announces r.params.message.account_keys tx.message.account_keys
  pub blockhash : r.params.message.recent_blockhash ≡ lib.bs58_to_bytes tx.message.recent_blockhash
  pub instruction_count : IsCountOf r.params.message.instructions tx.message.compiled_instructions
  pub instructions : AllEncode tx.message.compiled_instructions r.params.message.instructions.items

store_request : Serializer → StoreTransaction → ParamedWardenRequest TransactionSerialized
unfolding build_warden_request serialize_signatures serialize_keys serialize_base58
    serialize_message_compiled_ixs
store_request lib tx = build_warden_request elusiv_store (record {
  signatures = serialize_signatures tx.signatures;
  message = record {
    header = tx.message.header;
    account_keys = serialize_keys tx.message.account_keys;
    recent_blockhash = serialize_base58 lib tx.message.recent_blockhash;
    instructions = serialize_message_compiled_ixs tx.message.compiled_instructions;
  };
})

store_request-Carries :
    (lib : Serializer) (tx : StoreTransaction) → Carries lib tx (store_request lib tx)
unfolding store_request
store_request-Carries lib tx = record {
  to_store = refl;
  header = refl;
  signature_count = refl;
  signed = signatures-AllStandFor tx.signatures;
  keys = (refl, refl);
  blockhash = refl;
  instruction_count = refl;
  instructions = ixs-AllEncode tx.message.compiled_instructions;
}

store_sent :
    (lib : Serializer) (tx : StoreTransaction)
    → (length tx.signatures == 2) ≡ true
    → serialize_partially_signed_store lib tx ≡ ok (store_request lib tx)
unfolding serialize_partially_signed_store store_request
store_sent lib tx two = rw two refl

store_refused :
    (lib : Serializer) (tx : StoreTransaction)
    → (length tx.signatures == 2) ≡ false
    → serialize_partially_signed_store lib tx ≡ err missing_signature
unfolding serialize_partially_signed_store
store_refused lib tx other = rw other refl

-- A store transaction is sent exactly if it has two signatures. The request announces the number of its
-- signatures, keys and instructions, and of the accounts and data bytes of each instruction, and holds
-- each of them in its place, 64 zeros for a signature that is missing.
pub serialize_partially_signed_store-Carries :
    (lib : Serializer) (tx : StoreTransaction)
    → ((length tx.signatures ≡ 2)
        × (r : ParamedWardenRequest TransactionSerialized) × (serialize_partially_signed_store lib
              tx
            ≡ ok r)
        × Carries lib tx r)
      ⊎ ((length tx.signatures ≢ 2)
          × (serialize_partially_signed_store lib tx ≡ err missing_signature))
serialize_partially_signed_store-Carries lib tx = elim (Bool-cases (length tx.signatures == 2)) [
  | inl two ↦ inl (
    (==_iff _ 2).0 two,
    store_request lib tx,
    store_sent lib tx two,
    store_request-Carries lib tx,
  )
  | inr other ↦ inr (λ two. let equal = (==_iff _ 2).1 two in cc, store_refused lib tx other)
]
