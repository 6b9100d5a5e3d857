-- ===== src/Parsing/Parts.antt =====
-- InstructionParsing.ts: parsing the instructions of a message that can vary.
use elusiv_sdk.Base.{ℕ, Option, none, some, List, [], ◌∷◌}
use elusiv_sdk.Result.{Result, ok, err, failed_to_parse, invalid_size, ◌>>=◌}
use elusiv_sdk.Instruction.{Rvk, Library, Instruction}
use elusiv_sdk.Instruction.Store.{
  store_sender_acc, store_identifier_acc, store_warden_acc, parse_store, parse_store_legacy,
}
use elusiv_sdk.Instruction.Compute.{parse_compute}
use elusiv_sdk.Instruction.Init.{InitVerificationInstruction, init_identifier_acc, init_warden_acc}
use elusiv_sdk.Instruction.InitCodec.{parse_init, parse_init_legacy}
use elusiv_sdk.Instruction.Finalize.{
  FinalizeVerificationInstruction, finalize_identifier_acc, finalize_recipient_acc,
  finalize_reference_key_acc, parse_finalize_with_key,
}
use elusiv_sdk.Parsing.{
  Codecs, ChainInstruction, decoded, parsed, ParsedStore, ParsedInit, ParsedFinalize, or_failed,
}

-- `first`, or where it is `null` what comes next.
abbrev pub if_null {ℓ} : {A : Type ℓ} → Option A → Result (Option A) → Result (Option A)
if_null none next = next
if_null (some a) next = ok (some a)

module _ (lib : Library) (codecs : Codecs) where
  unfoldable pub try_parse_variable_store : List Instruction → ℕ → Rvk → Result ParsedStore
  unfolding parse_store parse_store_legacy parse_compute store_identifier_acc store_sender_acc
      store_warden_acc
  try_parse_variable_store (raw_store ∷ raw_compute ∷ []) nonce rvk = do
    first ← parse_store lib codecs.store codecs.store_legacy rvk raw_store
    either ← if_null first (parse_store_legacy lib codecs.store codecs.store_legacy raw_store)
    store_ix ← or_failed either
    compute_ix ← or_failed (parse_compute lib codecs.compute codecs.payload raw_compute rvk nonce)
    ok (record {
      store_ix = store_ix;
      compute_ix = compute_ix;
      identifier_acc = store_identifier_acc raw_store;
      sender_acc = store_sender_acc raw_store;
      warden_acc = store_warden_acc raw_store;
    })
  try_parse_variable_store ixs nonce rvk = err invalid_size

  -- One instruction, with what the loop does next.
  abbrev pub init_or :
      Instruction → Option InitVerificationInstruction → Result ParsedInit → Result ParsedInit
  init_or raw_ix none next = next
  init_or raw_ix (some init_ix) next = ok (record {
    init_ix = init_ix;
    id_acc = init_identifier_acc raw_ix;
    warden_acc = init_warden_acc raw_ix;
  })

  -- The first instruction that can be parsed.
  unfoldable pub try_parse_variable_init : List Instruction → Option Rvk → Result ParsedInit
  unfolding parse_init parse_init_legacy init_identifier_acc init_warden_acc
  try_parse_variable_init [] rvk = err failed_to_parse
  try_parse_variable_init (raw_ix ∷ ixs) rvk = do
    first ← parse_init lib codecs.init codecs.init_legacy raw_ix rvk
    either ← if_null first (parse_init_legacy lib codecs.init codecs.init_legacy raw_ix)
    init_or raw_ix either (try_parse_variable_init ixs rvk)

  abbrev pub finalize_or :
      Instruction
      → Option FinalizeVerificationInstruction
      → Result ParsedFinalize
      → Result ParsedFinalize
  finalize_or raw_ix none next = next
  finalize_or raw_ix (some finalize_ix) next = ok (record {
    finalize_ix = finalize_ix;
    id_acc = finalize_identifier_acc raw_ix;
    recipient_acc = finalize_recipient_acc raw_ix;
    ref_key_acc = finalize_reference_key_acc raw_ix;
  })

  unfoldable pub try_parse_variable_finalize :
      List ChainInstruction → List ℕ → Result ParsedFinalize
  unfolding parse_finalize_with_key finalize_identifier_acc finalize_recipient_acc
      finalize_reference_key_acc
  try_parse_variable_finalize [] decryption_key = err failed_to_parse
  try_parse_variable_finalize (parsed p ∷ ixs) decryption_key =
      try_parse_variable_finalize ixs decryption_key
  try_parse_variable_finalize (decoded raw_ix ∷ ixs) decryption_key = do
    finalize_ix ← parse_finalize_with_key lib codecs.finalize raw_ix decryption_key
    finalize_or raw_ix finalize_ix (try_parse_variable_finalize ixs decryption_key)
