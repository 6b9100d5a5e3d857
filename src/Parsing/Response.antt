-- ===== src/Parsing/Response.antt =====
-- src/sdk/txManagers/ResponseConverter.ts: the transactions of one nonce from the chain's responses,
-- which come in reverse order. Pairing a finalize with its init is written over what the code looks up
-- of a response, and then used with the lookups of TransactionParsing.ts.
use elusiv_sdk.Base.{
  ℕ, Bool, true, false, String, Option, none, some, List, [], ◌∷◌, ◌++◌, map, keep_if,
  if◌then◌else◌,
}
use elusiv_sdk.Base.Eq.{beq, string_eq}
use elusiv_sdk.Result.{
  Result, ok, err, map_ok, map_result, empty_tx_response, no_init_tx, invalid_tx_type,
  invalid_access, ◌>>=◌,
}
use elusiv_sdk.Transaction.{ElusivTransaction}
use elusiv_sdk.Instruction.{Rvk, Library, Instruction}
use elusiv_sdk.Instruction.Init.{init_verification_acc}
use elusiv_sdk.Instruction.Finalize.{finalize_verification_acc}
use elusiv_sdk.Parsing.{Message, InnerInstruction, Codecs}
use elusiv_sdk.Parsing.Find.{get_send_finalize_ix, get_send_init_ix, is_store_tx, is_elusiv_tx}
use elusiv_sdk.Parsing.Raw.{
  SigInfo, PartialStoreTx, PartialSendTx, try_parse_raw_store, try_parse_raw_send,
}

-- `PublicKey.equals`; a missing account is a TypeError.
abbrev pub same_acc : Option String → Option String → Result Bool
same_acc (some a) (some b) = ok (beq a b)
same_acc _ _ = err invalid_access

-- The transactions that are going to be parsed.
pub data Job {ℓ} (T : Type ℓ) : Type ℓ where
  store_job : T → Job T
  finalized_job : T → T → Job T
  init_job : T → Job T

module _ {T : Type 0} (is_store : T → Bool)
    (finalize_acc init_acc : T → Option (Option String)) where
  abbrev pub matches : Option String → Option (Option String) → Result Bool
  matches acc none = ok false
  matches acc (some init) = same_acc init acc

  abbrev pub found_here {ℓ} : {A : Type ℓ} → Bool → A → Result (Option A) → Result (Option A)
  found_here true here later = ok (some here)
  found_here false here later = later

  abbrev pub keep_mark : Bool → Option (T × List Bool) → Option (T × List Bool)
  keep_mark v none = none
  keep_mark v (some (init, marks)) = some (init, v ∷ marks)

  -- The inner loop: the first init of the account from here on, and the marks with its place set.
  unfoldable pub find_init : Option String → List T → List Bool → Result (Option (T × List Bool))
  find_init acc (tx ∷ txs) (v ∷ viewed) = do
    here ← matches acc (init_acc tx)
    found_here here (tx, true ∷ viewed) (map_ok (keep_mark v) (find_init acc txs viewed))
  find_init acc _ _ = ok none

  abbrev pub tail_marks : List Bool → List Bool
  tail_marks [] = []
  tail_marks (v ∷ viewed) = viewed

  abbrev pub paired : T → Option (T × List Bool) → Result (List (Job T) × List Bool)
  paired tx none = err no_init_tx
  paired tx (some (init, marks)) = ok (finalized_job tx init ∷ [], tail_marks marks)

  -- The job of a finalize, and the marks of the later places.
  unfoldable pub pair_finalize :
      Option (Option String) → T → List T → List Bool → Result (List (Job T) × List Bool)
  unfolding find_init
  pair_finalize none tx txs viewed = ok ([], viewed)
  pair_finalize (some acc) tx txs viewed = do
    found ← find_init acc (tx ∷ txs) (false ∷ viewed)
    paired tx found

  abbrev pub init_jobs : Option (Option String) → T → List (Job T)
  init_jobs none tx = []
  init_jobs (some acc) tx = init_job tx ∷ []

  -- The outer loop, over the responses and their marks.
  unfoldable pub plan_jobs : List T → List Bool → Result (List (Job T))
  unfolding pair_finalize
  plan_jobs (tx ∷ txs) (true ∷ viewed) = plan_jobs txs viewed
  plan_jobs (tx ∷ txs) (false ∷ viewed) = do
    (jobs, marks) ← pair_finalize (finalize_acc tx) tx txs viewed
    rest ← plan_jobs txs marks
    ok (
        (if is_store tx then store_job tx ∷ [] else [])
        ++ (jobs ++ (init_jobs (init_acc tx) tx ++ rest)))
  plan_jobs _ _ = ok []

abbrev pub unmarked {ℓ} : {A : Type ℓ} → List A → List Bool
unmarked [] = []
unmarked (x ∷ xs) = false ∷ unmarked xs

-- `ParsedTransactionWithMeta` and its signature: what the converter reads of them.
pub record SigResponse : Type 0 where
  pub message : Message
  pub inner_instructions : Option (List InnerInstruction)
  pub signature : SigInfo

pub data Converted : Type 0 where
  converted_store : PartialStoreTx → Converted
  converted_send : PartialSendTx → Converted

abbrev pub converted_base : Converted → ElusivTransaction
converted_base (converted_store tx) = tx.base
converted_base (converted_send tx) = tx.base

abbrev pub or_none_inner : Option (List InnerInstruction) → List InnerInstruction
or_none_inner none = []
or_none_inner (some ixs) = ixs

abbrev pub with_rest {ℓ} : {A : Type ℓ} → A → Option (List A) → Option (List A)
with_rest x none = none
with_rest x (some xs) = some (x ∷ xs)

-- `every(isTruthy)`, with the responses if so.
abbrev pub all_truthy {ℓ} : {A : Type ℓ} → List (Option A) → Option (List A)
all_truthy [] = some []
all_truthy (none ∷ xs) = none
all_truthy (some x ∷ xs) = with_rest x (all_truthy xs)

abbrev pub nonempty_responses {ℓ} : {A : Type ℓ} → Option (List A) → Result (List A)
nonempty_responses (some (x ∷ xs)) = ok (x ∷ xs)
nonempty_responses _ = err empty_tx_response

module _ (lib : Library) (codecs : Codecs) (program : String) where
  unfoldable pub tx_response_to_store_tx : Rvk → ℕ → String → SigResponse → Result PartialStoreTx
  unfolding try_parse_raw_store
  tx_response_to_store_tx rvk nonce id_pub_key tx =
      try_parse_raw_store lib codecs tx.message (or_none_inner tx.inner_instructions) tx.signature
        nonce id_pub_key rvk

  unfoldable pub tx_response_to_send_tx : Rvk → ℕ → String → List SigResponse → Result PartialSendTx
  unfolding try_parse_raw_send
  tx_response_to_send_tx rvk nonce id_pub_key txs =
      try_parse_raw_send lib codecs program (map (λ (t : SigResponse). t.message) txs)
        (map (λ (t : SigResponse). t.signature) txs) nonce id_pub_key rvk

  unfoldable pub run_job : Rvk → ℕ → String → Job SigResponse → Result Converted
  unfolding tx_response_to_store_tx tx_response_to_send_tx
  run_job rvk nonce id_pub_key (store_job tx) =
      map_ok converted_store (tx_response_to_store_tx rvk nonce id_pub_key tx)
  run_job rvk nonce id_pub_key (finalized_job tx init) =
      map_ok converted_send (tx_response_to_send_tx rvk nonce id_pub_key (tx ∷ init ∷ []))
  run_job rvk nonce id_pub_key (init_job tx) =
      map_ok converted_send (tx_response_to_send_tx rvk nonce id_pub_key (tx ∷ []))

  abbrev pub acc_of : (Instruction → Option String) → Option Instruction → Option (Option String)
  acc_of read none = none
  acc_of read (some ix) = some (read ix)

  abbrev pub finalize_acc_of : String → SigResponse → Option (Option String)
  finalize_acc_of id_pub_key tx =
      acc_of finalize_verification_acc (get_send_finalize_ix program tx.message id_pub_key)

  abbrev pub init_acc_of : String → SigResponse → Option (Option String)
  init_acc_of id_pub_key tx =
      acc_of init_verification_acc (get_send_init_ix program tx.message id_pub_key)

  unfoldable pub get_elusiv_txs : String → List SigResponse → List SigResponse
  unfolding is_elusiv_tx
  get_elusiv_txs id_pub_key txs =
      keep_if (λ (tx : SigResponse). is_elusiv_tx program tx.message id_pub_key) txs

  abbrev pub some_jobs : List (Job SigResponse) → Result (List (Job SigResponse))
  some_jobs [] = err invalid_tx_type
  some_jobs (job ∷ jobs) = ok (job ∷ jobs)

  unfoldable pub tx_response_to_elusiv_txs :
      Rvk → ℕ → String → List (Option SigResponse) → Result (List Converted)
  unfolding get_elusiv_txs plan_jobs run_job map_result is_store_tx
  tx_response_to_elusiv_txs rvk nonce id_pub_key tx_response = do
    responses ← nonempty_responses (all_truthy tx_response)
    let elusiv_txs = get_elusiv_txs id_pub_key responses
    planned ←
        plan_jobs (λ (tx : SigResponse). is_store_tx program tx.message id_pub_key)
          (finalize_acc_of id_pub_key) (init_acc_of id_pub_key) elusiv_txs (unmarked elusiv_txs)
    jobs ← some_jobs planned
    map_result (run_job rvk nonce id_pub_key) jobs
