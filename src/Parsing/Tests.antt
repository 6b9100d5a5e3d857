-- ===== src/Parsing/Tests.antt =====
-- A finalized send and a store as the chain shows them, and their conversion.
use elusiv_sdk.Base.{ℕ, ◌≡◌, refl, String, none, some, List, [], ◌∷◌, map, inl}
use elusiv_sdk.Result.{map_result}
use elusiv_sdk.Instruction.{Codec}
use elusiv_sdk.Instruction.Init.{init_verification_acc}
use elusiv_sdk.Instruction.Finalize.{finalize_verification_acc}
use elusiv_sdk.Instruction.Tests.{
  lib, rvk, store_codec, compute_codec, payload_codec, finalize_codec,
}
use elusiv_sdk.Parsing.{
  Codecs, decoded, is_elusiv_ix, is_identifier_ix, is_store_base_comm_ix, is_compute_hash_ix,
  is_init_verification_ix, is_finalize_verification_ix, is_send_ix, is_store_ix,
}
use elusiv_sdk.Parsing.Find.{
  get_send_finalize_ix, get_send_init_ix, is_send_tx, is_store_tx, is_elusiv_tx,
}
use elusiv_sdk.Parsing.Response.{
  SigResponse, Job, store_job, finalized_job, finalize_acc_of, init_acc_of, get_elusiv_txs, run_job,
  tx_response_to_elusiv_txs,
}
use elusiv_sdk.Parsing.History.{
  Event, init_event, finalize_event, store_event, IsHistory, ShowAll, jobs_of,
}
use elusiv_sdk.Parsing.Converter.{tx_response_to_elusiv_txs_lem}

abbrev unread : {T : Type 0} → Codec T
unread = record { serialize = λ t. []; deserialize = λ bs. none }

abbrev codecs : Codecs
codecs = record {
  store = store_codec;
  store_legacy = unread;
  compute = compute_codec;
  payload = payload_codec;
  init = unread;
  init_legacy = unread;
  finalize = finalize_codec;
}

abbrev response : ℕ → List String → ℕ → SigResponse
response code accounts number = record {
  message =
      decoded (record { program_id = "program"; accounts = accounts; ix_data = code ∷ [] }) ∷ [];
  inner_instructions = none;
  signature = record { signature = number; memo = none };
}

abbrev finalized : SigResponse
finalized = response 11 ("recipient" ∷ "id" ∷ "key" ∷ "" ∷ "" ∷ "account" ∷ []) 3

abbrev init : SigResponse
init = response 7 ("warden" ∷ "account" ∷ "" ∷ "" ∷ "" ∷ "id" ∷ []) 2

abbrev stored : SigResponse
stored = response 0 ("sender" ∷ "id" ∷ []) 1

abbrev foreign : SigResponse
foreign = response 5 [] 4

abbrev events : List Event
events = finalize_event 1 "account" ∷ init_event 1 "account" ∷ store_event ∷ []

own :
    get_elusiv_txs lib codecs "program" "id" (foreign ∷ finalized ∷ init ∷ stored ∷ [])
    ≡ finalized ∷ init ∷ stored ∷ []
unfolding get_elusiv_txs is_elusiv_tx is_store_tx is_send_tx is_store_ix is_send_ix is_elusiv_ix
    is_identifier_ix is_store_base_comm_ix is_compute_hash_ix is_init_verification_ix
    is_finalize_verification_ix
own = refl

shown :
    ShowAll
      (λ (tx : SigResponse). is_store_tx "program" tx.message "id")
      (finalize_acc_of lib codecs "program" "id")
      (init_acc_of lib codecs "program" "id")
      events
      (get_elusiv_txs lib codecs "program" "id" (foreign ∷ finalized ∷ init ∷ stored ∷ []))
unfolding get_elusiv_txs is_elusiv_tx is_store_tx is_send_tx is_store_ix is_send_ix is_elusiv_ix
    is_identifier_ix is_store_base_comm_ix is_compute_hash_ix is_init_verification_ix
    is_finalize_verification_ix get_send_finalize_ix get_send_init_ix init_verification_acc
    finalize_verification_acc
shown = ((refl, refl, refl), ((refl, refl, refl), ((refl, refl, refl), tt)))

events-IsHistory : IsHistory events
events-IsHistory = (inl refl, (tt, tt, tt))

tx_response_to_elusiv_txs_lem_example :
    (jobs : List (Job SigResponse)) × (jobs_of [] events
        (get_elusiv_txs lib codecs "program" "id" (foreign ∷ finalized ∷ init ∷ stored ∷ []))
      ≡ some jobs)
    × (tx_response_to_elusiv_txs lib codecs "program" rvk 9 "id"
          (map some (foreign ∷ finalized ∷ init ∷ stored ∷ []))
        ≡ map_result (run_job lib codecs "program" rvk 9 "id") jobs)
tx_response_to_elusiv_txs_lem_example =
    tx_response_to_elusiv_txs_lem lib codecs "program" rvk 9 "id" foreign
      (finalized ∷ init ∷ stored ∷ []) (finalize_event 1 "account")
      (init_event 1 "account" ∷ store_event ∷ []) events-IsHistory shown

asked :
    jobs_of [] events
      (get_elusiv_txs lib codecs "program" "id" (foreign ∷ finalized ∷ init ∷ stored ∷ []))
    ≡ some (finalized_job finalized init ∷ store_job stored ∷ [])
unfolding get_elusiv_txs is_elusiv_tx is_store_tx is_send_tx is_store_ix is_send_ix is_elusiv_ix
    is_identifier_ix is_store_base_comm_ix is_compute_hash_ix is_init_verification_ix
    is_finalize_verification_ix
asked = refl
