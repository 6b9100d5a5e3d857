-- ===== src/Parsing/Converter.antt =====
-- ResponseConverter.ts: the whole conversion of the responses of one nonce.
use elusiv_sdk.Base.{ℕ, ◌≡◌, refl, ◌∙◌, arith, Bool, String, Option, none, some, List, [], ◌∷◌, map}
use elusiv_sdk.Result.{map_result, ◌>>=◌}
use elusiv_sdk.Instruction.{Rvk, Library}
use elusiv_sdk.Parsing.{Codecs}
use elusiv_sdk.Parsing.Find.{is_store_tx}
use elusiv_sdk.Parsing.Response.{
  SigResponse, Job, store_job, finalized_job, init_job, plan_jobs, unmarked, all_truthy, some_jobs,
  run_job, finalize_acc_of, init_acc_of, get_elusiv_txs, tx_response_to_elusiv_txs,
}
use elusiv_sdk.Parsing.History.{
  Event, init_event, finalize_event, store_event, IsHistory, ShowAll, add_job, finalize_with,
  init_of, jobs_of,
}
use elusiv_sdk.Parsing.Pairing.{plan_jobs-eq-jobs_of}

all_present : {A : Type 0} (xs : List A) → all_truthy (map some xs) ≡ some xs
all_present [] = refl
all_present (x ∷ xs) = rw (all_present xs) refl

added_first :
    {T : Type 0} (job : Job T) (rest : Option (List (Job T))) (jobs : List (Job T))
    → add_job job rest ≡ some jobs
    → (job' : Job T) × (rest' : List (Job T)) × (jobs ≡ job' ∷ rest')
added_first job none jobs e = cc
added_first job (some rest) jobs e = (job, rest, ground arith)

finalized_first :
    {T : Type 0} (tx : T) (init : Option T) (rest : Option (List (Job T))) (jobs : List (Job T))
    → finalize_with tx init rest ≡ some jobs
    → (job' : Job T) × (rest' : List (Job T)) × (jobs ≡ job' ∷ rest')
finalized_first tx none rest jobs e = cc
finalized_first tx (some init) rest jobs e = added_first (finalized_job tx init) rest jobs e

-- The newest event is always worth a job.
some_job :
    {T : Type 0} (is_store : T → Bool) (finalize_acc init_acc : T → Option (Option String))
    (e : Event) (es : List Event) (txs : List T) (jobs : List (Job T))
    → ShowAll is_store finalize_acc init_acc (e ∷ es) txs
    → jobs_of [] (e ∷ es) txs ≡ some jobs
    → (job : Job T) × (rest : List (Job T)) × (jobs ≡ job ∷ rest)
some_job is_store finalize_acc init_acc e es [] jobs shown wanted = elim shown [ ]
some_job is_store finalize_acc init_acc (init_event s a) es (tx ∷ txs) jobs shown wanted =
    added_first (init_job tx) (jobs_of [] es txs) jobs wanted
some_job is_store finalize_acc init_acc (finalize_event s a) es (tx ∷ txs) jobs shown wanted =
    finalized_first tx (init_of s es txs) (jobs_of (s ∷ []) es txs) jobs wanted
some_job is_store finalize_acc init_acc store_event es (tx ∷ txs) jobs shown wanted =
    added_first (store_job tx) (jobs_of [] es txs) jobs wanted

module _ (lib : Library) (codecs : Codecs) (program : String) where
  converted :
      (rvk : Rvk) (nonce : ℕ) (id : String) (r : SigResponse) (rs : List SigResponse)
      → tx_response_to_elusiv_txs lib codecs program rvk nonce id (map some (r ∷ rs)) ≡ (
          plan_jobs
            (λ (tx : SigResponse). is_store_tx program tx.message id)
            (finalize_acc_of lib codecs program id)
            (init_acc_of lib codecs program id)
            (get_elusiv_txs lib codecs program id (r ∷ rs))
            (unmarked (get_elusiv_txs lib codecs program id (r ∷ rs)))
          >>= λ planned. some_jobs lib codecs program planned >>= λ jobs.
              map_result (run_job lib codecs program rvk nonce id) jobs)
  unfolding tx_response_to_elusiv_txs
  converted rvk nonce id r rs = rw (all_present rs) refl

  -- Let the responses that are the program's show a history, the newest event first. Then the converter
  -- parses every finalized send from its finalize and its own start, every other send from its start,
  -- and every store, each once and in this order.
  pub tx_response_to_elusiv_txs_lem :
      (rvk : Rvk) (nonce : ℕ) (id : String) (r : SigResponse) (rs : List SigResponse) (e : Event)
      (es : List Event)
      → IsHistory (e ∷ es)
      → ShowAll
          (λ (tx : SigResponse). is_store_tx program tx.message id)
          (finalize_acc_of lib codecs program id)
          (init_acc_of lib codecs program id)
          (e ∷ es)
          (get_elusiv_txs lib codecs program id (r ∷ rs))
      → (jobs : List (Job SigResponse)) × (jobs_of []
            (e ∷ es)
            (get_elusiv_txs lib codecs program id (r ∷ rs))
          ≡ some jobs)
        × (tx_response_to_elusiv_txs lib codecs program rvk nonce id (map some (r ∷ rs))
            ≡ map_result (run_job lib codecs program rvk nonce id) jobs)
  tx_response_to_elusiv_txs_lem rvk nonce id r rs e es h shown =
      let txs = get_elusiv_txs lib codecs program id (r ∷ rs) in
      let is_store = λ (tx : SigResponse). is_store_tx program tx.message id in
      let fin = finalize_acc_of lib codecs program id in
      let init = init_acc_of lib codecs program id in
      let (jobs, wanted, planned) = plan_jobs-eq-jobs_of is_store fin init (e ∷ es) txs h shown in
      let (job, rest, made) = some_job is_store fin init e es txs jobs shown wanted in
      (jobs, wanted, converted rvk nonce id r rs ∙ rw planned (rw made refl))
