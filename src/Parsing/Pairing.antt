-- ===== src/Parsing/Pairing.antt =====
-- ResponseConverter.ts: each finalize is paired with its own init.
use elusiv_sdk.Base.{
  ℕ, Bool, true, false, ◌≡◌, refl, ap, ◌∙◌, String, Option, none, some, List, [], ◌∷◌, ◌++◌, inl,
  inr, if◌then◌else◌, Bool-cases,
}
use elusiv_sdk.Base.Eq.{string_eq}
use elusiv_sdk.Result.{ok, ◌>>=◌}
use elusiv_sdk.Parsing.Response.{
  Job, store_job, finalized_job, init_job, find_init, pair_finalize, init_jobs, plan_jobs, unmarked,
}
use elusiv_sdk.Parsing.History.{
  Event, init_event, finalize_event, store_event, IsHistory, has, ShowAll, jobs_of,
}
use elusiv_sdk.Parsing.Marks.{marks_of, find_skip, match_none, find_own}

module _ {T : Type 0} (is_store : T → Bool)
    (finalize_acc init_acc : T → Option (Option String)) where
  plan_marked :
      (tx : T) (txs : List T) (vs : List Bool)
      → plan_jobs is_store finalize_acc init_acc (tx ∷ txs) (true ∷ vs)
        ≡ plan_jobs is_store finalize_acc init_acc txs vs
  unfolding plan_jobs
  plan_marked tx txs vs = refl

  plan_step :
      (tx : T) (txs : List T) (vs : List Bool)
      → plan_jobs is_store finalize_acc init_acc (tx ∷ txs) (false ∷ vs) ≡ (
          pair_finalize is_store finalize_acc init_acc (finalize_acc tx) tx txs vs >>= λ p.
          plan_jobs is_store finalize_acc init_acc txs p.1 >>= λ rest. ok (
            (if is_store tx then store_job tx ∷ [] else [])
            ++ (p.0 ++ (init_jobs is_store finalize_acc init_acc (init_acc tx) tx ++ rest))))
  unfolding plan_jobs
  plan_step tx txs vs = refl

  plan_init :
      (tx : T) (txs : List T) (vs : List Bool) (acc : Option String) (jobs : List (Job T))
      → init_acc tx ≡ some acc
      → finalize_acc tx ≡ none
      → is_store tx ≡ false
      → plan_jobs is_store finalize_acc init_acc txs vs ≡ ok jobs
      → plan_jobs is_store finalize_acc init_acc (tx ∷ txs) (false ∷ vs) ≡ ok (init_job tx ∷ jobs)
  unfolding plan_jobs
  plan_init tx txs vs acc jobs e e' e'' rest = rw (e, e', e'') (rw rest refl)

  plan_store :
      (tx : T) (txs : List T) (vs : List Bool) (jobs : List (Job T))
      → init_acc tx ≡ none
      → finalize_acc tx ≡ none
      → is_store tx ≡ true
      → plan_jobs is_store finalize_acc init_acc txs vs ≡ ok jobs
      → plan_jobs is_store finalize_acc init_acc (tx ∷ txs) (false ∷ vs) ≡ ok (store_job tx ∷ jobs)
  unfolding plan_jobs
  plan_store tx txs vs jobs e e' e'' rest = rw (e, e', e'') (rw rest refl)

  plan_finalize :
      (tx init : T) (txs : List T) (vs ms : List Bool) (a : String) (jobs : List (Job T))
      → init_acc tx ≡ none
      → finalize_acc tx ≡ some (some a)
      → is_store tx ≡ false
      → find_init is_store finalize_acc init_acc (some a) txs vs ≡ ok (some (init, ms))
      → plan_jobs is_store finalize_acc init_acc txs ms ≡ ok jobs
      → plan_jobs is_store finalize_acc init_acc (tx ∷ txs) (false ∷ vs)
        ≡ ok (finalized_job tx init ∷ jobs)
  plan_finalize tx init txs vs ms a jobs e e' e'' found rest =
      let pair : pair_finalize is_store finalize_acc init_acc (some (some a)) tx txs vs
          ≡ ok (finalized_job tx init ∷ [], ms) =
        unfold pair_finalize in
        rw
          (find_skip is_store finalize_acc init_acc (some a) tx init txs false vs ms
            (match_none is_store finalize_acc init_acc (some a) tx e) found)
          refl in
      plan_step tx txs vs ∙ rw (e, e', e'', pair) (rw rest refl)

  -- The events of a history and the responses that show them, with the marks of the sends seen so far.
  planned :
      (seen : List ℕ) (es : List Event) (txs : List T)
      → IsHistory es
      → ShowAll is_store finalize_acc init_acc es txs
      → (jobs : List (Job T)) × (jobs_of seen es txs ≡ some jobs)
        × (plan_jobs is_store finalize_acc init_acc txs (marks_of seen es) ≡ ok jobs)
  planned seen [] [] h shown = ([], refl, unfold plan_jobs in refl)
  planned seen [] (tx ∷ txs) h shown = elim shown [ ]
  planned seen (e ∷ es) [] h shown = elim shown [ ]
  planned seen (init_event s a ∷ es) (tx ∷ txs) (free, fresh, h) ((e, e', e''), shown) =
      let (jobs, wanted, rest) = planned seen es txs h shown in
      elim (Bool-cases (has s seen)) [
        | inl taken ↦ (jobs, rw (taken, wanted) refl, rw taken (plan_marked tx txs _ ∙ rest))
        | inr alone ↦ (
          init_job tx ∷ jobs,
          rw (alone, wanted) refl,
          rw alone (plan_init tx txs (marks_of seen es) (some a) jobs e e' e'' rest),
        )
      ]
  planned seen (finalize_event s a ∷ es) (tx ∷ txs) (opened, h) ((e, e', e''), shown) =
      let (init, known, found) =
        find_own is_store finalize_acc init_acc s a seen es txs h shown opened in
      let (jobs, wanted, rest) = planned (s ∷ seen) es txs h shown in
      (
        finalized_job tx init ∷ jobs,
        rw (known, wanted) refl,
        plan_finalize tx init txs (marks_of seen es) (marks_of (s ∷ seen) es) a jobs e e' e'' found
            rest,
      )
  planned seen (store_event ∷ es) (tx ∷ txs) h ((e, e', e''), shown) =
      let (jobs, wanted, rest) = planned seen es txs h shown in
      (store_job tx ∷ jobs, rw wanted refl, plan_store tx txs (marks_of seen es) jobs e e' e'' rest)

  none_marked :
      (es : List Event) (txs : List T)
      → ShowAll is_store finalize_acc init_acc es txs
      → marks_of [] es ≡ unmarked txs
  none_marked [] [] shown = refl
  none_marked [] (tx ∷ txs) shown = elim shown [ ]
  none_marked (e ∷ es) [] shown = elim shown [ ]
  none_marked (init_event s a ∷ es) (tx ∷ txs) (_, shown) =
      ap (λ ms. false ∷ ms) (none_marked es txs shown)
  none_marked (finalize_event s a ∷ es) (tx ∷ txs) (_, shown) =
      ap (λ ms. false ∷ ms) (none_marked es txs shown)
  none_marked (store_event ∷ es) (tx ∷ txs) (_, shown) =
      ap (λ ms. false ∷ ms) (none_marked es txs shown)

  -- If no two open sends share a verification account, no send starts twice and each response shows one
  -- event, then the converter pairs every finalize with the start of its own send, and parses each
  -- other start and each store once.
  pub plan_jobs-eq-jobs_of :
      (es : List Event) (txs : List T)
      → IsHistory es
      → ShowAll is_store finalize_acc init_acc es txs
      → (jobs : List (Job T)) × (jobs_of [] es txs ≡ some jobs)
        × (plan_jobs is_store finalize_acc init_acc txs (unmarked txs) ≡ ok jobs)
  plan_jobs-eq-jobs_of es txs h shown = rw (none_marked es txs shown) at (planned [] es txs h shown)
