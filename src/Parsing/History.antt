-- ===== src/Parsing/History.antt =====
-- ResponseConverter.ts: the histories that its comment on pairing speaks of. A send is a number; it takes
-- a verification account when it starts, and the account is free again when it is finalized. Events
-- stand in reverse order, as the chain returns them.
use elusiv_sdk.Base.{
  ℕ, Bool, true, false, not, ◌||◌, ◌≡◌, ◌≢◌, String, Option, none, some, List, [], ◌∷◌, All, In,
  keep_if, if◌then◌else◌, ◌==◌,
}
use elusiv_sdk.Parsing.Response.{Job, store_job, finalized_job, init_job}

pub data Event : Type 0 where
  init_event : ℕ → String → Event
  finalize_event : ℕ → String → Event
  store_event : Event

-- The sends that are not finalized, with their accounts.
abbrev pub without : ℕ → List (ℕ × String) → List (ℕ × String)
without s = keep_if (λ (o : ℕ × String). not (o.0 == s))

abbrev pub open_sends : List Event → List (ℕ × String)
open_sends [] = []
open_sends (init_event s a ∷ older) = (s, a) ∷ open_sends older
open_sends (finalize_event s a ∷ older) = without s (open_sends older)
open_sends (store_event ∷ older) = open_sends older

abbrev pub started : List Event → List ℕ
started [] = []
started (init_event s a ∷ older) = s ∷ started older
started (finalize_event s a ∷ older) = started older
started (store_event ∷ older) = started older

-- A send starts once, with an account that no open send has, and is finalized with that account.
abbrev pub IsHistory : List Event → Type 0
IsHistory [] = Unit
IsHistory (init_event s a ∷ older) =
    All (λ o. o.1 ≢ a) (open_sends older) × All (λ t. t ≢ s) (started older) × IsHistory older
IsHistory (finalize_event s a ∷ older) = In (s, a) (open_sends older) × IsHistory older
IsHistory (store_event ∷ older) = IsHistory older

abbrev pub has : ℕ → List ℕ → Bool
has s [] = false
has s (t ∷ ts) = t == s || has s ts

abbrev pub add_job {ℓ} : {A : Type ℓ} → A → Option (List A) → Option (List A)
add_job x none = none
add_job x (some xs) = some (x ∷ xs)

module _ {T : Type 0} (is_store : T → Bool)
    (finalize_acc init_acc : T → Option (Option String)) where
  -- What a response shows of its event.
  abbrev pub Shows : Event → T → Type 0
  Shows (init_event s a) tx =
      (init_acc tx ≡ some (some a)) × (finalize_acc tx ≡ none) × (is_store tx ≡ false)
  Shows (finalize_event s a) tx =
      (init_acc tx ≡ none) × (finalize_acc tx ≡ some (some a)) × (is_store tx ≡ false)
  Shows store_event tx = (init_acc tx ≡ none) × (finalize_acc tx ≡ none) × (is_store tx ≡ true)

  abbrev pub ShowAll : List Event → List T → Type 0
  ShowAll [] [] = Unit
  ShowAll (e ∷ es) (tx ∷ txs) = Shows e tx × ShowAll es txs
  ShowAll _ _ = ⊥

-- The response that starts a send.
abbrev pub init_of {ℓ} : {T : Type ℓ} → ℕ → List Event → List T → Option T
init_of s (init_event t a ∷ es) (tx ∷ txs) =
    let older = init_of s es txs in if t == s then some tx else older
init_of s (finalize_event t a ∷ es) (tx ∷ txs) = init_of s es txs
init_of s (store_event ∷ es) (tx ∷ txs) = init_of s es txs
init_of s _ _ = none

abbrev pub finalize_with {ℓ} :
    {T : Type ℓ} → T → Option T → Option (List (Job T)) → Option (List (Job T))
finalize_with tx none jobs = none
finalize_with tx (some init) jobs = add_job (finalized_job tx init) jobs

-- The jobs that the events ask for: each finalized send with its own start, each other send by its start,
-- and each store. `seen` are the sends that were finalized later.
abbrev pub jobs_of {ℓ} : {T : Type ℓ} → List ℕ → List Event → List T → Option (List (Job T))
jobs_of seen (init_event s a ∷ es) (tx ∷ txs) =
    let rest = jobs_of seen es txs in if has s seen then rest else add_job (init_job tx) rest
jobs_of seen (finalize_event s a ∷ es) (tx ∷ txs) =
    finalize_with tx (init_of s es txs) (jobs_of (s ∷ seen) es txs)
jobs_of seen (store_event ∷ es) (tx ∷ txs) = add_job (store_job tx) (jobs_of seen es txs)
jobs_of seen _ _ = some []
