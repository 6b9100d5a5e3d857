-- ===== src/TxFetch/Plan.antt =====
-- AbstractTxManager.ts, `prepareTxFetchingParams` and the loop of `fetchTxsIntoCache`: the plan ends,
-- and its batches cover every nonce that is not cached.
use mathlib.Core.Option
use elusiv_sdk.Base.{
  ℕ, zero, suc, ◌+◌, ◌<◌, Bool, true, Option, none, some, List, [], ◌∷◌, ◌≡◌, refl, arith,
  Bool-cases, inl, inr, ◌⊎◌, All, ltb→lt, lt→ltb,
}
use elusiv_sdk.Base.Int.{
  ℤ, pos, pos_part, neg_part, minus_one, ltb_ℤ, ◌+ℤ◌, ◌-ℤ◌, ◌≤ℤ◌, int_laws, eq_of_parts,
}
use mathlib.Core.Path.{subst}
use elusiv_sdk.TxFetch.{
  TxFetchingInputs, CachedRange, max_ℤ, prepare_tx_fetching_params, plan_batches, next_batch,
  fetch_fuel,
}

infix 50 ◌<ℤ◌
abbrev pub ◌<ℤ◌ : ℤ → ℤ → Type 0
a <ℤ b = pos_part a + neg_part b < pos_part b + neg_part a

-- The nonce lies strictly between the ends of one of the ranges.
abbrev pub IsPlanned : ℤ → List CachedRange → Type 0
IsPlanned n [] = ⊥
IsPlanned n (r ∷ rs) = ((r.after <ℤ n) × (n <ℤ r.before)) ⊎ IsPlanned n rs

max_ℤ_ge : (x y : ℤ) → (x ≤ℤ max_ℤ x y) × (y ≤ℤ max_ℤ x y)
max_ℤ_ge x y = (ground arith, ground arith)

max_ℤ_lt : (x y n : ℤ) → x <ℤ n → y <ℤ n → max_ℤ x y <ℤ n
max_ℤ_lt x y n h k = ground arith

back : (a z : ℤ) (n m : ℕ) → n ≡ m → a -ℤ pos n -ℤ pos 1 ≤ℤ z → a ≤ℤ z +ℤ pos (m + 1)
back a z n m e h = omega int_laws

max_back :
    (a : ℤ) (n m : ℕ)
    → ◌≡◌ {A = Option ℕ} (some n) (some m)
    → a ≤ℤ max_ℤ (a -ℤ pos n -ℤ pos 1) minus_one +ℤ pos (m + 1)
max_back a n m e = back a _ n m (cc) (max_ℤ_ge (a -ℤ pos n -ℤ pos 1) minus_one).0

-- The bounds that `prepareTxFetchingParams` computes: `after` is never below -1, `before` never above
-- what the cache was filled to nor above the caller's bound, and with a count the range holds at most
-- that many nonces.
pub prepare_tx_fetching_params_bounds :
    (range : CachedRange) (count : Option ℕ) (batch_size : ℕ) (before : Option ℤ)
    → let inputs = prepare_tx_fetching_params range count batch_size before in
      (minus_one ≤ℤ inputs.after)
      × (inputs.before ≤ℤ range.before)
      × ((b : ℤ) → before ≡ some b → inputs.before ≤ℤ b)
      × ((n : ℕ) → count ≡ some n → inputs.before ≤ℤ inputs.after +ℤ pos (n + 1))
      × (count ≡ none → inputs.after ≡ minus_one)
unfolding prepare_tx_fetching_params
prepare_tx_fetching_params_bounds range none batch_size none =
    (ground arith, ground arith, λ b e. cc, λ n e. cc, λ e. refl)
prepare_tx_fetching_params_bounds range none batch_size (some b) =
    (ground arith, ground arith, λ c e. ground arith, λ n e. cc, λ e. refl)
prepare_tx_fetching_params_bounds range (some n) batch_size none =
    (ground arith, ground arith, λ b e. cc, λ m e. max_back _ n m e, λ e. cc)
prepare_tx_fetching_params_bounds range (some n) batch_size (some b) =
    (ground arith, ground arith, λ c e. ground arith, λ m e. max_back _ n m e, λ e. cc)

module _ (batch_size : ℕ) (after : ℤ) (is_cached : ℤ → Bool) where
  -- The loop that plans the batches ends, however nonces are cached, if batches are not empty and the
  -- fuel exceeds the distance from `after` to the first nonce that it looks at.
  pub plan_batches_total :
      (fuel : ℕ) (counter : ℤ)
      → 0 < batch_size
      → 0 < fuel
      → counter <ℤ after +ℤ pos fuel
      → (batches : List CachedRange) × (plan_batches fuel batch_size after is_cached counter
          ≡ some batches)
  unfolding plan_batches
  plan_batches_total zero counter h pos_fuel lt = absurd (omega arith)
  plan_batches_total (suc f) counter h pos_fuel lt = elim (Bool-cases (ltb_ℤ after counter)) [
    | inr done ↦ ([], rw done)
    | inl more ↦
        let open_range : after <ℤ counter = ltb→lt _ _ more in
        let left : 0 < f = omega (int_laws) in
        elim (Bool-cases (is_cached counter)) [
          | inl hit ↦
              rw (more, hit) (plan_batches_total f (counter -ℤ pos 1) h left (omega int_laws))
          | inr miss ↦
              let (batches, e) =
                plan_batches_total f (counter -ℤ pos batch_size) h left (omega int_laws) in
              (next_batch batch_size after (counter +ℤ pos 1) ∷ batches, rw (more, miss, e))
        ]
  ]

  -- `n` is cached or lies in a planned batch.
  abbrev pub IsCovered : ℤ → List CachedRange → Type 0
  IsCovered n batches = (is_cached n ≡ true) ⊎ IsPlanned n batches

  before_next : (n counter : ℤ) → n <ℤ counter → n ≤ℤ counter -ℤ pos 1
  before_next n counter h = omega int_laws

  in_batch :
      (n counter : ℤ)
      → after <ℤ n
      → n ≤ℤ counter
      → counter -ℤ pos batch_size <ℤ n
      → let r = next_batch batch_size after (counter +ℤ pos 1) in (r.after <ℤ n) × (n <ℤ r.before)
  unfolding next_batch
  in_batch n counter lo hi inside = (max_ℤ_lt after _ n lo (omega int_laws), omega int_laws)

  plan_batches-IsCovered :
      (fuel : ℕ) (counter n : ℤ) (batches : List CachedRange)
      → plan_batches fuel batch_size after is_cached counter ≡ some batches
      → after <ℤ n
      → n ≤ℤ counter
      → IsCovered n batches
  unfolding plan_batches
  plan_batches-IsCovered zero counter n batches e lo hi = cc
  plan_batches-IsCovered (suc f) counter n batches e lo hi =
      let more : ltb_ℤ after counter ≡ true = lt→ltb _ _ (omega arith) in
      elim (Bool-cases (is_cached counter)) [
        | inl hit ↦ elim (Bool-cases (ltb_ℤ n counter)) [
          | inl below ↦
              plan_batches-IsCovered f (counter -ℤ pos 1) n batches (rw (more, hit) at e) lo
                (before_next n counter (ltb→lt _ _ below))
          | inr top ↦
              let same : n ≡ counter = eq_of_parts n counter (ground arith) in inl (rw same hit)
        ]
        | inr miss ↦
            let (rest, planned, joined) = (Option.map-eq-some_iff _ _).0 (rw (more, miss) at e) in
            rw (← joined) (elim (Bool-cases (ltb_ℤ (counter -ℤ pos batch_size) n)) [
              | inl inside ↦ inr (inl (in_batch n counter lo hi (ltb→lt _ _ inside)))
              | inr below ↦
                  elim (plan_batches-IsCovered f (counter -ℤ pos batch_size) n rest planned lo
                    (ground arith)) [ inl hit ↦ inl hit | inr later ↦ inr (inr later) ]
            ])
      ]

  -- The batch stays in the range and asks for at most `batch_size` nonces.
  abbrev pub IsBatch : ℤ → CachedRange → Type 0
  IsBatch before r =
      (after ≤ℤ r.after) × (r.before ≤ℤ before) × (r.before ≤ℤ r.after +ℤ pos (batch_size + 1))

  next_batch-IsBatch :
      (before counter : ℤ)
      → counter +ℤ pos 1 ≤ℤ before
      → IsBatch before (next_batch batch_size after (counter +ℤ pos 1))
  unfolding next_batch
  next_batch-IsBatch before counter h = (
    (max_ℤ_ge after _).0,
    h,
    back_batch (counter +ℤ pos 1) _
        (max_ℤ_ge after (counter +ℤ pos 1 -ℤ pos batch_size -ℤ pos 1)).1,
  )
    where
      back_batch : (a z : ℤ) → a -ℤ pos batch_size -ℤ pos 1 ≤ℤ z → a ≤ℤ z +ℤ pos (batch_size + 1)
      back_batch a z k = omega int_laws

  plan_batches-IsBatch :
      (fuel : ℕ) (before counter : ℤ) (batches : List CachedRange)
      → plan_batches fuel batch_size after is_cached counter ≡ some batches
      → counter +ℤ pos 1 ≤ℤ before
      → All (IsBatch before) batches
  unfolding plan_batches
  plan_batches-IsBatch zero before counter batches e h = cc
  plan_batches-IsBatch (suc f) before counter batches e h =
      elim (Bool-cases (ltb_ℤ after counter)) [
        | inr done ↦ subst (All (IsBatch before)) (some_eq (rw done at e)) tt
        | inl more ↦ elim (Bool-cases (is_cached counter)) [
          | inl hit ↦
              plan_batches-IsBatch f before (counter -ℤ pos 1) batches (rw (more, hit) at e)
                (omega int_laws)
          | inr miss ↦
              let (rest, planned, joined) = (Option.map-eq-some_iff _ _).0 (rw (more, miss) at e) in
              rw (← joined) (
                next_batch-IsBatch before counter h,
                plan_batches-IsBatch f before (counter -ℤ pos batch_size) rest planned
                    (omega int_laws),
              )
        ]
      ]
    where
      some_eq : {xs ys : List CachedRange} → some xs ≡ some ys → xs ≡ ys
      some_eq p = cc

-- The loop of `fetchTxsIntoCache` ends, and its plan is right: every nonce strictly between the bounds
-- is cached or asked for by a batch, and each batch stays between the bounds and asks for at most
-- `batchSize` nonces.
pub fetch_plan_complete :
    (inputs : TxFetchingInputs) (is_cached : ℤ → Bool)
    → 0 < inputs.batch_size
    → (batches : List CachedRange) × (plan_batches
          (fetch_fuel inputs)
          inputs.batch_size
          inputs.after
          is_cached
          (inputs.before -ℤ pos 1)
        ≡ some batches)
      × ((n : ℤ)
          → inputs.after <ℤ n
          → n <ℤ inputs.before
          → (is_cached n ≡ true) ⊎ IsPlanned n batches)
      × All (IsBatch inputs.batch_size inputs.after is_cached inputs.before) batches
fetch_plan_complete inputs is_cached h =
    let (batches, e) =
      plan_batches_total inputs.batch_size inputs.after is_cached (fetch_fuel inputs)
        (inputs.before -ℤ pos 1) h (omega arith) (enough inputs.before inputs.after) in
    (
      batches,
      e,
      λ n lo hi.
          plan_batches-IsCovered inputs.batch_size inputs.after is_cached _ _ n batches e lo
            (omega int_laws),
      plan_batches-IsBatch inputs.batch_size inputs.after is_cached _ inputs.before _ batches e
          (omega int_laws),
    )
  where
    enough : (b a : ℤ) → b -ℤ pos 1 <ℤ a +ℤ pos (suc (pos_part (b -ℤ a)))
    enough b a = omega int_laws
