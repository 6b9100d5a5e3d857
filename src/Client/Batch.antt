-- ===== src/Client/Batch.antt =====
-- elusiv.ts: which topups of a batch are estimated with a merge.
use elusiv_sdk.Base.{
  ℕ, ◌+◌, ◌%◌, ◌≡◌, refl, ap, ◌∙◌, arith, Bool, List, [], ◌∷◌, ◌&&◌, if◌then◌else◌, leb, ◌==◌,
  Bool-cases, inl, inr,
}
use elusiv_sdk.Result.{Result, ok, map_result, ◌>>=◌}
use elusiv_sdk.Constants.{send_arity}
use elusiv_sdk.Token.{TokenType, token_beq, token_beq_iff}
use elusiv_sdk.Fee.{Fee}
use elusiv_sdk.Client.{
  TopupFeeCalcInfo, Estimates, Counts, set_count, estimate_merge_and_topup,
  estimate_topup_fee_internal, estimate_batch_loop, estimate_topup_fees_batch,
}

-- How many of the tokens are `t`.
abbrev count_of : TokenType → List TokenType → ℕ
count_of t [] = 0
count_of t (u ∷ us) = let rest = count_of t us in if token_beq u t then rest + 1 else rest

-- The topups, each with the number of topups of its token before it.
abbrev pub numbered : List TokenType → List TopupFeeCalcInfo → List (ℕ × TopupFeeCalcInfo)
numbered before [] = []
numbered before (info ∷ infos) =
    (count_of info.token_type before, info) ∷ numbered (info.token_type ∷ before) infos

-- The fifth topup of a token needs a merge, and every third one after it, since a merge and its topup
-- leave two commitments.
abbrev pub needs_merge : ℕ → Bool
needs_merge k = leb 4 k && (k % 3 == 1)

abbrev pub fee_at : Estimates → ℕ × TopupFeeCalcInfo → Result Fee
fee_at env (k, info) =
    if needs_merge k
    then estimate_merge_and_topup env info
    else estimate_topup_fee_internal env info

-- The commitments of a token after `k` topups.
abbrev active_after : ℕ → ℕ
active_after k = if leb 4 k then 2 + (k + 1) % 3 else k

full-needs_merge : (k : ℕ) → (active_after k == 4) ≡ needs_merge k
full-needs_merge k = ground arith

active_after-suc :
    (k : ℕ) → (if active_after k == 4 then 2 else active_after k + 1) ≡ active_after (k + 1)
active_after-suc k = ground arith

-- The counts are the commitments that are active after the topups before.
abbrev Tracks : Counts → List TokenType → Type 0
Tracks counts before = (t : TokenType) → counts t ≡ active_after (count_of t before)

set_count-Tracks :
    (counts : Counts) (t : TokenType) (before : List TokenType)
    → Tracks counts before
    → Tracks (set_count counts t (if counts t == send_arity then 2 else counts t + 1)) (t ∷ before)
set_count-Tracks counts t before h u = elim (Bool-cases (token_beq t u)) [
  | inl same ↦
      let equal : t ≡ u = (token_beq_iff t u).0 same in
      let next = active_after-suc (count_of u before) in rw (same, equal, h u) next
  | inr other ↦ rw other (h u)
]

module _ (env : Estimates) where
  loop_step :
      (counts : Counts) (info : TopupFeeCalcInfo) (infos : List TopupFeeCalcInfo)
      → estimate_batch_loop env counts (info ∷ infos) ≡ (
          (if counts info.token_type == send_arity
            then estimate_merge_and_topup env info
            else estimate_topup_fee_internal env info)
          >>= λ fee.
              estimate_batch_loop env
                (set_count counts info.token_type
                  (if counts info.token_type == send_arity then 2 else counts info.token_type + 1))
                infos
              >>= λ fees. ok (fee ∷ fees))
  unfolding estimate_batch_loop
  loop_step counts info infos = refl

  loop_lem :
      (counts : Counts) (before : List TokenType) (infos : List TopupFeeCalcInfo)
      → Tracks counts before
      → estimate_batch_loop env counts infos ≡ map_result (fee_at env) (numbered before infos)
  unfolding map_result
  loop_lem counts before [] h = unfold estimate_batch_loop in refl
  loop_lem counts before (info ∷ infos) h =
      let t = info.token_type in
      let full : (counts t == send_arity) ≡ needs_merge (count_of t before) =
        ap (λ n. n == 4) (h t) ∙ full-needs_merge (count_of t before) in
      let rest =
        loop_lem (set_count counts t (if counts t == send_arity then 2 else counts t + 1))
          (t ∷ before) infos (set_count-Tracks counts t before h) in
      loop_step counts info infos ∙ rw (rest, full) refl

  -- A batch of topups is estimated one by one: with a merge if it is the fifth topup of its token, or
  -- every third one after that, whatever topups of other tokens stand between them.
  pub estimate_topup_fees_batch_lem :
      (infos : List TopupFeeCalcInfo)
      → estimate_topup_fees_batch env infos ≡ map_result (fee_at env) (numbered [] infos)
  unfolding estimate_topup_fees_batch
  estimate_topup_fees_batch_lem infos = loop_lem (λ t. 0) [] infos (λ t. refl)
