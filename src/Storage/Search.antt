-- ===== src/Storage/Search.antt =====
-- StorageAccountReader.ts, `findCommitmentIndicesInChunk`: the end of the search of a chunk, and the
-- places that it answers.
use elusiv_sdk.Base.{
  ℕ, zero, suc, ◌+◌, ◌≤◌, ◌<◌, Bool, true, false, Option, none, some, List, [], ◌∷◌, ◌≡◌, refl, sym,
  ◌∙◌, arith, if◌then◌else◌, ltb, ltb→lt, get_elem?, Bool-cases, inl, inr, ◌⊎◌,
}
use elusiv_sdk.Result.{
  Result, Error, ok, err, out_of_fuel, could_not_fetch_data, invalid_access, ok-injective,
}
use elusiv_sdk.Constants.{storage_mt_values_per_account}
use elusiv_sdk.Tree.{zeros}
use elusiv_sdk.Storage.Chunk.{
  read_commitment_at_acc_index, is_defined_sparse_arr, skip_to, no_results, round_of, mark_found,
  chunk_loop, sort, search_from, find_commitment_indices_in_chunk,
}

ok-not_err {ℓ} : {A : Type ℓ} (a : A) (e : Error) → ok a ≡ err e → ⊥
ok-not_err a e p = cc

-- The ways in which a round can give `r`.
abbrev Outcome :
    Option (List ℕ)
    → (List ℕ → List (Option ℕ))
    → (List ℕ → Result (List (Option ℕ)))
    → Result (List (Option ℕ))
    → Type 0
Outcome o marks again r =
    (r ≡ err invalid_access)
    ⊎ (r ≡ err could_not_fetch_data)
    ⊎ ((f : List ℕ) × (o ≡ some f) × ((r ≡ ok (marks f)) ⊎ (again f ≡ r)))

round_of_cases :
    (o : Option (List ℕ)) (ends : List ℕ → Bool) (marks : List ℕ → List (Option ℕ))
    (again : List ℕ → Result (List (Option ℕ))) (r : Result (List (Option ℕ)))
    → round_of o ends marks again ≡ r
    → Outcome o marks again r
unfolding round_of
round_of_cases none ends marks again r e = inl (sym e)
round_of_cases (some f) ends marks again r e = elim (Bool-cases (ends f)) [
  | inl end ↦ inr (inl (sym (rw (end, round_of) at e)))
  | inr populated ↦
      let e' = rw (populated, round_of) at e in
      elim (Bool-cases (is_defined_sparse_arr (marks f))) [
        | inl all ↦ inr (inr (f, refl, inl (sym (rw all at e'))))
        | inr more ↦ inr (inr (f, refl, inr (rw more at e')))
      ]
]

skip_to-le : (i : ℕ) (o : Option ℕ) → i ≤ skip_to i o
skip_to-le i none = omega arith
skip_to-le i (some start) = ground arith

skips : (c : Bool) (i : ℕ) (o : Option ℕ) → i ≤ (if c then skip_to i o else i)
skips true i o = skip_to-le i o
skips false i o = omega arith

module _ (equals_uint8_arr : List ℕ → List ℕ → Bool) where
  abbrev marked : List (List ℕ) → ℕ → List (Option ℕ) → List ℕ → List (Option ℕ)
  marked hs i res f = (mark_found equals_uint8_arr i f hs res).0

  abbrev next_k : List (List ℕ) → ℕ → ℕ → List (Option ℕ) → List ℕ → ℕ
  next_k hs i k res f = if (mark_found equals_uint8_arr i f hs res).1 then k + 1 else k

  abbrev next_i : List (List ℕ) → List ℕ → ℕ → ℕ → List (Option ℕ) → List ℕ → ℕ
  next_i hs sorted i k res f =
      if (mark_found equals_uint8_arr i f hs res).1
      then skip_to i (get_elem? sorted (next_k hs i k res f))
      else i

  module _ (size : ℕ) (chunk : List ℕ) (hs : List (List ℕ)) (sorted : List ℕ) where
    abbrev loop : ℕ → ℕ → ℕ → List (Option ℕ) → Result (List (Option ℕ))
    loop fuel i k res = chunk_loop equals_uint8_arr fuel size chunk hs sorted i k res

    abbrev rest_of : ℕ → ℕ → ℕ → List (Option ℕ) → List ℕ → Result (List (Option ℕ))
    rest_of fuel i k res f =
        loop fuel (next_i hs sorted i k res f + 1) (next_k hs i k res f) (marked hs i res f)

    loop_past :
        (fuel i k : ℕ) (res : List (Option ℕ))
        → ltb i size ≡ false
        → loop (suc fuel) i k res ≡ ok res
    unfolding chunk_loop
    loop_past fuel i k res past = rw (past, chunk_loop) refl

    loop_inside :
        (fuel i k : ℕ) (res : List (Option ℕ)) (r : Result (List (Option ℕ)))
        → ltb i size ≡ true
        → loop (suc fuel) i k res ≡ r
        → Outcome (read_commitment_at_acc_index chunk i) (marked hs i res) (rest_of fuel i k res) r
    unfolding chunk_loop
    loop_inside fuel i k res r inside e =
        round_of_cases (read_commitment_at_acc_index chunk i) (λ f. equals_uint8_arr f (zeros 32))
          (marked hs i res) (rest_of fuel i k res) r (rw (inside, chunk_loop) at e)

    loop_total :
        (fuel i k : ℕ) (res : List (Option ℕ))
        → 0 < fuel
        → size < fuel + i
        → loop fuel i k res ≡ err out_of_fuel
        → ⊥
    loop_total zero i k res h enough e = omega arith
    loop_total (suc fuel) i k res h enough e = elim (Bool-cases (ltb i size)) [
      | inr past ↦ ok-not_err res out_of_fuel (sym (loop_past fuel i k res past) ∙ e)
      | inl inside ↦ elim (loop_inside fuel i k res (err out_of_fuel) inside e) [
        | inl bad ↦ absurd (cc)
        | inr (inl bad) ↦ absurd (cc)
        | inr (inr (f, there, inl bad)) ↦ ok-not_err _ out_of_fuel (sym bad)
        | inr (inr (f, there, inr again)) ↦
            let on : i ≤ next_i hs sorted i k res f =
              skips (mark_found equals_uint8_arr i f hs res).1 i
                (get_elem? sorted (next_k hs i k res f)) in
            let low : i < size = ltb→lt i size inside in
            loop_total fuel (next_i hs sorted i k res f + 1) (next_k hs i k res f)
              (marked hs i res f) (omega arith) (omega arith) again
      ]
    ]

  -- Every result says where its commitment was read.
  abbrev pub AreFound : List ℕ → ℕ → List (List ℕ) → List (Option ℕ) → Type 0
  AreFound chunk size [] rs = Unit
  AreFound chunk size (h ∷ hs) [] = Unit
  AreFound chunk size (h ∷ hs) (none ∷ rs) = AreFound chunk size hs rs
  AreFound chunk size (h ∷ hs) (some j ∷ rs) =
      ((f : List ℕ) × (j < size)
        × (read_commitment_at_acc_index chunk j ≡ some f)
        × (equals_uint8_arr h f ≡ true))
      × AreFound chunk size hs rs

  no_results-AreFound :
      (chunk : List ℕ) (size : ℕ) (hs : List (List ℕ)) → AreFound chunk size hs (no_results hs)
  no_results-AreFound chunk size [] = tt
  no_results-AreFound chunk size (h ∷ hs) = no_results-AreFound chunk size hs

  mark_found-AreFound :
      (chunk : List ℕ) (size i : ℕ) (f : List ℕ) (hs : List (List ℕ)) (rs : List (Option ℕ))
      → i < size
      → read_commitment_at_acc_index chunk i ≡ some f
      → AreFound chunk size hs rs
      → AreFound chunk size hs (mark_found equals_uint8_arr i f hs rs).0
  unfolding mark_found
  mark_found-AreFound chunk size i f [] rs low there h = tt
  mark_found-AreFound chunk size i f (v ∷ vs) [] low there h = tt
  mark_found-AreFound chunk size i f (v ∷ vs) (some j ∷ rs) low there (here, h) =
      (here, mark_found-AreFound chunk size i f vs rs low there h)
  mark_found-AreFound chunk size i f (v ∷ vs) (none ∷ rs) low there h =
      elim (Bool-cases (equals_uint8_arr v f)) [
        | inl same ↦
            rw same ((f, low, there, same), mark_found-AreFound chunk size i f vs rs low there h)
        | inr differs ↦ rw differs (mark_found-AreFound chunk size i f vs rs low there h)
      ]

  loop-AreFound :
      (size : ℕ) (chunk : List ℕ) (hs : List (List ℕ)) (sorted : List ℕ) (fuel i k : ℕ)
      (res r : List (Option ℕ))
      → AreFound chunk size hs res
      → chunk_loop equals_uint8_arr fuel size chunk hs sorted i k res ≡ ok r
      → AreFound chunk size hs r
  unfolding chunk_loop
  loop-AreFound size chunk hs sorted zero i k res r h e = absurd (no_fuel e)
    where
      no_fuel : chunk_loop equals_uint8_arr zero size chunk hs sorted i k res ≡ ok r → ⊥
      no_fuel p = ok-not_err r out_of_fuel (sym p)
  loop-AreFound size chunk hs sorted (suc fuel) i k res r h e = elim (Bool-cases (ltb i size)) [
    | inr past ↦
        let same = ok-injective (sym (loop_past size chunk hs sorted fuel i k res past) ∙ e) in
        rw (← same) h
    | inl inside ↦ elim (loop_inside size chunk hs sorted fuel i k res (ok r) inside e) [
      | inl bad ↦ absurd (ok-not_err r invalid_access bad)
      | inr (inl bad) ↦ absurd (ok-not_err r could_not_fetch_data bad)
      | inr (inr (f, there, inl all)) ↦
          rw (ok-injective all)
            (mark_found-AreFound chunk size i f hs res (ltb→lt i size inside) there h)
      | inr (inr (f, there, inr again)) ↦
          loop-AreFound size chunk hs sorted fuel (next_i hs sorted i k res f + 1)
            (next_k hs i k res f) (marked hs i res f) r
            (mark_found-AreFound chunk size i f hs res (ltb→lt i size inside) there h) again
    ]
  ]

  search_from-AreFound :
      (first : Option ℕ) (sorted : List ℕ) (chunk : List ℕ) (hs : List (List ℕ))
      → ¬ (search_from equals_uint8_arr first sorted chunk hs ≡ err out_of_fuel)
        × ((res : List (Option ℕ))
            → search_from equals_uint8_arr first sorted chunk hs ≡ ok res
            → AreFound chunk storage_mt_values_per_account hs res)
  unfolding search_from
  search_from-AreFound none sorted chunk hs = (
    λ e. ok-not_err _ out_of_fuel e,
    λ res e. rw (← ok-injective e) (no_results-AreFound chunk storage_mt_values_per_account hs),
  )
  search_from-AreFound (some first) sorted chunk hs = (
    λ e.
        loop_total storage_mt_values_per_account chunk hs sorted (storage_mt_values_per_account + 1)
          first 0 (no_results hs) (omega arith) (omega arith) e,
    λ res e.
        loop-AreFound storage_mt_values_per_account chunk hs sorted
          (storage_mt_values_per_account + 1) first 0 (no_results hs) res
          (no_results-AreFound chunk storage_mt_values_per_account hs) e,
  )

  -- The search of a chunk ends by itself, whatever the start indices are: with an answer or with one of
  -- the code's own errors.
  pub find_commitment_indices_in_chunk_total :
      (chunk : List ℕ) (hs : List (List ℕ)) (starts : List ℕ)
      → ¬ (find_commitment_indices_in_chunk equals_uint8_arr chunk hs starts ≡ err out_of_fuel)
  unfolding find_commitment_indices_in_chunk
  find_commitment_indices_in_chunk_total chunk hs starts =
      (search_from-AreFound (get_elem? (sort starts) 0) (sort starts) chunk hs).0

  -- Every place that the search of a chunk answers is a place of the chunk, and the commitment of the
  -- same number stands there.
  pub find_commitment_indices_in_chunk-AreFound :
      (chunk : List ℕ) (hs : List (List ℕ)) (starts : List ℕ) (res : List (Option ℕ))
      → find_commitment_indices_in_chunk equals_uint8_arr chunk hs starts ≡ ok res
      → AreFound chunk storage_mt_values_per_account hs res
  unfolding find_commitment_indices_in_chunk
  find_commitment_indices_in_chunk-AreFound chunk hs starts res e =
      (search_from-AreFound (get_elem? (sort starts) 0) (sort starts) chunk hs).1 res e
