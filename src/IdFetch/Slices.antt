-- ===== src/IdFetch/Slices.antt =====
-- IdentifierTxFetcher.ts, `sigsToElusivTxs`: each range holds the responses to its nonce's signatures.
use mathlib.Core.List.{append_assoc}
use elusiv_sdk.Base.{
  ℕ, suc, Option, none, some, List, [], ◌∷◌, ◌++◌, map, length, ◌≡◌, refl, ap, ◌∙◌, arith,
  length-append, length-map, inl, inr, ◌⊎◌,
}
use elusiv_sdk.Base.Slice.{slice-append}
use elusiv_sdk.Result.{Result, ok, map_result}
use elusiv_sdk.Commitments.{zip_same_length}
use elusiv_sdk.IdFetch.{
  ConfirmedSignatureInfo, IdentifiedSigs, NoncedTxResponse, tx_ranges, prepared_sigs, every_defined,
  pair_up, total_tx_responses,
}

map_signatures-append :
    {R : Type 0} (response : ℕ → Option R) (xs ys : List ConfirmedSignatureInfo)
    → map response (map (λ (cs : ConfirmedSignatureInfo). cs.signature) (xs ++ ys))
      ≡ map (λ (cs : ConfirmedSignatureInfo). response cs.signature) xs
        ++ map response (map (λ (cs : ConfirmedSignatureInfo). cs.signature) ys)
map_signatures-append response [] ys = refl
map_signatures-append response (x ∷ xs) ys =
    ap (λ t. response x.signature ∷ t) (map_signatures-append response xs ys)

zip_ok :
    {R : Type 0} (rs : List R) (cs : List ConfirmedSignatureInfo)
    → length rs ≡ length cs
    → (ps : List (R × ConfirmedSignatureInfo)) × (zip_same_length rs cs ≡ ok ps)
unfolding zip_same_length
zip_ok [] [] e = ([], refl)
zip_ok [] (c ∷ cs) e = absurd (omega arith)
zip_ok (r ∷ rs) [] e = absurd (omega arith)
zip_ok (r ∷ rs) (c ∷ cs) e =
    let (ps, zipped) = zip_ok rs cs (omega arith) in ((r, c) ∷ ps, rw zipped refl)

every_defined_cases :
    {R : Type 0} (xs : List (Option R))
    → (every_defined xs ≡ none)
      ⊎ ((ys : List R) × (every_defined xs ≡ some ys) × (length ys ≡ length xs))
unfolding every_defined
every_defined_cases [] = inr ([], refl, refl)
every_defined_cases (none ∷ xs) = inl refl
every_defined_cases (some x ∷ xs) = elim (every_defined_cases xs) [
  | inl missing ↦ inl (rw missing refl)
  | inr (ys, there, same) ↦ inr (x ∷ ys, rw there refl, ap suc same)
]

module _ {K R : Type 0} (response : ℕ → Option R) where
  -- The responses to the signatures of one nonce.
  abbrev pub own_responses : IdentifiedSigs K → List (Option R)
  own_responses s = map (λ (cs : ConfirmedSignatureInfo). response cs.signature) s.sigs

  unfoldable pub all_responses : List (IdentifiedSigs K) → List (Option R)
  all_responses [] = []
  all_responses (s ∷ ss) = own_responses s ++ all_responses ss

  abbrev pub own_pairs : IdentifiedSigs K → Result (Option (NoncedTxResponse K R))
  own_pairs s = pair_up s (every_defined (own_responses s))

  pub responses-own_pairs :
      (before : List (Option R)) (ss : List (IdentifiedSigs K))
      → total_tx_responses (before ++ all_responses ss) (tx_ranges (length before) ss) ss
        ≡ map_result own_pairs ss
  unfolding total_tx_responses tx_ranges map_result all_responses
  responses-own_pairs before [] = refl
  responses-own_pairs before (s ∷ ss) =
      let len : length (own_responses s) ≡ length s.sigs = length-map s.sigs _ in
      let own = slice-append before (own_responses s) (all_responses ss) in
      let ih = responses-own_pairs (before ++ own_responses s) ss in
      let own' = rw len at own in
      let ih' =
        rw
          (
            append_assoc before (own_responses s) (all_responses ss),
            length-append before (own_responses s),
            len,
          )
          at ih in
      rw (own', ih') refl

  pub map-prepared_sigs :
      (ss : List (IdentifiedSigs K)) → map response (prepared_sigs ss) ≡ all_responses ss
  unfolding prepared_sigs all_responses
  map-prepared_sigs [] = refl
  map-prepared_sigs (s ∷ ss) =
      map_signatures-append response s.sigs _
      ∙ ap (λ t. own_responses s ++ t) (map-prepared_sigs ss)

  pub own_pairs_ok :
      (s : IdentifiedSigs K) → (p : Option (NoncedTxResponse K R)) × (own_pairs s ≡ ok p)
  own_pairs_ok s = elim (every_defined_cases (own_responses s)) [
    | inl missing ↦ (none, rw missing refl)
    | inr (rs, there, same) ↦
        let (ps, zipped) = zip_ok rs s.sigs (same ∙ length-map s.sigs _) in
        (
          some (record { tx_response = ps; nonce = s.nonce; id_pub_key = s.id_key }),
          rw (there, zipped) refl,
        )
  ]
