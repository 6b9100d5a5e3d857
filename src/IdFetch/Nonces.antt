-- ===== src/IdFetch/Nonces.antt =====
-- IdentifierTxFetcher.ts: the one request for the signatures of all nonces against a request for each
-- nonce.
use mathlib.Core.List.{append-nil}
use elusiv_sdk.Base.{
  ℕ, ◌+◌, Bool, true, false, not, Option, none, some, List, [], ◌∷◌, ◌++◌, map, length, concat,
  keep_if, if◌then◌else◌, ◌==◌, ==_iff, ◌≡◌, refl, sym, ap, ◌∙◌, arith, Bool-cases, inl, inr,
}
use elusiv_sdk.Result.{Result, ok, err, map_result, ◌>>=◌}
use elusiv_sdk.Commitments.{zip_same_length}
use elusiv_sdk.IdFetch.{
  ConfirmedSignatureInfo, IdentifiedSigs, NoncedTxResponse, Chain, tx_ranges, last_end,
  prepared_sigs, every_defined, total_tx_responses, is_empty, present, tx_responses_to_elusiv_txs,
  sigs_to_elusiv_txs, identified_sigs, get_txs_from_nonces,
}
use elusiv_sdk.IdFetch.Slices.{own_pairs, own_pairs_ok, responses-own_pairs, map-prepared_sigs}

unchanged : {T : Type 0} (m : Result (List T)) → m ≡ (m >>= λ rest. ok ([] ++ rest))
unchanged (ok ts) = refl
unchanged (err e) = refl

glue :
    {T : Type 0} (m : Result (List T)) (n : Result (List (List T)))
    → (m >>= (λ y. n >>= λ ys. ok (y ∷ ys)) >>= λ res. ok (concat res)) ≡ (
        m >>= (λ y. ok (y ∷ [])) >>= (λ res. ok (concat res)) >>= λ txs.
        n >>= (λ res. ok (concat res)) >>= λ rest. ok (txs ++ rest))
glue (err e) n = refl
glue (ok ts) (err e) = refl
glue (ok ts) (ok tss) = rw (append-nil ts) refl

module _ {K R T : Type 0} (chain : Chain K R T) (response : ℕ → Option R) where
  -- What the code should do for one nonce, as if it alone were asked for.
  abbrev pub for_nonce : IdentifiedSigs K → Result (List T)
  for_nonce s = do tx ← own_pairs response s; tx_responses_to_elusiv_txs chain (tx ∷ [])

  unfoldable pub nonce_by_nonce : List (IdentifiedSigs K) → Result (List T)
  nonce_by_nonce [] = ok []
  nonce_by_nonce (s ∷ ss) = do txs ← for_nonce s; rest ← nonce_by_nonce ss; ok (txs ++ rest)

  convert-cons :
      (p : Option (NoncedTxResponse K R)) (ps : List (Option (NoncedTxResponse K R)))
      → tx_responses_to_elusiv_txs chain (p ∷ ps) ≡ (
          tx_responses_to_elusiv_txs chain (p ∷ []) >>= λ txs.
          tx_responses_to_elusiv_txs chain ps >>= λ rest. ok (txs ++ rest))
  unfolding tx_responses_to_elusiv_txs present map_result
  convert-cons none ps = unchanged _
  convert-cons (some tx) ps = elim (Bool-cases (is_empty tx.tx_response)) [
    | inl empty ↦ rw empty (unchanged _)
    | inr full ↦ rw full (
        glue (chain.tx_response_to_elusiv_txs tx)
          (map_result chain.tx_response_to_elusiv_txs (present ps)))
  ]

  pairs_ok :
      (ss : List (IdentifiedSigs K))
      → (ps : List (Option (NoncedTxResponse K R))) × (map_result (own_pairs response) ss ≡ ok ps)
  unfolding map_result
  pairs_ok [] = ([], refl)
  pairs_ok (s ∷ ss) =
      let (p, made) = own_pairs_ok response s in
      let (ps, rest) = pairs_ok ss in (p ∷ ps, rw (made, rest) refl)

  all_pairs :
      (ss : List (IdentifiedSigs K))
      → (map_result (own_pairs response) ss >>= tx_responses_to_elusiv_txs chain)
        ≡ nonce_by_nonce ss
  unfolding nonce_by_nonce map_result
  all_pairs [] = unfold tx_responses_to_elusiv_txs in refl
  all_pairs (s ∷ ss) =
      let (p, made) = own_pairs_ok response s in
      let (ps, rest) = pairs_ok ss in
      let before = all_pairs ss in
      let ih = rw rest at before in rw (made, rest, ← ih) (convert-cons p ps)

  no_sigs :
      (sigs : List ConfirmedSignatureInfo) (nonce : ℕ) (key : Option K)
      → length sigs ≡ 0
      → for_nonce (record { sigs = sigs; nonce = nonce; id_key = key }) ≡ ok []
  unfolding every_defined zip_same_length tx_responses_to_elusiv_txs
  no_sigs [] nonce key e = refl
  no_sigs (x ∷ xs) nonce key e = absurd (omega arith)

  nothing_fetched :
      (previous : ℕ) (ss : List (IdentifiedSigs K))
      → last_end previous ss ≡ 0
      → (previous ≡ 0) × (nonce_by_nonce ss ≡ ok [])
  unfolding last_end nonce_by_nonce
  nothing_fetched previous [] e = (e, refl)
  nothing_fetched previous (s ∷ ss) e =
      let (sum, rest) = nothing_fetched (previous + length s.sigs) ss e in
      let none_here : for_nonce s ≡ ok [] = no_sigs s.sigs s.nonce s.id_key (omega arith) in
      (omega arith, rw (none_here, rest) refl)

  sigs_cases :
      (s : IdentifiedSigs K) (ss : List (IdentifiedSigs K))
      → sigs_to_elusiv_txs chain (s ∷ ss) ≡ (
          if last_end 0 (s ∷ ss) == 0
          then ok []
          else (total_tx_responses
                (chain.get_parsed_transactions (prepared_sigs (s ∷ ss)))
                (tx_ranges 0 (s ∷ ss))
                (s ∷ ss)
              >>= tx_responses_to_elusiv_txs chain))
  unfolding sigs_to_elusiv_txs
  sigs_cases s ss = refl

  all_fetched :
      (ss : List (IdentifiedSigs K))
      → ((ns : List ℕ) → chain.get_parsed_transactions ns ≡ map response ns)
      → total_tx_responses (chain.get_parsed_transactions (prepared_sigs ss)) (tx_ranges 0 ss) ss
        ≡ map_result (own_pairs response) ss
  all_fetched ss answers =
      ap (λ t. total_tx_responses t (tx_ranges 0 ss) ss)
        (answers (prepared_sigs ss) ∙ map-prepared_sigs response ss)
      ∙ responses-own_pairs response [] ss

  nil_eq : sigs_to_elusiv_txs chain [] ≡ nonce_by_nonce []
  unfolding sigs_to_elusiv_txs nonce_by_nonce
  nil_eq = refl

  -- If the chain answers each signature of a request with the response to it, then the fetched
  -- transactions are those of each nonce by itself, in order, a nonce with a missing response left out.
  pub sigs_to_elusiv_txs-nonce_by_nonce :
      (ss : List (IdentifiedSigs K))
      → ((ns : List ℕ) → chain.get_parsed_transactions ns ≡ map response ns)
      → sigs_to_elusiv_txs chain ss ≡ nonce_by_nonce ss
  sigs_to_elusiv_txs-nonce_by_nonce [] answers = nil_eq
  sigs_to_elusiv_txs-nonce_by_nonce (s ∷ ss) answers =
      elim (Bool-cases (last_end 0 (s ∷ ss) == 0)) [
        | inl nothing ↦
            sigs_cases s ss
            ∙ rw nothing
                (sym (nothing_fetched 0 (s ∷ ss) ((==_iff (last_end 0 (s ∷ ss)) 0).0 nothing)).1)
        | inr some_sigs ↦
            sigs_cases s ss
            ∙ rw some_sigs (
                ap (λ m. m >>= tx_responses_to_elusiv_txs chain) (all_fetched (s ∷ ss) answers)
                ∙ all_pairs (s ∷ ss))
      ]

  without_cached :
      (nonces : List (ℕ × Bool))
      → nonce_by_nonce (identified_sigs chain nonces)
        ≡ nonce_by_nonce (identified_sigs chain (keep_if (λ n. not n.1) nonces))
  unfolding nonce_by_nonce identified_sigs
  without_cached [] = refl
  without_cached ((nonce, true) ∷ nonces) =
      let none_here = no_sigs [] nonce none refl in
      rw none_here (sym (unchanged _) ∙ without_cached nonces)
  without_cached ((nonce, false) ∷ nonces) = rw (without_cached nonces) refl

  -- Nonces that are cached are as good as left out of the request, if the chain answers each signature
  -- with the response to it.
  pub get_txs_from_nonces_cached :
      (nonces : List (ℕ × Bool))
      → ((ns : List ℕ) → chain.get_parsed_transactions ns ≡ map response ns)
      → get_txs_from_nonces chain nonces ≡ get_txs_from_nonces chain (keep_if (λ n. not n.1) nonces)
  unfolding get_txs_from_nonces
  get_txs_from_nonces_cached nonces answers =
      sigs_to_elusiv_txs-nonce_by_nonce (identified_sigs chain nonces) answers
      ∙ without_cached nonces
      ∙ sym (
          sigs_to_elusiv_txs-nonce_by_nonce (identified_sigs chain (keep_if (λ n. not n.1) nonces))
            answers)
