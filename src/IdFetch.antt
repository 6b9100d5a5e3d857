-- ===== src/IdFetch.antt =====
-- src/sdk/txManagers/IdentifierTxFetcher.ts: fetching the transactions of nonces by the signatures of
-- their identifier keys. The signatures of all nonces go out in one request, and the responses are
-- mapped back to their nonces by ranges. The key derivation, the two requests to the chain and the
-- conversion of responses (ResponseConverter.ts) are parameters. A signature has the `err` field of the
-- chain as a Boolean, and requests are answered in the order of the code.
pub mod Nonces
pub mod Slices
pub mod Tests
use elusiv_sdk.Base.{
  ℕ, zero, suc, ◌+◌, Bool, true, false, not, Option, none, some, List, [], ◌∷◌, ◌++◌, map, length,
  concat, keep_if, if◌then◌else◌, ◌==◌,
}
use elusiv_sdk.Base.Int.{ℤ, pos}
use elusiv_sdk.Base.Slice.{slice}
use elusiv_sdk.Result.{Result, ok, err, map_result, ◌>>=◌}
use elusiv_sdk.Commitments.{zip_same_length}

pub record Range : Type 0 where
  pub start : ℕ
  pub end : ℕ

pub record ConfirmedSignatureInfo : Type 0 where
  pub signature : ℕ
  pub failed : Bool

-- `id_key` is not set for a nonce that is cached.
pub record IdentifiedSigs (K : Type 0) : Type 0 where
  pub sigs : List ConfirmedSignatureInfo
  pub nonce : ℕ
  pub id_key : Option K

pub record NoncedTxResponse (K R : Type 0) : Type 0 where
  pub tx_response : List (R × ConfirmedSignatureInfo)
  pub nonce : ℕ
  pub id_pub_key : Option K

-- What the fetcher uses of the keys, the chain and the converter.
pub record Chain (K R T : Type 0) : Type 0 where
  pub get_identifier_key : ℕ → K
  pub get_confirmed_signatures : K → List ConfirmedSignatureInfo
  pub get_parsed_transactions : List ℕ → List (Option R)
  pub tx_response_to_elusiv_txs : NoncedTxResponse K R → Result (List T)

-- The loop that fills `txRanges`, from the place where the previous nonce left off.
unfoldable pub tx_ranges : {K : Type 0} → ℕ → List (IdentifiedSigs K) → List Range
tx_ranges previous_end [] = []
tx_ranges previous_end (s ∷ ss) =
    record { start = previous_end; end = previous_end + length s.sigs }
    ∷ tx_ranges (previous_end + length s.sigs) ss

-- `previousEnd` after that loop.
unfoldable pub last_end : {K : Type 0} → ℕ → List (IdentifiedSigs K) → ℕ
last_end previous_end [] = previous_end
last_end previous_end (s ∷ ss) = last_end (previous_end + length s.sigs) ss

unfoldable pub prepared_sigs : {K : Type 0} → List (IdentifiedSigs K) → List ℕ
prepared_sigs sigs =
    map (λ (cs : ConfirmedSignatureInfo). cs.signature)
      (concat (map (λ (sn : IdentifiedSigs _). sn.sigs) sigs))

-- The responses if `every(isTruthy)` holds of them.
unfoldable pub every_defined {ℓ} : {A : Type ℓ} → List (Option A) → Option (List A)
every_defined [] = some []
every_defined (none ∷ xs) = none
every_defined (some x ∷ xs) = elim (every_defined xs) [ none ↦ none | some ys ↦ some (x ∷ ys) ]

abbrev pub is_empty {ℓ} : {A : Type ℓ} → List A → Bool
is_empty [] = true
is_empty (x ∷ xs) = false

module _ {K R : Type 0} where
  abbrev pub pair_up : IdentifiedSigs K → Option (List R) → Result (Option (NoncedTxResponse K R))
  pair_up s none = ok none
  pair_up s (some relevant) = do
    resp ← zip_same_length relevant s.sigs
    ok (some (record { tx_response = resp; nonce = s.nonce; id_pub_key = s.id_key }))

  -- The loop over `txRanges`. It has as many ranges as there are nonces.
  unfoldable pub total_tx_responses :
      List (Option R)
      → List Range
      → List (IdentifiedSigs K)
      → Result (List (Option (NoncedTxResponse K R)))
  unfolding slice every_defined zip_same_length
  total_tx_responses real_txs (range ∷ ranges) (s ∷ ss) = do
    here ← pair_up s (every_defined (slice real_txs (pos range.start) (some (pos range.end))))
    rest ← total_tx_responses real_txs ranges ss
    ok (here ∷ rest)
  total_tx_responses real_txs _ _ = ok []

  -- The responses that `txs.filter(…)` keeps.
  unfoldable pub present : List (Option (NoncedTxResponse K R)) → List (NoncedTxResponse K R)
  present [] = []
  present (none ∷ txs) = present txs
  present (some tx ∷ txs) =
      let rest = present txs in if is_empty tx.tx_response then rest else tx ∷ rest

module _ {K R T : Type 0} (chain : Chain K R T) where
  unfoldable pub get_tx_sigs_for_id_key_from_blockchain : K → List ConfirmedSignatureInfo
  get_tx_sigs_for_id_key_from_blockchain id_key =
      keep_if (λ sig. not sig.failed) (chain.get_confirmed_signatures id_key)

  unfoldable pub tx_responses_to_elusiv_txs : List (Option (NoncedTxResponse K R)) → Result (List T)
  unfolding present map_result
  tx_responses_to_elusiv_txs txs = do
    res ← map_result chain.tx_response_to_elusiv_txs (present txs)
    ok (concat res)

  unfoldable pub sigs_to_elusiv_txs : List (IdentifiedSigs K) → Result (List T)
  unfolding tx_ranges last_end prepared_sigs total_tx_responses tx_responses_to_elusiv_txs
  sigs_to_elusiv_txs [] = ok []
  sigs_to_elusiv_txs (s ∷ ss) =
      let fetched = (do
        responses ←
            total_tx_responses (chain.get_parsed_transactions (prepared_sigs (s ∷ ss)))
              (tx_ranges 0 (s ∷ ss)) (s ∷ ss)
        tx_responses_to_elusiv_txs responses) in
      if last_end 0 (s ∷ ss) == 0 then ok [] else fetched

  -- A nonce is given with whether it is cached; a cached one has no signatures.
  unfoldable pub identified_sigs : List (ℕ × Bool) → List (IdentifiedSigs K)
  unfolding get_tx_sigs_for_id_key_from_blockchain
  identified_sigs [] = []
  identified_sigs ((nonce, true) ∷ nonces) =
      record { sigs = []; nonce = nonce; id_key = none } ∷ identified_sigs nonces
  identified_sigs ((nonce, false) ∷ nonces) =
      record {
        sigs = get_tx_sigs_for_id_key_from_blockchain (chain.get_identifier_key nonce);
        nonce = nonce;
        id_key = some (chain.get_identifier_key nonce);
      }
      ∷ identified_sigs nonces

  unfoldable pub get_txs_from_nonces : List (ℕ × Bool) → Result (List T)
  unfolding identified_sigs sigs_to_elusiv_txs
  get_txs_from_nonces nonces = sigs_to_elusiv_txs (identified_sigs nonces)
