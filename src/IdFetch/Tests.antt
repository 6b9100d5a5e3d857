-- ===== src/IdFetch/Tests.antt =====
-- A concrete chain with two signatures at nonce 1 and one at nonce 2, and the theorems on it.
use elusiv_sdk.Base.{
  ℕ, ◌*◌, Bool, true, false, Option, none, some, List, [], ◌∷◌, map, ◌≡◌, refl, if◌then◌else◌, ◌==◌,
}
use elusiv_sdk.Result.{ok}
use elusiv_sdk.IdFetch.{
  ConfirmedSignatureInfo, Chain, sigs_to_elusiv_txs, get_txs_from_nonces, identified_sigs,
}
use elusiv_sdk.IdFetch.Nonces.{nonce_by_nonce, sigs_to_elusiv_txs-nonce_by_nonce}

abbrev good : ℕ → ConfirmedSignatureInfo
good n = record { signature = n; failed = false }

abbrev bad : ConfirmedSignatureInfo
bad = record { signature = 99; failed = true }

abbrev confirmed_of : ℕ → List ConfirmedSignatureInfo
confirmed_of n =
    if n == 1 then good 10 ∷ bad ∷ good 11 ∷ [] else if n == 2 then good 20 ∷ [] else []

-- The response to signature 20 is missing.
abbrev response : ℕ → Option ℕ
response n = if n == 20 then none else some (n * 100)

abbrev sample_chain : Chain ℕ ℕ (ℕ × ℕ)
sample_chain = record {
  get_identifier_key = λ n. n;
  get_confirmed_signatures = confirmed_of;
  get_parsed_transactions = λ ns. map response ns;
  tx_response_to_elusiv_txs = λ r. ok (map (λ p. (r.nonce, p.0)) r.tx_response);
}

abbrev some_nonces : List (ℕ × Bool)
some_nonces = (0, false) ∷ (1, false) ∷ (1, true) ∷ (2, false) ∷ []

fetched : get_txs_from_nonces sample_chain some_nonces ≡ ok ((1, 1000) ∷ (1, 1100) ∷ [])
unfolding get_txs_from_nonces
fetched = refl

sigs_to_elusiv_txs-nonce_by_nonce_example :
    sigs_to_elusiv_txs sample_chain (identified_sigs sample_chain some_nonces)
    ≡ nonce_by_nonce sample_chain response (identified_sigs sample_chain some_nonces)
sigs_to_elusiv_txs-nonce_by_nonce_example =
    sigs_to_elusiv_txs-nonce_by_nonce sample_chain response
      (identified_sigs sample_chain some_nonces) (λ ns. refl)
