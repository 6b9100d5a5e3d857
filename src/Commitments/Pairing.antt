-- ===== src/Commitments/Pairing.antt =====
-- CommitmentManager.ts: which start index each commitment is searched from.
use elusiv_sdk.Base.{ℕ, Option, some, List, [], ◌∷◌, ◌++◌, map, ◌≡◌, refl, ap, sym, ◌∙◌, arith, All}
use elusiv_sdk.Base.Eq.{nat_eq}
use elusiv_sdk.Result.{Result, ok, map_result, ◌>>=◌, >>=-eq-ok, ok-injective}
use elusiv_sdk.Transaction.{ElusivTransaction, TxType, topup, send}
use elusiv_sdk.GeneralSet.{GeneralSet, empty_set, add, add_arr, to_array}
use elusiv_sdk.GeneralSet.Laws.{HasFreshIds, to_array-add_arr}
use elusiv_sdk.Commitments.{
  Commitments, zip_same_length, normalize_from, normalize_start_indices, of_type,
  build_commitment_for_partial_store, get_commitment_for_partial_send,
  get_commitment_for_transaction, get_incomplete_commitments_for_txs, activation_requests,
}

abbrev pub merkle_starts : List ElusivTransaction → List ℕ
merkle_starts txs = map (λ (tx : ElusivTransaction). tx.merkle_start_index) txs

normalize_defined :
    (d : ℕ) (txs : List ElusivTransaction)
    → normalize_from d (map (λ (tx : ElusivTransaction). some tx.merkle_start_index) txs)
      ≡ merkle_starts txs
unfolding normalize_from
normalize_defined d [] = refl
normalize_defined d (tx ∷ txs) =
    ap (λ ns. tx.merkle_start_index ∷ ns) (normalize_defined tx.merkle_start_index txs)

abbrev pub HasType : TxType → List ElusivTransaction → Type 0
HasType ty txs = All (λ tx. tx.tx_type ≡ ty) txs

of_type-topups :
    (ts ss : List ElusivTransaction)
    → HasType topup ts
    → HasType send ss
    → (of_type topup (ts ++ ss) ≡ ts) × (of_type send (ts ++ ss) ≡ ss)
of_type-topups [] [] h k = (refl, refl)
of_type-topups [] (s ∷ ss) h (e, k) = ground (arith, of_type-topups [] ss tt k)
of_type-topups (t ∷ ts) ss (e, h) k = ground (arith, of_type-topups ts ss h k)

add_arr-append {ℓ} :
    {T : Type ℓ} (id_of : T → ℕ) (xs ys : List T) (s : GeneralSet ℕ T)
    → add_arr id_of (xs ++ ys) s ≡ add_arr id_of ys (add_arr id_of xs s)
unfolding add_arr
add_arr-append id_of [] ys s = refl
add_arr-append id_of (x ∷ xs) ys s = add_arr-append id_of xs ys (add id_of x s)

module _ {C : Type 0} (lib : Commitments C) where
  requests_eq :
      (set : GeneralSet ℕ C) (sis : List (Option ℕ))
      → activation_requests lib set sis
        ≡ zip_same_length (map lib.hash (to_array set)) (normalize_start_indices sis)
  unfolding activation_requests
  requests_eq set sis = refl

  incomplete_eq :
      (txs : List ElusivTransaction) (tops sends : List C)
      → map_result (build_commitment_for_partial_store lib) (of_type topup txs) ≡ ok tops
      → map_result (get_commitment_for_partial_send lib) (of_type send txs) ≡ ok sends
      → get_incomplete_commitments_for_txs lib txs
        ≡ ok (
          add_arr lib.hash_big_int sends (add_arr lib.hash_big_int tops empty_set),
          map (λ (tx : ElusivTransaction). some tx.merkle_start_index) txs,
        )
  unfolding get_incomplete_commitments_for_txs
  incomplete_eq txs tops sends e e' = rw (e, e')

  -- The requests in general: the commitments of the topups come first, then those of the sends, and
  -- the start indices stay in the order of the transactions.
  requests_general :
      (txs : List ElusivTransaction) (tops sends : List C)
      → map_result (build_commitment_for_partial_store lib) (of_type topup txs) ≡ ok tops
      → map_result (get_commitment_for_partial_send lib) (of_type send txs) ≡ ok sends
      → HasFreshIds lib.hash_big_int (tops ++ sends) []
      → (get_incomplete_commitments_for_txs lib txs >>= λ r. activation_requests lib r.0 r.1)
        ≡ zip_same_length (map lib.hash (tops ++ sends)) (merkle_starts txs)
  requests_general txs tops sends e e' fresh =
      let listed =
        ap to_array (sym (add_arr-append lib.hash_big_int tops sends empty_set))
        ∙ to_array-add_arr lib.hash_big_int (tops ++ sends) fresh in
      rw (incomplete_eq txs tops sends e e', requests_eq, listed) (starts txs)
    where
      starts :
          (us : List ElusivTransaction)
          → zip_same_length (map lib.hash (tops ++ sends)) (
              normalize_start_indices
                (map (λ (tx : ElusivTransaction). some tx.merkle_start_index) us))
            ≡ zip_same_length (map lib.hash (tops ++ sends)) (merkle_starts us)
      starts us = unfold normalize_start_indices in rw (normalize_defined 0 us)

  map_result-append_ok :
      (f : ElusivTransaction → Result C) (xs ys : List ElusivTransaction) (cs : List C)
      → map_result f (xs ++ ys) ≡ ok cs
      → (as' : List C) × (bs : List C) × (map_result f xs ≡ ok as')
        × (map_result f ys ≡ ok bs)
        × (as' ++ bs ≡ cs)
  unfolding map_result
  map_result-append_ok f [] ys cs e = ([], cs, refl, e, refl)
  map_result-append_ok f (x ∷ xs) ys cs e =
      let (c, made, e1) = >>=-eq-ok (f x) _ e in
      let (rest, more, e2) = >>=-eq-ok (map_result f (xs ++ ys)) _ e1 in
      let (as', bs, left, right, joined) = map_result-append_ok f xs ys rest more in
      (c ∷ as', bs, rw (made, left), right, rw joined (ok-injective e2))

  as_topups :
      (ts : List ElusivTransaction)
      → HasType topup ts
      → map_result (get_commitment_for_transaction lib) ts
        ≡ map_result (build_commitment_for_partial_store lib) ts
  unfolding map_result
  as_topups [] h = refl
  as_topups (t ∷ ts) (e, h) =
      let same : get_commitment_for_transaction lib t ≡ build_commitment_for_partial_store lib t =
        unfold get_commitment_for_transaction in ground arith in
      simp (same, as_topups ts h)

  as_sends :
      (ss : List ElusivTransaction)
      → HasType send ss
      → map_result (get_commitment_for_transaction lib) ss
        ≡ map_result (get_commitment_for_partial_send lib) ss
  unfolding map_result
  as_sends [] h = refl
  as_sends (s ∷ ss) (e, h) =
      let same : get_commitment_for_transaction lib s ≡ get_commitment_for_partial_send lib s =
        unfold get_commitment_for_transaction in ground arith in
      simp (same, as_sends ss h)

  -- If the topups come before the sends, their commitments can be rebuilt and no two have one id, then
  -- each commitment is searched for from the start index of its own transaction.
  pub topups_first_paired :
      (ts ss : List ElusivTransaction) (cs : List C)
      → HasType topup ts
      → HasType send ss
      → map_result (get_commitment_for_transaction lib) (ts ++ ss) ≡ ok cs
      → HasFreshIds lib.hash_big_int cs []
      → (get_incomplete_commitments_for_txs lib (ts ++ ss) >>= λ r. activation_requests lib r.0 r.1)
        ≡ zip_same_length (map lib.hash cs) (merkle_starts (ts ++ ss))
  topups_first_paired ts ss cs h k e fresh =
      let (tops, sends, e1, e2, joined) =
        map_result-append_ok (get_commitment_for_transaction lib) ts ss cs e in
      let (own_tops, own_sends) = of_type-topups ts ss h k in
      requests_general (ts ++ ss) tops sends (rw own_tops (sym (as_topups ts h) ∙ e1))
        (rw own_sends (sym (as_sends ss k) ∙ e2)) (rw joined fresh)
      ∙ rw joined

  -- A send before a topup, as `getActiveTxs` returns them when both have one nonce: their start indices
  -- are exchanged.
  pub send_before_topup_swapped :
      (s t : ElusivTransaction) (cs ct : C)
      → s.tx_type ≡ send
      → t.tx_type ≡ topup
      → get_commitment_for_transaction lib s ≡ ok cs
      → get_commitment_for_transaction lib t ≡ ok ct
      → HasFreshIds lib.hash_big_int (ct ∷ cs ∷ []) []
      → (get_incomplete_commitments_for_txs lib (s ∷ t ∷ []) >>= λ r.
          activation_requests lib r.0 r.1)
        ≡ ok ((lib.hash ct, s.merkle_start_index) ∷ (lib.hash cs, t.merkle_start_index) ∷ [])
  send_before_topup_swapped s t cs ct es et made_s made_t fresh =
      let only_t : of_type topup (s ∷ t ∷ []) ≡ t ∷ [] = ground arith in
      let only_s : of_type send (s ∷ t ∷ []) ≡ s ∷ [] = ground arith in
      requests_general (s ∷ t ∷ []) (ct ∷ []) (cs ∷ [])
        (rw only_t (sym (as_topups (t ∷ []) (et, tt)) ∙ one t ct made_t))
        (rw only_s (sym (as_sends (s ∷ []) (es, tt)) ∙ one s cs made_s)) fresh
      ∙ unfold zip_same_length in refl
    where
      one :
          (x : ElusivTransaction) (c : C)
          → get_commitment_for_transaction lib x ≡ ok c
          → map_result (get_commitment_for_transaction lib) (x ∷ []) ≡ ok (c ∷ [])
      one x c e = unfold map_result in rw e
