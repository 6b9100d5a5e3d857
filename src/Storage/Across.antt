-- ===== src/Storage/Across.antt =====
-- StorageAccountReader.ts, `findCommitmentIndicesAcrossChunks`: the search over all chunks ends.
use elusiv_sdk.Base.{
  ℕ, zero, suc, ◌+◌, ◌<◌, Bool, false, not, ◌||◌, Option, none, some, List, [], ◌∷◌, ◌≡◌, arith,
  length, map, keep_if, leb, ◌==◌, Bool-cases, inl, inr,
}
use elusiv_sdk.Base.JsMap.{map_has}
use elusiv_sdk.Base.Eq.{nat_eq}
use elusiv_sdk.Result.{Result, ok, err, out_of_fuel, could_not_fetch_data, ◌>>=◌}
use elusiv_sdk.Constants.{storage_mt_chunk_count}
use elusiv_sdk.Index.{AccIndex, acc_index_to_global_index}
use elusiv_sdk.Tree.{MontScalar}
use elusiv_sdk.Storage.{
  StorageAcc, used_key, get_chunk_key_at_index, get_chunk_from_index, record_found, start_in,
  across_loop, min_acc, find_commitment_indices_across_chunks,
}
use elusiv_sdk.Storage.Chunk.{find_commitment_indices_in_chunk, read_fixed_length_value_from_buffer}
use elusiv_sdk.Storage.Search.{find_commitment_indices_in_chunk_total}

-- The call ends by itself.
abbrev pub Ends {ℓ} : {A : Type ℓ} → Result A → Type ℓ
Ends r = ¬ (r ≡ err out_of_fuel)

ok-Ends {ℓ} : {A : Type ℓ} (a : A) → Ends (ok a)
ok-Ends a e = cc

-- A chain ends if its parts do.
>>=-Ends {ℓ κ} :
    {A : Type ℓ} {B : Type κ} (m : Result A) (f : A → Result B)
    → Ends m
    → ((a : A) → Ends (f a))
    → Ends (m >>= f)
>>=-Ends (ok a) f h k = k a
>>=-Ends (err x) f h k = λ e. h (cc)

record_found-Ends :
    (acc : ℕ) (left : List (MontScalar × AccIndex)) (found : List (Option ℕ)) (res : List (ℕ × ℕ))
    → Ends (record_found acc left found res)
unfolding record_found acc_index_to_global_index
record_found-Ends acc [] found res = ok-Ends res
record_found-Ends acc (c ∷ left) [] res = ok-Ends res
record_found-Ends acc ((c, place) ∷ left) (none ∷ found) res = record_found-Ends acc left found res
record_found-Ends acc ((c, place) ∷ left) (some i ∷ found) res =
    elim (Bool-cases (leb storage_mt_chunk_count acc)) [
      | inl outside ↦ rw outside (λ e. cc)
      | inr inside ↦ rw inside (record_found-Ends acc left found _)
    ]

used_key-Ends : (key : Option (List ℕ)) → Ends (used_key key)
used_key-Ends none = λ e. cc
used_key-Ends (some []) = λ e. cc
used_key-Ends (some (used ∷ key)) = elim (Bool-cases (used == 0)) [
  | inl free ↦ rw free (λ e. cc)
  | inr taken ↦ rw taken (λ e. cc)
]

key-Ends : (keys : List ℕ) (index : ℕ) → Ends (get_chunk_key_at_index keys index)
unfolding get_chunk_key_at_index
key-Ends keys index = elim (Bool-cases (leb storage_mt_chunk_count index)) [
  | inl outside ↦ rw outside (λ e. cc)
  | inr inside ↦ rw inside (used_key-Ends (read_fixed_length_value_from_buffer keys index 33))
]

module _ (equals_uint8_arr : List ℕ → List ℕ → Bool)
    (get_tree_chunk : List ℕ → Result (List ℕ)) where
  chunk-Ends :
      (acc : ℕ) (storage_acc : StorageAcc)
      → ((key : List ℕ) → Ends (get_tree_chunk key))
      → Ends (get_chunk_from_index equals_uint8_arr get_tree_chunk acc storage_acc)
  unfolding get_chunk_from_index
  chunk-Ends acc storage_acc fetches =
      >>=-Ends (get_chunk_key_at_index storage_acc acc) _ (key-Ends storage_acc acc) at_key
    where
      at_key :
          (key : Option (List ℕ))
          → Ends (elim key [ none ↦ err could_not_fetch_data | some bytes ↦ get_tree_chunk bytes ])
      at_key none = λ e. cc
      at_key (some bytes) = fetches bytes

  across_loop-Ends :
      (fuel : ℕ) (comms : List (MontScalar × AccIndex)) (storage_acc : StorageAcc) (acc : ℕ)
      (res : List (ℕ × ℕ))
      → ((key : List ℕ) → Ends (get_tree_chunk key))
      → 0 < fuel
      → storage_mt_chunk_count < fuel + acc
      → Ends (across_loop equals_uint8_arr get_tree_chunk fuel comms storage_acc acc res)
  unfolding across_loop
  across_loop-Ends zero comms storage_acc acc res fetches h enough = absurd (omega arith)
  across_loop-Ends (suc fuel) comms storage_acc acc res fetches h enough =
      let left : List (MontScalar × AccIndex) =
        keep_if (λ (c : MontScalar × AccIndex). not (map_has c.0.ref res)) comms in
      let hashes : List (List ℕ) = map (λ (c : MontScalar × AccIndex). c.0.bytes) left in
      let starts : List ℕ =
        map (λ (c : MontScalar × AccIndex). start_in equals_uint8_arr get_tree_chunk acc c.1)
          left in
      elim (Bool-cases (length res == length comms || leb storage_mt_chunk_count acc)) [
        | inl stop ↦ rw (stop, across_loop) (ok-Ends res)
        | inr on ↦
            rw (on, across_loop)
              (>>=-Ends (get_chunk_from_index equals_uint8_arr get_tree_chunk acc storage_acc) _
                (chunk-Ends acc storage_acc fetches)
                (λ chunk.
                  >>=-Ends (find_commitment_indices_in_chunk equals_uint8_arr chunk hashes starts) _
                    (find_commitment_indices_in_chunk_total equals_uint8_arr chunk hashes starts)
                    (λ found.
                      >>=-Ends (record_found acc left found res) _
                        (record_found-Ends acc left found res)
                        (λ res'.
                          across_loop-Ends fuel comms storage_acc (acc + 1) res' fetches (low on)
                            (omega arith)))))
      ]
    where
      low : length res == length comms || leb storage_mt_chunk_count acc ≡ false → 0 < fuel
      low e = ground arith

  -- The search across the chunks ends by itself if fetching a chunk does.
  pub find_commitment_indices_across_chunks-Ends :
      (storage_acc : StorageAcc) (comms : List (MontScalar × AccIndex))
      → ((key : List ℕ) → Ends (get_tree_chunk key))
      → Ends
          (find_commitment_indices_across_chunks equals_uint8_arr get_tree_chunk storage_acc comms)
  unfolding find_commitment_indices_across_chunks
  find_commitment_indices_across_chunks-Ends storage_acc [] fetches = ok-Ends []
  find_commitment_indices_across_chunks-Ends storage_acc (c ∷ cs) fetches =
      across_loop-Ends (storage_mt_chunk_count + 1) (c ∷ cs) storage_acc
        (min_acc (c ∷ cs) storage_mt_chunk_count) [] fetches (omega arith) (omega arith)
