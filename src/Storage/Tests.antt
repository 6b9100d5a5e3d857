-- ===== src/Storage/Tests.antt =====
-- Concrete chunks, and the theorems on their search at concrete inputs.
use elusiv_sdk.Base.{
  ℕ, Bool, true, false, some, List, [], ◌∷◌, ◌++◌, ◌≡◌, refl, if◌then◌else◌, ◌==◌,
}
use elusiv_sdk.Result.{ok, err, out_of_fuel, could_not_fetch_data}
use elusiv_sdk.Constants.{storage_mt_values_per_account}
use elusiv_sdk.Tree.{zeros, MontScalar}
use elusiv_sdk.Index.{AccIndex}
use elusiv_sdk.Storage.{find_commitment_indices_across_chunks}
use elusiv_sdk.Storage.Chunk.{sort, find_commitment_indices_in_chunk}
use elusiv_sdk.Storage.Search.{
  AreFound, find_commitment_indices_in_chunk_total, find_commitment_indices_in_chunk-AreFound,
}

abbrev bytes_same : List ℕ → List ℕ → Bool
bytes_same [] [] = true
bytes_same (a ∷ as') (b ∷ bs) = if a == b then bytes_same as' bs else false
bytes_same _ _ = false

-- The commitment with `n` as its first byte.
abbrev comm : ℕ → List ℕ
comm n = n ∷ zeros 31

abbrev three_comms : List ℕ
three_comms = comm 5 ++ (comm 6 ++ (comm 7 ++ zeros 32))

-- The start indices are sorted by their texts, so the first one is not the lowest.
sorted_by_text : sort (9 ∷ 10 ∷ []) ≡ 10 ∷ 9 ∷ []
unfolding sort
sorted_by_text = refl

found_two :
    find_commitment_indices_in_chunk bytes_same three_comms (comm 7 ∷ comm 5 ∷ []) (0 ∷ 0 ∷ [])
    ≡ ok (some 2 ∷ some 0 ∷ [])
unfolding find_commitment_indices_in_chunk
found_two = refl

end_reached :
    find_commitment_indices_in_chunk bytes_same three_comms (comm 8 ∷ []) (1 ∷ [])
    ≡ err could_not_fetch_data
unfolding find_commitment_indices_in_chunk
end_reached = refl

find_commitment_indices_in_chunk_total_example : ¬ (
    find_commitment_indices_in_chunk bytes_same three_comms (comm 8 ∷ []) (1 ∷ [])
    ≡ err out_of_fuel)
find_commitment_indices_in_chunk_total_example =
    find_commitment_indices_in_chunk_total bytes_same three_comms (comm 8 ∷ []) (1 ∷ [])

find_commitment_indices_in_chunk-AreFound_example :
    AreFound bytes_same three_comms storage_mt_values_per_account
      (comm 7 ∷ comm 5 ∷ [])
      (some 2 ∷ some 0 ∷ [])
find_commitment_indices_in_chunk-AreFound_example =
    find_commitment_indices_in_chunk-AreFound bytes_same three_comms (comm 7 ∷ comm 5 ∷ [])
      (0 ∷ 0 ∷ []) (some 2 ∷ some 0 ∷ []) found_two

-- The keys of two chunks in use, each with one byte of its own.
abbrev two_keys : List ℕ
two_keys = (1 ∷ 7 ∷ zeros 31) ++ (1 ∷ 8 ∷ zeros 31)

abbrev wanted : List (MontScalar × AccIndex)
wanted =
    (record { ref = 0; bytes = comm 6 }, record { index_of_account = 1; index_in_account = 0 }) ∷ []

-- The second chunk is the one from place 83,887 on.
found_across :
    find_commitment_indices_across_chunks bytes_same (λ key. ok three_comms) two_keys wanted
    ≡ ok ((0, 83_888) ∷ [])
unfolding find_commitment_indices_across_chunks
found_across = refl
