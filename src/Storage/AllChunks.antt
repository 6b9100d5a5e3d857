-- ===== src/Storage/AllChunks.antt =====
-- StorageAccountReader.ts, `findCommitmentIndicesAcrossChunks`: what the search over all chunks ends with.
use elusiv_sdk.Base.{
  ℕ, ◌≤◌, ◌<◌, Bool, true, not, Option, List, ◌≡◌, ◌≢◌, length, keep_if, ◌⊎◌, In, All,
}
use elusiv_sdk.Base.JsMap.{map_has, HasDistinctKeys}
use elusiv_sdk.Base.Eq.{nat_eq}
use elusiv_sdk.Result.{Result, ok, err, out_of_fuel}
use elusiv_sdk.Constants.{storage_mt_chunk_count}
use elusiv_sdk.Index.{AccIndex}
use elusiv_sdk.Tree.{MontScalar}
use elusiv_sdk.Storage.{StorageAcc, get_chunk_from_index}
use elusiv_sdk.Storage.Chunk.{find_commitment_indices_in_chunk}
use elusiv_sdk.Storage.Answers.{IsAnswer}
use elusiv_sdk.Storage.Exhaustive.{HasNoResult}

module _ (equals_uint8_arr : List ℕ → List ℕ → Bool) (get_tree_chunk : List ℕ → Result (List ℕ))
    (storage_acc : StorageAcc) where
  -- The chunk `acc` was searched for the commitment, which was not found there.
  pub record IsUnfound (c : MontScalar × AccIndex) (acc : ℕ) : Type 0 where
    pub chunk : List ℕ
    pub hashes : List (List ℕ)
    pub starts : List ℕ
    pub found : List (Option ℕ)
    pub fetched : get_chunk_from_index equals_uint8_arr get_tree_chunk acc storage_acc ≡ ok chunk
    pub searched : find_commitment_indices_in_chunk equals_uint8_arr chunk hashes starts ≡ ok found
    pub no_result : HasNoResult c acc hashes starts found

  -- Not found in the chunk of its start, nor in any after it.
  abbrev pub IsMissing : MontScalar × AccIndex → Type 0
  IsMissing c =
      (acc : ℕ) → c.1.index_of_account ≤ acc → acc < storage_mt_chunk_count → IsUnfound c acc

  module _ (comms : List (MontScalar × AccIndex)) where
    -- The entries are right, no object has two, and unless there are as many as commitments, one that
    -- has no entry is missing.
    pub record IsResult (res : List (ℕ × ℕ)) : Type 0 where
      pub answers : All (IsAnswer equals_uint8_arr get_tree_chunk storage_acc comms) res
      pub distinct : HasDistinctKeys res
      pub complete :
          (length res ≡ length comms)
          ⊎ ((c : MontScalar × AccIndex) → In c comms → (map_has c.0.ref res ≡ true) ⊎ IsMissing c)

    -- What the search may end with: such a map, or an error of its own.
    abbrev pub IsOutcome : Result (List (ℕ × ℕ)) → Type 0
    IsOutcome (ok res) = IsResult res
    IsOutcome (err e) = e ≢ out_of_fuel

    -- Each commitment has an entry, or was looked for in vain from its start up to the chunk `acc`.
    abbrev Covered : ℕ → List (ℕ × ℕ) → Type 0
    Covered acc res =
        (c : MontScalar × AccIndex)
        → In c comms
        → (map_has c.0.ref res ≡ true)
          ⊎ ((a : ℕ) → c.1.index_of_account ≤ a → a < acc → IsUnfound c a)

    abbrev left_of : List (ℕ × ℕ) → List (MontScalar × AccIndex)
    left_of res = keep_if (λ (c : MontScalar × AccIndex). not (map_has c.0.ref res)) comms
