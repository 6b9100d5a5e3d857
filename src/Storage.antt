-- ===== src/Storage.antt =====
-- src/sdk/accountReaders/StorageAccountReader.ts: reading nodes and searching commitments in the chunks
-- of the on-chain tree. The tree chunk reader is a parameter that gives a chunk's bytes for its key, and
-- a PublicKey is its bytes. Promises are awaited in the order of the code.
pub mod Across
pub mod AllChunks
pub mod Answers
pub mod Exhaustive
pub mod Chunk
pub mod Reader
pub mod Search
pub mod Tests
use elusiv_sdk.Base.{
  ℕ, zero, suc, ◌+◌, ◌*◌, ◌-◌, min, Bool, true, false, not, ◌||◌, Option, none, some, List, [], ◌∷◌,
  ◌++◌, map, length, keep_if, if◌then◌else◌, ltb, leb, ◌==◌, get_elem?, drop,
}
use elusiv_sdk.Base.Eq.{nat_eq}
use elusiv_sdk.Base.JsMap.{map_get, map_set, map_has, map_keys, map_values}
use elusiv_sdk.Result.{
  Result, ok, err, map_result, out_of_fuel, could_not_fetch_data, invalid_read, invalid_access,
  ◌>>=◌,
}
use elusiv_sdk.Constants.{storage_mt_values_per_account, storage_mt_chunk_count}
use elusiv_sdk.Index.{AccIndex, LocalIndex, acc_index_to_global_index, local_index_to_acc_index}
use elusiv_sdk.Tree.{MontScalar, StorageReader, local_index_eq}
use elusiv_sdk.Storage.Chunk.{
  read_fixed_length_value_from_buffer, read_commitment_at_acc_index,
  find_commitment_indices_in_chunk,
}

-- `StorageAccBorsh`: the merged keys of the chunks.
abbrev pub StorageAcc : Type 0
StorageAcc = List ℕ

-- The key without its first byte, which tells whether the chunk is in use.
abbrev pub used_key : Option (List ℕ) → Result (Option (List ℕ))
used_key none = ok none
used_key (some []) = ok (some [])
used_key (some (used ∷ key)) = if used == 0 then err invalid_read else ok (some key)

-- 33 bytes for each chunk.
unfoldable pub get_chunk_key_at_index : List ℕ → ℕ → Result (Option (List ℕ))
unfolding read_fixed_length_value_from_buffer
get_chunk_key_at_index merged_chunk_keys index =
    if leb storage_mt_chunk_count index
    then err invalid_read
    else used_key (read_fixed_length_value_from_buffer merged_chunk_keys index 33)

-- `mergeMaps` of src/sdk/utils/utils.ts.
unfoldable pub set_all : List (ℕ × ℕ) → List (ℕ × ℕ) → List (ℕ × ℕ)
unfolding map_set
set_all [] res = res
set_all ((k, v) ∷ entries) res = set_all entries (map_set k v res)

unfoldable pub merge_maps : List (List (ℕ × ℕ)) → List (ℕ × ℕ) → List (ℕ × ℕ)
unfolding set_all
merge_maps [] res = res
merge_maps (m ∷ ms) res = merge_maps ms (set_all m res)

abbrev or_empty {ℓ} : {A : Type ℓ} → Option (List A) → List A
or_empty none = []
or_empty (some xs) = xs

-- The commitments by the account that their start index is in.
unfoldable pub group_acc_indices :
    List (MontScalar × AccIndex)
    → List (ℕ × List (MontScalar × AccIndex))
    → List (ℕ × List (MontScalar × AccIndex))
unfolding map_set map_get
group_acc_indices [] res = res
group_acc_indices ((comm, place) ∷ comms) res = group_acc_indices comms (
    map_set place.index_of_account
      (or_empty (map_get place.index_of_account res) ++ (comm, place) ∷ []) res)

-- `foundIndices.forEach`: the found places go into the map as global indices.
unfoldable pub record_found :
    ℕ → List (MontScalar × AccIndex) → List (Option ℕ) → List (ℕ × ℕ) → Result (List (ℕ × ℕ))
unfolding map_set acc_index_to_global_index
record_found acc_index ((comm, place) ∷ left) (some i ∷ found) res = do
  g ←
      acc_index_to_global_index (record { index_of_account = acc_index; index_in_account = i })
        storage_mt_values_per_account storage_mt_chunk_count
  record_found acc_index left found (map_set comm.ref g res)
record_found acc_index ((comm, place) ∷ left) (none ∷ found) res =
    record_found acc_index left found res
record_found acc_index _ _ res = ok res

abbrev pub min_acc : List (MontScalar × AccIndex) → ℕ → ℕ
min_acc [] acc = acc
min_acc ((comm, place) ∷ comms) acc = min_acc comms (min acc place.index_of_account)

module _ (equals_uint8_arr : List ℕ → List ℕ → Bool)
    (get_tree_chunk : List ℕ → Result (List ℕ)) where
  unfoldable pub get_chunk_from_index : ℕ → StorageAcc → Result (List ℕ)
  unfolding get_chunk_key_at_index
  get_chunk_from_index acc_index storage_acc = do
    key ← get_chunk_key_at_index storage_acc acc_index
    elim key [ none ↦ err could_not_fetch_data | some bytes ↦ get_tree_chunk bytes ]

  abbrev pub start_in : ℕ → AccIndex → ℕ
  start_in acc_index place =
      if place.index_of_account == acc_index then place.index_in_account else 0

  -- The `for` loop of `findCommitmentIndicesAcrossChunks`; it looks into at most all chunks.
  unfoldable pub across_loop :
      ℕ → List (MontScalar × AccIndex) → StorageAcc → ℕ → List (ℕ × ℕ) → Result (List (ℕ × ℕ))
  unfolding get_chunk_from_index find_commitment_indices_in_chunk record_found map_has
  across_loop zero comms storage_acc acc_index res = err out_of_fuel
  across_loop (suc fuel) comms storage_acc acc_index res =
      elim (length res == length comms || leb storage_mt_chunk_count acc_index) [
        | true ↦ ok res
        | false ↦ do
          chunk ← get_chunk_from_index acc_index storage_acc
          let left = keep_if (λ (c : MontScalar × AccIndex). not (map_has c.0.ref res)) comms
          found ←
              find_commitment_indices_in_chunk equals_uint8_arr chunk
                (map (λ (c : MontScalar × AccIndex). c.0.bytes) left)
                (map (λ (c : MontScalar × AccIndex). start_in acc_index c.1) left)
          res' ← record_found acc_index left found res
          across_loop fuel comms storage_acc (acc_index + 1) res'
      ]

  unfoldable pub find_commitment_indices_across_chunks :
      StorageAcc → List (MontScalar × AccIndex) → Result (List (ℕ × ℕ))
  unfolding across_loop
  find_commitment_indices_across_chunks storage_acc [] = ok []
  find_commitment_indices_across_chunks storage_acc (c ∷ cs) =
      across_loop (storage_mt_chunk_count + 1) (c ∷ cs) storage_acc
        (min_acc (c ∷ cs) storage_mt_chunk_count) []

  abbrev with_place : MontScalar × LocalIndex → Result (MontScalar × AccIndex)
  with_place (comm, start) = do place ← local_index_to_acc_index start; ok (comm, place)

  unfoldable pub find_commitment_indices_from_start_index :
      StorageAcc → List (MontScalar × LocalIndex) → Result (List (ℕ × ℕ))
  unfolding group_acc_indices find_commitment_indices_across_chunks merge_maps map_result
      local_index_to_acc_index
  find_commitment_indices_from_start_index storage_data comms = do
    placed ← map_result with_place comms
    maps ←
        map_result (find_commitment_indices_across_chunks storage_data)
          (map_values (group_acc_indices placed []))
    ok (merge_maps maps [])

  abbrev read_or_throw : Option (List ℕ) → Result (List ℕ)
  read_or_throw none = err invalid_access
  read_or_throw (some bytes) = ok bytes

  unfoldable pub get_root : StorageAcc → Result (List ℕ)
  unfolding get_chunk_from_index read_commitment_at_acc_index
  get_root storage_acc = do
    chunk ← get_chunk_from_index 0 storage_acc
    read_or_throw (read_commitment_at_acc_index chunk 0)

  -- One node of `getCommitmentsAtLocalIndices`. A chunk is fetched once for all its nodes, which does not
  -- show in the result.
  unfoldable pub commitment_at : StorageAcc → LocalIndex → Result (List ℕ)
  unfolding local_index_to_acc_index get_chunk_from_index read_commitment_at_acc_index
  commitment_at storage_data i = do
    place ← local_index_to_acc_index i
    chunk ← get_chunk_from_index place.index_of_account storage_data
    read_or_throw (read_commitment_at_acc_index chunk place.index_in_account)

  unfoldable pub commitments_at :
      StorageAcc
      → List LocalIndex
      → List (LocalIndex × List ℕ)
      → Result (List (LocalIndex × List ℕ))
  unfolding commitment_at map_set
  commitments_at storage_data [] res = ok res
  commitments_at storage_data (i ∷ is) res = do
    comm ← commitment_at storage_data i
    commitments_at storage_data is (map_set i comm res)

  -- The root is asked for with the nodes; where both fail the code throws the error of the nodes, and so
  -- does the model.
  unfoldable pub get_commitments_at_local_indices :
      StorageAcc → List LocalIndex → Result (List (LocalIndex × List ℕ) × List ℕ)
  unfolding commitments_at get_root
  get_commitments_at_local_indices storage_data local_indices = do
    res ← commitments_at storage_data local_indices []
    root ← get_root storage_data
    ok (res, root)

  -- The reader as the tree manager uses it, with the storage account that it fetched.
  unfoldable pub storage_reader : StorageAcc → StorageReader
  unfolding find_commitment_indices_from_start_index get_commitments_at_local_indices
  storage_reader storage_data = record {
    find_commitment_indices_from_start_index =
        find_commitment_indices_from_start_index storage_data;
    get_commitments_at_local_indices = get_commitments_at_local_indices storage_data;
  }
