-- ===== src/Storage/Reader.antt =====
-- StorageAccountReader.ts, `getCommitmentsAtLocalIndices`: the reader answers requests as the tree manager
-- needs it.
use elusiv_sdk.Base.{
  ℕ, Bool, some, List, [], ◌∷◌, ◌≡◌, refl, sym, ap, ◌∙◌, Bool-cases, inl, inr, In, All,
}
use elusiv_sdk.Base.Eq.{beq, beq_iff}
use elusiv_sdk.Base.JsMap.{map_get, map_set, map_get-map_set}
use elusiv_sdk.Result.{Result, ok}
use elusiv_sdk.Index.{LocalIndex}
use elusiv_sdk.Index.RoundTrip.{IsNode}
use elusiv_sdk.Tree.{Poseidon, local_index_eq}
use elusiv_sdk.Tree.Dedup.{Reads}
use elusiv_sdk.Storage.{
  StorageAcc, commitment_at, commitments_at, get_root, get_commitments_at_local_indices,
  storage_reader,
}

module _ (equals_uint8_arr : List ℕ → List ℕ → Bool) (get_tree_chunk : List ℕ → Result (List ℕ))
    (storage_acc : StorageAcc) (content : LocalIndex → List ℕ) where
  read_step :
      (i : LocalIndex) (is : List LocalIndex) (res : List (LocalIndex × List ℕ))
      → commitment_at equals_uint8_arr get_tree_chunk storage_acc i ≡ ok (content i)
      → commitments_at equals_uint8_arr get_tree_chunk storage_acc (i ∷ is) res
        ≡ commitments_at equals_uint8_arr get_tree_chunk storage_acc is (map_set i (content i) res)
  unfolding commitments_at
  read_step i is res read = rw read refl

  known_after :
      (i j : LocalIndex) (res : List (LocalIndex × List ℕ))
      → map_get j res ≡ some (content j)
      → map_get j (map_set i (content i) res) ≡ some (content j)
  known_after i j res known = elim (Bool-cases (beq i j)) [
    | inl same ↦
        rw (map_get-map_set i j (content i) res, same)
          (ap (λ k. some (content k)) ((beq_iff i j).0 same))
    | inr other ↦ rw (map_get-map_set i j (content i) res, other) known
  ]

  new_after :
      (i : LocalIndex) (res : List (LocalIndex × List ℕ))
      → map_get i (map_set i (content i) res) ≡ some (content i)
  new_after i res = rw (map_get-map_set i i (content i) res, (beq_iff i i).1 refl) refl

  commitments_at_lem :
      (is : List LocalIndex) (res : List (LocalIndex × List ℕ))
      → ((i : LocalIndex)
          → IsNode i
          → commitment_at equals_uint8_arr get_tree_chunk storage_acc i ≡ ok (content i))
      → All IsNode is
      → (m : List (LocalIndex × List ℕ)) × (commitments_at equals_uint8_arr get_tree_chunk
            storage_acc is res
          ≡ ok m)
        × ((j : LocalIndex) → In j is → map_get j m ≡ some (content j))
        × ((j : LocalIndex) → map_get j res ≡ some (content j) → map_get j m ≡ some (content j))
  unfolding commitments_at
  commitments_at_lem [] res reads nodes = (res, refl, λ j i. absurd i.lower, λ j known. known)
  commitments_at_lem (i ∷ is) res reads (here, nodes) =
      let (m, read, own, kept) = commitments_at_lem is (map_set i (content i) res) reads nodes in
      (
        m,
        read_step i is res (reads i here) ∙ read,
        λ j there. elim there [
          | inl same ↦ kept j (
              ap (λ k. map_get k (map_set i (content i) res)) same
              ∙ new_after i res
              ∙ ap (λ k. some (content k)) (sym same))
          | inr later ↦ own j later
        ],
        λ j known. kept j (known_after i j res known),
      )

  -- If each node of the tree can be read, and the root, then a request for nodes is answered by a map with
  -- all of them.
  pub storage_reader-Reads :
      (poseidon : Poseidon) (root : List ℕ)
      → ((i : LocalIndex)
          → IsNode i
          → commitment_at equals_uint8_arr get_tree_chunk storage_acc i ≡ ok (content i))
      → get_root equals_uint8_arr get_tree_chunk storage_acc ≡ ok root
      → (asked : List LocalIndex) → All IsNode asked
      → Reads poseidon
          (storage_reader equals_uint8_arr get_tree_chunk storage_acc)
          content
          root
          asked
  unfolding storage_reader get_commitments_at_local_indices
  storage_reader-Reads poseidon root reads rooted asked nodes =
      let (m, read, own, kept) = commitments_at_lem asked [] reads nodes in
      (m, rw (read, rooted) refl, own)
