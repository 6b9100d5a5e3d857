-- ===== src/Storage/Chunk.antt =====
-- StorageAccountReader.ts, `findCommitmentIndicesInChunk`: searching one chunk for several commitments.
-- `startIndices.sort()` compares numbers by their decimal text, and so does the model.
use elusiv_sdk.Base.{
  ℕ, zero, suc, ◌+◌, ◌*◌, ◌-◌, ◌/◌, ◌%◌, Bool, true, false, ◌&&◌, Option, none, some, List, [], ◌∷◌,
  length, if◌then◌else◌, ltb, ◌==◌, get_elem?,
}
use elusiv_sdk.Base.Int.{pos}
use elusiv_sdk.Base.Slice.{slice}
use elusiv_sdk.Result.{Result, ok, err, out_of_fuel, could_not_fetch_data, invalid_access}
use elusiv_sdk.Constants.{storage_mt_values_per_account}
use elusiv_sdk.Cache.{is_none}
use elusiv_sdk.Tree.{zeros}

-- src/sdk/utils/utils.ts
unfoldable pub read_fixed_length_value_from_buffer : List ℕ → ℕ → ℕ → Option (List ℕ)
unfolding slice
read_fixed_length_value_from_buffer buffer index len =
    if ltb (length buffer) ((index + 1) * len)
    then none
    else some (slice buffer (pos (index * len)) (some (pos ((index + 1) * len))))

-- A commitment is 32 bytes long.
unfoldable pub read_commitment_at_acc_index : List ℕ → ℕ → Option (List ℕ)
unfolding read_fixed_length_value_from_buffer
read_commitment_at_acc_index bytes acc_index =
    read_fixed_length_value_from_buffer bytes acc_index 32

-- The decimal digits of a number, which has at most as many as the fuel.
unfoldable pub digits : ℕ → ℕ → List ℕ → List ℕ
digits zero n later = later
digits (suc fuel) n later = elim (ltb n 10) [
  | true ↦ n ∷ later
  | false ↦ digits fuel (n / 10) (n % 10 ∷ later)
]

-- Texts as JavaScript orders them.
unfoldable pub text_leb : List ℕ → List ℕ → Bool
text_leb [] bs = true
text_leb (a ∷ as') [] = false
text_leb (a ∷ as') (b ∷ bs) =
    let rest = text_leb as' bs in if ltb a b then true else if a == b then rest else false

-- A number of the code has at most 16 digits.
abbrev number_leb : ℕ → ℕ → Bool
number_leb a b = text_leb (digits 16 a []) (digits 16 b [])

unfoldable pub insert_number : ℕ → List ℕ → List ℕ
unfolding digits text_leb
insert_number n [] = n ∷ []
insert_number n (m ∷ ms) =
    let rest = insert_number n ms in if number_leb n m then n ∷ m ∷ ms else m ∷ rest

-- `Array.prototype.sort` without a comparison.
unfoldable pub sort : List ℕ → List ℕ
unfolding insert_number
sort [] = []
sort (n ∷ ns) = insert_number n (sort ns)

unfoldable pub is_defined_sparse_arr {ℓ} : {A : Type ℓ} → List (Option A) → Bool
is_defined_sparse_arr [] = true
is_defined_sparse_arr (none ∷ arr) = false
is_defined_sparse_arr (some a ∷ arr) = is_defined_sparse_arr arr

-- `sortedStartIndices[startIndexIndex] - 1`, if it lies further on than `i`; past the end it is NaN,
-- which does not.
abbrev pub skip_to : ℕ → Option ℕ → ℕ
skip_to i none = i
skip_to i (some start) = if ltb i (start - 1) then start - 1 else i

-- One round of the loop: what is read, whether it is the end of the tree, the results after it, and the
-- rest of the loop.
unfoldable pub round_of :
    Option (List ℕ)
    → (List ℕ → Bool)
    → (List ℕ → List (Option ℕ))
    → (List ℕ → Result (List (Option ℕ)))
    → Result (List (Option ℕ))
unfolding is_defined_sparse_arr
round_of none ends marks again = err invalid_access
round_of (some f) ends marks again = elim (ends f) [
  | true ↦ err could_not_fetch_data
  | false ↦ elim (is_defined_sparse_arr (marks f)) [ true ↦ ok (marks f) | false ↦ again f ]
]

abbrev pub no_results : List (List ℕ) → List (Option ℕ)
no_results [] = []
no_results (h ∷ hs) = none ∷ no_results hs

module _ (equals_uint8_arr : List ℕ → List ℕ → Bool) where
  -- `commHashes.forEach`: the results with `i` for every commitment that is met for the first time, and
  -- whether there is one.
  unfoldable pub mark_found : ℕ → List ℕ → List (List ℕ) → List (Option ℕ) → List (Option ℕ) × Bool
  mark_found i fetched (val ∷ vals) (r ∷ res) =
      let (res', found) = mark_found i fetched vals res in
      if is_none r && equals_uint8_arr val fetched then (some i ∷ res', true) else (r ∷ res', found)
  mark_found i fetched _ res = (res, false)

  -- The `for` loop over the places of a chunk with `size` of them; `k` is `startIndexIndex`.
  unfoldable pub chunk_loop :
      ℕ → ℕ → List ℕ → List (List ℕ) → List ℕ → ℕ → ℕ → List (Option ℕ) → Result (List (Option ℕ))
  unfolding read_commitment_at_acc_index mark_found round_of
  chunk_loop zero size chunk comm_hashes sorted i k res = err out_of_fuel
  chunk_loop (suc fuel) size chunk comm_hashes sorted i k res = elim (ltb i size) [
    | false ↦ ok res
    | true ↦
        round_of (read_commitment_at_acc_index chunk i)
          (λ fetched. equals_uint8_arr fetched (zeros 32))
          (λ fetched. (mark_found i fetched comm_hashes res).0)
          (λ fetched.
            let (res', found) = mark_found i fetched comm_hashes res in
            let k' = if found then k + 1 else k in
            let i' = if found then skip_to i (get_elem? sorted k') else i in
            chunk_loop fuel size chunk comm_hashes sorted (i' + 1) k' res')
  ]

  -- The loop from the first of the sorted start indices; without one its test is false at once.
  unfoldable pub search_from : Option ℕ → List ℕ → List ℕ → List (List ℕ) → Result (List (Option ℕ))
  unfolding chunk_loop
  search_from none sorted chunk comm_hashes = ok (no_results comm_hashes)
  search_from (some first) sorted chunk comm_hashes =
      chunk_loop (storage_mt_values_per_account + 1) storage_mt_values_per_account chunk comm_hashes
        sorted first 0 (no_results comm_hashes)

  unfoldable pub find_commitment_indices_in_chunk :
      List ℕ → List (List ℕ) → List ℕ → Result (List (Option ℕ))
  unfolding sort search_from
  find_commitment_indices_in_chunk chunk comm_hashes start_indices =
      let sorted_start_indices = sort start_indices in
      search_from (get_elem? sorted_start_indices 0) sorted_start_indices chunk comm_hashes
