-- ===== src/Tree/Tests.antt =====
-- Concrete openings, and the theorems on them at concrete inputs.
use elusiv_sdk.Base.{
  ℕ, zero, suc, ◌+◌, ◌-◌, ◌*◌, Bool, true, false, some, List, [], ◌∷◌, map, ◌≡◌, refl, sym, ap, ◌∙◌,
  arith, Bool-cases, In, All, not, ◌&&◌, ◌||◌, inl, inr, if◌then◌else◌, ◌==◌,
}
use elusiv_sdk.Base.JsMap.{map_get}
use elusiv_sdk.Result.{ok, err, invalid_access, map_result, ◌>>=◌}
use elusiv_sdk.Constants.{merkle_tree_height}
use elusiv_sdk.Index.{LocalIndex}
use elusiv_sdk.Index.RoundTrip.{IsNode}
use elusiv_sdk.Tree.{
  Poseidon, StorageReader, local_index_eq, local_index_beq, local_index_beq_iff,
  get_opening_indices, get_openings, has_commitment, parse_tree_bytes_to_big_int,
}
use elusiv_sdk.Tree.Root.{root_from, IsMerkleTree, root_from-get_opening_indices}
use elusiv_sdk.Tree.Dedup.{IsDistinct, Reads, get_openings_lem}

abbrev node : ℕ → ℕ → LocalIndex
node level index = record { level = level; index = index }

opening_of_five : get_opening_indices (node 3 5) ≡ node 3 4 ∷ node 2 3 ∷ node 1 0 ∷ []
unfolding get_opening_indices
opening_of_five = refl

-- A tree of numbers over the squares, where a pair of neighbours makes a number that tells left from right.
abbrev mix : ℕ → ℕ → ℕ
mix a b = 2 * a + 3 * b + 1

unfoldable node_at : ℕ → ℕ → ℕ
node_at zero i = i * i
node_at (suc k) i = mix (node_at k (2 * i)) (node_at k (2 * i + 1))

abbrev number_tree : ℕ → ℕ → ℕ
number_tree l i = node_at (merkle_tree_height - l) i

node_at_step : (k i : ℕ) → node_at (suc k) i ≡ mix (node_at k (2 * i)) (node_at k (2 * i + 1))
unfolding node_at
node_at_step k i = refl

number_tree-IsMerkleTree : IsMerkleTree mix number_tree
number_tree-IsMerkleTree l i above within =
    let below : merkle_tree_height - l ≡ suc (merkle_tree_height - suc l) = omega (arith, above) in
    ap (λ k. node_at k i) below ∙ node_at_step (merkle_tree_height - suc l) i

root_from-get_opening_indices_example :
    root_from mix 20 5
      (number_tree 20 5)
      (map (λ (o : LocalIndex). number_tree o.level o.index) (get_opening_indices (node 20 5)))
    ≡ number_tree 0 0
root_from-get_opening_indices_example =
    root_from-get_opening_indices mix number_tree (node 20 5) number_tree-IsMerkleTree
      (record { level_exists = omega arith; in_level = omega arith })

abbrev bytes_same : List ℕ → List ℕ → Bool
bytes_same [] [] = true
bytes_same (a ∷ as') (b ∷ bs) = if a == b then bytes_same as' bs else false
bytes_same _ _ = false

abbrev sum : List ℕ → ℕ
sum [] = 0
sum (x ∷ xs) = x + sum xs

abbrev poseidon : Poseidon
poseidon = record {
  hash_bytes_to_big_int_le = sum;
  mont_to_repr = λ b. b;
  equals_uint8_arr = bytes_same;
}

abbrev content : LocalIndex → List ℕ
content i = i.index ∷ 1 ∷ []

abbrev read_all : List LocalIndex → List (LocalIndex × List ℕ)
read_all [] = []
read_all (i ∷ is) = (i, content i) ∷ read_all is

abbrev asks : LocalIndex → List LocalIndex → Bool
asks i [] = false
asks i (j ∷ js) = local_index_beq j i || asks i js

abbrev asks_once : List LocalIndex → Bool
asks_once [] = true
asks_once (i ∷ is) = not (asks i is) && asks_once is

-- A reader that refuses a request with a node that stands twice.
abbrev reader : StorageReader
reader = record {
  find_commitment_indices_from_start_index = λ cs. ok [];
  get_commitments_at_local_indices =
      λ is. if asks_once is then ok (read_all is, 9 ∷ []) else err invalid_access;
}

map_get-read_all :
    (i : LocalIndex) (asked : List LocalIndex)
    → In i asked
    → map_get i (read_all asked) ≡ some (content i)
unfolding map_get
map_get-read_all i [] h = absurd h.lower
map_get-read_all i (j ∷ js) (inl e) = rw ((local_index_beq_iff j i).1 (sym e), sym e) refl
map_get-read_all i (j ∷ js) (inr h) = elim (Bool-cases (local_index_beq j i)) [
  | inl same ↦ rw (same, (local_index_beq_iff j i).0 same) refl
  | inr differs ↦ rw differs (map_get-read_all i js h)
]

asks-In : (i : LocalIndex) (js : List LocalIndex) → asks i js ≡ true → In i js
asks-In i [] h = cc
asks-In i (j ∷ js) h = elim (Bool-cases (local_index_beq j i)) [
  | inl same ↦ inl (sym ((local_index_beq_iff j i).0 same))
  | inr other ↦ inr (asks-In i js (rw other at h))
]

distinct-asks_once : (js : List LocalIndex) → IsDistinct js → asks_once js ≡ true
distinct-asks_once [] d = refl
distinct-asks_once (j ∷ js) (fresh, d) = elim (Bool-cases (asks j js)) [
  | inl again ↦ absurd (fresh (asks-In j js again))
  | inr new ↦ rw (new, distinct-asks_once js d) refl
]

reader-Reads :
    (asked : List LocalIndex)
    → All IsNode asked
    → IsDistinct asked
    → Reads poseidon reader content (9 ∷ []) asked
reader-Reads asked nodes distinct =
    (read_all asked, rw (distinct-asks_once asked distinct) refl, λ i h. map_get-read_all i asked h)

two_openings :
    get_openings poseidon reader (node 2 0 ∷ node 2 1 ∷ [])
    ≡ ok (record { openings = (2 ∷ 2 ∷ []) ∷ (1 ∷ 2 ∷ []) ∷ []; root = 9 })
unfolding get_openings
two_openings = refl

not_there : has_commitment (λ b. b) reader (1 ∷ []) 5 ≡ ok false
unfolding has_commitment
not_there = refl

get_openings_lem_example : get_openings poseidon reader (node 2 0 ∷ node 2 1 ∷ []) ≡ (
    map_result
      (map_result (λ (i : LocalIndex). parse_tree_bytes_to_big_int poseidon (content i) i.level))
      (map get_opening_indices (node 2 0 ∷ node 2 1 ∷ []))
    >>= λ openings. parse_tree_bytes_to_big_int poseidon (9 ∷ []) 0 >>= λ r.
        ok (record { openings = openings; root = r }))
get_openings_lem_example =
    get_openings_lem poseidon reader content (9 ∷ []) (node 2 0 ∷ node 2 1 ∷ []) reader-Reads (
      record { level_exists = omega arith; in_level = omega arith },
      (record { level_exists = omega arith; in_level = omega arith }, tt),
    )
