-- ===== src/Tree.antt =====
-- src/sdk/paramManagers/TreeManager.ts: the openings of commitments in the Merkle tree.
-- The Poseidon conversions and `equalsUint8Arr` are the fields of `Poseidon`, and the storage reader's
-- two searches those of `StorageReader`. A Map that the code keys by the object of a hash is keyed by
-- the number of that object. A text that the code makes
-- of a local index is one to one, so a map by this text is a map by the index.
pub mod Defaults
pub mod Dedup
pub mod Root
pub mod Tests
use elusiv_sdk.Base.{
  ℕ, zero, suc, ◌+◌, ◌-◌, ◌/◌, ◌%◌, Bool, true, false, ◌&&◌, Option, none, some, List, [], ◌∷◌,
  ◌++◌, map, concat, if◌then◌else◌, ◌==◌, ==_iff, ◌≡◌, ◌↔◌, arith, get_elem?,
}
use elusiv_sdk.Base.Eq.{Eq, nat_eq}
use elusiv_sdk.Base.JsMap.{map_get}
use elusiv_sdk.Result.{
  Result, ok, err, map_result, could_not_find_commitment, invalid_access, ◌>>=◌,
}
use elusiv_sdk.Constants.{merkle_tree_height}
use elusiv_sdk.Index.{LocalIndex, global_index_to_local_index, leaf_index_to_local_index}
use elusiv_sdk.Tree.Defaults.{default_values}
use elusiv_sdk.GeneralSet.{empty_set, add_arr, to_array}

abbrev pub local_index_beq : LocalIndex → LocalIndex → Bool
local_index_beq a b = a.level == b.level && a.index == b.index

pub local_index_beq_iff : (a b : LocalIndex) → (local_index_beq a b ≡ true) ↔ (a ≡ b)
local_index_beq_iff a b = ground (arith, ==_iff a.level b.level, ==_iff a.index b.index)

instance abbrev pub local_index_eq : Eq LocalIndex
local_index_eq = record { same = local_index_beq; same_iff = local_index_beq_iff }

-- The node beside each ancestor of a node, the node itself included and the root left out.
unfoldable pub get_opening_indices_inner : ℕ → ℕ → List LocalIndex
get_opening_indices_inner index zero = []
get_opening_indices_inner index (suc layer) =
    record { level = suc layer; index = if index % 2 == 0 then index + 1 else index - 1 }
    ∷ get_opening_indices_inner (index / 2) layer

unfoldable pub get_opening_indices : LocalIndex → List LocalIndex
unfolding get_opening_indices_inner
get_opening_indices i = get_opening_indices_inner i.index i.level

pub record Poseidon : Type 0 where
  pub hash_bytes_to_big_int_le : List ℕ → ℕ
  pub mont_to_repr : List ℕ → List ℕ
  pub equals_uint8_arr : List ℕ → List ℕ → Bool

abbrev pub zeros : ℕ → List ℕ
zeros zero = []
zeros (suc n) = 0 ∷ zeros n

abbrev from_map {ℓ} : {A : Type ℓ} → Option A → Result A
from_map none = err could_not_find_commitment
from_map (some a) = ok a

-- What `getOpenings` returns.
pub record Openings : Type 0 where
  pub openings : List (List ℕ)
  pub root : ℕ

pub record CommitmentInfo : Type 0 where
  pub index : ℕ
  pub opening : List ℕ
  pub root : ℕ

-- A hash as an object: `ref` tells apart two objects with the same bytes.
pub record MontScalar : Type 0 where
  pub ref : ℕ
  pub bytes : List ℕ

pub record StorageReader : Type 0 where
  pub find_commitment_indices_from_start_index :
      List (MontScalar × LocalIndex) → Result (List (ℕ × ℕ))
  pub get_commitments_at_local_indices :
      List LocalIndex → Result (List (LocalIndex × List ℕ) × List ℕ)

module _ (poseidon : Poseidon) where
  -- A level that is not in the table reads `undefined`, on which the conversion throws.
  unfoldable pub get_default : ℕ → Result (List ℕ)
  get_default level = elim (get_elem? default_values level) [
    | none ↦ err invalid_access
    | some bytes ↦ ok (poseidon.mont_to_repr bytes)
  ]

  unfoldable pub parse_tree_bytes_to_big_int : List ℕ → ℕ → Result ℕ
  unfolding get_default
  parse_tree_bytes_to_big_int bytes_montgomery level =
      if poseidon.equals_uint8_arr bytes_montgomery (zeros 32)
      then (do bytes ← get_default level; ok (poseidon.hash_bytes_to_big_int_le bytes))
      else ok (poseidon.hash_bytes_to_big_int_le (poseidon.mont_to_repr bytes_montgomery))

  -- One value of an opening, from the fetched nodes.
  unfoldable pub opening_value : List (LocalIndex × List ℕ) → LocalIndex → Result ℕ
  unfolding map_get parse_tree_bytes_to_big_int
  opening_value opening_bytes o_index = do
    val ← from_map (map_get o_index opening_bytes)
    parse_tree_bytes_to_big_int val o_index.level

  unfoldable pub get_openings : StorageReader → List LocalIndex → Result Openings
  unfolding get_opening_indices add_arr to_array map_result opening_value
  get_openings reader leaf_indices = do
    let opening_indices = map get_opening_indices leaf_indices
    let unique_indices =
        to_array (add_arr (λ (l : LocalIndex). l) (concat opening_indices) empty_set)
    (opening_bytes, root_bytes) ← reader.get_commitments_at_local_indices unique_indices
    openings ← map_result (map_result (opening_value opening_bytes)) opening_indices
    root ← parse_tree_bytes_to_big_int root_bytes 0
    ok (record { openings = openings; root = root })

-- The objects that `reprToMont` makes, numbered from `ref`.
unfoldable pub to_mont :
    (List ℕ → List ℕ) → ℕ → List (List ℕ × LocalIndex) → List (MontScalar × LocalIndex)
to_mont repr_to_mont ref [] = []
to_mont repr_to_mont ref ((hash, start) ∷ commitments) =
    (record { ref = ref; bytes = repr_to_mont hash }, start)
    ∷ to_mont repr_to_mont (ref + 1) commitments

unfoldable pub found_index : List (ℕ × ℕ) → MontScalar × LocalIndex → Result LocalIndex
unfolding map_get global_index_to_local_index
found_index global_indices (c, start) = do
  g_index ← from_map (map_get c.ref global_indices)
  global_index_to_local_index g_index

module _ (repr_to_mont : List ℕ → List ℕ) (reader : StorageReader) where
  unfoldable pub get_commitment_indices : List (List ℕ × LocalIndex) → Result (List LocalIndex)
  unfolding to_mont map_result found_index
  get_commitment_indices commitments = do
    let comms_mont = to_mont repr_to_mont 0 commitments
    global_indices ← reader.find_commitment_indices_from_start_index comms_mont
    map_result (found_index global_indices) comms_mont

  -- The loop of `getCommitmentsInfo`. Its lists have the length of the commitments, so the check of the
  -- lengths before it never throws.
  unfoldable pub infos : List LocalIndex → List (List ℕ) → ℕ → List CommitmentInfo
  infos (i ∷ is) (o ∷ os) root =
      record { index = i.index; opening = o; root = root } ∷ infos is os root
  infos _ _ root = []

  abbrev with_start : List ℕ × ℕ → Result (List ℕ × LocalIndex)
  with_start (hash, leaf) = do start ← leaf_index_to_local_index leaf; ok (hash, start)

  unfoldable pub get_commitments_info : Poseidon → List (List ℕ × ℕ) → Result (List CommitmentInfo)
  unfolding get_commitment_indices get_openings infos map_result leaf_index_to_local_index
  get_commitments_info poseidon commitments = do
    started ← map_result with_start commitments
    commitment_indices ← get_commitment_indices started
    ops ← get_openings poseidon reader commitment_indices
    ok (infos commitment_indices ops.openings ops.root)

  -- Any error of the search means that the commitment is not there.
  unfoldable pub has_commitment : List ℕ → ℕ → Result Bool
  unfolding get_commitment_indices leaf_index_to_local_index
  has_commitment commitment_hash leaf_start_pointer = do
    start ← leaf_index_to_local_index leaf_start_pointer
    ok (elim (get_commitment_indices ((commitment_hash, start) ∷ [])) [
      | ok indices ↦ true
      | err thrown ↦ false
    ])
