-- ===== src/Index/RoundTrip.antt =====
-- The conversions undo one another, and account indices stay in range.
use elusiv_sdk.Base.{ℕ, ◌+◌, ◌-◌, ◌/◌, ◌%◌, ◌^◌, ◌≤◌, ◌<◌, ◌≡◌, ap, ◌∙◌, arith, ◌⊎◌}
use elusiv_sdk.Result.{ok, err, index_out_of_bounds, ◌>>=◌}
use elusiv_sdk.Constants.{merkle_tree_height, storage_mt_values_per_account, storage_mt_chunk_count}
use elusiv_sdk.Index.{
  LocalIndex, AccIndex, get_node_count_mt, get_node_count_level, local_index_to_global_index,
  global_index_to_acc_index, get_level_from_index, global_index_to_local_index,
  acc_index_to_global_index, local_index_to_acc_index, leaf_index_to_local_index,
}
use elusiv_sdk.Index.Bounds.{get_level_from_index_bounds, level_unique}
use native.Mathlib.Nat.{pow-le-pow_right, one-le-pow, div-add-mod, mod-lt}
use native.Mathlib.Decide.{dec_le}

-- A node of the tree of height 20: its level exists, and its place lies in the level.
pub record IsNode (i : LocalIndex) : Type 0 where
  pub level_exists : i.level ≤ merkle_tree_height
  pub in_level : i.index < get_node_count_level i.level

pow_pos : (k : ℕ) → 1 ≤ 2 ^ k
pow_pos k = one-le-pow k 2 (omega arith)

-- Exactly the nodes have a global index.
local_index_to_global_index_ok :
    (i : LocalIndex) → IsNode i → local_index_to_global_index i ≡ ok (2 ^ i.level - 1 + i.index)
unfolding local_index_to_global_index
local_index_to_global_index_ok i v = ground arith

-- The global indices of the nodes are those below the node count of the tree.
node_below_count :
    (i : LocalIndex) → IsNode i → 2 ^ i.level - 1 + i.index < get_node_count_mt merkle_tree_height
node_below_count i v =
    let fits : 2 ^ i.level ≤ 2 ^ 20 = pow-le-pow_right (omega arith) v.level_exists in
    omega (arith, pow_pos i.level)

level_of_node :
    (i : LocalIndex) → IsNode i → get_level_from_index (2 ^ i.level - 1 + i.index) ≡ i.level
level_of_node i v =
    let (lo, hi) = get_level_from_index_bounds (2 ^ i.level - 1 + i.index) in
    level_unique (2 ^ i.level - 1 + i.index + 1) _ i.level lo hi (omega (arith, pow_pos i.level))
      (omega (arith, pow_pos i.level))

-- A node's global index leads back to the node.
pub global_index_to_local_index-local_index_to_global_index :
    (i : LocalIndex)
    → IsNode i
    → (local_index_to_global_index i >>= global_index_to_local_index) ≡ ok i
unfolding global_index_to_local_index
global_index_to_local_index-local_index_to_global_index i v =
    rw (local_index_to_global_index_ok i v)
      (ground (arith, node_below_count i v, level_of_node i v, pow_pos i.level))

-- A global index inside the tree names a node, and that node has this global index.
pub local_index_to_global_index-global_index_to_local_index :
    (g : ℕ)
    → g < get_node_count_mt merkle_tree_height
    → (i : LocalIndex) × (global_index_to_local_index g ≡ ok i)
      × IsNode i
      × (local_index_to_global_index i ≡ ok g)
unfolding global_index_to_local_index
local_index_to_global_index-global_index_to_local_index g h =
    let (lo, hi) = get_level_from_index_bounds g in
    let node : LocalIndex = record {
      level = get_level_from_index g;
      index = g - (2 ^ get_level_from_index g - 1);
    } in
    let valid : IsNode node = record {
      level_exists = exists_level lo;
      in_level = omega (arith, pow_pos (get_level_from_index g));
    } in
    (
      node,
      ground arith,
      valid,
      local_index_to_global_index_ok node valid
          ∙ ap ok (omega (arith, pow_pos (get_level_from_index g))),
    )
  where
    exists_level : 2 ^ get_level_from_index g ≤ g + 1 → get_level_from_index g ≤ 20
    exists_level lo = elim (dec_le (get_level_from_index g) 20) [
      | yes p ↦ p
      | no p ↦
          let grows : 2 ^ 21 ≤ 2 ^ get_level_from_index g =
            pow-le-pow_right (omega arith) {i = 21} (omega arith) in
          absurd (omega arith)
    ]

-- For every way to cut the node array into accounts, the account index of a global index lies in
-- the accounts and inside its account, and leads back to the global index.
pub acc_index_to_global_index-global_index_to_acc_index :
    (g values count : ℕ) (a : AccIndex)
    → 0 < values
    → global_index_to_acc_index g values count ≡ ok a
    → (a.index_of_account < count)
      × (a.index_in_account < values)
      × (acc_index_to_global_index a values count ≡ ok g)
unfolding global_index_to_acc_index acc_index_to_global_index
acc_index_to_global_index-global_index_to_acc_index g values count a h e =
    let same : a ≡ record { index_of_account = g / values; index_in_account = g % values } =
      ground arith in
    rw same (ground (arith, div-add-mod g values, mod-lt g h))

-- With the sizes of the deployed program every node has an account index: the check of the
-- account count after the check of the tree size never fails.
pub local_index_to_acc_index_total :
    (i : LocalIndex)
    → IsNode i
    → (a : AccIndex) × (local_index_to_acc_index i ≡ ok a)
      × (acc_index_to_global_index a storage_mt_values_per_account storage_mt_chunk_count
          ≡ local_index_to_global_index i)
unfolding local_index_to_acc_index global_index_to_acc_index acc_index_to_global_index
local_index_to_acc_index_total i v =
    let g : ℕ = 2 ^ i.level - 1 + i.index in
    let below : g < 2_097_151 = node_below_count i v in
    let a : AccIndex = record { index_of_account = g / 83887; index_in_account = g % 83887 } in
    (
      a,
      rw (local_index_to_global_index_ok i v) (ground arith),
      rw (local_index_to_global_index_ok i v) (ground arith),
    )

-- What is outside the tree is refused by every conversion.
pub conversions_reject :
    (i : LocalIndex) (g leaf : ℕ)
    → ((merkle_tree_height < i.level) ⊎ (2 ^ i.level ≤ i.index))
    → get_node_count_mt merkle_tree_height ≤ g
    → get_node_count_level merkle_tree_height ≤ leaf
    → (local_index_to_global_index i ≡ err index_out_of_bounds)
      × (local_index_to_acc_index i ≡ err index_out_of_bounds)
      × (global_index_to_local_index g ≡ err index_out_of_bounds)
      × (leaf_index_to_local_index leaf ≡ err index_out_of_bounds)
unfolding local_index_to_acc_index local_index_to_global_index global_index_to_local_index
    leaf_index_to_local_index
conversions_reject i g leaf out far wide = (ground arith, ground arith, ground arith, ground arith)
