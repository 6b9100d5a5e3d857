-- ===== src/Index.antt =====
-- src/sdk/utils/IndexConverter.ts: the three ways to name a node of the on-chain Merkle tree.
-- `Math.floor(Math.log2(n))` is exact for the n < 2 ^ 21 that reach it, and is `log2_floor`.
pub mod Bounds
pub mod RoundTrip
pub mod Tests
use mathlib.Core.Logic.{dite}
use mathlib.Core.WellFounded.{Acc}
use native.Mathlib.Decide.{dec_lt}
use elusiv_sdk.Base.{ℕ, suc, ◌+◌, ◌-◌, ◌*◌, ◌/◌, ◌%◌, ◌^◌, ◌<◌, arith, ltb, leb, if◌then◌else◌}
use elusiv_sdk.Base.Order.{lt_wf}
use elusiv_sdk.Result.{Result, ok, err, index_out_of_bounds, ◌>>=◌}
use elusiv_sdk.Constants.{merkle_tree_height, storage_mt_values_per_account, storage_mt_chunk_count}

pub record LocalIndex : Type 0 where
  pub level : ℕ
  pub index : ℕ

pub record AccIndex : Type 0 where
  pub index_of_account : ℕ
  pub index_in_account : ℕ

abbrev pub get_node_count_mt : ℕ → ℕ
get_node_count_mt height = 2 ^ (height + 1) - 1

abbrev pub get_node_count_level : ℕ → ℕ
get_node_count_level level = 2 ^ level

unfoldable pub local_index_to_global_index : LocalIndex → Result ℕ
local_index_to_global_index i =
    if ltb merkle_tree_height i.level
    then err index_out_of_bounds
    else (if leb (get_node_count_level i.level) i.index
        then err index_out_of_bounds
        else ok (2 ^ i.level - 1 + i.index))

unfoldable pub global_index_to_acc_index : ℕ → ℕ → ℕ → Result AccIndex
global_index_to_acc_index index values_per_account account_count =
    if leb (get_node_count_mt merkle_tree_height) index
    then err index_out_of_bounds
    else (if leb account_count (index / values_per_account)
        then err index_out_of_bounds
        else ok (record {
          index_of_account = index / values_per_account;
          index_in_account = index % values_per_account;
        }))

log2_acc : (n : ℕ) → Acc ◌<◌ n → ℕ
log2_acc n (Acc.intro _ smaller) =
    dite (dec_lt 1 n) (λ h. suc (log2_acc (n / 2) (smaller (n / 2) (omega arith)))) (λ _. 0)

unfoldable pub log2_floor : ℕ → ℕ
unfolding log2_acc lt_wf dec_lt
log2_floor n = log2_acc n (lt_wf.apply n)

unfoldable pub get_level_from_index : ℕ → ℕ
unfolding log2_floor
get_level_from_index global_index = log2_floor (global_index + 1)

unfoldable pub global_index_to_local_index : ℕ → Result LocalIndex
unfolding get_level_from_index
global_index_to_local_index global_index =
    if leb (get_node_count_mt merkle_tree_height) global_index
    then err index_out_of_bounds
    else let level = get_level_from_index global_index in
      ok (record { level = level; index = global_index - (2 ^ level - 1) })

unfoldable pub acc_index_to_global_index : AccIndex → ℕ → ℕ → Result ℕ
acc_index_to_global_index acc_index values_per_account account_count =
    if leb account_count acc_index.index_of_account
    then err index_out_of_bounds
    else ok (acc_index.index_of_account * values_per_account + acc_index.index_in_account)

unfoldable pub local_index_to_acc_index : LocalIndex → Result AccIndex
local_index_to_acc_index index = do
  global ← local_index_to_global_index index
  global_index_to_acc_index global storage_mt_values_per_account storage_mt_chunk_count

unfoldable pub leaf_index_to_local_index : ℕ → Result LocalIndex
leaf_index_to_local_index leaf_index =
    if leb (get_node_count_level merkle_tree_height) leaf_index
    then err index_out_of_bounds
    else ok (record { level = merkle_tree_height; index = leaf_index })
