-- ===== src/Index/Tests.antt =====
-- Concrete conversions of indices, and the theorems on them at concrete inputs.
use elusiv_sdk.Base.{◌≡◌, refl, arith}
use elusiv_sdk.Result.{ok, ◌>>=◌}
use elusiv_sdk.Index.{
  LocalIndex, local_index_to_global_index, global_index_to_acc_index, global_index_to_local_index,
  local_index_to_acc_index,
}
use elusiv_sdk.Index.RoundTrip.{IsNode, global_index_to_local_index-local_index_to_global_index}

abbrev first_leaf : LocalIndex
first_leaf = record { level = 20; index = 0 }

first_leaf-IsNode : IsNode first_leaf
first_leaf-IsNode = omega arith

first_leaf_global : local_index_to_global_index first_leaf ≡ ok 1_048_575
unfolding local_index_to_global_index
first_leaf_global = refl

first_leaf_back : global_index_to_local_index 1_048_575 ≡ ok first_leaf
unfolding global_index_to_local_index
first_leaf_back = refl

first_leaf_account :
    local_index_to_acc_index first_leaf
    ≡ ok (record { index_of_account = 12; index_in_account = 41931 })
unfolding local_index_to_acc_index local_index_to_global_index global_index_to_acc_index
first_leaf_account = refl

global_index_to_local_index-local_index_to_global_index_example :
    (local_index_to_global_index first_leaf >>= global_index_to_local_index) ≡ ok first_leaf
global_index_to_local_index-local_index_to_global_index_example =
    global_index_to_local_index-local_index_to_global_index first_leaf first_leaf-IsNode

split_seven :
    global_index_to_acc_index 7 3 4 ≡ ok (record { index_of_account = 2; index_in_account = 1 })
unfolding global_index_to_acc_index
split_seven = refl
