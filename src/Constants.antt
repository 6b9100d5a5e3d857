-- ===== src/Constants.antt =====
-- src/constants.ts: the numeric constants.
use elusiv_sdk.Base.{ℕ, ◌-◌}

abbrev pub merkle_tree_height : ℕ
merkle_tree_height = 20

abbrev pub storage_mt_values_per_account : ℕ
storage_mt_values_per_account = 83887

abbrev pub storage_mt_chunk_count : ℕ
storage_mt_chunk_count = 25

abbrev pub default_fetch_batch_size : ℕ
default_fetch_batch_size = 10

abbrev pub send_arity : ℕ
send_arity = 4

abbrev pub base_tx_per_hash : ℕ
base_tx_per_hash = 2

abbrev pub max_batching_rate : ℕ
max_batching_rate = 4

abbrev pub add_mixed_cost : ℕ
add_mixed_cost = 22_000

abbrev pub add_cost : ℕ
add_cost = 30_000

abbrev pub max_compute_unit_limit : ℕ
max_compute_unit_limit = 1_400_000

abbrev pub compute_unit_padding : ℕ
compute_unit_padding = 70_000

abbrev pub max_cus : ℕ
max_cus = max_compute_unit_limit - compute_unit_padding

abbrev pub max_uint32 : ℕ
max_uint32 = 4_294_967_295

abbrev pub max_uint20 : ℕ
max_uint20 = 1_048_575

abbrev pub max_uint64 : ℕ
max_uint64 = 18_446_744_073_709_551_615

-- `Number.MAX_SAFE_INTEGER`.
abbrev pub max_safe_integer : ℕ
max_safe_integer = 9_007_199_254_740_991
