-- ===== src/GeneralSet.antt =====
-- src/sdk/utils/GeneralSet.ts: a set of items that an id tells apart, kept in a `Map` by id.
-- The class's `getId` is the parameter `get_id`; `build_commitment_set` instances it with the hash.
pub mod Laws
pub mod Members
pub mod Operations
pub mod Tests
use elusiv_sdk.Base.{ℕ, Bool, List, [], ◌∷◌, length}
use elusiv_sdk.Base.Eq.{Eq}
use elusiv_sdk.Base.JsMap.{map_set, map_has, map_delete, map_values}

pub record GeneralSet {ℓ κ} (K : Type ℓ) (T : Type κ) : Type (ℓ ⊔ κ) where
  pub entries : List (K × T)

abbrev pub empty_set {ℓ κ} : {K : Type ℓ} {T : Type κ} → GeneralSet K T
empty_set = record { entries = [] }

module _ {ℓ κ} {K : Type ℓ} {T : Type κ} ⦃e : Eq K⦄ (get_id : T → K) where
  unfoldable pub add : T → GeneralSet K T → GeneralSet K T
  unfolding map_set
  add item s = record { entries = map_set (get_id item) item s.entries }

  unfoldable pub add_arr : List T → GeneralSet K T → GeneralSet K T
  unfolding add
  add_arr [] s = s
  add_arr (i ∷ items) s = add_arr items (add i s)

  -- The new set, and whether the item was there.
  unfoldable pub delete : T → GeneralSet K T → GeneralSet K T × Bool
  unfolding map_delete map_has
  delete item s =
      (record { entries = map_delete (get_id item) s.entries }, map_has (get_id item) s.entries)

-- `toArray` and `values`.
unfoldable pub to_array {ℓ κ} : {K : Type ℓ} {T : Type κ} → GeneralSet K T → List T
to_array s = map_values s.entries

unfoldable pub size {ℓ κ} : {K : Type ℓ} {T : Type κ} → GeneralSet K T → ℕ
size s = length s.entries
