-- ===== src/GeneralSet/Tests.antt =====
-- Concrete sets of numbers with the last digit as id, and the theorems on them.
use elusiv_sdk.Base.{ℕ, [], ◌∷◌, ◌≡◌, refl, if◌then◌else◌, ltb, ◌-◌}
use elusiv_sdk.Base.Eq.{nat_eq}
use elusiv_sdk.Base.JsMap.{map_has}
use elusiv_sdk.GeneralSet.{GeneralSet, add, add_arr, delete, to_array}
use elusiv_sdk.GeneralSet.Laws.{HasFreshIds, IsSetOf}
use elusiv_sdk.GeneralSet.Operations.{IsAdded, AreAdded, IsDeleted, set_operations-Holds}

abbrev digit : ℕ → ℕ
digit n = if ltb n 10 then n else n - 10

abbrev two_items : GeneralSet ℕ ℕ
two_items = record { entries = (1, 11) ∷ (2, 2) ∷ [] }

two_items-IsSetOf : IsSetOf digit two_items
unfolding map_has
two_items-IsSetOf = ((refl, (refl, tt)), (refl, (refl, tt)))

add_arr_replaces : to_array (add_arr digit (12 ∷ 3 ∷ []) two_items) ≡ 11 ∷ 12 ∷ 3 ∷ []
unfolding add_arr to_array
add_arr_replaces = refl

set_operations-Holds_example :
    (IsSetOf digit (add digit 1 two_items) × IsAdded digit 1 two_items (add digit 1 two_items))
    × (IsSetOf digit (add_arr digit (12 ∷ 3 ∷ []) two_items)
        × AreAdded digit (12 ∷ 3 ∷ []) two_items (add_arr digit (12 ∷ 3 ∷ []) two_items))
    × (IsSetOf digit (delete digit 1 two_items).0
        × IsDeleted digit 1 two_items (delete digit 1 two_items))
set_operations-Holds_example =
    set_operations-Holds digit 1 (12 ∷ 3 ∷ []) two_items two_items-IsSetOf

fresh_items : HasFreshIds digit (12 ∷ 3 ∷ []) []
unfolding map_has
fresh_items = (refl, (refl, tt))
