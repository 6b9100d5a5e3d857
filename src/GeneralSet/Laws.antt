-- ===== src/GeneralSet/Laws.antt =====
-- GeneralSet.ts: what a set holds after `add`, `addArr` and `delete`.
use elusiv_sdk.Base.{
  ◌+◌, false, Option, none, some, List, [], ◌∷◌, ◌++◌, ◌≡◌, refl, sym, ap, ◌∙◌, if◌then◌else◌, map,
  Bool-cases, inl, inr,
}
use elusiv_sdk.Base.Eq.{Eq, beq}
use elusiv_sdk.Base.JsMap.{
  map_get, map_set, map_has, map_delete, map_values, HasDistinctKeys, map_get-map_set,
  map_set-HasDistinctKeys, map_delete-HasDistinctKeys, map_get-map_delete, map_set_fresh,
  length-map_set,
}
use mathlib.Core.List.{append-nil, append_assoc}
use elusiv_sdk.GeneralSet.{GeneralSet, empty_set, add, add_arr, delete, to_array, size}

module _ {ℓ κ} {K : Type ℓ} {T : Type κ} ⦃e : Eq K⦄ (get_id : T → K) where
  -- Every entry stands under the id of its item, and no id stands twice.
  abbrev pub HasOwnIds : List (K × T) → Type ℓ
  HasOwnIds [] = Unit
  HasOwnIds ((k, t) ∷ m) = (k ≡ get_id t) × HasOwnIds m

  abbrev pub IsSetOf : GeneralSet K T → Type ℓ
  IsSetOf s = HasOwnIds s.entries × HasDistinctKeys s.entries

  map_set-HasOwnIds : (t : T) (m : List (K × T)) → HasOwnIds m → HasOwnIds (map_set (get_id t) t m)
  unfolding map_set
  map_set-HasOwnIds t [] h = (refl, tt)
  map_set-HasOwnIds t ((k, u) ∷ m) (here, h) = elim (Bool-cases (beq k (get_id t))) [
    | inl hit ↦ rw hit (refl, h)
    | inr miss ↦ rw miss (here, map_set-HasOwnIds t m h)
  ]

  map_delete-HasOwnIds : (k : K) (m : List (K × T)) → HasOwnIds m → HasOwnIds (map_delete k m)
  unfolding map_delete
  map_delete-HasOwnIds k [] h = tt
  map_delete-HasOwnIds k ((j, u) ∷ m) (here, h) = elim (Bool-cases (beq j k)) [
    | inl hit ↦ rw hit h
    | inr miss ↦ rw miss (here, map_delete-HasOwnIds k m h)
  ]

  pub add-IsSetOf : (t : T) (s : GeneralSet K T) → IsSetOf s → IsSetOf (add get_id t s)
  unfolding add
  add-IsSetOf t s (own, distinct) =
      (map_set-HasOwnIds t s.entries own, map_set-HasDistinctKeys (get_id t) t s.entries distinct)

  pub add_arr-IsSetOf :
      (ts : List T) (s : GeneralSet K T) → IsSetOf s → IsSetOf (add_arr get_id ts s)
  unfolding add_arr
  add_arr-IsSetOf [] s h = h
  add_arr-IsSetOf (t ∷ ts) s h = add_arr-IsSetOf ts (add get_id t s) (add-IsSetOf t s h)

  pub delete-IsSetOf : (t : T) (s : GeneralSet K T) → IsSetOf s → IsSetOf (delete get_id t s).0
  unfolding delete
  delete-IsSetOf t s (own, distinct) = (
    map_delete-HasOwnIds (get_id t) s.entries own,
    map_delete-HasDistinctKeys (get_id t) s.entries distinct,
  )

  -- The last item of a list with the id `k`, or `d`.
  abbrev pub last_with_id : K → List T → Option T → Option T
  last_with_id k [] d = d
  last_with_id k (t ∷ ts) d = last_with_id k ts (if beq (get_id t) k then some t else d)

  -- After `addArr` an id stands for the last added item with that id, and for the item it stood for
  -- before if none of the added ones has it.
  pub map_get-add_arr :
      (k : K) (ts : List T) (s : GeneralSet K T)
      → map_get k (add_arr get_id ts s).entries ≡ last_with_id k ts (map_get k s.entries)
  unfolding add_arr add
  map_get-add_arr k [] s = refl
  map_get-add_arr k (t ∷ ts) s =
      map_get-add_arr k ts (add get_id t s)
      ∙ ap (last_with_id k ts) (map_get-map_set (get_id t) k t s.entries)

  -- `delete` takes the item's id out and no other, and tells whether it was there.
  pub map_get-delete :
      (t : T) (k : K) (s : GeneralSet K T)
      → IsSetOf s
      → (map_get k (delete get_id t s).0.entries
          ≡ (if beq (get_id t) k then none else map_get k s.entries))
        × ((delete get_id t s).1 ≡ map_has (get_id t) s.entries)
  unfolding delete
  map_get-delete t k s (own, distinct) = (map_get-map_delete (get_id t) k s.entries distinct, refl)

  -- No id of the list stands in the entries, or earlier in the list.
  abbrev pub HasFreshIds : List T → List (K × T) → Type 0
  HasFreshIds [] m = Unit
  HasFreshIds (t ∷ ts) m = (map_has (get_id t) m ≡ false) × HasFreshIds ts (m ++ (get_id t, t) ∷ [])

  add_arr_entries :
      (ts : List T) (s : GeneralSet K T)
      → HasFreshIds ts s.entries
      → (add_arr get_id ts s).entries ≡ s.entries ++ map (λ t. (get_id t, t)) ts
  unfolding add_arr add
  add_arr_entries [] s h = sym (append-nil s.entries)
  add_arr_entries (t ∷ ts) s (fresh, h) =
      let appended : map_set (get_id t) t s.entries ≡ s.entries ++ (get_id t, t) ∷ [] =
        map_set_fresh (get_id t) t s.entries fresh in
      add_arr_entries ts (add get_id t s) (rw appended h) ∙ rw appended (append_assoc s.entries _ _)

  values_of_own : (ts : List T) → map_values (map (λ t. (get_id t, t)) ts) ≡ ts
  values_of_own [] = refl
  values_of_own (t ∷ ts) = ap (λ us. t ∷ us) (values_of_own ts)

  -- Items with pairwise different ids come back as they were added.
  pub to_array-add_arr :
      (ts : List T) → HasFreshIds ts [] → to_array (add_arr get_id ts empty_set) ≡ ts
  unfolding to_array
  to_array-add_arr ts h = ap map_values (add_arr_entries ts empty_set h) ∙ values_of_own ts

  -- `add` grows the set by one if the id is new, and not at all if it is known.
  pub size-add :
      (t : T) (s : GeneralSet K T)
      → size (add get_id t s) ≡ (if map_has (get_id t) s.entries then size s else size s + 1)
  unfolding size add
  size-add t s = length-map_set (get_id t) t s.entries
