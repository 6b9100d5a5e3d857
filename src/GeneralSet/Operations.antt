-- ===== src/GeneralSet/Operations.antt =====
-- GeneralSet.ts: which items `toArray` gives after `add`, `addArr` and `delete`.
use mathlib.Core.Logic.{Lift}
use elusiv_sdk.Base.{
  some-injective, none-not_some, Bool, true, none, some, List, [], ◌∷◌, ◌≡◌, ◌≢◌, refl, sym, ap,
  ◌∙◌, if◌then◌else◌, Bool-cases, inl, inr, ◌⊎◌, ◌↔◌, In, All,
}
use elusiv_sdk.Base.Eq.{Eq, beq, beq_iff}
use elusiv_sdk.Base.JsMap.{
  map_get, map_has, map_values, map_get-map_set, map_get_absent, map_get_present,
  map_get-map_delete,
}
use elusiv_sdk.GeneralSet.{GeneralSet, add, add_arr, delete, to_array}
use elusiv_sdk.GeneralSet.Laws.{IsSetOf, add-IsSetOf, add_arr-IsSetOf, delete-IsSetOf}
use elusiv_sdk.GeneralSet.Members.{differs, missed, map_get-own, map_get-In, In-to_array}

module _ {ℓ κ} {K : Type ℓ} {T : Type κ} ⦃e : Eq K⦄ (get_id : T → K) where
  -- `add` puts the item in the place of any other with its id.
  abbrev pub IsAdded : T → GeneralSet K T → GeneralSet K T → Type (ℓ ⊔ κ)
  IsAdded t s s' =
      (u : T) → In u (to_array s') ↔ ((u ≡ t) ⊎ (In u (to_array s) × (get_id t ≢ get_id u)))

  -- `u` is the last item of the list with its id.
  abbrev pub IsLast : T → List T → Type (ℓ ⊔ κ)
  IsLast u [] = Lift {0, ℓ ⊔ κ} ⊥
  IsLast u (t ∷ ts) = ((u ≡ t) × All (λ (w : T). get_id w ≢ get_id u) ts) ⊎ IsLast u ts

  abbrev pub AreAdded : List T → GeneralSet K T → GeneralSet K T → Type (ℓ ⊔ κ)
  AreAdded ts s s' =
      (u : T)
      → In u (to_array s')
        ↔ (IsLast u ts ⊎ (In u (to_array s) × All (λ (w : T). get_id w ≢ get_id u) ts))

  -- `delete` leaves the items with another id, and tells whether there was one with this id.
  abbrev pub IsDeleted : T → GeneralSet K T → GeneralSet K T × Bool → Type (ℓ ⊔ κ)
  IsDeleted t s r =
      ((u : T) → In u (to_array r.0) ↔ (In u (to_array s) × (get_id t ≢ get_id u)))
      × ((r.1 ≡ true) ↔ ((v : T) × In v (to_array s) × (get_id v ≡ get_id t)))

  map_get-add :
      (t : T) (k : K) (s : GeneralSet K T)
      → map_get k (add get_id t s).entries
        ≡ (if beq (get_id t) k then some t else map_get k s.entries)
  unfolding add
  map_get-add t k s = map_get-map_set (get_id t) k t s.entries

  add-IsAdded : (t : T) (s : GeneralSet K T) → IsSetOf get_id s → IsAdded t s (add get_id t s)
  add-IsAdded t s set u =
      let set' = add-IsSetOf get_id t s set in
      (
        λ there. after ((In-to_array get_id u (add get_id t s) set').0 there),
        λ told. (In-to_array get_id u (add get_id t s) set').1 (before told),
      )
    where
      after :
          map_get (get_id u) (add get_id t s).entries ≡ some u
          → (u ≡ t) ⊎ (In u (to_array s) × (get_id t ≢ get_id u))
      after h = elim (Bool-cases (beq (get_id t) (get_id u))) [
        | inl hit ↦ inl (sym (some-injective (rw (map_get-add t (get_id u) s, hit) at h)))
        | inr miss ↦
            let found = rw (map_get-add t (get_id u) s, miss) at h in
            inr ((In-to_array get_id u s set).1 found, differs get_id t u miss)
      ]

      before :
          (u ≡ t) ⊎ (In u (to_array s) × (get_id t ≢ get_id u))
          → map_get (get_id u) (add get_id t s).entries ≡ some u
      before (inl same) =
          let hit = (beq_iff (get_id t) (get_id u)).1 (ap get_id (sym same)) in
          rw (map_get-add t (get_id u) s, hit) (ap some (sym same))
      before (inr (there, ne)) =
          rw (map_get-add t (get_id u) s, missed get_id t u ne)
            ((In-to_array get_id u s set).0 there)

  pub add_arr-AreAdded :
      (ts : List T) (s : GeneralSet K T) → IsSetOf get_id s → AreAdded ts s (add_arr get_id ts s)
  unfolding add_arr
  add_arr-AreAdded [] s set u = (
    λ there. inr (there, tt),
    λ told. elim told [ inl nowhere ↦ absurd nowhere.lower | inr h ↦ h.0 ],
  )
  add_arr-AreAdded (t ∷ ts) s set u =
      let one = add-IsAdded t s set u in
      let rest = add_arr-AreAdded ts (add get_id t s) (add-IsSetOf get_id t s set) u in
      (λ there. after one (rest.0 there), λ told. rest.1 (before one told))
    where
      after :
          (In u (to_array (add get_id t s))
            ↔ ((u ≡ t) ⊎ (In u (to_array s) × (get_id t ≢ get_id u))))
          → IsLast u ts
            ⊎ (In u (to_array (add get_id t s)) × All (λ (w : T). get_id w ≢ get_id u) ts)
          → IsLast u (t ∷ ts) ⊎ (In u (to_array s) × All (λ (w : T). get_id w ≢ get_id u) (t ∷ ts))
      after one (inl last) = inl (inr last)
      after one (inr (there, others)) = elim (one.0 there) [
        | inl same ↦ inl (inl (same, others))
        | inr kept ↦ inr (kept.0, (kept.1, others))
      ]

      before :
          (In u (to_array (add get_id t s))
            ↔ ((u ≡ t) ⊎ (In u (to_array s) × (get_id t ≢ get_id u))))
          → IsLast u (t ∷ ts) ⊎ (In u (to_array s) × All (λ (w : T). get_id w ≢ get_id u) (t ∷ ts))
          → IsLast u ts
            ⊎ (In u (to_array (add get_id t s)) × All (λ (w : T). get_id w ≢ get_id u) ts)
      before one (inl (inl (same, others))) = inr (one.1 (inl same), others)
      before one (inl (inr last)) = inl last
      before one (inr (there, (ne, others))) = inr (one.1 (inr (there, ne)), others)

  map_get-delete_item :
      (t : T) (k : K) (s : GeneralSet K T)
      → IsSetOf get_id s
      → map_get k (delete get_id t s).0.entries
        ≡ (if beq (get_id t) k then none else map_get k s.entries)
  unfolding delete
  map_get-delete_item t k s set = map_get-map_delete (get_id t) k s.entries set.1

  delete_flag : (t : T) (s : GeneralSet K T) → (delete get_id t s).1 ≡ map_has (get_id t) s.entries
  unfolding delete
  delete_flag t s = refl

  map_has-In :
      (k : K) (s : GeneralSet K T)
      → IsSetOf get_id s
      → (map_has k s.entries ≡ true) ↔ ((v : T) × In v (to_array s) × (get_id v ≡ k))
  unfolding to_array
  map_has-In k s set = (found, present)
    where
      found : map_has k s.entries ≡ true → (v : T) × In v (map_values s.entries) × (get_id v ≡ k)
      found h =
          let (v, e) = map_get_present k s.entries h in
          let (key, there) = map_get-own get_id k v s.entries set.0 e in (v, there, sym key)

      present : (v : T) × In v (map_values s.entries) × (get_id v ≡ k) → map_has k s.entries ≡ true
      present (v, there, key) = elim (Bool-cases (map_has k s.entries)) [
        | inl has ↦ has
        | inr absent ↦
            let lost = map_get_absent k s.entries absent in
            let stands =
              ap (λ j. map_get j s.entries) (sym key)
              ∙ map_get-In get_id v s.entries set.0 set.1 there in
            absurd (none-not_some v (sym lost ∙ stands))
      ]

  delete-IsDeleted :
      (t : T) (s : GeneralSet K T) → IsSetOf get_id s → IsDeleted t s (delete get_id t s)
  delete-IsDeleted t s set = (members, rw (delete_flag t s) (map_has-In (get_id t) s set))
    where
      members :
          (u : T)
          → In u (to_array (delete get_id t s).0) ↔ (In u (to_array s) × (get_id t ≢ get_id u))
      members u =
          let set' = delete-IsSetOf get_id t s set in
          let left = (delete get_id t s).0 in
          let outcome = map_get-delete_item t (get_id u) s set in
          elim (Bool-cases (beq (get_id t) (get_id u))) [
            | inl hit ↦ (
              λ there.
                  let gone = rw hit at outcome in
                  absurd (none-not_some u (sym gone ∙ (In-to_array get_id u left set').0 there)),
              λ told. absurd (told.1 ((beq_iff _ _).0 hit)),
            )
            | inr miss ↦
                let kept = rw miss at outcome in
                (
                  λ there. (
                    (In-to_array get_id u s set).1
                        (sym kept ∙ (In-to_array get_id u left set').0 there),
                    differs get_id t u miss,
                  ),
                  λ told.
                      (In-to_array get_id u left set').1
                        (kept ∙ (In-to_array get_id u s set).0 told.0),
                )
          ]

  -- The operations of a set in terms of `toArray`: after `add` there is the item, and of those before
  -- the ones with another id; after `addArr` the last of the items with each id, and of those before the
  -- ones whose id none of them has; after `delete` those with another id, and it tells whether there was
  -- one with this id. Each item stays under its own id and no id stands twice.
  pub set_operations-Holds :
      (t : T) (ts : List T) (s : GeneralSet K T)
      → IsSetOf get_id s
      → (IsSetOf get_id (add get_id t s) × IsAdded t s (add get_id t s))
        × (IsSetOf get_id (add_arr get_id ts s) × AreAdded ts s (add_arr get_id ts s))
        × (IsSetOf get_id (delete get_id t s).0 × IsDeleted t s (delete get_id t s))
  set_operations-Holds t ts s set = (
    (add-IsSetOf get_id t s set, add-IsAdded t s set),
    (add_arr-IsSetOf get_id ts s set, add_arr-AreAdded ts s set),
    (delete-IsSetOf get_id t s set, delete-IsDeleted t s set),
  )
