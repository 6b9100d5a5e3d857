-- ===== src/GeneralSet/Members.antt =====
-- GeneralSet.ts: the items of a set are what their ids stand for.
use elusiv_sdk.Base.{
  some-injective, none-not_some, false, some, List, [], ◌∷◌, ◌≡◌, ◌≢◌, sym, ap, ◌∙◌, Bool-cases,
  inl, inr, ◌↔◌, In,
}
use elusiv_sdk.Base.Eq.{Eq, beq, beq_iff}
use elusiv_sdk.Base.JsMap.{map_get, map_values, HasDistinctKeys, map_get_absent}
use elusiv_sdk.GeneralSet.{GeneralSet, to_array}
use elusiv_sdk.GeneralSet.Laws.{HasOwnIds, IsSetOf}

module _ {ℓ κ} {K : Type ℓ} {T : Type κ} ⦃e : Eq K⦄ (get_id : T → K) where
  pub differs : (t u : T) → beq (get_id t) (get_id u) ≡ false → get_id t ≢ get_id u
  differs t u miss same = let hit = (beq_iff (get_id t) (get_id u)).1 same in cc

  pub missed : (t u : T) → get_id t ≢ get_id u → beq (get_id t) (get_id u) ≡ false
  missed t u ne = elim (Bool-cases (beq (get_id t) (get_id u))) [
    | inl hit ↦ absurd (ne ((beq_iff _ _).0 hit))
    | inr miss ↦ miss
  ]

  -- What an id stands for is an item with this id.
  pub map_get-own :
      (k : K) (u : T) (m : List (K × T))
      → HasOwnIds get_id m
      → map_get k m ≡ some u
      → (k ≡ get_id u) × In u (map_values m)
  unfolding map_get
  map_get-own k u [] own h = absurd (none-not_some u h)
  map_get-own k u ((j, t) ∷ m) (here, own) h = elim (Bool-cases (beq j k)) [
    | inl hit ↦
        let same : t ≡ u = some-injective (rw hit at h) in
        (sym ((beq_iff j k).0 hit) ∙ here ∙ ap get_id same, inl (sym same))
    | inr miss ↦ let (key, later) = map_get-own k u m own (rw miss at h) in (key, inr later)
  ]

  pub map_get-In :
      (u : T) (m : List (K × T))
      → HasOwnIds get_id m
      → HasDistinctKeys m
      → In u (map_values m)
      → map_get (get_id u) m ≡ some u
  unfolding map_get
  map_get-In u [] own distinct h = absurd h.lower
  map_get-In u ((j, t) ∷ m) (here, own) (fresh, distinct) (inl same) =
      let hit = (beq_iff j (get_id u)).1 (here ∙ ap get_id (sym same)) in
      rw hit (ap some (sym same))
  map_get-In u ((j, t) ∷ m) (here, own) (fresh, distinct) (inr h) =
      elim (Bool-cases (beq j (get_id u))) [
        | inl hit ↦
            let found = map_get-In u m own distinct h in
            let lost =
              ap (λ k. map_get k m) (sym ((beq_iff _ _).0 hit)) ∙ map_get_absent j m fresh in
            absurd (none-not_some u (sym lost ∙ found))
        | inr miss ↦ rw miss (map_get-In u m own distinct h)
      ]

  -- An item stands in a set if its id stands for it.
  pub In-to_array :
      (u : T) (s : GeneralSet K T)
      → IsSetOf get_id s
      → In u (to_array s) ↔ (map_get (get_id u) s.entries ≡ some u)
  unfolding to_array
  In-to_array u s (own, distinct) =
      (map_get-In u s.entries own distinct, λ h. (map_get-own _ u s.entries own h).1)
