-- ===== src/Base/JsMap.antt =====
-- JavaScript's `Map`: entries in the order in which their keys were first set.
use elusiv_sdk.Base.{
  ◌+◌, Bool, true, false, ◌||◌, Option, none, some, List, [], ◌∷◌, ◌++◌, ◌≡◌, refl, arith,
  if◌then◌else◌, length, Bool-cases, inl, inr,
}
use elusiv_sdk.Base.Eq.{Eq, beq, beq_iff}

module _ {ℓ κ} {K : Type ℓ} {V : Type κ} where
  abbrev pub map_keys : List (K × V) → List K
  map_keys [] = []
  map_keys ((k, v) ∷ m) = k ∷ map_keys m

  abbrev pub map_values : List (K × V) → List V
  map_values [] = []
  map_values ((k, v) ∷ m) = v ∷ map_values m

module _ {ℓ κ} {K : Type ℓ} {V : Type κ} ⦃e : Eq K⦄ where
  unfoldable pub map_get : K → List (K × V) → Option V
  map_get k [] = none
  map_get k ((j, v) ∷ m) = if beq j k then some v else map_get k m

  unfoldable pub map_has : K → List (K × V) → Bool
  map_has k [] = false
  map_has k ((j, v) ∷ m) = beq j k || map_has k m

  -- A known key keeps its place and takes the new value; a new key goes to the end.
  unfoldable pub map_set : K → V → List (K × V) → List (K × V)
  map_set k v [] = (k, v) ∷ []
  map_set k v ((j, w) ∷ m) = if beq j k then (k, v) ∷ m else (j, w) ∷ map_set k v m

  unfoldable pub map_delete : K → List (K × V) → List (K × V)
  map_delete k [] = []
  map_delete k ((j, v) ∷ m) = if beq j k then m else (j, v) ∷ map_delete k m

module _ {ℓ κ} {K : Type ℓ} {V : Type κ} ⦃e : Eq K⦄ where
  pub map_get-map_set :
      (k j : K) (v : V) (m : List (K × V))
      → map_get j (map_set k v m) ≡ (if beq k j then some v else map_get j m)
  unfolding map_get map_set
  map_get-map_set k j v [] = refl
  map_get-map_set k j v ((i, w) ∷ m) =
      ground (arith, beq_iff k j, beq_iff i k, beq_iff i j, map_get-map_set k j v m)

  pub map_has-map_set :
      (k j : K) (v : V) (m : List (K × V)) → map_has j (map_set k v m) ≡ (beq k j || map_has j m)
  unfolding map_has map_set
  map_has-map_set k j v [] = refl
  map_has-map_set k j v ((i, w) ∷ m) =
      ground (arith, beq_iff k j, beq_iff i k, beq_iff i j, map_has-map_set k j v m)

  pub map_set_fresh :
      (k : K) (v : V) (m : List (K × V)) → map_has k m ≡ false → map_set k v m ≡ m ++ (k, v) ∷ []
  unfolding map_has map_set
  map_set_fresh k v [] h = refl
  map_set_fresh k v ((i, w) ∷ m) h = ground (arith, map_set_fresh k v m)

  -- Setting a key keeps the order of the keys, and appends a new one.
  pub map_keys-map_set :
      (k : K) (v : V) (m : List (K × V))
      → map_keys (map_set k v m) ≡ (if map_has k m then map_keys m else map_keys m ++ k ∷ [])
  unfolding map_has map_set
  map_keys-map_set k v [] = refl
  map_keys-map_set k v ((i, w) ∷ m) = ground (arith, beq_iff i k, map_keys-map_set k v m)

  pub length-map_set :
      (k : K) (v : V) (m : List (K × V))
      → length (map_set k v m) ≡ (if map_has k m then length m else length m + 1)
  unfolding map_has map_set
  length-map_set k v [] = omega arith
  length-map_set k v ((i, w) ∷ m) = ground (arith, beq_iff i k, length-map_set k v m)

  pub map_get_absent : (k : K) (m : List (K × V)) → map_has k m ≡ false → map_get k m ≡ none
  unfolding map_has map_get
  map_get_absent k [] h = refl
  map_get_absent k ((i, w) ∷ m) h = ground (arith, map_get_absent k m)

  pub map_get_present :
      (k : K) (m : List (K × V)) → map_has k m ≡ true → (v : V) × (map_get k m ≡ some v)
  unfolding map_has map_get
  map_get_present k [] h = cc
  map_get_present k ((i, w) ∷ m) h = elim (Bool-cases (beq i k)) [
    | inl hit ↦ (w, rw hit)
    | inr miss ↦ rw miss (map_get_present k m (rw miss at h))
  ]

  -- No key stands twice.
  abbrev pub HasDistinctKeys : List (K × V) → Type 0
  HasDistinctKeys [] = Unit
  HasDistinctKeys ((k, v) ∷ m) = (map_has k m ≡ false) × HasDistinctKeys m

  pub map_set-HasDistinctKeys :
      (k : K) (v : V) (m : List (K × V)) → HasDistinctKeys m → HasDistinctKeys (map_set k v m)
  unfolding map_set map_has
  map_set-HasDistinctKeys k v [] d = (refl, tt)
  map_set-HasDistinctKeys k v ((i, w) ∷ m) (fresh, d) =
      ground
        (arith, beq_iff i k, beq_iff k i, map_has-map_set k i v m, map_set-HasDistinctKeys k v m d)

  pub map_has-map_delete :
      (k j : K) (m : List (K × V))
      → HasDistinctKeys m
      → map_has j (map_delete k m) ≡ (if beq k j then false else map_has j m)
  unfolding map_has map_delete
  map_has-map_delete k j [] d = ground arith
  map_has-map_delete k j ((i, w) ∷ m) (fresh, d) =
      ground (arith, beq_iff k j, beq_iff i k, beq_iff i j, map_has-map_delete k j m d)

  pub map_get-map_delete :
      (k j : K) (m : List (K × V))
      → HasDistinctKeys m
      → map_get j (map_delete k m) ≡ (if beq k j then none else map_get j m)
  unfolding map_get map_delete
  map_get-map_delete k j [] d = ground arith
  map_get-map_delete k j ((i, w) ∷ m) (fresh, d) = ground (
    arith,
    beq_iff k j,
    beq_iff i k,
    beq_iff i j,
    map_get_absent i m fresh,
    map_get-map_delete k j m d,
  )

  pub map_delete-HasDistinctKeys :
      (k : K) (m : List (K × V)) → HasDistinctKeys m → HasDistinctKeys (map_delete k m)
  unfolding map_delete map_has
  map_delete-HasDistinctKeys k [] d = tt
  map_delete-HasDistinctKeys k ((i, w) ∷ m) (fresh, d) =
      ground (arith, map_has-map_delete k i m d, map_delete-HasDistinctKeys k m d)
