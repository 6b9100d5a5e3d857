-- ===== src/Tree/Dedup.antt =====
-- TreeManager.ts, `getOpenings`: fetching each node of several openings once.
use elusiv_sdk.Base.{
  some-injective, none-not_some, ℕ, true, false, Option, none, some, List, [], ◌∷◌, map, concat,
  ◌≡◌, refl, sym, ap, ◌∙◌, Bool-cases, inl, inr, ◌⊎◌, In, In-append_left, In-append_right, All,
  All-append, All-of_In, In-All,
}
use elusiv_sdk.Base.Eq.{Eq, beq, beq_iff}
use elusiv_sdk.Base.JsMap.{map_get, map_values, map_get_absent, HasDistinctKeys}
use elusiv_sdk.Result.{Result, ok, map_result, ◌>>=◌}
use elusiv_sdk.Index.{LocalIndex}
use elusiv_sdk.Index.RoundTrip.{IsNode}
use elusiv_sdk.GeneralSet.{empty_set, add_arr, to_array}
use elusiv_sdk.GeneralSet.Laws.{last_with_id, map_get-add_arr, HasOwnIds, add_arr-IsSetOf}
use elusiv_sdk.GeneralSet.Members.{map_get-In}
use elusiv_sdk.GeneralSet.Operations.{IsLast, add_arr-AreAdded}
use elusiv_sdk.Tree.Root.{get_opening_indices-IsNode}
use elusiv_sdk.Tree.{
  Poseidon, StorageReader, local_index_eq, get_opening_indices, parse_tree_bytes_to_big_int,
  opening_value, get_openings,
}

module _ {ℓ} {K : Type ℓ} ⦃e : Eq K⦄ where
  last_with_own_id :
      (k : K) (ts : List K) (d : Option K)
      → (d ≡ some k) ⊎ In k ts
      → last_with_id (λ (t : K). t) k ts d ≡ some k
  last_with_own_id k [] d (inl here) = here
  last_with_own_id k [] d (inr h) = absurd h.lower
  last_with_own_id k (t ∷ ts) d h = elim (Bool-cases (beq t k)) [
    | inl same ↦ rw same (last_with_own_id k ts (some t) (inl (ap some ((beq_iff t k).0 same))))
    | inr differs ↦ rw differs (last_with_own_id k ts d (still h differs))
  ]
    where
      still : (d ≡ some k) ⊎ In k (t ∷ ts) → beq t k ≡ false → (d ≡ some k) ⊎ In k ts
      still (inl here) differs = inl here
      still (inr (inl at_head)) differs =
          let equal : beq t k ≡ true = (beq_iff t k).1 (sym at_head) in absurd (cc)
      still (inr (inr later)) differs = inr later

  In-map_values {κ} :
      {V : Type κ} (k : K) (v : V) (m : List (K × V)) → map_get k m ≡ some v → In v (map_values m)
  unfolding map_get
  In-map_values k v [] h = absurd (none-not_some v h)
  In-map_values k v ((j, u) ∷ m) h = elim (Bool-cases (beq j k)) [
    | inl hit ↦ inl (some-injective (sym (rw hit at h)))
    | inr miss ↦ inr (In-map_values k v m (rw miss at h))
  ]

  -- A set that is its own id holds everything that was added to it.
  In-add_arr :
      (k : K) (ts : List K) → In k ts → In k (to_array (add_arr (λ (t : K). t) ts empty_set))
  unfolding to_array map_get
  In-add_arr k ts h =
      In-map_values k k _
        (map_get-add_arr (λ (t : K). t) k ts empty_set ∙ last_with_own_id k ts none (inr h))

-- No element stands twice.
abbrev pub IsDistinct {ℓ} : {A : Type ℓ} → List A → Type ℓ
IsDistinct [] = Unit
IsDistinct (x ∷ xs) = (¬ In x xs) × IsDistinct xs

module _ {ℓ} {K : Type ℓ} ⦃e : Eq K⦄ where
  values-IsDistinct :
      (m : List (K × K))
      → HasOwnIds (λ (t : K). t) m
      → HasDistinctKeys m
      → IsDistinct (map_values m)
  values-IsDistinct [] own distinct = tt
  values-IsDistinct ((k, t) ∷ m) (here, own) (fresh, distinct) = (
    λ again.
        let found = map_get-In (λ (t : K). t) t m own distinct again in
        let lost = ap (λ j. map_get j m) (sym here) ∙ map_get_absent k m fresh in
        none-not_some t (sym lost ∙ found),
    values-IsDistinct m own distinct,
  )

  -- A set that is its own id holds nothing twice.
  add_arr-IsDistinct : (ts : List K) → IsDistinct (to_array (add_arr (λ (t : K). t) ts empty_set))
  unfolding to_array
  add_arr-IsDistinct ts =
      let (own, distinct) = add_arr-IsSetOf (λ (t : K). t) ts empty_set (tt, tt) in
      values-IsDistinct _ own distinct

  IsLast-In : (u : K) (ts : List K) → IsLast (λ (t : K). t) u ts → In u ts
  IsLast-In u [] nowhere = absurd nowhere.lower
  IsLast-In u (t ∷ ts) (inl last) = inl last.0
  IsLast-In u (t ∷ ts) (inr later) = inr (IsLast-In u ts later)

  -- Nor anything that was not added to it.
  In-add_arr_only :
      (u : K) (ts : List K) → In u (to_array (add_arr (λ (t : K). t) ts empty_set)) → In u ts
  unfolding to_array
  In-add_arr_only u ts there =
      elim ((add_arr-AreAdded (λ (t : K). t) ts empty_set (tt, tt) u).0 there) [
        | inl last ↦ IsLast-In u ts last
        | inr old ↦ absurd old.0.lower
      ]

All-concat :
    (P : LocalIndex → Type 0) (xss : List (List LocalIndex))
    → ((x : LocalIndex) → In x (concat xss) → P x)
    → All (All P) xss
All-concat P [] h = tt
All-concat P (xs ∷ xss) h = (
  All-of_In P xs (λ x i. h x (In-append_left x xs (concat xss) i)),
  All-concat P xss (λ x i. h x (In-append_right x xs (concat xss) i)),
)

openings-IsNode :
    (leaves : List LocalIndex)
    → All IsNode leaves
    → All IsNode (concat (map get_opening_indices leaves))
openings-IsNode [] h = tt
openings-IsNode (i ∷ leaves) (here, h) =
    All-append IsNode (get_opening_indices i) _ (get_opening_indices-IsNode i here).1
      (openings-IsNode leaves h)

-- The nodes that are asked for: nodes of the tree, each once.
asked_nodes :
    (leaves : List LocalIndex)
    → All IsNode leaves
    → All IsNode (
        to_array
          (add_arr (λ (l : LocalIndex). l) (concat (map get_opening_indices leaves)) empty_set))
      × IsDistinct (
          to_array
            (add_arr (λ (l : LocalIndex). l) (concat (map get_opening_indices leaves)) empty_set))
asked_nodes leaves h =
    let nodes : List LocalIndex = concat (map get_opening_indices leaves) in
    (
      All-of_In IsNode _ (λ x there.
          In-All IsNode nodes (openings-IsNode leaves h) x (In-add_arr_only x nodes there)),
      add_arr-IsDistinct nodes,
    )

map_result-All {ℓ} :
    {B : Type ℓ} (f g : LocalIndex → Result B) (xs : List LocalIndex)
    → All (λ x. f x ≡ g x) xs
    → map_result f xs ≡ map_result g xs
unfolding map_result
map_result-All f g [] h = refl
map_result-All f g (x ∷ xs) (here, h) = rw (here, map_result-All f g xs h) refl

map_result-All2 {ℓ} :
    {B : Type ℓ} (f g : LocalIndex → Result B) (xss : List (List LocalIndex))
    → All (All (λ x. f x ≡ g x)) xss
    → map_result (map_result f) xss ≡ map_result (map_result g) xss
unfolding map_result
map_result-All2 f g [] h = refl
map_result-All2 f g (xs ∷ xss) (here, h) =
    rw (map_result-All f g xs here, map_result-All2 f g xss h) refl

module _ (poseidon : Poseidon) (reader : StorageReader) (content : LocalIndex → List ℕ)
    (root : List ℕ) where
  -- The reader answers a request for nodes with a map that has each of them.
  abbrev pub Reads : List LocalIndex → Type 0
  Reads asked =
      (m : List (LocalIndex × List ℕ)) × (reader.get_commitments_at_local_indices asked
        ≡ ok (m, root))
      × ((i : LocalIndex) → In i asked → map_get i m ≡ some (content i))

  opening_value_ok :
      (m : List (LocalIndex × List ℕ)) (i : LocalIndex)
      → map_get i m ≡ some (content i)
      → opening_value poseidon m i ≡ parse_tree_bytes_to_big_int poseidon (content i) i.level
  unfolding opening_value
  opening_value_ok m i h = rw h refl

  -- If the storage reader answers every request for nodes of the tree, none of them twice, with the
  -- contents of the nodes, then each opening of nodes of the tree is made of the parsed contents of its
  -- own nodes, though several openings may share a node.
  pub get_openings_lem :
      (leaves : List LocalIndex)
      → ((asked : List LocalIndex) → All IsNode asked → IsDistinct asked → Reads asked)
      → All IsNode leaves
      → get_openings poseidon reader leaves ≡ (
          map_result
            (map_result
              (λ (i : LocalIndex). parse_tree_bytes_to_big_int poseidon (content i) i.level))
            (map get_opening_indices leaves)
          >>= λ openings. parse_tree_bytes_to_big_int poseidon root 0 >>= λ r.
              ok (record { openings = openings; root = r }))
  unfolding get_openings
  get_openings_lem leaves reads valid =
      let (nodes, distinct) = asked_nodes leaves valid in
      let wanted : List (List LocalIndex) = map get_opening_indices leaves in
      let (m, answered, all) =
        reads (to_array (add_arr (λ (l : LocalIndex). l) (concat wanted) empty_set)) nodes
          distinct in
      let own =
        map_result-All2 (opening_value poseidon m)
          (λ (i : LocalIndex). parse_tree_bytes_to_big_int poseidon (content i) i.level) wanted
          (All-concat _ wanted
            (λ i h. opening_value_ok m i (all i (In-add_arr i (concat wanted) h)))) in
      rw (answered, own) refl
