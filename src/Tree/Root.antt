-- ===== src/Tree/Root.antt =====
-- TreeManager.ts: the opening of a node is what the root is computed from.
use native.Mathlib.Nat.{two-pow-succ}
use elusiv_sdk.Base.{
  ℕ, zero, suc, ◌+◌, ◌-◌, ◌*◌, ◌/◌, ◌%◌, ◌^◌, ◌≤◌, ◌<◌, true, false, List, [], ◌∷◌, map, ◌≡◌, refl,
  sym, ap, ◌∙◌, arith, if◌then◌else◌, ◌==◌, ==_iff, Bool-cases, inl, inr, length, All, All-map_to,
}
use elusiv_sdk.Constants.{merkle_tree_height}
use elusiv_sdk.Index.{LocalIndex}
use elusiv_sdk.Index.RoundTrip.{IsNode}
use elusiv_sdk.Tree.{get_opening_indices, get_opening_indices_inner}

half_even : (n : ℕ) → n % 2 == 0 ≡ true → 2 * (n / 2) ≡ n
half_even n h = omega (arith, (==_iff (n % 2) 0).0 h)

half_odd : (n : ℕ) → n % 2 == 0 ≡ false → 2 * (n / 2) ≡ n - 1
half_odd n h = ground arith

odd_pos : (n : ℕ) → n % 2 == 0 ≡ false → n - 1 + 1 ≡ n
odd_pos n h = ground arith

half_below : (layer n : ℕ) → n < 2 ^ suc layer → n / 2 < 2 ^ layer
half_below layer n h = omega (arith, rw two-pow-succ at h)

partner_below :
    (layer n : ℕ) → n < 2 ^ suc layer → (if n % 2 == 0 then n + 1 else n - 1) < 2 ^ suc layer
partner_below layer n h =
    let doubled : n < 2 ^ layer + 2 ^ layer = rw two-pow-succ at h in rw two-pow-succ (ground arith)

module _ {ℓ} {H : Type ℓ} (hash : H → H → H) where
  -- The root from a node and its opening, as a proof of membership computes it.
  unfoldable pub root_from : ℕ → ℕ → H → List H → H
  root_from zero index node opening = node
  root_from (suc layer) index node [] = node
  root_from (suc layer) index node (partner ∷ opening) =
      root_from layer (index / 2) (if index % 2 == 0 then hash node partner else hash partner node)
        opening

  -- Every node above the leaves, which stand on the last level, is the hash of the two below it.
  abbrev pub IsMerkleTree : (ℕ → ℕ → H) → Type ℓ
  IsMerkleTree tree =
      (l i : ℕ)
      → l < merkle_tree_height
      → i < 2 ^ l
      → tree l i ≡ hash (tree (suc l) (2 * i)) (tree (suc l) (2 * i + 1))

  one_layer :
      (tree : ℕ → ℕ → H) (layer index : ℕ)
      → tree layer (index / 2)
        ≡ hash (tree (suc layer) (2 * (index / 2))) (tree (suc layer) (2 * (index / 2) + 1))
      → (if index % 2 == 0
          then hash
              (tree (suc layer) index)
              (tree (suc layer) (if index % 2 == 0 then index + 1 else index - 1))
          else hash
              (tree (suc layer) (if index % 2 == 0 then index + 1 else index - 1))
              (tree (suc layer) index))
        ≡ tree layer (index / 2)
  one_layer tree layer index joined = elim (Bool-cases (index % 2 == 0)) [
    | inl even ↦
        let twice : 2 * (index / 2) ≡ index = half_even index even in
        rw even (sym (rw twice at joined))
    | inr odd ↦
        let twice : 2 * (index / 2) ≡ index - 1 = half_odd index odd in
        let back : index - 1 + 1 ≡ index = odd_pos index odd in
        rw odd (sym (rw (twice, back) at joined))
  ]

  opening_reaches_root :
      (tree : ℕ → ℕ → H) (level index : ℕ)
      → IsMerkleTree tree
      → level ≤ merkle_tree_height
      → index < 2 ^ level
      → root_from level index
          (tree level index)
          (map (λ (i : LocalIndex). tree i.level i.index) (get_opening_indices_inner index level))
        ≡ tree 0 0
  unfolding root_from get_opening_indices_inner
  opening_reaches_root tree zero index t high below =
      let only : index ≡ 0 = omega arith in rw only refl
  opening_reaches_root tree (suc layer) index t high below =
      ap
        (λ h. root_from layer (index / 2) h (
          map (λ (i : LocalIndex). tree i.level i.index)
            (get_opening_indices_inner (index / 2) layer)))
        (one_layer tree layer index
          (t layer (index / 2) (omega (arith, high)) (half_below layer index below)))
      ∙ opening_reaches_root tree layer (index / 2) t (omega (arith, high))
          (half_below layer index below)

  -- In every Merkle tree of the program's height the root computed from a node and the nodes at its
  -- opening's indices, left or right by the parity of the index, is the root of the tree.
  pub root_from-get_opening_indices :
      (tree : ℕ → ℕ → H) (i : LocalIndex)
      → IsMerkleTree tree
      → IsNode i
      → root_from i.level i.index
          (tree i.level i.index)
          (map (λ (o : LocalIndex). tree o.level o.index) (get_opening_indices i))
        ≡ tree 0 0
  unfolding get_opening_indices
  root_from-get_opening_indices tree i t v =
      opening_reaches_root tree i.level i.index t v.level_exists v.in_level

-- What an opening is made of: nodes of the tree, one on each level below the root.
opening_nodes :
    (index level : ℕ)
    → index < 2 ^ level
    → (length (get_opening_indices_inner index level) ≡ level)
      × All
          (λ o. (0 < o.level) × (o.level ≤ level) × (o.index < 2 ^ o.level))
          (get_opening_indices_inner index level)
unfolding get_opening_indices_inner
opening_nodes index zero below = (refl, tt)
opening_nodes index (suc layer) below =
    let (len, all) = opening_nodes (index / 2) layer (half_below layer index below) in
    (
      ap suc len,
      (
        (omega arith, omega arith, partner_below layer index below),
        All-map_to _ _ (get_opening_indices_inner (index / 2) layer) (λ o h. omega (arith, h)) all,
      ),
    )

-- The opening of a node has one node for each level from its own up to the one below the root, and each
-- is a node of the tree.
pub get_opening_indices-IsNode :
    (i : LocalIndex)
    → IsNode i
    → (length (get_opening_indices i) ≡ i.level) × All IsNode (get_opening_indices i)
unfolding get_opening_indices
get_opening_indices-IsNode i v =
    let (len, all) = opening_nodes i.index i.level v.in_level in
    (
      len,
      All-map_to _ _ (get_opening_indices_inner i.index i.level)
          (λ o h. record { level_exists = omega (arith, v.level_exists, h.1); in_level = h.2 }) all,
    )
