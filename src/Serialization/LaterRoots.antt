-- ===== src/Serialization/LaterRoots.antt =====
-- TransactionSerialization.ts and borshTypes/JoinSplitBorsh.ts: the roots after the first one, in the two
-- ways to write them.
use elusiv_sdk.Base.{
  ℕ, ◌≡◌, ◌≢◌, refl, sym, ap, ◌∙◌, arith, ◌||◌, Bool, true, false, Option, none, some, List, [],
  ◌∷◌, map, length, take, ◌==◌, Bool-cases, inl, inr, if◌then◌else◌,
}
use elusiv_sdk.Result.{ok, map_result, >>=-eq-ok, ok-injective}
use elusiv_sdk.Serialization.{
  Serializer, IsSerializer, le_value, U256Serialized, serialize_u256_big_int,
}
use elusiv_sdk.Serialization.Numbers.{serialized-Encodes}
use elusiv_sdk.Serialization.JoinSplit.{InputCommitmentJson, pair_up, serialize_later_root}
use elusiv_sdk.Serialization.Roots.{later_null, later_own, map_ok-some}
use elusiv_sdk.Serialization.Hashes.{AreUsed}
use elusiv_sdk.Serialization.Borsh.{
  InputCommitmentBorsh, root_json, input_commitment_json, clear_root,
}

-- The commitments of the roots and hashes of a proof, with every root given.
abbrev pub stored : List ℕ → List ℕ → List InputCommitmentBorsh
stored (root ∷ roots) (n ∷ ns) = record { root = some root; nullifier_hash = n } ∷ stored roots ns
stored _ _ = []

pub hashes-stored :
    (roots ns : List ℕ)
    → length roots ≡ length ns
    → map (λ (c : InputCommitmentBorsh). c.nullifier_hash) (stored roots ns) ≡ ns
hashes-stored [] [] same = refl
hashes-stored (root ∷ roots) (n ∷ ns) same =
    ap (λ t. n ∷ t) (hashes-stored roots ns (omega (arith, same)))
hashes-stored (root ∷ roots) [] same = absurd (omega (arith, same))
hashes-stored [] (n ∷ ns) same = absurd (omega (arith, same))

abbrev pub json : Option U256Serialized → U256Serialized → InputCommitmentJson
json root n_hash = record { root = root; nullifier_hash = n_hash }

module _ (lib : Serializer) where
  pub root_json_used :
      (root : ℕ) (bytes : U256Serialized)
      → root ≢ 0
      → serialize_u256_big_int lib root ≡ ok bytes
      → root_json lib (some root) ≡ ok (some bytes)
  unfolding root_json
  root_json_used root bytes used written =
      let kept : (root == 0) ≡ false = ground arith in rw (kept, written) refl

  pub json_eq :
      (c : InputCommitmentBorsh) (root : Option U256Serialized) (n_hash : U256Serialized)
      → root_json lib c.root ≡ ok root
      → serialize_u256_big_int lib c.nullifier_hash ≡ ok n_hash
      → input_commitment_json lib c ≡ ok (json root n_hash)
  unfolding input_commitment_json
  json_eq c root n_hash e e' = rw (e, e') refl

  clear_eq :
      (first bytes n_hash : U256Serialized) (b : Bool)
      → lib.are_equal_arrs bytes first ≡ b
      → clear_root lib first (json (some bytes) n_hash)
        ≡ json (if b then none else some bytes) n_hash
  unfolding clear_root
  clear_eq first bytes n_hash b e = rw e refl

pub take_all : (ns : List ℕ) → take (length ns) ns ≡ ns
take_all [] = refl
take_all (n ∷ ns) = ap (λ t. n ∷ t) (take_all ns)

module _ (lib : Serializer) (laws : IsSerializer lib) where
  later_same :
      (first_root root n : ℕ) (first n_hash : U256Serialized) (r : Option U256Serialized)
      → root ≢ 0
      → serialize_u256_big_int lib first_root ≡ ok first
      → serialize_later_root lib first_root root ≡ ok r
      → serialize_u256_big_int lib n ≡ ok n_hash
      → (bytes : U256Serialized) × (input_commitment_json lib
            (record { root = some root; nullifier_hash = n })
          ≡ ok (json (some bytes) n_hash))
        × (clear_root lib first (json (some bytes) n_hash) ≡ json r n_hash)
  later_same first_root root n first n_hash r used written done hashed =
      elim (Bool-cases (root == 0 || root == first_root)) [
        | inl test ↦
            let equal : root ≡ first_root = ground arith in
            let own : serialize_u256_big_int lib root ≡ ok first = rw equal written in
            let null = ok-injective (sym (later_null lib first_root root test) ∙ done) in
            (
              first,
              json_eq lib _ (some first) n_hash (root_json_used lib root first used own) hashed,
              clear_eq lib first first n_hash true ((laws.compares first first).1 refl)
                  ∙ ap (λ t. json t n_hash) null,
            )
        | inr test ↦
            let (a, own, made) =
              map_ok-some (serialize_u256_big_int lib root) r
                (sym (later_own lib first_root root test) ∙ done) in
            let differ : root ≢ first_root = ground arith in
            (
              a,
              json_eq lib _ (some a) n_hash (root_json_used lib root a used own) hashed,
              clear_eq lib first a n_hash false (unequal a own differ)
                  ∙ ap (λ t. json t n_hash) (sym made),
            )
      ]
    where
      unequal :
          (a : U256Serialized)
          → serialize_u256_big_int lib root ≡ ok a
          → root ≢ first_root
          → lib.are_equal_arrs a first ≡ false
      unequal a own differ = elim (Bool-cases (lib.are_equal_arrs a first)) [
        | inr e ↦ e
        | inl e ↦
            let e1 = serialized-Encodes lib laws root a own in
            let e2 = serialized-Encodes lib laws first_root first written in
            let same : a ≡ first = (laws.compares a first).0 e in
            absurd (differ (sym e1.value ∙ ap le_value same ∙ e2.value))
      ]

  pub later_list_same :
      (first_root : ℕ) (first : U256Serialized) (roots ns : List ℕ)
      (rs : List (Option U256Serialized)) (hs : List U256Serialized) (cs : List InputCommitmentJson)
      → length roots ≡ length ns
      → AreUsed roots
      → serialize_u256_big_int lib first_root ≡ ok first
      → map_result (serialize_later_root lib first_root) roots ≡ ok rs
      → map_result (serialize_u256_big_int lib) ns ≡ ok hs
      → pair_up rs hs ≡ ok cs
      → (js : List InputCommitmentJson) × (map_result (input_commitment_json lib) (stored roots ns)
          ≡ ok js)
        × (map (clear_root lib first) js ≡ cs)
  unfolding map_result pair_up
  later_list_same first_root first [] [] rs hs cs same used written done hashed paired =
      let e1 = ok-injective done in
      let e2 = ok-injective hashed in ([], refl, ok-injective (rw (sym e1, sym e2) at paired))
  later_list_same first_root first (root ∷ roots) (n ∷ ns) rs hs cs same (u, used) written done
        hashed paired =
      let (r, e1, f1) = >>=-eq-ok (serialize_later_root lib first_root root) _ done in
      let (rs', e2, f2) = >>=-eq-ok (map_result (serialize_later_root lib first_root) roots) _ f1 in
      let (h, e3, f3) = >>=-eq-ok (serialize_u256_big_int lib n) _ hashed in
      let (hs', e4, f4) = >>=-eq-ok (map_result (serialize_u256_big_int lib) ns) _ f3 in
      let paired' = rw (sym (ok-injective f2), sym (ok-injective f4)) at paired in
      let (cs', e5, f5) = >>=-eq-ok (pair_up rs' hs') _ paired' in
      let (bytes, made, cleared) = later_same first_root root n first h r u written e1 e3 in
      let (js, more, rest) =
        later_list_same first_root first roots ns rs' hs' cs' (omega (arith, same)) used written e2
          e4 e5 in
      (json (some bytes) h ∷ js, rw (made, more) refl, rw (cleared, rest) (ok-injective f5))
  later_list_same first_root first (root ∷ roots) [] rs hs cs same used written done hashed paired =
      absurd (omega (arith, same))
  later_list_same first_root first [] (n ∷ ns) rs hs cs same used written done hashed paired =
      absurd (omega (arith, same))
