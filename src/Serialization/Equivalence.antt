-- ===== src/Serialization/Equivalence.antt =====
-- TransactionSerialization.ts and borshTypes/JoinSplitBorsh.ts: the two ways to write input commitments.
use elusiv_sdk.Base.{ℕ, ◌≡◌, refl, sym, ap, ◌∙◌, arith, Option, some, List, ◌∷◌, map, length, take}
use elusiv_sdk.Result.{ok, map_result, >>=-eq-ok, ok-injective, ◌>>=◌}
use elusiv_sdk.Serialization.{Serializer, IsSerializer, U256Serialized, serialize_u256_big_int}
use elusiv_sdk.Serialization.JoinSplit.{
  InputCommitmentJson, nonzero, pair_up, serialize_later_root, serialize_roots,
  serialize_input_commitments,
}
use elusiv_sdk.Serialization.Roots.{roots_eq}
use elusiv_sdk.Serialization.Hashes.{AreUsed, passes, nonzero-AreUsed_id}
use elusiv_sdk.Serialization.LaterRoots.{
  stored, json, hashes-stored, take_all, root_json_used, json_eq, later_list_same,
}
use elusiv_sdk.Serialization.Borsh.{
  InputCommitmentBorsh, input_commitment_json, clear_root, clear_roots, input_commitments_json,
}

module _ (lib : Serializer) (laws : IsSerializer lib) where
  read_back_eq :
      (comms : List InputCommitmentBorsh) (ns : List ℕ)
      → map (λ (c : InputCommitmentBorsh). c.nullifier_hash) comms ≡ ns
      → AreUsed ns
      → input_commitments_json lib comms
        ≡ (map_result (input_commitment_json lib) comms >>= clear_roots lib)
  unfolding input_commitments_json
  read_back_eq comms ns hashes used =
      let equal = (laws.compares ns (take (length ns) ns)).1 (sym (take_all ns)) in
      rw (hashes, nonzero-AreUsed_id ns used, equal) refl

  split_eq :
      (roots ns : List ℕ)
      → AreUsed ns
      → serialize_input_commitments lib roots ns ≡ (
          map_result (serialize_u256_big_int lib) ns >>= λ hs.
          serialize_roots lib roots >>= λ rs. pair_up rs hs)
  unfolding serialize_input_commitments
  split_eq roots ns used =
      let kept = nonzero-AreUsed_id ns used in
      let first = kept ∙ sym (take_all ns) ∙ sym (ap (λ ms. take (length ms) ns) kept) in
      let passed = passes lib laws ns ((laws.compares (nonzero ns) _).1 first) in
      ap (λ m. m >>= λ hs. serialize_roots lib roots >>= λ rs. pair_up rs hs)
        (passed ∙ ap (map_result (serialize_u256_big_int lib)) kept)

  cleared_eq :
      (first : U256Serialized) (n_hash : U256Serialized) (js : List InputCommitmentJson)
      → clear_roots lib (json (some first) n_hash ∷ js)
        ≡ ok (json (some first) n_hash ∷ map (clear_root lib first) js)
  unfolding clear_roots
  cleared_eq first n_hash js = refl

  paired_inv :
      (r : Option U256Serialized) (rs : List (Option U256Serialized)) (h : U256Serialized)
      (hs : List U256Serialized) (cs : List InputCommitmentJson)
      → pair_up (r ∷ rs) (h ∷ hs) ≡ ok cs
      → (cs' : List InputCommitmentJson) × (pair_up rs hs ≡ ok cs') × (cs ≡ json r h ∷ cs')
  unfolding pair_up
  paired_inv r rs h hs cs paired =
      let (cs', e, f) = >>=-eq-ok (pair_up rs hs) _ paired in (cs', e, sym (ok-injective f))

  hashes_inv :
      (n : ℕ) (ns : List ℕ) (hs : List U256Serialized)
      → map_result (serialize_u256_big_int lib) (n ∷ ns) ≡ ok hs
      → (h : U256Serialized) × (hs' : List U256Serialized) × (serialize_u256_big_int lib n ≡ ok h)
        × (map_result (serialize_u256_big_int lib) ns ≡ ok hs')
        × (hs ≡ h ∷ hs')
  unfolding map_result
  hashes_inv n ns hs hashed =
      let (h, e3, f3) = >>=-eq-ok (serialize_u256_big_int lib n) _ hashed in
      let (hs', e4, f4) = >>=-eq-ok (map_result (serialize_u256_big_int lib) ns) _ f3 in
      (h, hs', e3, e4, sym (ok-injective f4))

  map_result_cons :
      (c : InputCommitmentBorsh) (comms : List InputCommitmentBorsh) (j : InputCommitmentJson)
      (js : List InputCommitmentJson)
      → input_commitment_json lib c ≡ ok j
      → map_result (input_commitment_json lib) comms ≡ ok js
      → map_result (input_commitment_json lib) (c ∷ comms) ≡ ok (j ∷ js)
  unfolding map_result
  map_result_cons c comms j js e e' = rw (e, e') refl

  -- What the Wardens are sent for the inputs of a proof, none of them with a root or a hash of 0, is what
  -- the commitments read back from the chain are written as.
  pub input_commitments_json-eq-serialize_input_commitments :
      (root : ℕ) (roots : List ℕ) (n : ℕ) (ns : List ℕ) (cs : List InputCommitmentJson)
      → length roots ≡ length ns
      → AreUsed (root ∷ roots)
      → AreUsed (n ∷ ns)
      → serialize_input_commitments lib (root ∷ roots) (n ∷ ns) ≡ ok cs
      → input_commitments_json lib (stored (root ∷ roots) (n ∷ ns)) ≡ ok cs
  input_commitments_json-eq-serialize_input_commitments root roots n ns cs same (u, used) used'
        done =
      let (hs, hashed, f1) =
        >>=-eq-ok (map_result (serialize_u256_big_int lib) (n ∷ ns)) _
          (sym (split_eq (root ∷ roots) (n ∷ ns) used') ∙ done) in
      let (rs, written, paired) = >>=-eq-ok (serialize_roots lib (root ∷ roots)) _ f1 in
      let (first, e, f2) =
        >>=-eq-ok (serialize_u256_big_int lib root) _ (sym (roots_eq lib root roots) ∙ written) in
      let (rest, e', f3) = >>=-eq-ok (map_result (serialize_later_root lib root) roots) _ f2 in
      let (h, hs', eh, ehs, split) = hashes_inv n ns hs hashed in
      let paired' = rw (sym (ok-injective f3), split) at paired in
      let (cs', e5, f5) = paired_inv (some first) rest h hs' cs paired' in
      let (js, made, cleared) =
        later_list_same lib laws root first roots ns rest hs' cs' same used e e' ehs e5 in
      let own =
        json_eq lib (record { root = some root; nullifier_hash = n }) (some first) h
          (root_json_used lib root first u e) eh in
      read_back_eq (stored (root ∷ roots) (n ∷ ns)) (n ∷ ns)
        (hashes-stored (root ∷ roots) (n ∷ ns) (omega (arith, same))) used'
      ∙ ap (λ m. m >>= clear_roots lib)
          (map_result_cons _ (stored roots ns) (json (some first) h) js own made)
      ∙ cleared_eq first h js
      ∙ ap ok (ap (λ t. json (some first) h ∷ t) cleared ∙ sym f5)
