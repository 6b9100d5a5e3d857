-- ===== src/Serialization/Hashes.antt =====
-- TransactionSerialization.ts: the nullifier hashes, of which the unused ones stand at the end.
use elusiv_sdk.Base.{
  ℕ, zero, suc, ◌≡◌, ◌≢◌, refl, sym, ap, ◌∙◌, arith, true, false, List, [], ◌∷◌, ◌++◌, All, inl,
  inr, length, take, ◌==◌, Bool, Bool-cases, ◌⊎◌,
}
use elusiv_sdk.Base.Slice.{take-append}
use elusiv_sdk.Result.{err, map_result, empty_n_hashes_not_last}
use elusiv_sdk.Serialization.{Serializer, IsSerializer, zeros, serialize_u256_big_int}
use elusiv_sdk.Serialization.JoinSplit.{serialize_n_hashes, nonzero}

abbrev pub AreUsed : List ℕ → Type 0
AreUsed ns = All (λ n. n ≢ 0) ns

nonzero-zeros : (k : ℕ) → nonzero (zeros k) ≡ []
nonzero-zeros zero = refl
nonzero-zeros (suc k) = nonzero-zeros k

nonzero-append_zeros : (ns : List ℕ) (k : ℕ) → AreUsed ns → nonzero (ns ++ zeros k) ≡ ns
nonzero-append_zeros [] k h = nonzero-zeros k
nonzero-append_zeros (n ∷ ns) k (used, h) =
    let kept : (n == 0) ≡ false = ground arith in
    rw kept (ap (λ t. n ∷ t) (nonzero-append_zeros ns k h))

nonzero-AreUsed : (ns : List ℕ) → AreUsed (nonzero ns)
nonzero-AreUsed [] = tt
nonzero-AreUsed (n ∷ ns) = elim (Bool-cases (n == 0)) [
  | inl gone ↦ rw gone (nonzero-AreUsed ns)
  | inr kept ↦ rw kept (ground arith, nonzero-AreUsed ns)
]

none_used : (ns : List ℕ) → nonzero ns ≡ [] → ns ≡ zeros (length ns)
none_used [] h = refl
none_used (n ∷ ns) h = elim (Bool-cases (n == 0)) [
  | inl gone ↦
      let rest : nonzero ns ≡ [] = rw gone at h in
      let z : n ≡ 0 = ground arith in rw z (ap (λ t. 0 ∷ t) (none_used ns rest))
  | inr kept ↦ let impossible = rw kept at h in cc
]

abbrev head_or : ℕ → List ℕ → ℕ
head_or d [] = d
head_or d (n ∷ ns) = n

abbrev tail_of : List ℕ → List ℕ
tail_of [] = []
tail_of (n ∷ ns) = ns

-- What follows an unused hash is unused, if the used ones are the first.
unused_tail : (ns used : List ℕ) → AreUsed used → used ≡ take (length used) (0 ∷ ns) → used ≡ []
unused_tail ns [] h first = refl
unused_tail ns (m ∷ ms) (u, h) first = absurd (u (ap (head_or 0) first))

pub nonzero-AreUsed_id : (ns : List ℕ) → AreUsed ns → nonzero ns ≡ ns
nonzero-AreUsed_id [] h = refl
nonzero-AreUsed_id (n ∷ ns) (used, h) =
    let kept : (n == 0) ≡ false = ground arith in
    rw kept (ap (λ t. n ∷ t) (nonzero-AreUsed_id ns h))

-- The used hashes are the first ones exactly if only unused ones follow.
first_then_zeros :
    (ns : List ℕ)
    → nonzero ns ≡ take (length (nonzero ns)) ns
    → (k : ℕ) × (ns ≡ nonzero ns ++ zeros k)
first_then_zeros [] h = (0, refl)
first_then_zeros (zero ∷ ns) h =
    let empty = unused_tail ns (nonzero ns) (nonzero-AreUsed ns) h in
    (suc (length ns), rw empty (ap (λ t. 0 ∷ t) (none_used ns empty)))
first_then_zeros (suc n ∷ ns) h =
    let kept : (suc n == 0) ≡ false = ground arith in
    let rest = ap tail_of (rw kept at h) in
    let (k, split) = first_then_zeros ns rest in (k, rw kept (ap (λ t. suc n ∷ t) split))

zeros_then_first :
    (ns : List ℕ) (k : ℕ) → ns ≡ nonzero ns ++ zeros k → nonzero ns ≡ take (length (nonzero ns)) ns
zeros_then_first ns k split =
    sym (ap (λ t. take (length (nonzero ns)) t) split ∙ take-append (nonzero ns) (zeros k))

module _ (lib : Serializer) (laws : IsSerializer lib) where
  abbrev pub test : List ℕ → Bool
  test ns = lib.are_equal_arrs (nonzero ns) (take (length (nonzero ns)) ns)

  pub passes :
      (ns : List ℕ)
      → test ns ≡ true
      → serialize_n_hashes lib ns ≡ map_result (serialize_u256_big_int lib) (nonzero ns)
  unfolding serialize_n_hashes
  passes ns equal = rw equal refl

  refused :
      (ns : List ℕ) → test ns ≡ false → serialize_n_hashes lib ns ≡ err empty_n_hashes_not_last
  unfolding serialize_n_hashes
  refused ns differ = rw differ refl

  -- If only zeros follow the hashes that are not 0, these are written and nothing else; otherwise the
  -- list is refused.
  pub serialize_n_hashes_lem :
      (ns : List ℕ)
      → ((k : ℕ) × (ns ≡ nonzero ns ++ zeros k)
          × (serialize_n_hashes lib ns ≡ map_result (serialize_u256_big_int lib) (nonzero ns)))
        ⊎ (((k : ℕ) → ns ≢ nonzero ns ++ zeros k)
            × (serialize_n_hashes lib ns ≡ err empty_n_hashes_not_last))
  serialize_n_hashes_lem ns =
      let law = laws.compares (nonzero ns) (take (length (nonzero ns)) ns) in
      elim (Bool-cases (test ns)) [
        | inl equal ↦
            let (k, split) = first_then_zeros ns (law.0 equal) in inl (k, split, passes ns equal)
        | inr differ ↦
            inr
              (λ k split. let equal = law.1 (zeros_then_first ns k split) in cc, refused ns differ)
      ]
