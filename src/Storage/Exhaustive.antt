-- ===== src/Storage/Exhaustive.antt =====
-- StorageAccountReader.ts, `findCommitmentIndicesAcrossChunks`: a commitment that is not found across the
-- chunks was looked for in each of them.
use mathlib.Core.Path.{subst}
use elusiv_sdk.Base.{
  ℕ, ◌≤◌, Bool, true, false, ◌||◌, Option, none, some, List, [], ◌∷◌, ◌≡◌, ◌≢◌, refl, sym, ap, ◌∙◌,
  arith, map, keep_if, ◌==◌, ==_iff, Bool-cases, inl, inr, ◌⊎◌, In, min,
}
use elusiv_sdk.Base.JsMap.{map_has, map_set, map_has-map_set}
use elusiv_sdk.Base.Eq.{nat_eq, beq, beq_iff}
use elusiv_sdk.Result.{Result, ok, >>=-eq-ok, ok-injective}
use elusiv_sdk.Constants.{storage_mt_chunk_count, storage_mt_values_per_account}
use elusiv_sdk.Index.{AccIndex, acc_index_to_global_index}
use elusiv_sdk.Tree.{MontScalar}
use elusiv_sdk.Storage.{record_found, start_in, min_acc}
use elusiv_sdk.Storage.Answers.{found_step, skip_step, none_left, none_found}

-- Where the search of the chunk `acc` starts for a commitment: at its own place in its own chunk, at 0 in
-- the later ones.
abbrev pub StartsAt : MontScalar × AccIndex → ℕ → ℕ → Type 0
StartsAt c acc start =
    ((c.1.index_of_account ≡ acc) × (start ≡ c.1.index_in_account))
    ⊎ ((c.1.index_of_account ≢ acc) × (start ≡ 0))

-- One of the hashes is that of the commitment, with its start, and has no result.
abbrev pub HasNoResult :
    MontScalar × AccIndex → ℕ → List (List ℕ) → List ℕ → List (Option ℕ) → Type 0
HasNoResult c acc (h ∷ hs) (s ∷ ss) (r ∷ rs) =
    ((h ≡ c.0.bytes) × StartsAt c acc s × (r ≡ none)) ⊎ HasNoResult c acc hs ss rs
HasNoResult c acc (h ∷ hs) (s ∷ ss) [] =
    ((h ≡ c.0.bytes) × StartsAt c acc s) ⊎ HasNoResult c acc hs ss []
HasNoResult c acc _ _ _ = ⊥

-- What holds of a map and is kept by every new entry is kept by the results of a chunk.
pub record_found_keeps :
    (P : List (ℕ × ℕ) → Type 0) (acc : ℕ) (left : List (MontScalar × AccIndex))
    (found : List (Option ℕ)) (res res' : List (ℕ × ℕ))
    → ((k v : ℕ) (m : List (ℕ × ℕ)) → P m → P (map_set k v m))
    → P res
    → record_found acc left found res ≡ ok res'
    → P res'
record_found_keeps P acc [] found res res' closed h done =
    subst P (ok-injective (sym (none_left acc found res) ∙ done)) h
record_found_keeps P acc (c ∷ left) [] res res' closed h done =
    subst P (ok-injective (sym (none_found acc c left res) ∙ done)) h
record_found_keeps P acc ((c, place) ∷ left) (none ∷ found) res res' closed h done =
    record_found_keeps P acc left found res res' closed h
      (sym (skip_step acc c place left found res) ∙ done)
record_found_keeps P acc ((c, place) ∷ left) (some i ∷ found) res res' closed h done =
    let (g, e, rest) =
      >>=-eq-ok
        (acc_index_to_global_index (record { index_of_account = acc; index_in_account = i })
          storage_mt_values_per_account storage_mt_chunk_count)
        _ (sym (found_step acc i c place left found res) ∙ done) in
    record_found_keeps P acc left found (map_set c.ref g res) res' closed (closed c.ref g res h)
      rest

pub has_kept :
    (k j v : ℕ) (m : List (ℕ × ℕ)) → map_has k m ≡ true → map_has k (map_set j v m) ≡ true
has_kept k j v m h = rw (map_has-map_set j k v m, h) (or_true (beq j k))
  where
    or_true : (b : Bool) → b || true ≡ true
    or_true true = refl
    or_true false = refl

has_new : (k v : ℕ) (m : List (ℕ × ℕ)) → map_has k (map_set k v m) ≡ true
has_new k v m = rw (map_has-map_set k k v m, (beq_iff k k).1 refl) refl

pub In-keep_if {ℓ} :
    {A : Type ℓ} (p : A → Bool) (x : A) (xs : List A) → In x xs → p x ≡ true → In x (keep_if p xs)
In-keep_if p x [] i h = absurd i.lower
In-keep_if p x (y ∷ xs) (inl same) h = let kept = ap p (sym same) ∙ h in rw kept (inl same)
In-keep_if p x (y ∷ xs) (inr i) h = elim (Bool-cases (p y)) [
  | inl kept ↦ rw kept (inr (In-keep_if p x xs i h))
  | inr out ↦ rw out (In-keep_if p x xs i h)
]

min_acc_low : (comms : List (MontScalar × AccIndex)) (acc : ℕ) → min_acc comms acc ≤ acc
min_acc_low [] acc = omega arith
min_acc_low ((comm, place) ∷ comms) acc =
    let low = min_acc_low comms (min acc place.index_of_account) in omega (arith, low)

pub min_acc-le :
    (c : MontScalar × AccIndex) (comms : List (MontScalar × AccIndex)) (acc : ℕ)
    → In c comms
    → min_acc comms acc ≤ c.1.index_of_account
min_acc-le c [] acc i = absurd i.lower
min_acc-le c ((comm, place) ∷ comms) acc (inl same) =
    let own = ap (λ (d : MontScalar × AccIndex). d.1.index_of_account) same in
    let low = min_acc_low comms (min acc place.index_of_account) in omega (arith, low, own)
min_acc-le c ((comm, place) ∷ comms) acc (inr i) =
    min_acc-le c comms (min acc place.index_of_account) i

module _ (equals_uint8_arr : List ℕ → List ℕ → Bool)
    (get_tree_chunk : List ℕ → Result (List ℕ)) where
  abbrev pub hashes_of : List (MontScalar × AccIndex) → List (List ℕ)
  hashes_of left = map (λ (c : MontScalar × AccIndex). c.0.bytes) left

  abbrev pub starts_of : ℕ → List (MontScalar × AccIndex) → List ℕ
  starts_of acc left =
      map (λ (c : MontScalar × AccIndex). start_in equals_uint8_arr get_tree_chunk acc c.1) left

  start_in-StartsAt :
      (c : MontScalar × AccIndex) (acc : ℕ)
      → StartsAt c acc (start_in equals_uint8_arr get_tree_chunk acc c.1)
  start_in-StartsAt c acc = elim (Bool-cases (c.1.index_of_account == acc)) [
    | inl here ↦ inl ((==_iff _ acc).0 here, rw here refl)
    | inr later ↦ inr (λ same. let here = (==_iff _ acc).1 same in cc, rw later refl)
  ]

  own_entry :
      (c d : MontScalar × AccIndex) (acc : ℕ)
      → c ≡ d
      → (d.0.bytes ≡ c.0.bytes) × StartsAt c acc (start_in equals_uint8_arr get_tree_chunk acc d.1)
  own_entry c d acc same =
      subst
        (λ (x : MontScalar × AccIndex).
          (x.0.bytes ≡ c.0.bytes)
          × StartsAt c acc (start_in equals_uint8_arr get_tree_chunk acc x.1))
        same (refl, start_in-StartsAt c acc)

  no_more_results :
      (c : MontScalar × AccIndex) (acc : ℕ) (left : List (MontScalar × AccIndex))
      → In c left
      → HasNoResult c acc (hashes_of left) (starts_of acc left) []
  no_more_results c acc [] i = absurd i.lower
  no_more_results c acc (d ∷ left) (inl same) = inl (own_entry c d acc same)
  no_more_results c acc (d ∷ left) (inr i) = inr (no_more_results c acc left i)

  -- A commitment that is looked for in a chunk gets an entry, or has no result there.
  pub record_found_covers :
      (c : MontScalar × AccIndex) (acc : ℕ) (left : List (MontScalar × AccIndex))
      (found : List (Option ℕ)) (res res' : List (ℕ × ℕ))
      → In c left
      → record_found acc left found res ≡ ok res'
      → (map_has c.0.ref res' ≡ true)
        ⊎ HasNoResult c acc (hashes_of left) (starts_of acc left) found
  record_found_covers c acc [] found res res' i done = absurd i.lower
  record_found_covers c acc (d ∷ left) [] res res' i done = inr (no_more_results c acc (d ∷ left) i)
  record_found_covers c acc ((d, place) ∷ left) (none ∷ found) res res' (inl same) done =
      let (bytes, start) = own_entry c (d, place) acc same in inr (inl (bytes, start, refl))
  record_found_covers c acc ((d, place) ∷ left) (none ∷ found) res res' (inr i) done =
      let rest = sym (skip_step acc d place left found res) ∙ done in
      elim (record_found_covers c acc left found res res' i rest) [
        | inl has ↦ inl has
        | inr missing ↦ inr (inr missing)
      ]
  record_found_covers c acc ((d, place) ∷ left) (some n ∷ found) res res' i done =
      let (g, e, rest) =
        >>=-eq-ok
          (acc_index_to_global_index (record { index_of_account = acc; index_in_account = n })
            storage_mt_values_per_account storage_mt_chunk_count)
          _ (sym (found_step acc n d place left found res) ∙ done) in
      elim i [
        | inl same ↦
            let own = ap (λ (x : MontScalar × AccIndex). x.0.ref) same in
            let new = ap (λ k. map_has k (map_set d.ref g res)) own ∙ has_new d.ref g res in
            inl (
              record_found_keeps (λ m. map_has c.0.ref m ≡ true) acc left found
                (map_set d.ref g res) res' (has_kept c.0.ref) new rest)
        | inr later ↦
            elim (record_found_covers c acc left found (map_set d.ref g res) res' later rest) [
              | inl has ↦ inl has
              | inr missing ↦ inr (inr missing)
            ]
      ]
