-- ===== src/Storage/Answers.antt =====
-- StorageAccountReader.ts, `findCommitmentIndicesAcrossChunks`: where the commitments that are found
-- across the chunks stand.
use mathlib.Core.Path.{subst}
use elusiv_sdk.Base.{
  ℕ, ◌+◌, ◌*◌, ◌<◌, Bool, true, Option, none, some, List, [], ◌∷◌, ◌≡◌, refl, sym, ◌∙◌, arith, map,
  Bool-cases, inl, inr, In, All,
}
use elusiv_sdk.Base.JsMap.{map_set}
use elusiv_sdk.Base.Eq.{nat_eq, beq}
use elusiv_sdk.Result.{Result, ok, >>=-eq-ok, ok-injective, ◌>>=◌}
use elusiv_sdk.Constants.{storage_mt_chunk_count, storage_mt_values_per_account}
use elusiv_sdk.Index.{AccIndex, acc_index_to_global_index}
use elusiv_sdk.Tree.{MontScalar}
use elusiv_sdk.Storage.{StorageAcc, get_chunk_from_index, record_found}
use elusiv_sdk.Storage.Chunk.{read_commitment_at_acc_index}
use elusiv_sdk.Storage.Search.{AreFound}

-- A map by number keeps a predicate that its new entry has.
map_set-All :
    (P : ℕ × ℕ → Type 0) (k v : ℕ) (m : List (ℕ × ℕ)) → P (k, v) → All P m → All P (map_set k v m)
unfolding map_set
map_set-All P k v [] new h = (new, tt)
map_set-All P k v ((j, w) ∷ m) new (here, h) = elim (Bool-cases (beq j k)) [
  | inl hit ↦ rw hit (new, h)
  | inr miss ↦ rw miss (here, map_set-All P k v m new h)
]

pub global_index :
    (acc j g : ℕ)
    → acc_index_to_global_index
        (record { index_of_account = acc; index_in_account = j })
        storage_mt_values_per_account
        storage_mt_chunk_count
      ≡ ok g
    → (acc < storage_mt_chunk_count) × (g ≡ acc * storage_mt_values_per_account + j)
unfolding acc_index_to_global_index
global_index acc j g done = ground arith

pub found_step :
    (acc i : ℕ) (c : MontScalar) (place : AccIndex) (left : List (MontScalar × AccIndex))
    (found : List (Option ℕ)) (res : List (ℕ × ℕ))
    → record_found acc ((c, place) ∷ left) (some i ∷ found) res ≡ (
        acc_index_to_global_index
          (record { index_of_account = acc; index_in_account = i })
          storage_mt_values_per_account
          storage_mt_chunk_count
        >>= λ g. record_found acc left found (map_set c.ref g res))
unfolding record_found
found_step acc i c place left found res = refl

pub skip_step :
    (acc : ℕ) (c : MontScalar) (place : AccIndex) (left : List (MontScalar × AccIndex))
    (found : List (Option ℕ)) (res : List (ℕ × ℕ))
    → record_found acc ((c, place) ∷ left) (none ∷ found) res ≡ record_found acc left found res
unfolding record_found
skip_step acc c place left found res = refl

pub none_left :
    (acc : ℕ) (found : List (Option ℕ)) (res : List (ℕ × ℕ))
    → record_found acc [] found res ≡ ok res
unfolding record_found
none_left acc found res = refl

pub none_found :
    (acc : ℕ) (c : MontScalar × AccIndex) (left : List (MontScalar × AccIndex)) (res : List (ℕ × ℕ))
    → record_found acc (c ∷ left) [] res ≡ ok res
unfolding record_found
none_found acc c left res = refl

module _ (equals_uint8_arr : List ℕ → List ℕ → Bool) (get_tree_chunk : List ℕ → Result (List ℕ))
    (storage_acc : StorageAcc) (comms : List (MontScalar × AccIndex)) where
  -- An answer is the object of a wanted commitment, and the place of one of the nodes in the tree's chunks
  -- that holds the commitment.
  pub record IsAnswer (entry : ℕ × ℕ) : Type 0 where
    pub wanted : MontScalar × AccIndex
    pub account : ℕ
    pub place : ℕ
    pub chunk : List ℕ
    pub stored : List ℕ
    pub is_wanted : In wanted comms
    pub object : entry.0 ≡ wanted.0.ref
    pub account_exists : account < storage_mt_chunk_count
    pub place_exists : place < storage_mt_values_per_account
    pub fetched :
        get_chunk_from_index equals_uint8_arr get_tree_chunk account storage_acc ≡ ok chunk
    pub holds : read_commitment_at_acc_index chunk place ≡ some stored
    pub same : equals_uint8_arr wanted.0.bytes stored ≡ true
    pub global : entry.1 ≡ account * storage_mt_values_per_account + place

  pub record_found-IsAnswer :
      (acc : ℕ) (chunk : List ℕ) (left : List (MontScalar × AccIndex)) (found : List (Option ℕ))
      (res res' : List (ℕ × ℕ))
      → get_chunk_from_index equals_uint8_arr get_tree_chunk acc storage_acc ≡ ok chunk
      → All (λ (c : MontScalar × AccIndex). In c comms) left
      → AreFound equals_uint8_arr chunk storage_mt_values_per_account
          (map (λ (c : MontScalar × AccIndex). c.0.bytes) left)
          found
      → All IsAnswer res
      → record_found acc left found res ≡ ok res'
      → All IsAnswer res'
  record_found-IsAnswer acc chunk [] found res res' fetched own there h done =
      let same = ok-injective (sym (none_left acc found res) ∙ done) in subst (All IsAnswer) same h
  record_found-IsAnswer acc chunk (c ∷ left) [] res res' fetched own there h done =
      let same = ok-injective (sym (none_found acc c left res) ∙ done) in
      subst (All IsAnswer) same h
  record_found-IsAnswer acc chunk ((c, place) ∷ left) (none ∷ found) res res' fetched (mine, own)
        there h done =
      record_found-IsAnswer acc chunk left found res res' fetched own there h
        (sym (skip_step acc c place left found res) ∙ done)
  record_found-IsAnswer acc chunk ((c, place) ∷ left) (some i ∷ found) res res' fetched (mine, own)
        ((f, inside, read, equal), there) h done =
      let (g, e, rest) =
        >>=-eq-ok
          (acc_index_to_global_index (record { index_of_account = acc; index_in_account = i })
            storage_mt_values_per_account storage_mt_chunk_count)
          _ (sym (found_step acc i c place left found res) ∙ done) in
      let (exists, global) = global_index acc i g e in
      let answer : IsAnswer (c.ref, g) = record {
        wanted = (c, place);
        account = acc;
        place = i;
        chunk = chunk;
        stored = f;
        is_wanted = mine;
        object = refl;
        account_exists = exists;
        place_exists = inside;
        fetched = fetched;
        holds = read;
        same = equal;
        global = global;
      } in
      record_found-IsAnswer acc chunk left found (map_set c.ref g res) res' fetched own there
        (map_set-All IsAnswer c.ref g res answer h) rest
