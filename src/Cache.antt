-- ===== src/Cache.antt =====
-- src/sdk/utils/caching/IndexedMultiCacher.ts: values kept in buckets by a numerical index.
-- `cached` is a sparse array: `none` is a place never written, and a write past the end leaves gaps.
-- src/sdk/txManagers/TransactionCacher.ts is in the child `Transactions`.
pub mod Laws
pub mod Membership
pub mod Transactions
pub mod Tests
use elusiv_sdk.Base.{
  ℕ, zero, suc, Bool, true, false, not, ◌||◌, Option, none, some, List, [], ◌∷◌, ◌++◌, find,
  if◌then◌else◌,
}

module _ {ℓ} {A : Type ℓ} where
  -- `arr[i]` and `arr[i] = v` of a sparse array.
  unfoldable pub read_at : List (Option A) → ℕ → Option A
  read_at [] i = none
  read_at (x ∷ xs) zero = x
  read_at (x ∷ xs) (suc i) = read_at xs i

  unfoldable pub write_at : List (Option A) → ℕ → A → List (Option A)
  write_at [] zero v = some v ∷ []
  write_at [] (suc i) v = none ∷ write_at [] i v
  write_at (x ∷ xs) zero v = some v ∷ xs
  write_at (x ∷ xs) (suc i) v = x ∷ write_at xs i v

abbrev pub is_none {ℓ} : {A : Type ℓ} → Option A → Bool
is_none none = true
is_none (some a) = false

abbrev pub bucket {ℓ} : {A : Type ℓ} → Option (List A) → List A
bucket none = []
bucket (some vs) = vs

module _ {ℓ} {T : Type ℓ} (equal : T → T → Bool) where
  -- The bucket after `push` of a value that it does not hold yet.
  abbrev pub insert_new : T → List T → List T
  insert_new val vs = if is_none (find (λ t. equal t val) vs) then vs ++ val ∷ [] else vs

  unfoldable pub push_new : T → ℕ → List (Option (List T)) → List (Option (List T))
  unfolding read_at write_at
  push_new val index cached = write_at cached index (insert_new val (bucket (read_at cached index)))

-- `if (this.cached[index] === undefined || overwritable) this.cached[index] = []`.
unfoldable pub open_bucket {ℓ} :
    {T : Type ℓ} → Bool → ℕ → List (Option (List T)) → List (Option (List T))
unfolding read_at write_at
open_bucket overwritable index cached =
    if is_none (read_at cached index) || overwritable then write_at cached index [] else cached

module _ {ℓ} {T : Type ℓ} (get_index : T → ℕ) (equal : T → T → Bool) where
  -- One round of `cacheInner`.
  unfoldable pub cache_one : Bool → T → List (Option (List T)) → List (Option (List T))
  unfolding push_new open_bucket
  cache_one overwritable val cached =
      push_new equal val (get_index val) (open_bucket overwritable (get_index val) cached)

  unfoldable pub cache_inner : List T → Bool → List (Option (List T)) → List (Option (List T))
  unfolding cache_one
  cache_inner [] overwritable cached = cached
  cache_inner (val ∷ vals) overwritable cached =
      cache_inner vals overwritable (cache_one overwritable val cached)

  unfoldable pub cache : List T → List (Option (List T)) → List (Option (List T))
  unfolding cache_inner
  cache vals cached = cache_inner vals false cached

  unfoldable pub cache_overwrite : List T → List (Option (List T)) → List (Option (List T))
  unfolding cache_inner
  cache_overwrite vals cached = cache_inner vals true cached

  unfoldable pub is_cached : T → List (Option (List T)) → Bool
  unfolding read_at
  is_cached val cached =
      not (is_none (find (λ t. equal t val) (bucket (read_at cached (get_index val)))))
