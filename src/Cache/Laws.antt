-- ===== src/Cache/Laws.antt =====
-- IndexedMultiCacher.ts: what the buckets hold after `cache` and `cacheOverwrite`.
use elusiv_sdk.Base.{
  ℕ, zero, suc, Bool, true, false, Option, none, some, List, [], ◌∷◌, ◌++◌, ◌≡◌, refl, ap, ◌∙◌,
  arith, if◌then◌else◌, find, ◌==◌, ==_iff, Bool-cases, Option-cases, inl, inr, All, All-append,
  keep_if,
}
use elusiv_sdk.Cache.{
  read_at, write_at, is_none, bucket, insert_new, push_new, open_bucket, cache_one, cache_inner,
  cache, cache_overwrite,
}

pub read_at-write_at {ℓ} :
    {A : Type ℓ} (xs : List (Option A)) (i j : ℕ) (v : A)
    → read_at (write_at xs i v) j ≡ (if i == j then some v else read_at xs j)
unfolding read_at write_at
read_at-write_at [] zero zero v = refl
read_at-write_at [] zero (suc j) v = ground arith
read_at-write_at [] (suc i) zero v = ground arith
read_at-write_at [] (suc i) (suc j) v = ground (arith, read_at-write_at [] i j v)
read_at-write_at (x ∷ xs) zero zero v = refl
read_at-write_at (x ∷ xs) zero (suc j) v = ground arith
read_at-write_at (x ∷ xs) (suc i) zero v = ground arith
read_at-write_at (x ∷ xs) (suc i) (suc j) v = ground (arith, read_at-write_at xs i j v)

bucket-open_bucket {ℓ} :
    {T : Type ℓ} (o : Bool) (k i : ℕ) (c : List (Option (List T)))
    → bucket (read_at (open_bucket o k c) i)
      ≡ (if k == i then (if o then [] else bucket (read_at c i)) else bucket (read_at c i))
unfolding open_bucket
bucket-open_bucket o k i c =
    ground (arith, read_at-write_at c k i [], Option-cases (read_at c k), ==_iff k i)

bucket-push_new {ℓ} :
    {T : Type ℓ} (equal : T → T → Bool) (v : T) (k i : ℕ) (c : List (Option (List T)))
    → bucket (read_at (push_new equal v k c) i)
      ≡ (if k == i then insert_new equal v (bucket (read_at c k)) else bucket (read_at c i))
unfolding push_new
bucket-push_new equal v k i c =
    rw (read_at-write_at c k i (insert_new equal v (bucket (read_at c k)))) (ground arith)

module _ {ℓ} {T : Type ℓ} (get_index : T → ℕ) (equal : T → T → Bool) where
  -- One cached value: its own bucket takes it at the end unless it holds it (after it was emptied, if
  -- the write overwrites), and no other bucket changes.
  bucket-cache_one :
      (o : Bool) (v : T) (c : List (Option (List T))) (i : ℕ)
      → bucket (read_at (cache_one get_index equal o v c) i) ≡ (
          if get_index v == i
          then insert_new equal v (if o then [] else bucket (read_at c i))
          else bucket (read_at c i))
  unfolding cache_one
  bucket-cache_one o v c i =
      bucket-push_new equal v (get_index v) i (open_bucket o (get_index v) c)
      ∙ rw
          (
            bucket-open_bucket o (get_index v) (get_index v) c,
            bucket-open_bucket o (get_index v) i c,
          )
          (ground (arith, ==_iff (get_index v) i))

  -- What a bucket becomes when values are cached one after the other.
  abbrev pub fill : Bool → List T → ℕ → List T → List T
  fill o [] i vs = vs
  fill o (v ∷ rest) i vs =
      fill o rest i (if get_index v == i then insert_new equal v (if o then [] else vs) else vs)

  pub cache_inner-fill :
      (o : Bool) (vs : List T) (c : List (Option (List T))) (i : ℕ)
      → bucket (read_at (cache_inner get_index equal vs o c) i) ≡ fill o vs i (bucket (read_at c i))
  unfolding cache_inner
  cache_inner-fill o [] c i = refl
  cache_inner-fill o (v ∷ vs) c i =
      cache_inner-fill o vs (cache_one get_index equal o v c) i
      ∙ ap (fill o vs i) (bucket-cache_one o v c i)

  -- The cache as a specification sees it: a bucket is changed by the values of its own index only, in
  -- the order in which they come.
  pub bucket-cache :
      (vs : List T) (c : List (Option (List T))) (i : ℕ)
      → bucket (read_at (cache get_index equal vs c) i)
        ≡ fill false (keep_if (λ v. get_index v == i) vs) i (bucket (read_at c i))
  unfolding cache
  bucket-cache vs c i = cache_inner-fill false vs c i ∙ only_own vs (bucket (read_at c i))
    where
      only_own :
          (us : List T) (b : List T)
          → fill false us i b ≡ fill false (keep_if (λ v. get_index v == i) us) i b
      only_own [] b = refl
      only_own (u ∷ us) b = ground (arith, only_own us (insert_new equal u b), only_own us b)

  -- No value of a bucket equals one before it.
  abbrev pub HasNoRepeats : List T → Type ℓ
  HasNoRepeats [] = Unit
  HasNoRepeats (t ∷ ts) = All (λ u. equal t u ≡ false) ts × HasNoRepeats ts

  abbrev pub IsBucket : ℕ → List T → Type ℓ
  IsBucket i vs = All (λ t. get_index t ≡ i) vs × HasNoRepeats vs

  not_found-All :
      (v : T) (vs : List T)
      → is_none (find (λ t. equal t v) vs) ≡ true
      → All (λ t. equal t v ≡ false) vs
  not_found-All v [] h = tt
  not_found-All v (t ∷ ts) h = ground (arith, not_found-All v ts)

  append-HasNoRepeats :
      (v : T) (vs : List T)
      → HasNoRepeats vs
      → All (λ t. equal t v ≡ false) vs
      → HasNoRepeats (vs ++ v ∷ [])
  append-HasNoRepeats v [] h k = (tt, tt)
  append-HasNoRepeats v (t ∷ ts) (here, h) (new, k) =
      (All-append (λ u. equal t u ≡ false) ts (v ∷ []) here (new, tt), append-HasNoRepeats v ts h k)

  insert_new-IsBucket :
      (v : T) (i : ℕ) (vs : List T)
      → get_index v ≡ i
      → IsBucket i vs
      → IsBucket i (insert_new equal v vs)
  insert_new-IsBucket v i vs own (owned, distinct) =
      elim (Bool-cases (is_none (find (λ t. equal t v) vs))) [
        | inl new ↦ rw new (
          All-append (λ t. get_index t ≡ i) vs (v ∷ []) owned (own, tt),
          append-HasNoRepeats v vs distinct (not_found-All v vs new),
        )
        | inr known ↦ rw known (owned, distinct)
      ]

  fill-IsBucket :
      (o : Bool) (vs : List T) (i : ℕ) (b : List T) → IsBucket i b → IsBucket i (fill o vs i b)
  fill-IsBucket o [] i b h = h
  fill-IsBucket o (v ∷ vs) i b h = elim (Bool-cases (get_index v == i)) [
    | inl own ↦ rw own (
        fill-IsBucket o vs i _
          (insert_new-IsBucket v i _ ((==_iff (get_index v) i).0 own) (emptied o)))
    | inr other ↦ rw other (fill-IsBucket o vs i b h)
  ]
    where
      emptied : (o : Bool) → IsBucket i (if o then [] else b)
      emptied true = (tt, tt)
      emptied false = h

  abbrev pub IsCache : List (Option (List T)) → Type ℓ
  IsCache c = (i : ℕ) → IsBucket i (bucket (read_at c i))

  -- Caching keeps the invariant, whether or not it overwrites: a bucket holds values of its own index
  -- only, and none twice.
  pub cache-IsCache :
      (vs : List T) (c : List (Option (List T)))
      → IsCache c
      → IsCache (cache get_index equal vs c) × IsCache (cache_overwrite get_index equal vs c)
  unfolding cache cache_overwrite
  cache-IsCache vs c h = (
    λ i. rw (cache_inner-fill false vs c i) (fill-IsBucket false vs i _ (h i)),
    λ i. rw (cache_inner-fill true vs c i) (fill-IsBucket true vs i _ (h i)),
  )

  -- The last value with the index `i`, or `d`.
  abbrev pub last_of : ℕ → List T → Option T → Option T
  last_of i [] d = d
  last_of i (v ∷ vs) d = last_of i vs (if get_index v == i then some v else d)

  abbrev pub only : Option T → List T → List T
  only none vs = vs
  only (some v) vs = v ∷ []

  -- `cacheOverwrite` empties the bucket before each value, so of the values with one index it keeps the
  -- last only; a bucket whose index no value has is left alone.
  pub bucket-cache_overwrite :
      (vs : List T) (c : List (Option (List T))) (i : ℕ)
      → bucket (read_at (cache_overwrite get_index equal vs c) i)
        ≡ only (last_of i vs none) (bucket (read_at c i))
  unfolding cache_overwrite
  bucket-cache_overwrite vs c i = cache_inner-fill true vs c i ∙ overwritten vs none
    where
      overwritten :
          (us : List T) (d : Option T)
          → fill true us i (only d (bucket (read_at c i)))
            ≡ only (last_of i us d) (bucket (read_at c i))
      overwritten [] d = refl
      overwritten (u ∷ us) d = ground (arith, overwritten us (some u), overwritten us d)
