-- ===== src/Cache/Membership.antt =====
-- IndexedMultiCacher.ts: what is in the cache stays there, and what was cached is found.
use elusiv_sdk.Base.{
  ℕ, Bool, true, false, not, Option, List, [], ◌∷◌, ◌++◌, ◌≡◌, refl, ap, arith, find, ◌==◌, ==_iff,
  Bool-cases, inl, inr, In, In-append_left,
}
use elusiv_sdk.Cache.{read_at, is_none, bucket, insert_new, cache, is_cached}
use elusiv_sdk.Cache.Laws.{fill, cache_inner-fill}

module _ {ℓ} {T : Type ℓ} (get_index : T → ℕ) (equal : T → T → Bool) where
  insert_new_keeps : (t v : T) (vs : List T) → In t vs → In t (insert_new equal v vs)
  insert_new_keeps t v vs h = elim (Bool-cases (is_none (find (λ u. equal u v) vs))) [
    | inl new ↦ rw new (In-append_left t vs (v ∷ []) h)
    | inr known ↦ rw known h
  ]

  -- Caching never drops a value.
  pub cache_keeps :
      (vs : List T) (c : List (Option (List T))) (i : ℕ) (t : T)
      → In t (bucket (read_at c i))
      → In t (bucket (read_at (cache get_index equal vs c) i))
  unfolding cache
  cache_keeps vs c i t h = rw (cache_inner-fill get_index equal false vs c i) (fill_keeps vs _ h)
    where
      fill_keeps : (us : List T) (b : List T) → In t b → In t (fill get_index equal false us i b)
      fill_keeps [] b k = k
      fill_keeps (u ∷ us) b k = elim (Bool-cases (get_index u == i)) [
        | inl own ↦ rw own (fill_keeps us _ (insert_new_keeps t u b k))
        | inr other ↦ rw other (fill_keeps us b k)
      ]

  found_mono :
      (t v : T) (vs : List T)
      → is_none (find (λ u. equal u t) vs) ≡ false
      → is_none (find (λ u. equal u t) (insert_new equal v vs)) ≡ false
  found_mono t v vs h = elim (Bool-cases (is_none (find (λ u. equal u v) vs))) [
    | inl new ↦ rw new (later vs h)
    | inr known ↦ rw known h
  ]
    where
      later :
          (us : List T)
          → is_none (find (λ u. equal u t) us) ≡ false
          → is_none (find (λ u. equal u t) (us ++ v ∷ [])) ≡ false
      later [] k = cc
      later (u ∷ us) k = ground (arith, later us)

  found_new :
      (v : T) (vs : List T)
      → equal v v ≡ true
      → is_none (find (λ u. equal u v) (insert_new equal v vs)) ≡ false
  found_new v vs r = elim (Bool-cases (is_none (find (λ u. equal u v) vs))) [
    | inl new ↦ rw new (at_end vs)
    | inr known ↦ rw known known
  ]
    where
      at_end : (us : List T) → is_none (find (λ u. equal u v) (us ++ v ∷ [])) ≡ false
      at_end [] = rw r refl
      at_end (u ∷ us) = ground (arith, at_end us)

  fill_found :
      (t : T) (vs : List T) (b : List T)
      → is_none (find (λ u. equal u t) b) ≡ false
      → is_none (find (λ u. equal u t) (fill get_index equal false vs (get_index t) b)) ≡ false
  fill_found t [] b h = h
  fill_found t (v ∷ vs) b h = elim (Bool-cases (get_index v == get_index t)) [
    | inl own ↦ rw own (fill_found t vs _ (found_mono t v b h))
    | inr other ↦ rw other (fill_found t vs b h)
  ]

  -- Every value of the cached list is found in the cache afterwards, if equality is reflexive on it.
  pub cache-is_cached :
      (t : T) (vs : List T) (c : List (Option (List T)))
      → equal t t ≡ true
      → In t vs
      → is_cached get_index equal t (cache get_index equal vs c) ≡ true
  unfolding cache is_cached
  cache-is_cached t vs c r h =
      rw (cache_inner-fill get_index equal false vs c (get_index t)) (ap not (reaches vs _ h))
    where
      reaches :
          (us : List T) (b : List T)
          → In t us
          → is_none (find (λ u. equal u t) (fill get_index equal false us (get_index t) b)) ≡ false
      reaches [] b k = absurd k.lower
      reaches (u ∷ us) b (inl e) =
          rw (← e, (==_iff (get_index t) (get_index t)).1 refl)
            (fill_found t us _ (found_new t b r))
      reaches (u ∷ us) b (inr k) = reaches us _ k
