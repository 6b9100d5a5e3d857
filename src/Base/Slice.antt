-- ===== src/Base/Slice.antt =====
-- `Array.prototype.slice` with its relative bounds: a negative bound counts from the end.
use elusiv_sdk.Base.{
  ℕ, suc, ◌+◌, ◌-◌, min, Option, none, some, List, [], ◌∷◌, ◌++◌, length, take, drop, ◌≡◌, refl, ap,
  arith, length-append,
}
use elusiv_sdk.Base.Int.{ℤ, pos, negsuc}

-- The bound as a place in an array of `len` elements.
abbrev pub slice_bound : ℕ → ℤ → ℕ
slice_bound len (pos n) = min n len
slice_bound len (negsuc n) = len - suc n

abbrev pub slice_end : ℕ → Option ℤ → ℕ
slice_end len none = len
slice_end len (some to) = slice_bound len to

unfoldable pub slice {ℓ} : {A : Type ℓ} → List A → ℤ → Option ℤ → List A
slice xs from to =
    let first = slice_bound (length xs) from in drop first (take (slice_end (length xs) to) xs)

module _ {ℓ} {A : Type ℓ} where
  pub drop-append : (ys zs : List A) → drop (length ys) (ys ++ zs) ≡ zs
  drop-append [] zs = refl
  drop-append (y ∷ ys) zs = drop-append ys zs

  pub take-append : (ys zs : List A) → take (length ys) (ys ++ zs) ≡ ys
  take-append [] zs = refl
  take-append (y ∷ ys) zs = ap (λ t. y ∷ t) (take-append ys zs)

  drop-take-append :
      (xs ys zs : List A) → drop (length xs) (take (length xs + length ys) (xs ++ (ys ++ zs))) ≡ ys
  drop-take-append [] ys zs =
      let none_before : 0 + length ys ≡ length ys = omega arith in
      rw none_before (take-append ys zs)
  drop-take-append (x ∷ xs) ys zs =
      let one_more : suc (length xs) + length ys ≡ suc (length xs + length ys) = omega arith in
      rw one_more (drop-take-append xs ys zs)

  -- The part of a list between the lengths of its first part and of its first two.
  pub slice-append :
      (xs ys zs : List A)
      → slice (xs ++ (ys ++ zs)) (pos (length xs)) (some (pos (length xs + length ys))) ≡ ys
  unfolding slice
  slice-append xs ys zs =
      let low : min (length xs) (length (xs ++ (ys ++ zs))) ≡ length xs =
        omega (arith, length-append xs (ys ++ zs)) in
      let high : min (length xs + length ys) (length (xs ++ (ys ++ zs))) ≡ length xs + length ys =
        omega (arith, length-append xs (ys ++ zs), length-append ys zs) in
      rw (low, high) (drop-take-append xs ys zs)

  -- The same with the two bounds given as numbers.
  pub slice_between :
      (xs ys zs : List A) (from to : ℕ)
      → length xs ≡ from
      → from + length ys ≡ to
      → slice (xs ++ (ys ++ zs)) (pos from) (some (pos to)) ≡ ys
  slice_between xs ys zs from to starts ends =
      let part = slice-append xs ys zs in rw (starts, ends) at part
