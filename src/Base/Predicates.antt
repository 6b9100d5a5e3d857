-- ===== src/Base/Predicates.antt =====
-- Predicates on lists by recursion, which compute to tuples and sums.
use mathlib.Core.Path.{◌≡◌, refl, sym, subst}
use mathlib.Core.Logic.{◌⊎◌, inl, inr, Lift}
use mathlib.Core.List.{List, [], ◌∷◌, ◌++◌}
use mathlib.Core.Bool.{Bool}
use native.Mathlib.Omega.{arith}
use elusiv_sdk.Base.Lists.{keep_if}

module _ {ℓ} {A : Type ℓ} where
  abbrev pub All {κ} : (A → Type κ) → List A → Type κ
  All P [] = Unit
  All P (x ∷ xs) = P x × All P xs

  -- `x` stands in the list, at a place that is kept.
  abbrev pub In : A → List A → Type ℓ
  In x [] = Lift {0, ℓ} ⊥
  In x (y ∷ ys) = (x ≡ y) ⊎ In x ys

  pub All-append {κ} : (P : A → Type κ) (xs ys : List A) → All P xs → All P ys → All P (xs ++ ys)
  All-append P [] ys h k = k
  All-append P (x ∷ xs) ys (h, hs) k = (h, All-append P xs ys hs k)

  pub All-append_right {κ} : (P : A → Type κ) (xs ys : List A) → All P (xs ++ ys) → All P ys
  All-append_right P [] ys h = h
  All-append_right P (x ∷ xs) ys (_, h) = All-append_right P xs ys h

  pub All-keep_if {κ} :
      (P : A → Type κ) (p : A → Bool) (xs : List A) → All P xs → All P (keep_if p xs)
  All-keep_if P p [] h = tt
  All-keep_if P p (x ∷ xs) (h, hs) = ground (arith, All-keep_if P p xs hs)

  pub All-map_to {κ λ'} :
      (P : A → Type κ) (Q : A → Type λ') (xs : List A) → ((x : A) → P x → Q x) → All P xs → All Q xs
  All-map_to P Q [] f h = tt
  All-map_to P Q (x ∷ xs) f (h, hs) = (f x h, All-map_to P Q xs f hs)

  pub In-append_left : (x : A) (xs ys : List A) → In x xs → In x (xs ++ ys)
  In-append_left x [] ys h = absurd h.lower
  In-append_left x (y ∷ xs) ys (inl e) = inl e
  In-append_left x (y ∷ xs) ys (inr h) = inr (In-append_left x xs ys h)

  pub In-append_right : (x : A) (xs ys : List A) → In x ys → In x (xs ++ ys)
  In-append_right x [] ys h = h
  In-append_right x (y ∷ xs) ys h = inr (In-append_right x xs ys h)

  pub All-of_In {κ} : (P : A → Type κ) (xs : List A) → ((x : A) → In x xs → P x) → All P xs
  All-of_In P [] k = tt
  All-of_In P (x ∷ xs) k = (k x (inl refl), All-of_In P xs (λ y i. k y (inr i)))

  pub In-All {κ} : (P : A → Type κ) (xs : List A) → All P xs → (x : A) → In x xs → P x
  In-All P [] all x h = absurd h.lower
  In-All P (y ∷ ys) (here, all) x (inl same) = subst P (sym same) here
  In-All P (y ∷ ys) (here, all) x (inr h) = In-All P ys all x h
