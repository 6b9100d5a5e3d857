-- ===== src/Serialization/Roots.antt =====
-- TransactionSerialization.ts: the roots are written once where they are the same.
use elusiv_sdk.Base.{
  ℕ, ◌≡◌, ◌≢◌, refl, sym, ◌∙◌, arith, ◌||◌, true, false, Option, none, some, List, [], ◌∷◌, All,
  ◌==◌, Bool-cases, inl, inr,
}
use elusiv_sdk.Result.{Result, ok, err, map_result, map_ok, >>=-eq-ok, ok-injective, ◌>>=◌}
use elusiv_sdk.Serialization.{Serializer, U256Serialized, serialize_u256_big_int}
use elusiv_sdk.Serialization.JoinSplit.{serialize_roots, serialize_later_root}

-- How the Wardens read a list of roots: `null` stands for the first one.
abbrev root_or_first : U256Serialized → Option U256Serialized → U256Serialized
root_or_first first none = first
root_or_first first (some root) = root

abbrev fill_roots : U256Serialized → List (Option U256Serialized) → List U256Serialized
fill_roots first [] = []
fill_roots first (r ∷ rs) = root_or_first first r ∷ fill_roots first rs

unfoldable pub read_roots : List (Option U256Serialized) → List U256Serialized
read_roots [] = []
read_roots (none ∷ rs) = []
read_roots (some first ∷ rs) = first ∷ fill_roots first rs

pub later_null :
    (lib : Serializer) (first_root root : ℕ)
    → (root == 0 || root == first_root) ≡ true
    → serialize_later_root lib first_root root ≡ ok none
unfolding serialize_later_root
later_null lib first_root root test = rw test refl

pub later_own :
    (lib : Serializer) (first_root root : ℕ)
    → (root == 0 || root == first_root) ≡ false
    → serialize_later_root lib first_root root ≡ map_ok some (serialize_u256_big_int lib root)
unfolding serialize_later_root
later_own lib first_root root test = rw test refl

pub map_ok-some :
    {A : Type 0} (m : Result A) (o : Option A)
    → map_ok some m ≡ ok o
    → (a : A) × (m ≡ ok a) × (o ≡ some a)
map_ok-some (ok a) o done = (a, refl, sym (ok-injective done))
map_ok-some (err thrown) o done = cc

later_read :
    (lib : Serializer) (first_root root : ℕ) (first : U256Serialized) (r : Option U256Serialized)
    → root ≢ 0
    → serialize_u256_big_int lib first_root ≡ ok first
    → serialize_later_root lib first_root root ≡ ok r
    → serialize_u256_big_int lib root ≡ ok (root_or_first first r)
later_read lib first_root root first r used written done =
    elim (Bool-cases (root == 0 || root == first_root)) [
      | inl test ↦
          let equal : root ≡ first_root = ground arith in
          let null = ok-injective (sym (later_null lib first_root root test) ∙ done) in
          rw (equal, sym null) written
      | inr test ↦
          let (a, own, made) =
            map_ok-some (serialize_u256_big_int lib root) r
              (sym (later_own lib first_root root test) ∙ done) in
          rw (made, own) refl
    ]

later_roots_read :
    (lib : Serializer) (first_root : ℕ) (first : U256Serialized) (roots : List ℕ)
    (rs : List (Option U256Serialized))
    → All (λ root. root ≢ 0) roots
    → serialize_u256_big_int lib first_root ≡ ok first
    → map_result (serialize_later_root lib first_root) roots ≡ ok rs
    → map_result (serialize_u256_big_int lib) roots ≡ ok (fill_roots first rs)
unfolding map_result
later_roots_read lib first_root first [] rs used written done = rw (sym (ok-injective done)) refl
later_roots_read lib first_root first (root ∷ roots) rs (u, used) written done =
    let (r, made, rest) = >>=-eq-ok (serialize_later_root lib first_root root) _ done in
    let (rs', made', rest') =
      >>=-eq-ok (map_result (serialize_later_root lib first_root) roots) _ rest in
    let one = later_read lib first_root root first r u written made in
    let more = later_roots_read lib first_root first roots rs' used written made' in
    rw (sym (ok-injective rest'), one, more) refl

pub roots_eq :
    (lib : Serializer) (first_root : ℕ) (roots : List ℕ)
    → serialize_roots lib (first_root ∷ roots) ≡ (
        serialize_u256_big_int lib first_root >>= λ first.
        map_result (serialize_later_root lib first_root) roots >>= λ rest. ok (some first ∷ rest))
unfolding serialize_roots
roots_eq lib first_root roots = refl

-- What the roots are written as reads back as the bytes of each of them, if none after the first one is 0.
pub read_roots-serialize_roots :
    (lib : Serializer) (first_root : ℕ) (roots : List ℕ) (rs : List (Option U256Serialized))
    → All (λ root. root ≢ 0) roots
    → serialize_roots lib (first_root ∷ roots) ≡ ok rs
    → map_result (serialize_u256_big_int lib) (first_root ∷ roots) ≡ ok (read_roots rs)
unfolding map_result read_roots
read_roots-serialize_roots lib first_root roots rs used done =
    let (first, written, rest) =
      >>=-eq-ok (serialize_u256_big_int lib first_root) _
        (sym (roots_eq lib first_root roots) ∙ done) in
    let (tail, made, ended) =
      >>=-eq-ok (map_result (serialize_later_root lib first_root) roots) _ rest in
    let more = later_roots_read lib first_root first roots tail used written made in
    rw (sym (ok-injective ended), written, more) refl
