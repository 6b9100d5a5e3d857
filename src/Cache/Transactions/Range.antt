-- ===== src/Cache/Transactions/Range.antt =====
-- TransactionCacher.ts: what a read of the cache over a range of nonces returns.
use elusiv_sdk.Base.{
  ℕ, zero, suc, ◌+◌, ◌-◌, ◌≤◌, ◌<◌, min, Bool, Option, none, some, List, [], ◌∷◌, ◌++◌, ◌≡◌, refl,
  ◌∙◌, arith, if◌then◌else◌, ltb, length, take, drop, All, In, All-append, All-map_to,
  In-append_left, In-append_right, Bool-cases, inl, inr, ltb→lt, lt→ltb,
}
use native.Mathlib.Decide.{dec_le}
use elusiv_sdk.Base.Int.{pos}
use elusiv_sdk.Base.Slice.{slice}
use elusiv_sdk.Transaction.{ElusivTransaction}
use elusiv_sdk.Cache.{read_at, bucket}
use elusiv_sdk.Cache.Laws.{IsCache}
use elusiv_sdk.Cache.Transactions.{TxCache, tx_nonce, same_tx, flat, get_cached_txs}

module _ {ℓ} {A : Type ℓ} where
  read_at-past : (xs : List (Option A)) (i : ℕ) → length xs ≤ i → read_at xs i ≡ none
  unfolding read_at
  read_at-past [] i h = refl
  read_at-past (x ∷ xs) zero h = absurd (omega arith)
  read_at-past (x ∷ xs) (suc i) h = read_at-past xs i (omega arith)

  read_at-take :
      (b : ℕ) (xs : List (Option A)) (i : ℕ)
      → read_at (take b xs) i ≡ (if ltb i b then read_at xs i else none)
  unfolding read_at
  read_at-take zero xs i = ground arith
  read_at-take (suc b) [] i = ground arith
  read_at-take (suc b) (x ∷ xs) zero = ground arith
  read_at-take (suc b) (x ∷ xs) (suc i) = ground (arith, read_at-take b xs i)

  read_at-drop :
      (a : ℕ) (xs : List (Option A)) (i j : ℕ) → j ≡ a + i → read_at (drop a xs) i ≡ read_at xs j
  unfolding read_at
  read_at-drop zero xs i j e = let same : j ≡ i = omega arith in rw same
  read_at-drop (suc a) [] i j e = refl
  read_at-drop (suc a) (x ∷ xs) i zero e = absurd (omega arith)
  read_at-drop (suc a) (x ∷ xs) i (suc j) e = read_at-drop a xs i j (omega arith)

module _ {A : Type 0} where
  -- A slice from `a` to `b` shows the places from `a` to `b - 1` and nothing else.
  read_at-slice :
      (xs : List (Option A)) (a b i : ℕ)
      → read_at (slice xs (pos a) (some (pos b))) i
        ≡ (if ltb (a + i) b then read_at xs (a + i) else none)
  unfolding slice
  read_at-slice xs a b i =
      read_at-drop (min a (length xs)) (take (min b (length xs)) xs) i (min a (length xs) + i) refl
      ∙ read_at-take (min b (length xs)) xs (min a (length xs) + i)
      ∙ bounded
    where
      bounded :
          (if ltb (min a (length xs) + i) (min b (length xs))
            then read_at xs (min a (length xs) + i)
            else none)
          ≡ (if ltb (a + i) b then read_at xs (a + i) else none)
      bounded = elim (dec_le a (length xs)) [
        | yes p ↦
            let low : min a (length xs) ≡ a = omega arith in
            rw low (ground (arith, read_at-past xs (a + i)))
        | no p ↦
            let low : min a (length xs) ≡ length xs = omega arith in
            rw low (ground (arith, read_at-past xs (a + i)))
      ]

module _ {ℓ} {T : Type ℓ} where
  In-flat :
      (t : T) (xs : List (Option (List T))) (i : ℕ) → In t (bucket (read_at xs i)) → In t (flat xs)
  unfolding flat read_at
  In-flat t [] i h = h
  In-flat t (x ∷ xs) zero h = In-append_left t (bucket x) (flat xs) h
  In-flat t (x ∷ xs) (suc i) h = In-append_right t (bucket x) (flat xs) (In-flat t xs i h)

  All-flat {κ} :
      (P : T → Type κ) (xs : List (Option (List T)))
      → ((i : ℕ) → All P (bucket (read_at xs i)))
      → All P (flat xs)
  unfolding flat read_at
  All-flat P [] h = tt
  All-flat P (x ∷ xs) h = All-append P (bucket x) (flat xs) (h 0) (All-flat P xs (λ i. h (suc i)))

-- The nonces do not fall along the list.
abbrev pub IsAscending : List ElusivTransaction → Type 0
IsAscending [] = Unit
IsAscending (t ∷ ts) = All (λ u. t.nonce ≤ u.nonce) ts × IsAscending ts

append-IsAscending :
    (n : ℕ) (xs ys : List ElusivTransaction)
    → All (λ t. t.nonce ≡ n) xs
    → All (λ t. n ≤ t.nonce) ys
    → IsAscending ys
    → IsAscending (xs ++ ys)
append-IsAscending n [] ys own above h = h
append-IsAscending n (x ∷ xs) ys (e, own) above h = (
  All-append (λ u. x.nonce ≤ u.nonce) xs ys (All-map_to _ _ xs (λ u same. omega arith) own)
      (All-map_to _ _ ys (λ u le. omega arith) above),
  append-IsAscending n xs ys own above h,
)

-- Buckets that stand for the nonces `n`, `n + 1` and so on.
abbrev IsRun : ℕ → List (Option (List ElusivTransaction)) → Type 0
IsRun n xs = (i : ℕ) → All (λ t. t.nonce ≡ n + i) (bucket (read_at xs i))

flat-IsAscending :
    (xs : List (Option (List ElusivTransaction))) (n : ℕ)
    → IsRun n xs
    → IsAscending (flat xs) × All (λ t. n ≤ t.nonce) (flat xs)
unfolding flat read_at
flat-IsAscending [] n h = (tt, tt)
flat-IsAscending (x ∷ xs) n h =
    let own : All (λ (t : ElusivTransaction). t.nonce ≡ n) (bucket x) =
      All-map_to _ _ (bucket x) (λ t e. omega arith) (h 0) in
    let (ascending, above) =
      flat-IsAscending xs (suc n)
        (λ i. All-map_to _ _ (bucket (read_at xs i)) (λ t e. omega arith) (h (suc i))) in
    let lower : All (λ (t : ElusivTransaction). n ≤ t.nonce) (flat xs) =
      All-map_to _ _ (flat xs) (λ t le. omega arith) above in
    (
      append-IsAscending n (bucket x) (flat xs) own lower ascending,
      All-append (λ t. n ≤ t.nonce) (bucket x) (flat xs)
          (All-map_to _ _ (bucket x) (λ t e. omega arith) own) lower,
    )

-- What a read of the nonces from `from` to `to - 1` should return.
pub record IsRange (c : TxCache) (from to : ℕ) (txs : List ElusivTransaction) : Type 0 where
  pub ascending : IsAscending txs
  pub in_range : All (λ t. (from ≤ t.nonce) × (t.nonce < to)) txs
  pub complete :
      (n : ℕ) (t : ElusivTransaction) → from ≤ n → n < to → In t (bucket (read_at c n)) → In t txs

shown :
    (c : TxCache) (from to i : ℕ)
    → ((n : ℕ) → All (λ t. t.nonce ≡ n) (bucket (read_at c n)))
    → All
        (λ t. (t.nonce ≡ from + i) × (from + i < to))
        (bucket (read_at (slice c (pos from) (some (pos to))) i))
shown c from to i own = rw (read_at-slice c from to i) (elim (Bool-cases (ltb (from + i) to)) [
  | inl inside ↦ rw inside (
      All-map_to _ _ (bucket (read_at c (from + i))) (λ t e. (e, ltb→lt (from + i) to inside))
        (own (from + i)))
  | inr outside ↦ rw outside tt
])

-- A read of a range of a well-formed cache returns, in ascending order of nonces, exactly what is
-- cached under the nonces of the range.
pub get_cached_txs-IsRange :
    (equals_uint8_arr : List ℕ → List ℕ → Bool) (c : TxCache) (from to : ℕ)
    → IsCache tx_nonce (same_tx equals_uint8_arr) c
    → IsRange c from to (get_cached_txs none (some (pos from)) (some (pos to)) c)
unfolding get_cached_txs
get_cached_txs-IsRange eq c from to h =
    let part : TxCache = slice c (pos from) (some (pos to)) in
    let run : (i : ℕ)
        → All (λ t. (t.nonce ≡ from + i) × (from + i < to)) (bucket (read_at part i)) =
      λ i. shown c from to i (λ n. (h n).0) in
    record {
      ascending =
          (flat-IsAscending part from
            (λ i. All-map_to _ _ (bucket (read_at part i)) (λ t b. b.0) (run i))).0;
      in_range =
          All-flat _ part
            (λ i. All-map_to _ _ (bucket (read_at part i)) (λ t b. omega arith) (run i));
      complete = λ n t lo hi m. In-flat t part (n - from) (there n t lo hi m);
    }
  where
    there :
        (n : ℕ) (t : ElusivTransaction)
        → from ≤ n
        → n < to
        → In t (bucket (read_at c n))
        → In t (bucket (read_at (slice c (pos from) (some (pos to))) (n - from)))
    there n t lo hi m =
        let back : from + (n - from) ≡ n = omega arith in
        rw (read_at-slice c from to (n - from), back, lt→ltb n to hi) m
