-- ===== src/Viewer/Amounts.antt =====
-- elusivViewer.ts: which balances of the pool a transaction shows.
use elusiv_sdk.Base.{
  some-injective, none-not_some, ℕ, ◌≡◌, ◌≢◌, refl, ap, arith, Bool, true, false, ◌&&◌, String,
  Option, none, some, List, [], ◌∷◌, keep_if, Bool-cases, inl, inr, ◌⊎◌, ◌↔◌, All,
}
use elusiv_sdk.Base.Eq.{beq, beq_iff, string_eq}
use elusiv_sdk.Viewer.{TokenBalance, only_one, token_amount, lamport_amount, lamport_amount_of}

-- The first account that is the pool has this balance.
abbrev pub ShowsLamports : String → List String → List ℕ → ℕ → Type 0
ShowsLamports pool (key ∷ keys) (b ∷ bs) n =
    ((key ≡ pool) × (b ≡ n)) ⊎ ((key ≢ pool) × ShowsLamports pool keys bs n)
ShowsLamports pool _ _ n = ⊥

abbrev pub IsOfPool : String → String → TokenBalance → Type 0
IsOfPool pool mint t = (t.owner ≡ pool) × (t.mint ≡ mint)

-- One of the balances is the pool's in this token, and no other is.
abbrev pub ShowsToken : String → String → List TokenBalance → ℕ → Type 0
ShowsToken pool mint [] n = ⊥
ShowsToken pool mint (t ∷ ts) n =
    (IsOfPool pool mint t × (t.amount ≡ n) × All (λ (u : TokenBalance). ¬ IsOfPool pool mint u) ts)
    ⊎ ((¬ IsOfPool pool mint t) × ShowsToken pool mint ts n)

-- A list that is there shows the balance.
abbrev pub InList {ℓ} : {A : Type ℓ} → (List A → ℕ → Type 0) → Option (List A) → ℕ → Type 0
InList Shows none n = ⊥
InList Shows (some xs) n = Shows xs n

lamport_amount-ShowsLamports :
    (pool : String) (keys : List String) (bs : List ℕ) (n : ℕ)
    → (lamport_amount pool keys bs ≡ some n) ↔ ShowsLamports pool keys bs n
unfolding lamport_amount
lamport_amount-ShowsLamports pool [] bs n = (λ e. none-not_some n e, λ h. absurd h)
lamport_amount-ShowsLamports pool (key ∷ keys) [] n = (λ e. none-not_some n e, λ h. absurd h)
lamport_amount-ShowsLamports pool (key ∷ keys) (b ∷ bs) n =
    let later = lamport_amount-ShowsLamports pool keys bs n in
    elim (Bool-cases (beq key pool)) [
      | inl hit ↦ (
        λ e. inl ((beq_iff key pool).0 hit, some-injective (rw hit at e)),
        λ shown. elim shown [
          | inl here ↦ rw hit (ap some here.1)
          | inr other ↦ absurd (other.0 ((beq_iff key pool).0 hit))
        ],
      )
      | inr miss ↦ (
        λ e. inr (λ same. let hit = (beq_iff key pool).1 same in cc, later.0 (rw miss at e)),
        λ shown. elim shown [
          | inl here ↦ let hit = (beq_iff key pool).1 here.0 in absurd (cc)
          | inr other ↦ rw miss (later.1 other.1)
        ],
      )
    ]

module _ (pool mint : String) where
  abbrev is_pools : TokenBalance → Bool
  is_pools t = beq t.owner pool && beq t.mint mint

  is_pools-IsOfPool : (t : TokenBalance) → (is_pools t ≡ true) ↔ IsOfPool pool mint t
  is_pools-IsOfPool t = ground (arith, beq_iff t.owner pool, beq_iff t.mint mint)

  other_pool : (t : TokenBalance) → is_pools t ≡ false → ¬ IsOfPool pool mint t
  other_pool t miss own = let hit = (is_pools-IsOfPool t).1 own in cc

  unmatched : (t : TokenBalance) → ¬ IsOfPool pool mint t → is_pools t ≡ false
  unmatched t other = elim (Bool-cases (is_pools t)) [
    | inl hit ↦ absurd (other ((is_pools-IsOfPool t).0 hit))
    | inr miss ↦ miss
  ]

  none_kept :
      (ts : List TokenBalance)
      → (keep_if is_pools ts ≡ []) ↔ All (λ (u : TokenBalance). ¬ IsOfPool pool mint u) ts
  none_kept [] = (λ e. tt, λ h. refl)
  none_kept (t ∷ ts) =
      let rest = none_kept ts in
      elim (Bool-cases (is_pools t)) [
        | inl hit ↦ (
          λ e. let more = rw hit at e in absurd (cc),
          λ h. absurd (h.0 ((is_pools-IsOfPool t).0 hit)),
        )
        | inr miss ↦ (λ e. (other_pool t miss, rest.0 (rw miss at e)), λ h. rw miss (rest.1 h.1))
      ]

  only_one_head :
      (t : TokenBalance) (ts : List TokenBalance) (n : ℕ)
      → (only_one (t ∷ ts) ≡ some n) ↔ ((t.amount ≡ n) × (ts ≡ []))
  only_one_head t [] n = (λ e. (some-injective e, refl), λ h. ap some h.0)
  only_one_head t (u ∷ ts) n = (λ e. absurd (none-not_some n e), λ h. let more = h.1 in absurd (cc))

  only_one-ShowsToken :
      (ts : List TokenBalance) (n : ℕ)
      → (only_one (keep_if is_pools ts) ≡ some n) ↔ ShowsToken pool mint ts n
  only_one-ShowsToken [] n = (λ e. none-not_some n e, λ h. absurd h)
  only_one-ShowsToken (t ∷ ts) n =
      let later = only_one-ShowsToken ts n in
      let first = only_one_head t (keep_if is_pools ts) n in
      let others = none_kept ts in
      elim (Bool-cases (is_pools t)) [
        | inl hit ↦ (
          λ e.
              let (amount, alone) = first.0 (rw hit at e) in
              inl ((is_pools-IsOfPool t).0 hit, amount, others.0 alone),
          λ shown. elim shown [
            | inl here ↦ rw hit (first.1 (here.1, others.1 here.2))
            | inr other ↦ absurd (other.0 ((is_pools-IsOfPool t).0 hit))
          ],
        )
        | inr miss ↦ (
          λ e. inr (other_pool t miss, later.0 (rw miss at e)),
          λ shown. elim shown [
            | inl here ↦ absurd (other_pool t miss here.0)
            | inr other ↦ rw miss (later.1 other.1)
          ],
        )
      ]

  pub token_amount-InList :
      (ts : Option (List TokenBalance)) (n : ℕ)
      → (token_amount pool mint ts ≡ some n) ↔ InList (ShowsToken pool mint) ts n
  unfolding token_amount
  token_amount-InList none n = (λ e. none-not_some n e, λ h. absurd h)
  token_amount-InList (some ts) n = only_one-ShowsToken ts n

  pub lamport_amount_of-InList :
      (keys : List String) (bs : Option (List ℕ)) (n : ℕ)
      → (lamport_amount_of pool keys bs ≡ some n) ↔ InList (ShowsLamports pool keys) bs n
  lamport_amount_of-InList keys none n = (λ e. none-not_some n e, λ h. absurd h)
  lamport_amount_of-InList keys (some bs) n = lamport_amount-ShowsLamports pool keys bs n
