-- ===== src/Fee/Store.antt =====
-- bigIntUtils.ts and FeeCalculator.ts: the rounded division, and when a topup fee can be computed.
use elusiv_sdk.Base.{
  ℕ, zero, suc, ◌+◌, ◌*◌, ◌/◌, ◌^◌, ◌≤◌, ◌<◌, ◌≡◌, refl, arith, ltb, leb, ◌∙◌, ltb→lt, get_elem?,
  Bool-cases, inl, inr, true, false, some,
}
use elusiv_sdk.Result.{ok, err, division_by_zero, too_large_size, ◌>>=◌}
use elusiv_sdk.Constants.{max_batching_rate}
use elusiv_sdk.Fee.{
  FeeCalculator, div_ceil_big_int, commitment_hash_fee, get_commitment_hash_tx_count,
  get_commitments_per_batch, hash_tx_compensation, tx_count_mapping,
}
use native.Mathlib.Decide.{dec_le}
use native.Mathlib.Nat.{div-add-mod, mod-lt, one-le-pow}

mul_mono : (m q b : ℕ) → m ≤ q → m * b ≤ q * b
mul_mono m q b h = grind arith

-- A number whose product reaches the dividend is not below the quotient, and above it if the division
-- leaves a remainder.
quotient_least : (a b q m : ℕ) → q * b ≤ a → 0 < b → a ≤ m * b → q ≤ m
quotient_least a b q m low pos_b h = elim (dec_le q m) [
  | yes p ↦ p
  | no p ↦
      let step : (m + 1) * b ≤ q * b = mul_mono (m + 1) q b (omega arith) in
      absurd (omega (arith, step))
]

quotient_above : (a b q m : ℕ) → q * b < a → a ≤ m * b → q + 1 ≤ m
quotient_above a b q m low h = elim (dec_le (q + 1) m) [
  | yes p ↦ p
  | no p ↦ let step : m * b ≤ q * b = mul_mono m q b (omega arith) in absurd (omega (arith, step))
]

-- `divCeilBigInt` throws on the divisor 0, and else gives the least number whose product with the
-- divisor reaches the dividend.
pub div_ceil_big_int_lem :
    (a b : ℕ)
    → (b ≡ 0 → div_ceil_big_int a b ≡ err division_by_zero)
      × (0 < b
          → (q : ℕ) × (div_ceil_big_int a b ≡ ok q) × (a ≤ q * b) × ((m : ℕ) → a ≤ m * b → q ≤ m))
unfolding div_ceil_big_int
div_ceil_big_int_lem a b = (λ e. ground arith, λ h. by_remainder h)
  where
    by_remainder :
        0 < b
        → (q : ℕ) × (div_ceil_big_int a b ≡ ok q) × (a ≤ q * b) × ((m : ℕ) → a ≤ m * b → q ≤ m)
    by_remainder h =
        let whole = div-add-mod a b in
        let part = mod-lt a h in
        elim (Bool-cases (ltb (a / b * b) a)) [
          | inl more ↦ (
            a / b + 1,
            ground arith,
            omega arith,
            λ m k. quotient_above a b (a / b) m (ltb→lt _ _ more) k,
          )
          | inr exact ↦ (
            a / b,
            ground arith,
            ground arith,
            λ m k. quotient_least a b (a / b) m (omega arith) h k,
          )
        ]

in_table :
    (rate : ℕ) → rate ≤ max_batching_rate → (n : ℕ) × (get_elem? tx_count_mapping rate ≡ some n)
in_table zero h = (24, refl)
in_table (suc zero) h = (24, refl)
in_table (suc (suc zero)) h = (25, refl)
in_table (suc (suc (suc zero))) h = (29, refl)
in_table (suc (suc (suc (suc zero)))) h = (37, refl)
in_table (suc (suc (suc (suc (suc n))))) h = absurd (omega arith)

hash_tx_count_ok :
    (c : FeeCalculator) (n : ℕ)
    → c.min_batching_rate ≤ max_batching_rate
    → get_elem? tx_count_mapping c.min_batching_rate ≡ some n
    → get_commitment_hash_tx_count c ≡ ok n
unfolding get_commitment_hash_tx_count
hash_tx_count_ok c n h e =
    let fits : ltb max_batching_rate c.min_batching_rate ≡ false = ground arith in rw (fits, e)

commitments_per_batch_ok :
    (c : FeeCalculator)
    → c.min_batching_rate ≤ max_batching_rate
    → get_commitments_per_batch c ≡ ok (2 ^ c.min_batching_rate)
unfolding get_commitments_per_batch
commitments_per_batch_ok c h =
    let fits : leb 53 c.min_batching_rate ≡ false = ground arith in rw fits

commitment_hash_fee_eq :
    (c : FeeCalculator)
    → commitment_hash_fee c ≡ (
        get_commitment_hash_tx_count c >>= λ n.
        get_commitments_per_batch c >>= λ k. div_ceil_big_int (n * hash_tx_compensation c) k)
unfolding commitment_hash_fee
commitment_hash_fee_eq c = refl

-- A batching rate above 4 makes the hash fee fail. For the rates 0 to 4 it is the least amount that,
-- from each of the `2 ^ rate` commitments of a batch, pays for the batch's hash transactions.
pub commitment_hash_fee_lem :
    (c : FeeCalculator)
    → (max_batching_rate < c.min_batching_rate → commitment_hash_fee c ≡ err too_large_size)
      × (c.min_batching_rate ≤ max_batching_rate
          → (fee : ℕ) × (count : ℕ) × (commitment_hash_fee c ≡ ok fee)
            × (get_commitment_hash_tx_count c ≡ ok count)
            × (count * hash_tx_compensation c ≤ fee * 2 ^ c.min_batching_rate)
            × ((m : ℕ) → count * hash_tx_compensation c ≤ m * 2 ^ c.min_batching_rate → fee ≤ m))
commitment_hash_fee_lem c = (
  λ h. too_large h,
  λ h.
      let (count, e) = in_table c.min_batching_rate h in
      let (fee, computed, pays, least) =
        (div_ceil_big_int_lem (count * hash_tx_compensation c) (2 ^ c.min_batching_rate)).1
          (one-le-pow c.min_batching_rate 2 (omega arith)) in
      (
        fee,
        count,
        commitment_hash_fee_eq c
            ∙ rw (hash_tx_count_ok c count h e, commitments_per_batch_ok c h) computed,
        hash_tx_count_ok c count h e,
        pays,
        least,
      ),
)
  where
    too_large : max_batching_rate < c.min_batching_rate → commitment_hash_fee c ≡ err too_large_size
    too_large h =
        unfold commitment_hash_fee in
        (let big : ltb max_batching_rate c.min_batching_rate ≡ true = ground arith in rw big)
