-- ===== src/Serialization/Numbers.antt =====
-- TransactionSerialization.ts: the 32 bytes of a number.
use native.Mathlib.Numerals.{unary_clauses}
use elusiv_sdk.Base.{
  ℕ, zero, suc, ◌-◌, ◌^◌, ◌≤◌, ◌<◌, ◌≡◌, refl, sym, ap, ◌∙◌, ◌⊎◌, arith, List, [], ◌∷◌, ◌++◌,
  length, length-append, All, All-append, ltb, inl, inr, Bool-cases, ltb→lt,
}
use elusiv_sdk.Result.{ok, err, too_large_size, ok-injective}
use elusiv_sdk.Serialization.{
  Serializer, IsSerializer, zeros, le_value, serialize_u256_bytes, serialize_u256_big_int,
}

abbrev pub AreBytes : List ℕ → Type 0
AreBytes bs = All (λ b. b < 256) bs

length-zeros : (n : ℕ) → length (zeros n) ≡ n
length-zeros zero = refl
length-zeros (suc n) = ap suc (length-zeros n)

pub zeros-AreBytes : (n : ℕ) → AreBytes (zeros n)
zeros-AreBytes zero = tt
zeros-AreBytes (suc n) = (omega arith, zeros-AreBytes n)

le_value-zeros : (n : ℕ) → le_value (zeros n) ≡ 0
le_value-zeros zero = refl
le_value-zeros (suc n) = omega (arith, le_value-zeros n)

le_value-append_zeros : (bs : List ℕ) (n : ℕ) → le_value (bs ++ zeros n) ≡ le_value bs
le_value-append_zeros [] n = le_value-zeros n
le_value-append_zeros (b ∷ bs) n = omega (arith, le_value-append_zeros bs n)

le_value-lt : (bs : List ℕ) → AreBytes bs → le_value bs < 256 ^ length bs
le_value-lt [] h = omega arith
le_value-lt (b ∷ bs) (small, h) = simp unary_clauses (omega (arith, le_value-lt bs h, small))

-- What 32 bytes that stand for `n` are.
pub record Encodes (n : ℕ) (bs : List ℕ) : Type 0 where
  pub size : length bs ≡ 32
  pub bytes : AreBytes bs
  pub value : le_value bs ≡ n

Encodes-lt : (n : ℕ) (bs : List ℕ) → Encodes n bs → n < 256 ^ 32
Encodes-lt n bs e =
    let bound = le_value-lt bs e.bytes in let bound' = rw (e.size, e.value) at bound in bound'

module _ (lib : Serializer) (laws : IsSerializer lib) where
  padded : (bs : List ℕ) → length bs < 32 → AreBytes bs → Encodes (le_value bs) (lib.pad_le bs 32)
  padded bs short h = rw (laws.pads bs 32 short) (record {
    size =
        omega
          (arith, short, length-append bs (zeros (32 - length bs)), length-zeros (32 - length bs));
    bytes = All-append _ bs (zeros (32 - length bs)) h (zeros-AreBytes (32 - length bs));
    value = le_value-append_zeros bs (32 - length bs);
  })

  written :
      (bs : List ℕ)
      → length bs ≤ 32
      → AreBytes bs
      → (r : List ℕ) × (serialize_u256_bytes lib bs ≡ ok r) × Encodes (le_value bs) r
  unfolding serialize_u256_bytes
  written bs fits h = elim (Bool-cases (ltb (length bs) 32)) [
    | inl short ↦ (lib.pad_le bs 32, ground (arith), padded bs (ltb→lt _ _ short) h)
    | inr full ↦ (bs, ground arith, record { size = ground arith; bytes = h; value = refl })
  ]

  -- A number is written as 32 bytes that stand for it if it is below 2 ^ 256, and refused otherwise.
  pub serialize_u256_big_int_lem :
      (n : ℕ)
      → ((n < 256 ^ 32) × (r : List ℕ) × (serialize_u256_big_int lib n ≡ ok r) × Encodes n r)
        ⊎ ((256 ^ 32 ≤ n) × (serialize_u256_big_int lib n ≡ err too_large_size))
  unfolding serialize_u256_big_int serialize_u256_bytes
  serialize_u256_big_int_lem n =
      let bs = lib.big_int_to_uint8_arr_le n in
      elim (Bool-cases (ltb 32 (length bs))) [
        | inl long ↦ inr (ground (arith, laws.fits n), rw long refl)
        | inr fits ↦
            let (r, done, good) = written bs (ground arith) (laws.are_bytes n) in
            let same = rw (laws.reads_back n) at good in inl (Encodes-lt n r same, r, done, same)
      ]

  -- What was written stands for its number.
  pub serialized-Encodes : (n : ℕ) (r : List ℕ) → serialize_u256_big_int lib n ≡ ok r → Encodes n r
  serialized-Encodes n r done = elim (serialize_u256_big_int_lem n) [
    | inl (small, r', done', good) ↦ rw (ok-injective (sym done' ∙ done)) at good
    | inr (large, thrown) ↦ cc
  ]
