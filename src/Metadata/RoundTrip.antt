-- ===== src/Metadata/RoundTrip.antt =====
-- CommitmentMetadata.ts: metadata comes back from its bytes.
use mathlib.Core.List.{append_assoc}
use elusiv_sdk.Base.{
  ℕ, ◌≤◌, ◌≡◌, refl, sym, ap, ◌∙◌, arith, some, List, [], ◌∷◌, ◌++◌, concat, length, length-append,
  ==_iff,
}
use elusiv_sdk.Base.Int.{pos}
use elusiv_sdk.Base.Slice.{slice, slice_between}
use elusiv_sdk.Result.{ok, ◌>>=◌}
use elusiv_sdk.Constants.{max_uint20, max_uint32, max_uint64}
use elusiv_sdk.Token.{get_number_from_token_type, get_token_type_from_number}
use elusiv_sdk.Token.Laws.{get_token_type_from_number-get_number_from_token_type}
use elusiv_sdk.Transaction.{CommitmentMetadata}
use elusiv_sdk.Metadata.{Serialization, IsSerialization, make_metadata, to_bytes, from_bytes}

-- What the constructor lets through.
pub record IsValid (m : CommitmentMetadata) : Type 0 where
  pub nonce_fits : m.nonce ≤ max_uint32
  pub index_fits : m.assoc_comm_index ≤ max_uint20
  pub balance_fits : m.balance ≤ max_uint64

make_valid :
    (m : CommitmentMetadata)
    → IsValid m
    → make_metadata m.nonce m.token_type m.assoc_comm_index m.balance ≡ ok m
unfolding make_metadata
make_valid m v = ground arith

-- The slices that `fromBytes` takes of four parts of 4, 2, 3 and 8 bytes.
parts :
    (a b c d : List ℕ)
    → length a ≡ 4
    → length b ≡ 2
    → length c ≡ 3
    → length d ≡ 8
    → let bs = concat (a ∷ b ∷ c ∷ d ∷ []) in
      (length bs ≡ 17)
      × (slice bs (pos 0) (some (pos 4)) ≡ a)
      × (slice bs (pos 4) (some (pos 6)) ≡ b)
      × (slice bs (pos 6) (some (pos 9)) ≡ c)
      × (slice bs (pos 9) (some (pos 17)) ≡ d)
parts a b c d la lb lc ld =
    let third =
      slice_between {A = ℕ} (a ++ b) c (d ++ []) 6 9 (omega (arith, length-append a b))
        (omega arith) in
    let fourth =
      slice_between {A = ℕ} ((a ++ b) ++ c) d [] 9 17
        (omega (arith, length-append (a ++ b) c, length-append a b)) (omega arith) in
    (
      omega (
        arith,
        length-append a (b ++ (c ++ (d ++ []))),
        length-append b (c ++ (d ++ [])),
        length-append c (d ++ []),
        length-append d [],
      ),
      slice_between [] a (b ++ (c ++ (d ++ []))) 0 4 refl (omega arith),
      slice_between a b (c ++ (d ++ [])) 4 6 la (omega arith),
      rw (append_assoc a b (c ++ (d ++ []))) at third,
      rw (append_assoc (a ++ b) c (d ++ []), append_assoc a b (c ++ (d ++ []))) at fourth,
    )

from_bytes_parts :
    (lib : Serialization) (bs : List ℕ)
    → length bs ≡ lib.commitment_metadata_length
    → from_bytes lib bs ≡ (
        get_token_type_from_number (lib.deserialize_uint16_le (slice bs (pos 4) (some (pos 6))))
        >>= λ token_type.
            make_metadata
              (lib.deserialize_uint32_le (slice bs (pos 0) (some (pos 4))))
              token_type
              (lib.deserialize_uint_le (slice bs (pos 6) (some (pos 9))) 3)
              (lib.deserialize_uint64_le (slice bs (pos 9) (some (pos 17)))))
unfolding from_bytes
from_bytes_parts lib bs same =
    let passes = (==_iff (length bs) lib.commitment_metadata_length).1 same in rw passes refl

to_bytes_ok :
    (lib : Serialization) (m : CommitmentMetadata) (token : ℕ)
    → get_number_from_token_type m.token_type ≡ ok token
    → to_bytes lib m
      ≡ ok (
          concat (
            lib.serialize_uint32_le m.nonce
            ∷ lib.serialize_uint16_le token
            ∷ lib.serialize_uint_le m.assoc_comm_index 3
            ∷ lib.serialize_uint64_le m.balance
            ∷ []))
unfolding to_bytes
to_bytes_ok lib m token e = simp (e)

-- Metadata that the constructor lets through comes back from its bytes, if the number formats read what
-- they write and have their number of bytes.
pub from_bytes-to_bytes :
    (lib : Serialization) (m : CommitmentMetadata)
    → IsSerialization lib
    → IsValid m
    → (to_bytes lib m >>= from_bytes lib) ≡ ok m
from_bytes-to_bytes lib m laws v =
    let (token, numbered, small, back, named) =
      get_token_type_from_number-get_number_from_token_type m.token_type in
    let (len, p1, p2, p3, p4) =
      parts (lib.serialize_uint32_le m.nonce) (lib.serialize_uint16_le token)
        (lib.serialize_uint_le m.assoc_comm_index 3) (lib.serialize_uint64_le m.balance)
        (laws.length32 m.nonce) (laws.length16 token) (laws.length_any m.assoc_comm_index 3)
        (laws.length64 m.balance) in
    ap (λ r. r >>= from_bytes lib) (to_bytes_ok lib m token numbered)
    ∙ from_bytes_parts lib _ (len ∙ sym laws.metadata_length)
    ∙ rw
        (
          p1,
          p2,
          p3,
          p4,
          laws.read16 token (omega arith),
          laws.read32 m.nonce (omega (arith, v.nonce_fits)),
          laws.read64 m.balance (omega (arith, v.balance_fits)),
          laws.read_any m.assoc_comm_index 3 (omega (arith, v.index_fits)),
          back,
        )
        (make_valid m v)
