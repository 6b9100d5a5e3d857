-- ===== src/Metadata/Tests.antt =====
-- Little-endian numbers as the serialization library has them, and the round trip with them.
use native.Mathlib.Nat.{pow-succ'}
use elusiv_sdk.Base.{
  ℕ, zero, suc, ◌+◌, ◌*◌, ◌/◌, ◌%◌, ◌^◌, ◌<◌, List, [], ◌∷◌, ◌≡◌, refl, ap, arith, length,
}
use elusiv_sdk.Result.{ok, err, invalid_metadata_length, ◌>>=◌}
use elusiv_sdk.Token.{usdc}
use elusiv_sdk.Transaction.{CommitmentMetadata}
use elusiv_sdk.Metadata.{Serialization, IsSerialization, to_bytes, from_bytes}
use elusiv_sdk.Metadata.RoundTrip.{IsValid, from_bytes-to_bytes}

abbrev pub bytes_le : ℕ → ℕ → List ℕ
bytes_le zero n = []
bytes_le (suc k) n = n % 256 ∷ bytes_le k (n / 256)

abbrev pub read_le : List ℕ → ℕ
read_le [] = 0
read_le (b ∷ bs) = b + 256 * read_le bs

pub length-bytes_le : (k n : ℕ) → length (bytes_le k n) ≡ k
length-bytes_le zero n = refl
length-bytes_le (suc k) n = ap suc (length-bytes_le k (n / 256))

pub read_le-bytes_le : (k n : ℕ) → n < 256 ^ k → read_le (bytes_le k n) ≡ n
read_le-bytes_le zero n h = omega arith
read_le-bytes_le (suc k) n h =
    let larger : n < 256 * 256 ^ k = rw pow-succ' at h in
    let rest = read_le-bytes_le k (n / 256) (omega arith) in omega (arith, rest)

abbrev pub little_endian : Serialization
little_endian = record {
  serialize_uint16_le = bytes_le 2;
  serialize_uint32_le = bytes_le 4;
  serialize_uint64_le = bytes_le 8;
  serialize_uint_le = λ n w. bytes_le w n;
  deserialize_uint16_le = read_le;
  deserialize_uint32_le = read_le;
  deserialize_uint64_le = read_le;
  deserialize_uint_le = λ bs w. read_le bs;
  commitment_metadata_length = 17;
}

pub little_endian-IsSerialization : IsSerialization little_endian
little_endian-IsSerialization = record {
  length16 = length-bytes_le 2;
  length32 = length-bytes_le 4;
  length64 = length-bytes_le 8;
  length_any = λ n w. length-bytes_le w n;
  read16 = λ n h. read_le-bytes_le 2 n h;
  read32 = λ n h. read_le-bytes_le 4 n h;
  read64 = λ n h. read_le-bytes_le 8 n h;
  read_any = λ n w h. read_le-bytes_le w n h;
  metadata_length = refl;
}

abbrev pub sample : CommitmentMetadata
sample = record { nonce = 258; token_type = usdc; assoc_comm_index = 7; balance = 65_536 }

pub sample-IsValid : IsValid sample
sample-IsValid = record {
  nonce_fits = omega arith;
  index_fits = omega arith;
  balance_fits = omega arith;
}

sample_bytes :
    to_bytes little_endian sample
    ≡ ok (2 ∷ 1 ∷ 0 ∷ 0 ∷ 1 ∷ 0 ∷ 7 ∷ 0 ∷ 0 ∷ 0 ∷ 0 ∷ 1 ∷ 0 ∷ 0 ∷ 0 ∷ 0 ∷ 0 ∷ [])
unfolding to_bytes
sample_bytes = refl

too_short : from_bytes little_endian (1 ∷ []) ≡ err invalid_metadata_length
unfolding from_bytes
too_short = refl

from_bytes-to_bytes_example :
    (to_bytes little_endian sample >>= from_bytes little_endian) ≡ ok sample
from_bytes-to_bytes_example =
    from_bytes-to_bytes little_endian sample little_endian-IsSerialization sample-IsValid
