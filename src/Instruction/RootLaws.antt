-- ===== src/Instruction/RootLaws.antt =====
-- InitVerificationInstructionBase.ts: input commitments through their objects and back.
use elusiv_sdk.Base.{
  ℕ, zero, suc, ◌+◌, ◌^◌, ◌<◌, ◌≡◌, ◌≢◌, refl, ap, ◌∙◌, arith, Option, none, some, List, [], ◌∷◌,
  All, map, length, ◌==◌, get_elem?, ◌-◌, true, false,
}
use elusiv_sdk.Result.{ok, ◌>>=◌}
use elusiv_sdk.Serialization.Borsh.{InputCommitmentBorsh}
use elusiv_sdk.Instruction.{Library}
use elusiv_sdk.Instruction.Init.{Root}
use elusiv_sdk.Instruction.Roots.{
  parse_later_roots, parse_roots, encode_input_commitment, encode_later, encode_input_commitments,
  hash_bytes, present_or,
}

-- What the number formats of 32 bytes document.
abbrev pub ReadsBack : Library → Type 0
ReadsBack lib = (n : ℕ) → n < 256 ^ 32 → lib.deserialize_uint256_le (lib.serialize_uint256_le n) ≡ n

-- A root is left out where it is the first one, and is not 0 where it is written.
abbrev pub RootFits : Option ℕ → Type 0
RootFits none = Unit
RootFits (some zero) = ⊥
RootFits (some (suc root)) = suc root < 256 ^ 32

abbrev pub Fits : InputCommitmentBorsh → Type 0
Fits c = RootFits c.root × (c.nullifier_hash < 256 ^ 32)

abbrev roots_of : List InputCommitmentBorsh → List (Option ℕ)
roots_of comms = map (λ (c : InputCommitmentBorsh). c.root) comms

module _ (lib : Library) where
  encode_step :
      (left i : ℕ) (first : Root) (roots : List Root) (hs : List (List ℕ))
      → encode_later lib (suc left) i first roots hs ≡ (
          present_or (get_elem? roots i) >>= λ root. present_or (get_elem? hs i) >>= λ h.
          encode_later lib left (i + 1) first roots hs >>= λ rest.
          ok (encode_input_commitment lib first root h ∷ rest))
  unfolding encode_later
  encode_step left i first roots hs = refl

  -- The loop over lists with one more element in front.
  encode_shift :
      (left i : ℕ) (first root : Root) (roots : List Root) (h : List ℕ) (hs : List (List ℕ))
      → encode_later lib left (suc i) first (root ∷ roots) (h ∷ hs)
        ≡ encode_later lib left i first roots hs
  encode_shift zero i first root roots h hs = unfold encode_later in refl
  encode_shift (suc left) i first root roots h hs =
      let next : suc i + 1 ≡ suc (i + 1) = omega arith in
      let rest = encode_shift left (i + 1) first root roots h hs in
      rw
        (
          encode_step left (suc i) first (root ∷ roots) (h ∷ hs),
          encode_step left i first roots hs,
          next,
          rest,
        )
        refl

  -- The object that stands for a root at place `k`.
  abbrev root_for : Root → ℕ → Option ℕ → Root
  root_for first k none = first
  root_for first k (some zero) = first
  root_for first k (some (suc root)) = record {
    object = k;
    bytes = lib.serialize_uint256_le (suc root);
  }

  parse_step :
      (first : Root) (k : ℕ) (o : Option ℕ) (os : List (Option ℕ))
      → parse_later_roots lib first k (o ∷ os)
        ≡ root_for first k o ∷ parse_later_roots lib first (k + 1) os
  unfolding parse_later_roots
  parse_step first k none os = refl
  parse_step first k (some zero) os = refl
  parse_step first k (some (suc root)) os = refl

  module _ (reads_back : ReadsBack lib) where
    one_back :
        (first : Root) (k : ℕ) (c : InputCommitmentBorsh)
        → first.object ≡ 0
        → Fits c
        → encode_input_commitment lib first
            (root_for first (suc k) c.root)
            (lib.serialize_uint256_le c.nullifier_hash)
          ≡ c
    unfolding encode_input_commitment
    one_back first k c is_first fits = by_root c.root c.nullifier_hash fits
      where
        by_root :
            (o : Option ℕ) (n : ℕ)
            → RootFits o × (n < 256 ^ 32)
            → encode_input_commitment lib first
                (root_for first (suc k) o)
                (lib.serialize_uint256_le n)
              ≡ record { root = o; nullifier_hash = n }
        by_root none n (_, small) =
            let same : (first.object == first.object) ≡ true = ground arith in
            rw (same, reads_back n small) refl
        by_root (some zero) n (no_root, small) = elim no_root [ ]
        by_root (some (suc root)) n (fits', small) =
            let other : (suc k == first.object) ≡ false = ground arith in
            rw (other, reads_back n small, reads_back (suc root) fits') refl

    later_back :
        (first : Root) (k : ℕ) (comms : List InputCommitmentBorsh)
        → first.object ≡ 0
        → All Fits comms
        → encode_later lib
            (length comms)
            0
            first
            (parse_later_roots lib first (suc k) (roots_of comms))
            (hash_bytes lib comms)
          ≡ ok comms
    later_back first k [] is_first h = unfold encode_later in refl
    later_back first k (c ∷ comms) is_first (fits, h) =
        let n = lib.serialize_uint256_le c.nullifier_hash in
        let root = root_for first (suc k) c.root in
        let others = parse_later_roots lib first (suc k + 1) (roots_of comms) in
        let next : suc k + 1 ≡ suc (suc k) = omega arith in
        let rest : encode_later lib (length comms) 0 first others (hash_bytes lib comms)
            ≡ ok comms =
          rw next (later_back first (suc k) comms is_first h) in
        ap (λ rs. encode_later lib (suc (length comms)) 0 first rs (n ∷ hash_bytes lib comms))
          (parse_step first (suc k) c.root (roots_of comms))
        ∙ encode_step (length comms) 0 first (root ∷ others) (n ∷ hash_bytes lib comms)
        ∙ rw
            (
              encode_shift (length comms) 0 first root others n (hash_bytes lib comms),
              rest,
              one_back first k c is_first fits,
            )
            refl

    parsed_roots :
        (root : ℕ) (os : List (Option ℕ))
        → let first : Root = record { object = 0; bytes = lib.serialize_uint256_le (suc root) } in
          parse_roots lib (some (suc root) ∷ os) ≡ ok (first ∷ parse_later_roots lib first 1 os)
    unfolding parse_roots
    parsed_roots root os = refl

    encoded_first :
        (first : Root) (roots : List Root) (h : List ℕ) (hs : List (List ℕ)) (count : ℕ)
        → encode_input_commitments lib (first ∷ roots) (h ∷ hs) (suc count) ≡ (
            encode_later lib count 0 first roots hs >>= λ rest. ok (
              record {
                root = some (lib.deserialize_uint256_le first.bytes);
                nullifier_hash = lib.deserialize_uint256_le h;
              }
              ∷ rest))
    encoded_first first roots h hs count =
        let shift = encode_shift count 0 first first roots h hs in
        let less : suc count - 1 ≡ count = omega arith in
        unfold encode_input_commitments in rw (less, shift) refl

    -- Input commitments come back from the roots and hashes that are read from them, if the first one
    -- has a root, no root is 0 and every number fits into 32 bytes.
    pub encode_input_commitments-parse_roots :
        (root : ℕ) (n : ℕ) (comms : List InputCommitmentBorsh)
        → let all : List InputCommitmentBorsh =
            record { root = some root; nullifier_hash = n } ∷ comms in
          root ≢ 0
          → All Fits all
          → (parse_roots lib (roots_of all) >>= λ roots.
              encode_input_commitments lib roots (hash_bytes lib all) (length all))
            ≡ ok all
    encode_input_commitments-parse_roots zero n comms used fits = absurd (used refl)
    encode_input_commitments-parse_roots (suc root) n comms used ((fits, small), h) =
        let first : Root = record { object = 0; bytes = lib.serialize_uint256_le (suc root) } in
        rw
          (
            parsed_roots root (roots_of comms),
            encoded_first first (parse_later_roots lib first 1 (roots_of comms))
                (lib.serialize_uint256_le n) (hash_bytes lib comms) (length comms),
            later_back first 0 comms refl h,
            reads_back (suc root) fits,
            reads_back n small,
          )
          refl
