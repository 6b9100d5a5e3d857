-- ===== src/Instruction/Roots.antt =====
-- InitVerificationInstructionBase.ts: the roots and nullifier hashes of an instruction, from and to the
-- input commitments of its borsh structure.
use elusiv_sdk.Base.{
  ℕ, zero, suc, ◌+◌, ◌-◌, Option, none, some, List, [], ◌∷◌, get_elem?, if◌then◌else◌, ◌==◌, map,
}
use elusiv_sdk.Result.{Result, ok, err, invalid_access, root_required, ◌>>=◌}
use elusiv_sdk.Serialization.Borsh.{InputCommitmentBorsh}
use elusiv_sdk.Instruction.{Library}
use elusiv_sdk.Instruction.Init.{Root}

-- An element, or the TypeError of using `undefined`.
abbrev pub present_or {ℓ} : {A : Type ℓ} → Option A → Result A
present_or none = err invalid_access
present_or (some a) = ok a

module _ (lib : Library) where
  -- The roots after the first one, from place `i`: a root that is missing or 0 is the first object.
  unfoldable pub parse_later_roots : Root → ℕ → List (Option ℕ) → List Root
  parse_later_roots first i [] = []
  parse_later_roots first i (none ∷ roots) = first ∷ parse_later_roots first (i + 1) roots
  parse_later_roots first i (some zero ∷ roots) = first ∷ parse_later_roots first (i + 1) roots
  parse_later_roots first i (some (suc root) ∷ roots) =
      record { object = i; bytes = lib.serialize_uint256_le (suc root) }
      ∷ parse_later_roots first (i + 1) roots

  unfoldable pub parse_roots : List (Option ℕ) → Result (List Root)
  unfolding parse_later_roots
  parse_roots (some (suc root) ∷ roots) =
      let first : Root = record { object = 0; bytes = lib.serialize_uint256_le (suc root) } in
      ok (first ∷ parse_later_roots first 1 roots)
  parse_roots _ = err root_required

  unfoldable pub encode_input_commitment : Root → Root → List ℕ → InputCommitmentBorsh
  encode_input_commitment first root n_hash = record {
    root =
        if root.object == first.object then none else some (lib.deserialize_uint256_le root.bytes);
    nullifier_hash = lib.deserialize_uint256_le n_hash;
  }

  -- `for (let i = 1; i < this.commitmentCount; i++)`, with the rounds that are left and `i`.
  unfoldable pub encode_later :
      ℕ → ℕ → Root → List Root → List (List ℕ) → Result (List InputCommitmentBorsh)
  unfolding encode_input_commitment
  encode_later zero i first roots n_hashes = ok []
  encode_later (suc left) i first roots n_hashes = do
    root ← present_or (get_elem? roots i)
    n_hash ← present_or (get_elem? n_hashes i)
    rest ← encode_later left (i + 1) first roots n_hashes
    ok (encode_input_commitment first root n_hash ∷ rest)

  unfoldable pub encode_input_commitments :
      List Root → List (List ℕ) → ℕ → Result (List InputCommitmentBorsh)
  unfolding encode_later
  encode_input_commitments [] n_hashes commitment_count = ok []
  encode_input_commitments (first ∷ roots) n_hashes commitment_count = do
    n_hash ← present_or (get_elem? n_hashes 0)
    rest ← encode_later (commitment_count - 1) 1 first (first ∷ roots) n_hashes
    ok (
        record {
          root = some (lib.deserialize_uint256_le first.bytes);
          nullifier_hash = lib.deserialize_uint256_le n_hash;
        }
        ∷ rest)

  abbrev pub hash_bytes : List InputCommitmentBorsh → List (List ℕ)
  hash_bytes comms =
      map (λ (c : InputCommitmentBorsh). lib.serialize_uint256_le c.nullifier_hash) comms
