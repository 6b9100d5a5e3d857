-- ===== src/Result.antt =====
-- Errors as values: one constructor of `Error` for each message that the modelled code throws
-- (src/constants.ts and the literals at the throw sites); a call that can throw returns a `Result`.
use elusiv_sdk.Base.{◌≡◌, refl, ap, List, [], ◌∷◌}

pub data Error : Type 0 where
  index_out_of_bounds invalid_token_type unknown_cluster division_by_zero : Error
  invalid_nonce invalid_assoc_comm_index invalid_amount invalid_metadata_length : Error
  too_large_size invalid_size invalid_conversion_rate could_not_fetch_data : Error
  could_not_find_commitment invalid_read failed_to_reconstruct two_sends_same_nonce : Error
  merge_needed invalid_tx_type different_lengths empty_tx_response no_init_tx : Error
  empty_n_hashes_not_last invalid_access out_of_fuel root_required : Error
  too_small_size invalid_token_amount invalid_tx_data missing_signature invalid_proof_type : Error
  failed_to_parse failed_to_find_transfer invalid_store invalid_send fetch_failed no_sig_found
        account_error not_confirmed :
      Error

pub data Result {ℓ} (T : Type ℓ) : Type ℓ where
  ok : T → Result T
  err : Error → Result T

infixl 5 ◌>>=◌
-- A call that throws ends the chain.
abbrev pub ◌>>=◌ {ℓ κ} : {S : Type ℓ} {T : Type κ} → Result S → (S → Result T) → Result T
err thrown >>= next = err thrown
ok value >>= next = next value

-- What a chain that returned has gone through.
pub >>=-eq-ok {ℓ κ} :
    {S : Type ℓ} {T : Type κ} {final : T} (first : Result S) (next : S → Result T)
    → (first >>= next) ≡ ok final
    → (value : S) × (first ≡ ok value) × (next value ≡ ok final)
>>=-eq-ok (err thrown) next returned = cc
>>=-eq-ok (ok value) next returned = (value, refl, returned)

abbrev pub or_else {ℓ} : {A : Type ℓ} → Result A → A → A
or_else (ok a) d = a
or_else (err e) d = d

pub ok-injective {ℓ} : {A : Type ℓ} {a b : A} → ok a ≡ ok b → a ≡ b
ok-injective {a = a} p = ap (λ r. or_else r a) p

abbrev pub map_ok {ℓ κ} : {A : Type ℓ} {B : Type κ} → (A → B) → Result A → Result B
map_ok f (ok a) = ok (f a)
map_ok f (err thrown) = err thrown

-- `Array.prototype.map` with a callback that can throw.
unfoldable pub map_result {ℓ κ} :
    {A : Type ℓ} {B : Type κ} → (A → Result B) → List A → Result (List B)
map_result f [] = ok []
map_result f (x ∷ xs) = do y ← f x; ys ← map_result f xs; ok (y ∷ ys)
