-- ===== src/Building/TopupLaws.antt =====
-- TransactionBuilding.ts: topups, and the topup that follows a merge.
use mathlib.Core.Path.{subst}
use elusiv_sdk.Base.{
  ℕ, ◌<◌, [], ◌∷◌, map, ◌≡◌, ◌≢◌, refl, sym, ap, ◌∙◌, arith, Bool, true, false, not, ◌&&◌, Option,
  none, some, String, List, length, if◌then◌else◌, ◌==◌, Bool-cases, inl, inr, ◌⊎◌,
}
use elusiv_sdk.Base.Int.{ℤ, pos, ◌+ℤ◌, ◌-ℤ◌, int_laws}
use elusiv_sdk.Result.{ok, err, >>=-eq-ok, ok-injective, merge_needed, invalid_token_amount}
use elusiv_sdk.Constants.{send_arity}
use elusiv_sdk.Token.{TokenType, TokenInfo, get_token_info, get_number_from_token_type}
use elusiv_sdk.Fee.{Fee}
use elusiv_sdk.Building.{Builder, IsBuilder, TopupRemoteParams, is_valid_amount, sum_balances}
use elusiv_sdk.Building.Topup.{
  StoreTx, is_defined, prev_nonce, private_balance, generate_topup_fee, build_topup_commitment,
  build_store_tx, topup_store_tx,
}

-- A store transaction as the code composes it.
pub record IsComposed {C I P : Type 0} (lib : Builder C I P) (params : TopupRemoteParams C)
    (merge_fee : Option ℤ) (amount : ℕ) (tx : StoreTx C) : Type 0 where
  pub sent : tx.amount ≡ amount
  pub nonce : tx.nonce ≡ prev_nonce params.last_nonce merge_fee +ℤ pos 1
  pub balance :
      tx.parsed_private_balance ≡ private_balance lib params.active_commitments amount merge_fee
  pub stored : lib.get_balance tx.commitment ≡ pos amount
  pub above_rent : (params.price.lamports_to_token params.token_acc_rent).floor < amount
  pub not_full : (length params.active_commitments ≢ send_arity) ⊎ (merge_fee ≢ none)

-- The nonce after the last one, with a place for the merge if there was one.
abbrev nonce_after : ℤ → Option ℤ → ℤ
nonce_after last none = last +ℤ pos 1
nonce_after last (some fee) = last +ℤ pos 2

abbrev total_of : List ℤ → ℤ
total_of [] = pos 0
total_of (b ∷ bs) = b +ℤ total_of bs

-- What a user holds after a topup, where a merge has taken its fee from what is active.
abbrev balance_after : List ℤ → ℕ → Option ℤ → ℤ
balance_after balances amount none = total_of balances +ℤ pos amount
balance_after balances amount (some fee) = total_of balances +ℤ pos amount -ℤ fee

-- What holds of a store transaction that was built.
pub record IsTopup {C I P : Type 0} (lib : Builder C I P) (params : TopupRemoteParams C)
    (merge_fee : Option ℤ) (amount : ℕ) (tx : StoreTx C) : Type 0 where
  pub sent : tx.amount ≡ amount
  pub nonce : tx.nonce ≡ nonce_after params.last_nonce merge_fee
  pub balance :
      tx.parsed_private_balance
      ≡ balance_after (map lib.get_balance params.active_commitments) amount merge_fee
  pub stored : lib.get_balance tx.commitment ≡ pos amount
  pub above_rent : (params.price.lamports_to_token params.token_acc_rent).floor < amount
  pub not_full : (length params.active_commitments ≢ send_arity) ⊎ (merge_fee ≢ none)

valid_amount :
    (amount rent : ℕ) (token_type : TokenType)
    → is_valid_amount amount token_type rent ≡ ok true
    → (info : TokenInfo) × (get_token_info token_type ≡ ok info)
      × (rent < amount)
      × (info.min_amount < amount)
      × (amount < info.max_amount)
valid_amount amount rent token_type done =
    unfold is_valid_amount in
    let (info, e, f) = >>=-eq-ok (get_token_info token_type) _ done in
    let tests = ok-injective f in
    (info, e, ground (arith, tests), ground (arith, tests), ground (arith, tests))

guard_true :
    (b passed : Bool) → (if b then ok true else err invalid_token_amount) ≡ ok passed → b ≡ true
guard_true true passed e = refl
guard_true false passed e = cc

module _ {C I P : Type 0} (lib : Builder C I P) where
  store-IsTopup :
      (amount : ℕ) (last balance : ℤ) (params : TopupRemoteParams C) (token_type : TokenType)
      (sender warden : String) (is_recipient : Bool) (index : ℕ) (tx : StoreTx C) (fee : Fee)
      → IsBuilder lib
      → build_store_tx lib amount last params token_type sender balance is_recipient index warden
        ≡ ok (tx, fee)
      → (tx.amount ≡ amount)
        × (tx.nonce ≡ last +ℤ pos 1)
        × (tx.parsed_private_balance ≡ balance)
        × (lib.get_balance tx.commitment ≡ pos amount)
        × (is_valid_amount amount token_type
              (params.price.lamports_to_token params.token_acc_rent).floor
            ≡ ok true)
  store-IsTopup amount last balance params token_type sender warden is_recipient index tx fee laws
        done =
      unfold build_store_tx build_topup_commitment in
      let rent = (params.price.lamports_to_token params.token_acc_rent).floor in
      let (valid, e1, f1) = >>=-eq-ok (is_valid_amount amount token_type rent) _ done in
      let (passed, e2, f2) = >>=-eq-ok (if valid then ok true else err invalid_token_amount) _ f1 in
      let (fee', e3, f3) =
        >>=-eq-ok (generate_topup_fee lib params.fee_calculator token_type amount params.price) _
          f2 in
      let (comm, e4, f4) =
        >>=-eq-ok
          (build_topup_commitment lib (last +ℤ pos 1) amount token_type params.merkle_start_index) _
          f3 in
      let (token, e5, f5) = >>=-eq-ok (get_number_from_token_type token_type) _ e4 in
      let kept =
        ap lib.get_balance (sym (ok-injective f5))
        ∙ laws.keeps_balance (lib.generate_nullifier (last +ℤ pos 1)) (pos amount) token
            params.merkle_start_index in
      let valid' = rw (guard_true valid passed e2) at e1 in
      subst
        (λ (r : StoreTx C × Fee).
          (r.0.amount ≡ amount)
          × (r.0.nonce ≡ last +ℤ pos 1)
          × (r.0.parsed_private_balance ≡ balance)
          × (lib.get_balance r.0.commitment ≡ pos amount)
          × (is_valid_amount amount token_type rent ≡ ok true))
        (ok-injective f4) (refl, refl, refl, kept, valid')

  topup_guard :
      (amount : ℕ) (token_type : TokenType) (owner : String) (is_recipient : Bool)
      (params : TopupRemoteParams C) (warden : String) (merge_fee : Option ℤ) (index : ℕ)
      → ((length params.active_commitments == send_arity) && not (is_defined merge_fee)) ≡ true
      → topup_store_tx lib amount token_type owner is_recipient params warden merge_fee index
        ≡ err merge_needed
  unfolding topup_store_tx
  topup_guard amount token_type owner is_recipient params warden merge_fee index full = rw full refl

  topup_passes :
      (amount : ℕ) (token_type : TokenType) (owner : String) (is_recipient : Bool)
      (params : TopupRemoteParams C) (warden : String) (merge_fee : Option ℤ) (index : ℕ)
      → ((length params.active_commitments == send_arity) && not (is_defined merge_fee)) ≡ false
      → topup_store_tx lib amount token_type owner is_recipient params warden merge_fee index
        ≡ build_store_tx lib amount
            (prev_nonce params.last_nonce merge_fee)
            params
            token_type
            owner
            (private_balance lib params.active_commitments amount merge_fee)
            is_recipient
            index
            warden
  unfolding topup_store_tx
  topup_passes amount token_type owner is_recipient params warden merge_fee index room =
      rw room refl

  has_room :
      (active : List C) (merge_fee : Option ℤ)
      → ((length active == send_arity) && not (is_defined merge_fee)) ≡ false
      → (length active ≢ send_arity) ⊎ (merge_fee ≢ none)
  has_room active none room = inl (λ full. let room' = rw full at room in cc)
  has_room active (some fee) room = inr (λ unmerged. cc)

  pub topup_store_tx-IsComposed :
      (amount : ℕ) (token_type : TokenType) (owner : String) (is_recipient : Bool)
      (params : TopupRemoteParams C) (warden : String) (merge_fee : Option ℤ) (index : ℕ)
      (tx : StoreTx C) (fee : Fee)
      → IsBuilder lib
      → topup_store_tx lib amount token_type owner is_recipient params warden merge_fee index
        ≡ ok (tx, fee)
      → IsComposed lib params merge_fee amount tx
  topup_store_tx-IsComposed amount token_type owner is_recipient params warden merge_fee index tx
        fee laws done =
      elim (Bool-cases
        ((length params.active_commitments == send_arity) && not (is_defined merge_fee))) [
          | inl full ↦
              let refused =
                topup_guard amount token_type owner is_recipient params warden merge_fee index
                  full in
              cc
          | inr room ↦
              let built =
                sym (
                  topup_passes amount token_type owner is_recipient params warden merge_fee index
                    room)
                ∙ done in
              let (sent, nonce, balance, stored, valid) =
                store-IsTopup amount (prev_nonce params.last_nonce merge_fee)
                  (private_balance lib params.active_commitments amount merge_fee) params token_type
                  owner warden is_recipient index tx fee laws built in
              let (info, e, above, more, less) =
                valid_amount amount (params.price.lamports_to_token params.token_acc_rent).floor
                  token_type valid in
              record {
                sent = sent;
                nonce = nonce;
                balance = balance;
                stored = stored;
                above_rent = above;
                not_full = has_room params.active_commitments merge_fee room;
              }
        ]

  prev_nonce-nonce_after :
      (last : ℤ) (merge_fee : Option ℤ)
      → prev_nonce last merge_fee +ℤ pos 1 ≡ nonce_after last merge_fee
  prev_nonce-nonce_after last none = unfold prev_nonce in refl
  prev_nonce-nonce_after last (some fee) = unfold prev_nonce in omega int_laws

  sum_balances-total_of :
      (active : List C) → sum_balances lib active ≡ total_of (map lib.get_balance active)
  unfolding sum_balances
  sum_balances-total_of [] = refl
  sum_balances-total_of (c ∷ active) =
      ap (λ t. lib.get_balance c +ℤ t) (sum_balances-total_of active)

  private_balance-balance_after :
      (active : List C) (amount : ℕ) (merge_fee : Option ℤ)
      → private_balance lib active amount merge_fee
        ≡ balance_after (map lib.get_balance active) amount merge_fee
  unfolding private_balance
  private_balance-balance_after active amount none =
      rw (sum_balances-total_of active)
        (no_fee (total_of (map lib.get_balance active)) (pos amount))
    where
      no_fee : (t a : ℤ) → t +ℤ a -ℤ pos 0 ≡ t +ℤ a
      no_fee t a = omega int_laws
  private_balance-balance_after active amount (some fee) = rw (sum_balances-total_of active) refl

  -- A topup that is built takes the nonce after the last one, or the second after it if a merge goes
  -- before; its commitment holds its amount, which is above the rent, and the private balance it reports
  -- is the sum of the active balances and the amount, less the fee of the merge. It has had a merge before
  -- it if four commitments are active.
  pub topup_store_tx-IsTopup :
      (amount : ℕ) (token_type : TokenType) (owner : String) (is_recipient : Bool)
      (params : TopupRemoteParams C) (warden : String) (merge_fee : Option ℤ) (index : ℕ)
      (tx : StoreTx C) (fee : Fee)
      → IsBuilder lib
      → topup_store_tx lib amount token_type owner is_recipient params warden merge_fee index
        ≡ ok (tx, fee)
      → IsTopup lib params merge_fee amount tx
  topup_store_tx-IsTopup amount token_type owner is_recipient params warden merge_fee index tx fee
        laws done =
      let built =
        topup_store_tx-IsComposed amount token_type owner is_recipient params warden merge_fee index
          tx fee laws done in
      record {
        sent = built.sent;
        nonce = built.nonce ∙ prev_nonce-nonce_after params.last_nonce merge_fee;
        balance =
            built.balance
            ∙ private_balance-balance_after params.active_commitments amount merge_fee;
        stored = built.stored;
        above_rent = built.above_rent;
        not_full = built.not_full;
      }
