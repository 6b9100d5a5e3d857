-- ===== src/Client/Tracking.antt =====
-- elusiv.ts: building a topup, and what happens after a transaction is sent.
use elusiv_sdk.Base.{
  ℕ, ◌+◌, ◌≡◌, ◌↔◌, refl, sym, ◌∙◌, arith, Bool, true, false, not, ◌&&◌, ◌||◌, String, Option, none,
  some, List, [], ◌∷◌, length, In, if◌then◌else◌, ltb, ◌==◌, ==_iff, Bool-cases, inl, inr, ◌⊎◌,
}
use elusiv_sdk.Base.Int.{ℤ}
use elusiv_sdk.Result.{Result, ok, err, >>=-eq-ok, ok-injective, merge_needed, invalid_size}
use elusiv_sdk.Constants.{send_arity}
use elusiv_sdk.Token.{TokenType}
use elusiv_sdk.Transaction.{ElusivTransaction, TxType, send, tx_type_beq}
use elusiv_sdk.Commitments.{need_merge}
use elusiv_sdk.Building.{Builder, TopupRemoteParams, topup_params_to_send_params}
use elusiv_sdk.Building.Send.{SendTxData, build_merge_tx_data, send_total_fee_amount}
use elusiv_sdk.Building.Topup.{
  StoreTx, TopupTxData, is_defined, topup_store_tx, build_topup_tx_data,
}
use elusiv_sdk.Client.{is_tx, has_tx, curr_nonce, find_sig, build_top_up_tx}

abbrev Has : ℕ → TxType → List ElusivTransaction → Type 0
Has nonce tx_type txs =
    (tx : ElusivTransaction) × In tx txs × (tx.nonce ≡ nonce) × (tx.tx_type ≡ tx_type)

-- What a call has to answer: the transaction, and the merge before it if there was one.
abbrev pub Confirms : ℕ → TxType → Bool → List ElusivTransaction → Type 0
Confirms next_nonce tx_type false txs = Has next_nonce tx_type txs
Confirms next_nonce tx_type true txs = Has (next_nonce + 1) tx_type txs × Has next_nonce send txs

tx_type_beq_iff : (a b : TxType) → (tx_type_beq a b ≡ true) ↔ (a ≡ b)
tx_type_beq_iff a b = ground arith

is_tx_iff :
    (nonce : ℕ) (tx_type : TxType) (tx : ElusivTransaction)
    → (is_tx nonce tx_type tx ≡ true) ↔ ((tx.nonce ≡ nonce) × (tx.tx_type ≡ tx_type))
is_tx_iff nonce tx_type tx = (
  λ h. (ground (arith, h), (tx_type_beq_iff tx.tx_type tx_type).0 (ground (arith, h))),
  λ (e, e').
      let same = (==_iff tx.nonce nonce).1 e in
      let same' = (tx_type_beq_iff tx.tx_type tx_type).1 e' in rw (same, same') refl,
)

has_tx-Has :
    (nonce : ℕ) (tx_type : TxType) (txs : List ElusivTransaction)
    → has_tx nonce tx_type txs ≡ true
    → Has nonce tx_type txs
has_tx-Has nonce tx_type [] h = cc
has_tx-Has nonce tx_type (tx ∷ txs) h = elim (Bool-cases (is_tx nonce tx_type tx)) [
  | inl here ↦ let (e, e') = (is_tx_iff nonce tx_type tx).0 here in (tx, inl refl, e, e')
  | inr other ↦
      let later : has_tx nonce tx_type txs ≡ true = rw other at h in
      let (found, i, e, e') = has_tx-Has nonce tx_type txs later in (found, inr i, e, e')
]

Has-has_tx :
    (nonce : ℕ) (tx_type : TxType) (txs : List ElusivTransaction) (tx : ElusivTransaction)
    → In tx txs
    → is_tx nonce tx_type tx ≡ true
    → has_tx nonce tx_type txs ≡ true
Has-has_tx nonce tx_type [] tx i h = absurd i.lower
Has-has_tx nonce tx_type (first ∷ txs) tx (inl e) h = let here = rw e at h in rw here refl
Has-has_tx nonce tx_type (first ∷ txs) tx (inr i) h =
    elim (Bool-cases (is_tx nonce tx_type first)) [
      | inl here ↦ rw here refl
      | inr other ↦ rw other (Has-has_tx nonce tx_type txs tx i h)
    ]

has_tx_iff :
    (nonce : ℕ) (tx_type : TxType) (txs : List ElusivTransaction)
    → (has_tx nonce tx_type txs ≡ true) ↔ Has nonce tx_type txs
has_tx_iff nonce tx_type txs = (
  has_tx-Has nonce tx_type txs,
  λ (tx, i, e, e'). Has-has_tx nonce tx_type txs tx i ((is_tx_iff nonce tx_type tx).1 (e, e')),
)

abbrev confirmed_by : ℕ → TxType → Bool → List ElusivTransaction → Bool
confirmed_by next_nonce tx_type is_merge txs =
    has_tx (curr_nonce next_nonce is_merge) tx_type txs
    && (not is_merge || has_tx next_nonce send txs)

confirmed_by_iff :
    (next_nonce : ℕ) (tx_type : TxType) (is_merge : Bool) (txs : List ElusivTransaction)
    → (confirmed_by next_nonce tx_type is_merge txs ≡ true)
      ↔ Confirms next_nonce tx_type is_merge txs
confirmed_by_iff next_nonce tx_type false txs = (
  λ h. (has_tx_iff next_nonce tx_type txs).0 (ground (arith, h)),
  λ c. let h = (has_tx_iff next_nonce tx_type txs).1 c in rw h refl,
)
confirmed_by_iff next_nonce tx_type true txs = (
  λ h. (
    (has_tx_iff (next_nonce + 1) tx_type txs).0 (ground (arith, h)),
    (has_tx_iff next_nonce send txs).0 (ground (arith, h)),
  ),
  λ (c, c').
      let h = (has_tx_iff (next_nonce + 1) tx_type txs).1 c in
      let h' = (has_tx_iff next_nonce send txs).1 c' in rw (h, h') refl,
)

find_sig_step :
    (next_nonce : ℕ) (tx_type : TxType) (is_merge : Bool) (txs : List ElusivTransaction)
    (calls : List (List ElusivTransaction))
    → find_sig next_nonce tx_type is_merge (txs ∷ calls) ≡ (
        if confirmed_by next_nonce tx_type is_merge txs
        then true
        else find_sig next_nonce tx_type is_merge calls)
unfolding find_sig
find_sig_step next_nonce tx_type is_merge txs calls = refl

find_sig_found :
    (next_nonce : ℕ) (tx_type : TxType) (is_merge : Bool) (calls : List (List ElusivTransaction))
    → find_sig next_nonce tx_type is_merge calls ≡ true
    → (txs : List ElusivTransaction) × In txs calls × Confirms next_nonce tx_type is_merge txs
find_sig_found next_nonce tx_type is_merge [] h = unfold find_sig in cc
find_sig_found next_nonce tx_type is_merge (txs ∷ calls) h =
    let h' = sym (find_sig_step next_nonce tx_type is_merge txs calls) ∙ h in
    elim (Bool-cases (confirmed_by next_nonce tx_type is_merge txs)) [
      | inl here ↦ (txs, inl refl, (confirmed_by_iff next_nonce tx_type is_merge txs).0 here)
      | inr other ↦
          let later : find_sig next_nonce tx_type is_merge calls ≡ true = rw other at h' in
          let (found, i, c) = find_sig_found next_nonce tx_type is_merge calls later in
          (found, inr i, c)
    ]

find_sig_finds :
    (next_nonce : ℕ) (tx_type : TxType) (is_merge : Bool) (calls : List (List ElusivTransaction))
    (txs : List ElusivTransaction)
    → In txs calls
    → confirmed_by next_nonce tx_type is_merge txs ≡ true
    → find_sig next_nonce tx_type is_merge calls ≡ true
find_sig_finds next_nonce tx_type is_merge [] txs i c = absurd i.lower
find_sig_finds next_nonce tx_type is_merge (first ∷ calls) txs (inl e) c =
    let here = rw e at c in find_sig_step next_nonce tx_type is_merge first calls ∙ rw here refl
find_sig_finds next_nonce tx_type is_merge (first ∷ calls) txs (inr i) c =
    let later = find_sig_finds next_nonce tx_type is_merge calls txs i c in
    find_sig_step next_nonce tx_type is_merge first calls
    ∙ elim (Bool-cases (confirmed_by next_nonce tx_type is_merge first)) [
      | inl here ↦ rw here refl
      | inr other ↦ rw other later
    ]

-- A transaction counts as found exactly if one of the calls answers it, and with it the merge before it
-- if there was one.
pub find_sig_lem :
    (next_nonce : ℕ) (tx_type : TxType) (is_merge : Bool) (calls : List (List ElusivTransaction))
    → (find_sig next_nonce tx_type is_merge calls ≡ true)
      ↔ ((txs : List ElusivTransaction) × In txs calls × Confirms next_nonce tx_type is_merge txs)
find_sig_lem next_nonce tx_type is_merge calls = (
  find_sig_found next_nonce tx_type is_merge calls,
  λ (txs, i, c).
      find_sig_finds next_nonce tx_type is_merge calls txs i
        ((confirmed_by_iff next_nonce tx_type is_merge txs).1 c),
)

merge_branch :
    {T : Type 0} (merge manual : Bool) (a b : Result T) (t : T)
    → (if not merge then a else if manual then err merge_needed else b) ≡ ok t
    → ((merge ≡ false) × (a ≡ ok t)) ⊎ ((merge ≡ true) × (manual ≡ false) × (b ≡ ok t))
merge_branch false manual a b t h = inl (refl, h)
merge_branch true true a b t h = cc
merge_branch true false a b t h = inr (refl, refl, h)

module _ {C I P R : Type 0} (lib : Builder C I P) (build_raw : StoreTx C → Result R)
    (send_elusiv_tx : SendTxData P → Result Bool) where
  built_topup :
      (amount : ℕ) (token_type : TokenType) (sender : String) (params : TopupRemoteParams C)
      (warden : String) (merge_fee : Option ℤ) (index : ℕ) (t : TopupTxData R)
      → build_topup_tx_data lib build_raw amount token_type sender false params warden merge_fee
          index
        ≡ ok t
      → (t.merge ≡ is_defined merge_fee) × (t.last_nonce ≡ params.last_nonce) × (t.signed ≡ false)
  built_topup amount token_type sender params warden merge_fee index t done =
      unfold build_topup_tx_data in
      let (made, e, f) =
        >>=-eq-ok (topup_store_tx lib amount token_type sender false params warden merge_fee index)
          _ done in
      let (raw, e', f') = >>=-eq-ok (build_raw made.0) _ f in
      rw (sym (ok-injective f')) (refl, refl, refl)

  merged_if :
      (params : TopupRemoteParams C) (merge : Bool)
      → need_merge params.active_commitments ≡ ok merge
      → merge ≡ (length params.active_commitments == send_arity)
  merged_if params merge e =
      unfold need_merge in guarded (ltb send_arity (length params.active_commitments)) _ e
    where
      guarded : (b a : Bool) → (if b then err invalid_size else ok a) ≡ ok merge → merge ≡ a
      guarded true a e' = cc
      guarded false a e' = sym (ok-injective e')

  -- A topup that is built says that it follows a merge exactly if four commitments are active, and then
  -- merging was not left to the caller; it is not signed, and remembers the last nonce that was fetched.
  pub build_top_up_tx_lem :
      (amount : ℕ) (token_type : TokenType) (manual_merge : Bool) (params : TopupRemoteParams C)
      (owner sender warden : String) (index : ℕ) (t : TopupTxData R)
      → build_top_up_tx lib build_raw send_elusiv_tx amount token_type manual_merge params owner
          sender warden index
        ≡ ok t
      → (t.merge ≡ (length params.active_commitments == send_arity))
        × ((t.merge && manual_merge) ≡ false)
        × (t.last_nonce ≡ params.last_nonce)
        × (t.signed ≡ false)
  build_top_up_tx_lem amount token_type manual_merge params owner sender warden index t done =
      unfold build_top_up_tx in
      let (merge, e, f) = >>=-eq-ok (need_merge params.active_commitments) _ done in
      let full = merged_if params merge e in
      elim (merge_branch merge manual_merge _ _ t f) [
        | inl (room, built) ↦
            let (flag, last, unsigned) =
              built_topup amount token_type sender params warden none index t built in
            (flag ∙ sym room ∙ full, rw flag refl, last, unsigned)
        | inr (needed, automatic, merged) ↦
            let (tx_data, e1, f1) =
              >>=-eq-ok
                (build_merge_tx_data lib token_type owner (topup_params_to_send_params params)
                  warden none)
                _ merged in
            let (sent, e2, f2) = >>=-eq-ok (send_elusiv_tx tx_data) _ f1 in
            let (flag, last, unsigned) =
              built_topup amount token_type sender params warden
                (some (send_total_fee_amount tx_data)) index t f2 in
            (flag ∙ sym needed ∙ full, rw (flag, automatic) refl, last, unsigned)
      ]
