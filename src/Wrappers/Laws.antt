-- ===== src/Wrappers/Laws.antt =====
-- TxWrappers.ts and elusivViewer.ts: what the user is shown of past transactions.
use elusiv_sdk.Base.{
  ℕ, ◌≡◌, refl, sym, ap, ◌∙◌, Bool, true, false, Option, none, some, List, [], ◌∷◌,
}
use elusiv_sdk.Base.Int.{ℤ, pos, ◌+ℤ◌, ◌-ℤ◌, int_laws}
use elusiv_sdk.Result.{ok, map_result, >>=-eq-ok, ok-injective}
use elusiv_sdk.Token.{TokenType}
use elusiv_sdk.Transaction.{ElusivTransaction, TransactionStatus, confirmed}
use elusiv_sdk.Parsing.Response.{Converted, converted_store, converted_send, converted_base}
use elusiv_sdk.Wrappers.{
  WrapperDetails, send_details, topup_details, PrivateTxWrapper, signature_or_throw, Accounts,
  to_wrapper_send, to_wrapper_top_up, to_private_tx_wrapper, get_owner_from_acc, owner_details,
  with_owner, confirm_latest, get_private_transactions,
}

-- The fee for a third party that a wrapper shows.
abbrev pub shown_extra : WrapperDetails → ℕ
shown_extra (send_details recipient solana_pay reference extra memo) = extra
shown_extra (topup_details origin) = 0

-- What a wrapper shows of its transaction.
pub record Shows (tx : ElusivTransaction) (w : PrivateTxWrapper) : Type 0 where
  pub nonce : w.nonce ≡ tx.nonce
  pub fee : w.fee ≡ tx.fee
  pub signature : tx.signature ≡ some w.sig
  pub whole : w.amount +ℤ pos (shown_extra w.details) ≡ pos tx.amount

abbrev pub shown_status : Option Bool → ElusivTransaction → Option TransactionStatus
shown_status (some true) tx = some confirmed
shown_status _ tx = tx.transaction_status

-- Each wrapper shows the transaction at its place, in the status that `inserted` gives the latest one, and
-- else in its own.
abbrev pub ShowsAll : Option Bool → List Converted → List PrivateTxWrapper → Type 0
ShowsAll inserted [] [] = Unit
ShowsAll inserted (tx ∷ txs) (w ∷ ws) =
    Shows (converted_base tx) w
    × (w.transaction_status ≡ shown_status inserted (converted_base tx))
    × ShowsAll none txs ws
ShowsAll inserted _ _ = ⊥

signed : (o : Option ℕ) (sig : ℕ) → signature_or_throw o ≡ ok sig → o ≡ some sig
signed none sig e = cc
signed (some s) sig e = ap some (ok-injective e)

sub_add : (a b : ℤ) → a -ℤ b +ℤ b ≡ a
sub_add a b = omega int_laws

add_zero : (a : ℤ) → a +ℤ pos 0 ≡ a
add_zero a = omega int_laws

module _ (env : Accounts) where
  wrapped :
      (tx : Converted) (w : PrivateTxWrapper)
      → to_private_tx_wrapper env tx ≡ ok w
      → Shows (converted_base tx) w
        × (w.transaction_status ≡ (converted_base tx).transaction_status)
  unfolding to_private_tx_wrapper to_wrapper_send to_wrapper_top_up
  wrapped (converted_store tx) w done =
      let (sig, e, f) = >>=-eq-ok (signature_or_throw tx.base.signature) _ done in
      rw (sym (ok-injective f)) (
        record {
          nonce = refl;
          fee = refl;
          signature = signed tx.base.signature sig e;
          whole = add_zero (pos tx.base.amount);
        },
        refl,
      )
  wrapped (converted_send tx) w done =
      let (sig, e, f) = >>=-eq-ok (signature_or_throw tx.base.signature) _ done in
      rw (sym (ok-injective f)) (
        record {
          nonce = refl;
          fee = refl;
          signature = signed tx.base.signature sig e;
          whole = sub_add (pos tx.base.amount) (pos tx.extra_fee.amount);
        },
        refl,
      )

  all_wrapped :
      (txs : List Converted) (ws : List PrivateTxWrapper)
      → map_result (to_private_tx_wrapper env) txs ≡ ok ws
      → ShowsAll none txs ws
  unfolding map_result
  all_wrapped [] ws done = rw (sym (ok-injective done)) tt
  all_wrapped (tx ∷ txs) ws done =
      let (w, e, f) = >>=-eq-ok (to_private_tx_wrapper env tx) _ done in
      let (rest, e', f') = >>=-eq-ok (map_result (to_private_tx_wrapper env) txs) _ f in
      let (shows, status) = wrapped tx w e in
      rw (sym (ok-injective f')) (shows, status, all_wrapped txs rest e')

  confirmed-ShowsAll :
      (inserted : Bool) (txs : List Converted) (ws : List PrivateTxWrapper)
      → ShowsAll none txs ws
      → ShowsAll (some inserted) txs (confirm_latest env inserted ws)
  confirmed-ShowsAll inserted [] [] h = tt
  confirmed-ShowsAll inserted [] (w ∷ ws) h = elim h [ ]
  confirmed-ShowsAll inserted (tx ∷ txs) [] h = elim h [ ]
  confirmed-ShowsAll true (tx ∷ txs) (w ∷ ws) (shows, status, h) = (
    record {
      nonce = shows.nonce;
      fee = shows.fee;
      signature = shows.signature;
      whole = shows.whole;
    },
    refl,
    h,
  )
  confirmed-ShowsAll false (tx ∷ txs) (w ∷ ws) (shows, status, h) = (shows, status, h)

  extra_kept :
      (token_type : TokenType) (d e : WrapperDetails)
      → owner_details env token_type d ≡ ok e
      → shown_extra e ≡ shown_extra d
  unfolding owner_details
  extra_kept token_type (topup_details origin) e done = rw (sym (ok-injective done)) refl
  extra_kept token_type (send_details none solana_pay reference extra memo) e done =
      rw (sym (ok-injective done)) refl
  extra_kept token_type (send_details (some acc) solana_pay reference extra memo) e done =
      let (owner, e1, f1) = >>=-eq-ok (get_owner_from_acc env acc token_type) _ done in
      rw (sym (ok-injective f1)) refl

  -- The owner of a recipient changes nothing else.
  owned :
      (tx : ElusivTransaction) (w v : PrivateTxWrapper)
      → Shows tx w
      → with_owner env w ≡ ok v
      → Shows tx v × (v.transaction_status ≡ w.transaction_status)
  owned tx w v shows done =
      unfold with_owner in
      let (d, e, f) = >>=-eq-ok (owner_details env w.token_type w.details) _ done in
      let kept = extra_kept w.token_type w.details d e in
      rw (sym (ok-injective f)) (
        record {
          nonce = shows.nonce;
          fee = shows.fee;
          signature = shows.signature;
          whole = rw kept shows.whole;
        },
        refl,
      )

  all_owned :
      (inserted : Option Bool) (txs : List Converted) (ws vs : List PrivateTxWrapper)
      → ShowsAll inserted txs ws
      → map_result (with_owner env) ws ≡ ok vs
      → ShowsAll inserted txs vs
  unfolding map_result
  all_owned inserted [] [] vs h done = rw (sym (ok-injective done)) tt
  all_owned inserted [] (w ∷ ws) vs h done = elim h [ ]
  all_owned inserted (tx ∷ txs) [] vs h done = elim h [ ]
  all_owned inserted (tx ∷ txs) (w ∷ ws) vs (shows, status, h) done =
      let (v, e, f) = >>=-eq-ok (with_owner env w) _ done in
      let (rest, e', f') = >>=-eq-ok (map_result (with_owner env) ws) _ f in
      let (shows', status') = owned (converted_base tx) w v shows e in
      rw (sym (ok-injective f')) (shows', status' ∙ status, all_owned none txs ws rest h e')

  -- The user is shown every transaction that was fetched, in order, with its nonce, fee and signature, and
  -- with an amount that makes up the transaction's together with the fee of a third party; the latest
  -- one is confirmed if its commitment is inserted, and every other keeps its status.
  pub get_private_transactions-ShowsAll :
      (inserted : Bool) (txs : List Converted) (ws : List PrivateTxWrapper)
      → get_private_transactions env inserted txs ≡ ok ws
      → ShowsAll (some inserted) txs ws
  unfolding get_private_transactions
  get_private_transactions-ShowsAll inserted txs ws done =
      let (res, e, f) = >>=-eq-ok (map_result (to_private_tx_wrapper env) txs) _ done in
      all_owned (some inserted) txs (confirm_latest env inserted res) ws
        (confirmed-ShowsAll inserted txs res (all_wrapped txs res e)) f
