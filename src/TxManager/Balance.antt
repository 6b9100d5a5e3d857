-- ===== src/TxManager/Balance.antt =====
-- TransactionManager.ts: the private balance by the metadata of the last send agrees with the balance
-- by the whole history.
use elusiv_sdk.Base.{
  ℕ, ◌+◌, Bool, true, false, not, Option, none, some, List, [], ◌∷◌, ◌++◌, ◌≡◌, refl, sym, ◌∙◌, ap,
  arith, if◌then◌else◌, ◌==◌, keep_if, find, inl, inr, ◌⊎◌,
}
use elusiv_sdk.Base.Int.{ℤ, pos, ◌+ℤ◌, ◌-ℤ◌, int_laws, parts_of_eq}
use elusiv_sdk.Result.{Result, Error, two_sends_same_nonce, ok, err, ok-injective}
use elusiv_sdk.Transaction.{ElusivTransaction, CommitmentMetadata, TxType, topup, send}
use elusiv_sdk.Cache.{is_none}
use elusiv_sdk.TxManager.{
  balance_change, add_batch, same_nonce, topup_sum, is_send, Settled, settled, running, settle,
  settle_batch,
}

-- What sends take off the balance.
unfoldable pub send_sum : List ElusivTransaction → ℕ
send_sum [] = 0
send_sum (tx ∷ txs) = elim tx.tx_type [ topup ↦ 0 | send ↦ tx.amount + tx.fee ] + send_sum txs

up : ElusivTransaction → ℕ
up tx = elim tx.tx_type [ topup ↦ tx.amount | send ↦ 0 ]

down : ElusivTransaction → ℕ
down tx = elim tx.tx_type [ topup ↦ 0 | send ↦ tx.amount + tx.fee ]

balance_change_sums :
    (tx : ElusivTransaction) (total : ℤ)
    → balance_change tx total ≡ total +ℤ pos (up tx) -ℤ pos (down tx)
unfolding up down
balance_change_sums tx total = by_type tx.tx_type
  where
    by_type :
        (ty : TxType)
        → ◌≡◌ {A = ℤ}
            (elim ty [
              | topup ↦ total +ℤ pos tx.amount
              | send ↦ total -ℤ pos tx.amount -ℤ pos tx.fee
            ])
            (total
              +ℤ pos (elim ty [ topup ↦ tx.amount | send ↦ 0 ])
              -ℤ pos (elim ty [ topup ↦ 0 | send ↦ tx.amount + tx.fee ]))
    by_type topup = omega int_laws
    by_type send = omega int_laws

topup_sum-cons :
    (tx : ElusivTransaction) (txs : List ElusivTransaction)
    → topup_sum (tx ∷ txs) ≡ up tx + topup_sum txs
unfolding topup_sum up
topup_sum-cons tx txs = refl

send_sum-cons :
    (tx : ElusivTransaction) (txs : List ElusivTransaction)
    → send_sum (tx ∷ txs) ≡ down tx + send_sum txs
unfolding send_sum down
send_sum-cons tx txs = refl

add_batch-cons :
    (tx : ElusivTransaction) (txs : List ElusivTransaction) (total : ℤ)
    → add_batch (tx ∷ txs) total ≡ add_batch txs (balance_change tx total)
unfolding add_batch
add_batch-cons tx txs total = refl

sums_nil : (total : ℤ) → add_batch [] total ≡ total +ℤ pos (topup_sum []) -ℤ pos (send_sum [])
unfolding add_batch topup_sum send_sum
sums_nil total = omega int_laws

-- The history's balance is the topups less the sends, whatever their order.
add_batch_sums :
    (txs : List ElusivTransaction) (total : ℤ)
    → add_batch txs total ≡ total +ℤ pos (topup_sum txs) -ℤ pos (send_sum txs)
add_batch_sums [] total = sums_nil total
add_batch_sums (tx ∷ txs) total =
    add_batch-cons tx txs total
    ∙ add_batch_sums txs (balance_change tx total)
    ∙ rw (balance_change_sums tx total, topup_sum-cons tx txs, send_sum-cons tx txs)
        (omega int_laws)

sums-append :
    (xs ys : List ElusivTransaction)
    → (topup_sum (xs ++ ys) ≡ topup_sum xs + topup_sum ys)
      × (send_sum (xs ++ ys) ≡ send_sum xs + send_sum ys)
unfolding topup_sum send_sum
sums-append [] ys = omega arith
sums-append (x ∷ xs) ys = omega (arith, sums-append xs ys)

abbrev pub other_nonces : ℕ → List ElusivTransaction → List ElusivTransaction
other_nonces n txs = keep_if (λ tx. not (tx.nonce == n)) txs

sums_split :
    (n : ℕ) (xs : List ElusivTransaction)
    → (topup_sum (same_nonce n xs) + topup_sum (other_nonces n xs) ≡ topup_sum xs)
      × (send_sum (same_nonce n xs) + send_sum (other_nonces n xs) ≡ send_sum xs)
unfolding topup_sum send_sum
sums_split n [] = omega arith
sums_split n (x ∷ xs) = ground (arith, sums_split n xs)

no_send : (xs : List ElusivTransaction) → is_none (find is_send xs) ≡ true → send_sum xs ≡ 0
unfolding send_sum
no_send [] h = refl
no_send (x ∷ xs) h = ground (arith, no_send xs)

-- The metadata of a send is right if its balance is what the send left of everything older, without the
-- topups of its own nonce, which it did not use. `older` is the history before the batch.
abbrev pub HasRightMetadata : List ElusivTransaction → List ElusivTransaction → Type 0
HasRightMetadata older [] = Unit
HasRightMetadata older (tx ∷ txs) =
    ((m : CommitmentMetadata)
      → tx.tx_type ≡ send
      → tx.metadata ≡ some m
      → pos m.balance ≡ balance_change tx (add_batch (other_nonces tx.nonce txs ++ older) (pos 0)))
    × HasRightMetadata older txs

if-eq-ok :
    (c : Bool) (x y : Settled) (e : Error)
    → (if c then ok x else err e) ≡ ok y
    → (c ≡ true) × (x ≡ y)
if-eq-ok true x y e h = (refl, ok-injective h)
if-eq-ok false x y e h = cc

from_settled : ℤ → Settled → ℤ
from_settled d (settled b) = b
from_settled d (running t) = d

settled-injective : {a b : ℤ} → settled a ≡ settled b → a ≡ b
unfolding from_settled
settled-injective {a = a} p = ap (from_settled a) p

settle_cases :
    (tx : ElusivTransaction) (m : CommitmentMetadata) (txs : List ElusivTransaction) (total b : ℤ)
    → settle tx m txs total ≡ ok (settled b)
    → (is_none (find is_send (same_nonce tx.nonce txs)) ≡ true)
      × (pos m.balance +ℤ total +ℤ pos (topup_sum (same_nonce tx.nonce txs)) ≡ b)
unfolding settle
settle_cases tx m txs total b e =
    let (c, s) =
      if-eq-ok (is_none (find is_send (same_nonce tx.nonce txs)))
        (settled (pos m.balance +ℤ total +ℤ pos (topup_sum (same_nonce tx.nonce txs)))) (settled b)
        two_sends_same_nonce e in
    (c, settled-injective s)

settle-agrees :
    (older : List ElusivTransaction) (tx : ElusivTransaction) (m : CommitmentMetadata)
    (txs : List ElusivTransaction) (total b : ℤ)
    → pos m.balance ≡ balance_change tx (add_batch (other_nonces tx.nonce txs ++ older) (pos 0))
    → settle tx m txs total ≡ ok (settled b)
    → b ≡ add_batch (tx ∷ txs ++ older) total
settle-agrees older tx m txs total b right e =
    let (c, s) = settle_cases tx m txs total b e in
    let r =
      right ∙ balance_change_sums tx (add_batch (other_nonces tx.nonce txs ++ older) (pos 0)) in
    let q = add_batch_sums (other_nonces tx.nonce txs ++ older) (pos 0) in
    let w = add_batch_sums (tx ∷ txs ++ older) total in
    let (t1, s1) = sums-append (other_nonces tx.nonce txs) older in
    let (t2, s2) = sums-append txs older in
    let (t3, s3) = sums_split tx.nonce txs in
    let n = no_send (same_nonce tx.nonce txs) c in
    omega (
      int_laws,
      parts_of_eq s,
      parts_of_eq r,
      parts_of_eq q,
      parts_of_eq w,
      t1,
      s1,
      t2,
      s2,
      t3,
      s3,
      n,
      topup_sum-cons tx (txs ++ older),
      send_sum-cons tx (txs ++ older),
    )

-- The branches of one step of the loop.
settle_by :
    Result Settled
    → (CommitmentMetadata → Result Settled)
    → TxType
    → Option CommitmentMetadata
    → Result Settled
settle_by older with_send ty metadata = elim ty [
  | topup ↦ older
  | send ↦ elim metadata [ none ↦ older | some m ↦ with_send m ]
]

settle_by_cases :
    (older : Result Settled) (with_send : CommitmentMetadata → Result Settled) (ty : TxType)
    (metadata : Option CommitmentMetadata) (r : Result Settled)
    → settle_by older with_send ty metadata ≡ r
    → (older ≡ r)
      ⊎ ((m : CommitmentMetadata) × (ty ≡ send) × (metadata ≡ some m) × (with_send m ≡ r))
unfolding settle_by
settle_by_cases older with_send topup metadata r h = inl h
settle_by_cases older with_send send none r h = inl h
settle_by_cases older with_send send (some m) r h = inr (m, refl, refl, h)

settle_batch-cons :
    (tx : ElusivTransaction) (txs : List ElusivTransaction) (total : ℤ)
    → settle_batch (tx ∷ txs) total
      ≡ settle_by
          (settle_batch txs (balance_change tx total))
          (λ m. settle tx m txs total)
          tx.tx_type
          tx.metadata
unfolding settle_batch settle_by
settle_batch-cons tx txs total = refl

settle_batch_nil : (total b : ℤ) → settle_batch [] total ≡ ok (settled b) → ⊥
unfolding settle_batch
settle_batch_nil total b h = cc

-- Where the metadata of every send in the batch is right, a balance that the batch settles is the running total with every older transaction counted: the one that the whole history gives.
pub settle_batch-add_batch :
    (older batch : List ElusivTransaction) (total b : ℤ)
    → HasRightMetadata older batch
    → settle_batch batch total ≡ ok (settled b)
    → b ≡ add_batch (batch ++ older) total
settle_batch-add_batch older [] total b right e = absurd (settle_batch_nil total b e)
settle_batch-add_batch older (tx ∷ txs) total b (first, right) e =
    elim (settle_by_cases (settle_batch txs (balance_change tx total)) (λ m. settle tx m txs total)
      tx.tx_type tx.metadata (ok (settled b)) (sym (settle_batch-cons tx txs total) ∙ e)) [
        | inl skipped ↦
            settle_batch-add_batch older txs (balance_change tx total) b right skipped
            ∙ sym (add_batch-cons tx (txs ++ older) total)
        | inr (m, is_send', has, e') ↦
            settle-agrees older tx m txs total b (first m is_send' has) e'
      ]
