-- ===== src/TxManager/Active.antt =====
-- TransactionManager.ts, `getActiveTxs` and `getMostRecentTx`: the transactions that the next send can
-- use. `fetch` is `fetchTxs` for one token over the state.
use mathlib.Core.List.{append-nil, append_assoc}
use elusiv_sdk.Base.{
  ℕ, Bool, true, false, not, ◌&&◌, Option, none, some, List, [], ◌∷◌, ◌++◌, ◌≡◌, refl, ap, ◌∙◌,
  arith, if◌then◌else◌, ◌==◌, keep_if, find, All, Bool-cases, inl, inr, ◌⊎◌, All-append,
  All-append_right,
}
use elusiv_sdk.Base.Int.{ℤ, pos}
use elusiv_sdk.Result.{Result, ok, ◌>>=◌}
use elusiv_sdk.Constants.{send_arity}
use elusiv_sdk.Transaction.{ElusivTransaction, TxType, topup, send, tx_type_beq, confirmed}
use elusiv_sdk.Cache.{is_none}
use elusiv_sdk.TxManager.{is_send}

-- `tx.signature !== undefined && resTx.signature === tx.signature`.
abbrev pub same_signature : Option ℕ → Option ℕ → Bool
same_signature none _ = false
same_signature (some s) none = false
same_signature (some s) (some r) = r == s

abbrev pub is_included : List ElusivTransaction → ElusivTransaction → Bool
is_included res tx =
    not (is_none (find (λ res_tx. same_signature tx.signature res_tx.signature) res))

-- A topup with the nonce of the send that is not in `res` yet.
abbrev pub is_unused : List ElusivTransaction → ℕ → ElusivTransaction → Bool
is_unused res nonce tx =
    tx_type_beq tx.tx_type topup && (tx.nonce == nonce && not (is_included res tx))

-- The `for` loop, with the transactions before `curr` and all of them.
unfoldable pub active_loop :
    List ElusivTransaction
    → List ElusivTransaction
    → List ElusivTransaction
    → List ElusivTransaction
active_loop seen [] all = all
active_loop seen (curr ∷ rest) all =
    let later = active_loop (seen ++ curr ∷ []) rest all in
    let res = seen ++ curr ∷ [] in
    if is_send curr then res ++ keep_if (is_unused res curr.nonce) all else later

abbrev pub confirm_first : List ElusivTransaction → List ElusivTransaction
confirm_first [] = []
confirm_first (tx ∷ txs) = record tx { transaction_status = some confirmed } ∷ txs

unfoldable pub active_txs : List ElusivTransaction → List ElusivTransaction
unfolding active_loop
active_txs most_recent_txs =
    active_loop [] (confirm_first most_recent_txs) (confirm_first most_recent_txs)

unfoldable pub get_active_txs :
    {S : Type 0} (fetch : ℕ → Option ℤ → S → Result (S × List ElusivTransaction))
    → Option ElusivTransaction
    → S
    → Result (S × List ElusivTransaction)
unfolding active_txs
get_active_txs fetch none s = do (s', txs) ← fetch send_arity none s; ok (s', active_txs txs)
get_active_txs fetch (some before_send) s = do
  (s', txs) ← fetch send_arity (some (pos before_send.nonce)) s
  ok (s', active_txs txs)

-- Every transaction has a signature, and no two have the same one.
abbrev pub HasOwnSignatures : List ElusivTransaction → Type 0
HasOwnSignatures [] = Unit
HasOwnSignatures (tx ∷ txs) =
    (same_signature tx.signature tx.signature ≡ true)
    × All
        (λ u.
          (same_signature u.signature tx.signature ≡ false)
          × (same_signature tx.signature u.signature ≡ false))
        txs
    × HasOwnSignatures txs

abbrev pub AreTopups : List ElusivTransaction → Type 0
AreTopups txs = All (λ tx. is_send tx ≡ false) txs

-- The topups of a list with one nonce.
abbrev pub topups_at : ℕ → List ElusivTransaction → List ElusivTransaction
topups_at nonce txs = keep_if (λ tx. tx_type_beq tx.tx_type topup && tx.nonce == nonce) txs

-- What the active transactions of a list, newest first, should be: all of it if there is no send; else
-- everything up to the first send with it, and the later topups with its nonce, which it did not use.
pub record IsActive (txs res : List ElusivTransaction) : Type 0 where
  pub split :
      (AreTopups txs × (res ≡ txs))
      ⊎ ((pre : List ElusivTransaction) × (s : ElusivTransaction) × (post : List ElusivTransaction)
          × (txs ≡ pre ++ s ∷ post)
          × AreTopups pre
          × (is_send s ≡ true)
          × (res ≡ (pre ++ s ∷ []) ++ topups_at s.nonce post))

All-both {ℓ κ λ' μ} :
    {A : Type ℓ} (P : A → Type κ) (Q : A → Type λ') (R : A → Type μ) (xs : List A)
    → ((x : A) → P x → Q x → R x)
    → All P xs
    → All Q xs
    → All R xs
All-both P Q R [] f p q = tt
All-both P Q R (x ∷ xs) f (p, ps) (q, qs) = (f x p q, All-both P Q R xs f ps qs)

-- No transaction after the send has a signature of one up to it.
later_not_included :
    (pre : List ElusivTransaction) (s : ElusivTransaction) (post : List ElusivTransaction)
    → HasOwnSignatures (pre ++ s ∷ post)
    → All (λ t. is_included (pre ++ s ∷ []) t ≡ false) post
later_not_included [] s post (self, others, rest) =
    All-both _ _ _ post (λ t h k. ground (arith, h)) others others
later_not_included (p ∷ pre) s post (self, others, rest) =
    All-both _ _ _ post (λ t h k. ground (arith, h, k)) (All-append_right _ pre (s ∷ post) others).1
      (later_not_included pre s post rest)

keep_included :
    (res : List ElusivTransaction) (n : ℕ) (txs : List ElusivTransaction)
    → All (λ t. is_included res t ≡ true) txs
    → keep_if (is_unused res n) txs ≡ []
keep_included res n [] h = refl
keep_included res n (tx ∷ txs) (here, h) = ground (arith, keep_included res n txs h)

keep_not_included :
    (res : List ElusivTransaction) (n : ℕ) (txs : List ElusivTransaction)
    → All (λ t. is_included res t ≡ false) txs
    → keep_if (is_unused res n) txs ≡ topups_at n txs
keep_not_included res n [] h = refl
keep_not_included res n (tx ∷ txs) (here, h) = ground (arith, keep_not_included res n txs h)

included_first :
    (qs : List ElusivTransaction) (t : ElusivTransaction) (ts : List ElusivTransaction)
    → same_signature t.signature t.signature ≡ true
    → is_included (qs ++ t ∷ ts) t ≡ true
included_first [] t ts self = ground arith
included_first (q ∷ qs) t ts self = ground (arith, included_first qs t ts self)

own_signatures :
    (pre tail : List ElusivTransaction)
    → HasOwnSignatures (pre ++ tail)
    → All (λ t. same_signature t.signature t.signature ≡ true) pre
own_signatures [] tail h = tt
own_signatures (p ∷ pre) tail (self, others, rest) = (self, own_signatures pre tail rest)

earlier_included :
    (qs pre tail : List ElusivTransaction)
    → All (λ t. same_signature t.signature t.signature ≡ true) pre
    → All (λ t. is_included (qs ++ (pre ++ tail)) t ≡ true) pre
earlier_included qs [] tail h = tt
earlier_included qs (p ∷ pre) tail (self, h) =
    let later = earlier_included (qs ++ p ∷ []) pre tail h in
    (included_first qs p (pre ++ tail) self, rw (append_assoc qs (p ∷ []) (pre ++ tail)) at later)

keep_if-append :
    (p : ElusivTransaction → Bool) (xs ys : List ElusivTransaction)
    → keep_if p (xs ++ ys) ≡ keep_if p xs ++ keep_if p ys
keep_if-append p [] ys = refl
keep_if-append p (x ∷ xs) ys = ground (arith, keep_if-append p xs ys)

send_not_topup : (s : ElusivTransaction) → is_send s ≡ true → tx_type_beq s.tx_type topup ≡ false
send_not_topup s h = by_type s.tx_type h
  where
    by_type : (ty : TxType) → tx_type_beq ty send ≡ true → tx_type_beq ty topup ≡ false
    by_type topup k = cc
    by_type send k = refl

-- The topups that the code appends are those after the send with its nonce.
unused_topups :
    (pre : List ElusivTransaction) (s : ElusivTransaction) (post : List ElusivTransaction)
    → is_send s ≡ true
    → HasOwnSignatures (pre ++ s ∷ post)
    → keep_if (is_unused (pre ++ s ∷ []) s.nonce) (pre ++ s ∷ post) ≡ topups_at s.nonce post
unused_topups pre s post is_s own =
    let res : List ElusivTransaction = pre ++ s ∷ [] in
    let before =
      keep_included res s.nonce pre (earlier_included [] pre (s ∷ []) (own_signatures pre _ own)) in
    let after = keep_not_included res s.nonce post (later_not_included pre s post own) in
    keep_if-append (is_unused res s.nonce) pre (s ∷ post) ∙ rw (before, send_not_topup s is_s) after

active_loop-IsActive :
    (seen rest : List ElusivTransaction)
    → AreTopups seen
    → HasOwnSignatures (seen ++ rest)
    → IsActive (seen ++ rest) (active_loop seen rest (seen ++ rest))
unfolding active_loop
active_loop-IsActive seen [] tops own = record { split = inl (rw (append-nil seen) tops, refl) }
active_loop-IsActive seen (curr ∷ rest) tops own = elim (Bool-cases (is_send curr)) [
  | inl is_s ↦ rw is_s (record {
    split = inr (
      seen,
      curr,
      rest,
      refl,
      tops,
      is_s,
      ap (λ ts. (seen ++ curr ∷ []) ++ ts) (unused_topups seen curr rest is_s own),
    );
  })
  | inr is_topup ↦
      let again = append_assoc seen (curr ∷ []) rest in
      let ih =
        active_loop-IsActive (seen ++ curr ∷ []) rest
          (All-append (λ tx. is_send tx ≡ false) seen (curr ∷ []) tops (is_topup, tt))
          (rw again own) in
      rw is_topup (rw again at ih)
]

-- For transactions with signatures of their own, the active ones are those up to the most recent send
-- with it, and the topups with its nonce, each once; without a send they are all that were fetched.
pub active_txs-IsActive :
    (txs : List ElusivTransaction)
    → HasOwnSignatures txs
    → IsActive (confirm_first txs) (active_txs txs)
unfolding active_txs
active_txs-IsActive txs own =
    active_loop-IsActive [] (confirm_first txs) tt (confirmed_signatures txs own)
  where
    confirmed_signatures :
        (us : List ElusivTransaction) → HasOwnSignatures us → HasOwnSignatures (confirm_first us)
    confirmed_signatures [] h = h
    confirmed_signatures (u ∷ us) h = h
