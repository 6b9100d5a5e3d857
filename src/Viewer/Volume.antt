-- ===== src/Viewer/Volume.antt =====
-- elusivViewer.ts: the volume is the sum of what the transactions put into the pool and take out of it.
use elusiv_sdk.Base.{
  ℕ, ◌+◌, ◌≡◌, ◌≢◌, refl, sym, ◌∙◌, arith, String, Option, none, some, List, [], ◌∷◌, Bool-cases,
  inl, inr, ◌⊎◌, ◌↔◌,
}
use elusiv_sdk.Token.{TokenType, lamports, token_beq, token_beq_iff}
use elusiv_sdk.Viewer.{BalanceTx, amounts_of, moved, volume}
use elusiv_sdk.Viewer.Amounts.{
  ShowsLamports, ShowsToken, InList, token_amount-InList, lamport_amount_of-InList,
}

module _ (pool mint : String) (token_type : TokenType) where
  -- The transaction shows the pool's balance before it and after it.
  abbrev pub Shows : BalanceTx → ℕ → ℕ → Type 0
  Shows tx pre post =
      ((token_type ≡ lamports)
        × InList (ShowsLamports pool tx.account_keys) tx.pre_balances pre
        × InList (ShowsLamports pool tx.account_keys) tx.post_balances post)
      ⊎ ((token_type ≢ lamports)
          × InList (ShowsToken pool mint) tx.pre_token_balances pre
          × InList (ShowsToken pool mint) tx.post_token_balances post)

  -- `n` has come into the pool, or has gone out of it.
  abbrev pub IsMove : BalanceTx → ℕ → Type 0
  IsMove tx n = (pre : ℕ) × (post : ℕ) × Shows tx pre post × ((post ≡ pre + n) ⊎ (pre ≡ post + n))

  -- A transaction that does not show the balance counts for nothing.
  abbrev pub IsUnseen : BalanceTx → ℕ → Type 0
  IsUnseen tx n = ((pre post : ℕ) → ¬ Shows tx pre post) × (n ≡ 0)

  -- The moves of the transactions that were fetched, one for each.
  abbrev pub AreMoves : List (Option BalanceTx) → List ℕ → Type 0
  AreMoves [] [] = Unit
  AreMoves (none ∷ txs) ns = AreMoves txs ns
  AreMoves (some tx ∷ txs) (n ∷ ns) = (IsMove tx n ⊎ IsUnseen tx n) × AreMoves txs ns
  AreMoves _ _ = ⊥

  abbrev pub sum_of : List ℕ → ℕ
  sum_of [] = 0
  sum_of (n ∷ ns) = n + sum_of ns

  abbrev amounts : BalanceTx → Option ℕ × Option ℕ
  amounts tx = amounts_of pool mint token_type tx

  Shows_lem :
      (tx : BalanceTx) (pre post : ℕ)
      → (((amounts tx).0 ≡ some pre) × ((amounts tx).1 ≡ some post)) ↔ Shows tx pre post
  Shows_lem tx pre post = elim (Bool-cases (token_beq token_type lamports)) [
    | inl native ↦
        let is_native = (token_beq_iff token_type lamports).0 native in
        let before = lamport_amount_of-InList pool mint tx.account_keys tx.pre_balances pre in
        let after = lamport_amount_of-InList pool mint tx.account_keys tx.post_balances post in
        (
          λ h. let h' = rw native at h in inl (is_native, before.0 h'.0, after.0 h'.1),
          λ shown. elim shown [
            | inl own ↦ rw native (before.1 own.1, after.1 own.2)
            | inr other ↦ absurd (other.0 is_native)
          ],
        )
    | inr token ↦
        let before = token_amount-InList pool mint tx.pre_token_balances pre in
        let after = token_amount-InList pool mint tx.post_token_balances post in
        (
          λ h.
              let h' = rw token at h in
              inr (
                λ same. let native = (token_beq_iff token_type lamports).1 same in cc,
                before.0 h'.0,
                after.0 h'.1,
              ),
          λ shown. elim shown [
            | inl own ↦ let native = (token_beq_iff token_type lamports).1 own.0 in absurd (cc)
            | inr other ↦ rw token (before.1 other.1, after.1 other.2)
          ],
        )
  ]

  moved_by :
      (pre post n : ℕ) → (post ≡ pre + n) ⊎ (pre ≡ post + n) → moved (some pre) (some post) ≡ n
  moved_by pre post n (inl into) = omega (arith, into)
  moved_by pre post n (inr out) = omega (arith, out)

  moved_unseen :
      (pre post : Option ℕ)
      → ((a b : ℕ) → ¬ ((pre ≡ some a) × (post ≡ some b)))
      → moved pre post ≡ 0
  moved_unseen none post unseen = refl
  moved_unseen (some a) none unseen = refl
  moved_unseen (some a) (some b) unseen = absurd (unseen a b (refl, refl))

  moved_lem :
      (tx : BalanceTx) (n : ℕ)
      → IsMove tx n ⊎ IsUnseen tx n
      → moved (amounts tx).0 (amounts tx).1 ≡ n
  moved_lem tx n (inl (pre, post, shown, change)) =
      let both = (Shows_lem tx pre post).1 shown in rw (both.0, both.1) (moved_by pre post n change)
  moved_lem tx n (inr (unseen, zero_n)) =
      moved_unseen (amounts tx).0 (amounts tx).1
        (λ a b both. unseen a b ((Shows_lem tx a b).0 both))
      ∙ sym zero_n

  volume_step :
      (tx : BalanceTx) (txs : List (Option BalanceTx))
      → volume pool mint token_type (some tx ∷ txs)
        ≡ moved (amounts tx).0 (amounts tx).1 + volume pool mint token_type txs
  unfolding volume
  volume_step tx txs = refl

  volume_skip :
      (txs : List (Option BalanceTx))
      → volume pool mint token_type (none ∷ txs) ≡ volume pool mint token_type txs
  unfolding volume
  volume_skip txs = refl

  -- The volume is the sum of what each transaction that shows the pool's balance before and after it has
  -- put into the pool or taken out of it. A transaction that is missing, or does not show both, counts for
  -- nothing. A balance in lamports stands at the place of the pool's account, and one in a token is the
  -- only one of the pool and the mint.
  pub volume-AreMoves :
      (txs : List (Option BalanceTx)) (ns : List ℕ)
      → AreMoves txs ns
      → volume pool mint token_type txs ≡ sum_of ns
  volume-AreMoves [] [] h = unfold volume in refl
  volume-AreMoves (none ∷ txs) ns h = volume_skip txs ∙ volume-AreMoves txs ns h
  volume-AreMoves (some tx ∷ txs) (n ∷ ns) (here, h) =
      volume_step tx txs ∙ rw (moved_lem tx n here, volume-AreMoves txs ns h) refl
  volume-AreMoves [] (n ∷ ns) h = absurd h
  volume-AreMoves (some tx ∷ txs) [] h = absurd h
