-- ===== src/TxFetch/Select.antt =====
-- AbstractTxManager.ts, `getTxsInNonceRange`: the cut after `count` transactions never separates
-- transactions with one nonce.
use elusiv_sdk.Base.{
  ℕ, zero, suc, ◌≤◌, ◌<◌, false, Option, some, List, [], ◌∷◌, ◌++◌, ◌≡◌, refl, sym, ap, ◌∙◌, arith,
  if◌then◌else◌, take, drop, All, Bool-cases, inl, inr, ◌==◌, length, length-append,
  take-append-drop, ◌⊎◌, All-append, All-append_right, All-map_to,
}
use mathlib.Core.Path.{subst}
use mathlib.Core.List.{append-nil, append_assoc}
use elusiv_sdk.Transaction.{ElusivTransaction}
use elusiv_sdk.TxFetch.{
  get_txs_in_nonce_range, keep_defined, cut_inside_nonce, same_nonce_run, count_from,
}

-- Newest first: the nonces do not rise along the list.
abbrev pub IsDescending : List ElusivTransaction → Type 0
IsDescending [] = Unit
IsDescending (t ∷ ts) = All (λ u. u.nonce ≤ t.nonce) ts × IsDescending ts

-- What `getTxsInNonceRange` should return: a first part of the list that has at least `count`
-- transactions if there are that many, and whose cut separates no two transactions with one nonce.
pub record IsNonceCut (filtered : List ElusivTransaction) (count : ℕ) (res : List ElusivTransaction)
    : Type 0 where
  pub dropped : List ElusivTransaction
  pub is_first_part : res ++ dropped ≡ filtered
  pub is_long_enough : (count ≤ length res) ⊎ (dropped ≡ [])
  pub separates_nonces : All (λ t. All (λ u. u.nonce < t.nonce) dropped) res

abbrev run_rest : ℕ → List ElusivTransaction → List ElusivTransaction
run_rest n [] = []
run_rest n (u ∷ us) = if u.nonce == n then run_rest n us else u ∷ us

count_from-append-run_rest :
    (tx : ElusivTransaction) (us : List ElusivTransaction)
    → count_from tx us ++ run_rest tx.nonce us ≡ us
count_from-append-run_rest tx [] = refl
count_from-append-run_rest tx (u ∷ us) = ground (arith, count_from-append-run_rest tx us)

run_rest_below :
    (n : ℕ) (us : List ElusivTransaction)
    → All (λ u. u.nonce ≤ n) us
    → IsDescending us
    → All (λ u. u.nonce < n) (run_rest n us)
run_rest_below n [] le d = tt
run_rest_below n (u ∷ us) (here, le) (below, d) = elim (Bool-cases (u.nonce == n)) [
  | inl same ↦ rw same (run_rest_below n us le d)
  | inr other ↦
      let lower : u.nonce < n = ground arith in
      rw other (lower, All-map_to _ _ us (λ v le. omega arith) below)
]

-- Every transaction of the first list has a greater nonce than every one of the second.
abbrev IsSeparated : List ElusivTransaction → List ElusivTransaction → Type 0
IsSeparated res dropped = All (λ t. All (λ u. u.nonce < t.nonce) dropped) res

cut-IsSeparated :
    (kept rest : List ElusivTransaction)
    → IsDescending (kept ++ rest)
    → cut_inside_nonce kept rest ≡ false
    → IsSeparated kept rest
cut-IsSeparated [] rest d h = tt
cut-IsSeparated (t ∷ []) [] d h = (tt, tt)
cut-IsSeparated (t ∷ []) (u ∷ us) ((le, _), (below, _)) h =
    let lower : u.nonce < t.nonce = ground arith in
    ((lower, All-map_to _ _ us (λ v k. omega arith) below), tt)
cut-IsSeparated (t ∷ t' ∷ ts) rest ((le, _), d) h =
    let rec = cut-IsSeparated (t' ∷ ts) rest d h in
    (All-map_to _ _ rest (λ v k. omega arith) rec.0, rec)

above_rest :
    (kept : List ElusivTransaction) (r : ElusivTransaction) (rs : List ElusivTransaction)
    → IsDescending (kept ++ r ∷ rs)
    → All (λ t. r.nonce ≤ t.nonce) kept
above_rest [] r rs d = tt
above_rest (t ∷ ts) r rs (below, d) =
    ((All-append_right (λ u. u.nonce ≤ t.nonce) ts (r ∷ rs) below).0, above_rest ts r rs d)

rest-IsDescending :
    (kept rest : List ElusivTransaction) → IsDescending (kept ++ rest) → IsDescending rest
rest-IsDescending [] rest d = d
rest-IsDescending (t ∷ ts) rest (_, d) = rest-IsDescending ts rest d

count_from-All :
    (r : ElusivTransaction) (us : List ElusivTransaction)
    → All (λ t. r.nonce ≤ t.nonce) (count_from r us)
count_from-All r [] = tt
count_from-All r (u ∷ us) = ground (arith, count_from-All r us)

run-IsSeparated :
    (kept : List ElusivTransaction) (r : ElusivTransaction) (rs : List ElusivTransaction)
    → IsDescending (kept ++ r ∷ rs)
    → IsSeparated (kept ++ same_nonce_run (r ∷ rs)) (run_rest r.nonce (r ∷ rs))
run-IsSeparated kept r rs d =
    let (below, sorted) = rest-IsDescending kept (r ∷ rs) d in
    let lower : All (λ (u : ElusivTransaction). u.nonce < r.nonce) (run_rest r.nonce (r ∷ rs)) =
      run_rest_below r.nonce (r ∷ rs) (omega arith, below) (below, sorted) in
    All-map_to (λ t. r.nonce ≤ t.nonce) _ _
      (λ t le. All-map_to _ _ (run_rest r.nonce (r ∷ rs)) (λ u k. omega arith) lower)
      (All-append (λ t. r.nonce ≤ t.nonce) kept _ (above_rest kept r rs d)
        (count_from-All r (r ∷ rs)))

cut_lem :
    (count : ℕ) (kept rest filtered : List ElusivTransaction)
    → kept ++ rest ≡ filtered
    → (count ≤ length kept) ⊎ (rest ≡ [])
    → IsDescending (kept ++ rest)
    → IsNonceCut filtered count
        (kept ++ (if cut_inside_nonce kept rest then same_nonce_run rest else []))
cut_lem count kept [] filtered e l d =
    let nothing : if◌then◌else◌ {A = List ElusivTransaction} (cut_inside_nonce kept []) [] [] ≡ [] =
      ground arith in
    rw (nothing, append-nil)
      (record {
        dropped = [];
        is_first_part = e;
        is_long_enough = inr refl;
        separates_nonces = all_tt kept;
      })
  where
    all_tt : (ts : List ElusivTransaction) → IsSeparated ts []
    all_tt [] = tt
    all_tt (t ∷ ts) = (tt, all_tt ts)
cut_lem count kept (r ∷ rs) filtered e l d = elim (Bool-cases (cut_inside_nonce kept (r ∷ rs))) [
  | inl inside ↦ rw inside (record {
    dropped = run_rest r.nonce (r ∷ rs);
    is_first_part =
        append_assoc kept _ _ ∙ ap (λ ts. kept ++ ts) (count_from-append-run_rest r (r ∷ rs)) ∙ e;
    is_long_enough = longer l;
    separates_nonces = run-IsSeparated kept r rs d;
  })
  | inr between ↦
      rw (between, append-nil)
        (record {
          dropped = r ∷ rs;
          is_first_part = e;
          is_long_enough = l;
          separates_nonces = cut-IsSeparated kept (r ∷ rs) d between;
        })
]
  where
    longer :
        (count ≤ length kept) ⊎ ((r ∷ rs) ≡ [])
        → (count ≤ length (kept ++ same_nonce_run (r ∷ rs))) ⊎ (run_rest r.nonce (r ∷ rs) ≡ [])
    longer (inl h) = inl (omega (arith, length-append kept (same_nonce_run (r ∷ rs))))
    longer (inr no_rest) = cc

-- On transactions in descending order of nonces and a count above 0, `getTxsInNonceRange` returns a
-- first part of them, of at least `count` transactions or all, and never separates transactions that
-- have one nonce.
pub get_txs_in_nonce_range-IsNonceCut :
    (txs : List (Option ElusivTransaction)) (n : ℕ)
    → IsDescending (keep_defined txs)
    → (res : List ElusivTransaction) × (get_txs_in_nonce_range txs (some (suc n)) ≡ some res)
      × IsNonceCut (keep_defined txs) (suc n) res
unfolding get_txs_in_nonce_range
get_txs_in_nonce_range-IsNonceCut txs n d =
    let filtered = keep_defined txs in
    (
      _,
      refl,
      cut_lem (suc n) (take (suc n) filtered) (drop (suc n) filtered) filtered
          (take-append-drop (suc n) filtered) (long_enough (suc n) filtered)
          (subst IsDescending (sym (take-append-drop (suc n) filtered)) d),
    )
  where
    long_enough :
        (k : ℕ) (ts : List ElusivTransaction) → (k ≤ length (take k ts)) ⊎ (drop k ts ≡ [])
    long_enough zero ts = inl (omega arith)
    long_enough (suc k) [] = inr refl
    long_enough (suc k) (t ∷ ts) = elim (long_enough k ts) [
      | inl h ↦ inl (omega arith)
      | inr e ↦ inr e
    ]
