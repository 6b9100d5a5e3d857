-- ===== src/Viewer/Tests.antt =====
-- A chain of three signatures that answers two at a time, and what the viewer finds on it.
use elusiv_sdk.Base.{
  ℕ, ◌≡◌, ◌≢◌, refl, sym, ap, arith, String, Option, none, some, List, [], ◌∷◌, ◌++◌, inl, inr,
  take, length, if◌then◌else◌,
}
use elusiv_sdk.Base.Eq.{beq, string_eq}
use elusiv_sdk.Result.{ok}
use elusiv_sdk.Token.{lamports, usdc}
use elusiv_sdk.Viewer.{
  ConfirmedSignatureInfo, ViewerChain, sigs_loop, get_elusiv_sigs_last_time, BalanceTx, ChainTx,
  counted_once, count_txs, volume,
}
use elusiv_sdk.Viewer.Pages.{
  IsNewestFirst, Pages, IsChain, asked_for, get_elusiv_sigs_last_time_lem,
}
use elusiv_sdk.Viewer.Amounts.{ShowsLamports}
use elusiv_sdk.Viewer.Volume.{Shows, volume-AreMoves}

abbrev sig : String → ℕ → ConfirmedSignatureInfo
sig signature time = record { signature = signature; block_time = some time }

abbrev three : List ConfirmedSignatureInfo
three = sig "c" 30 ∷ sig "b" 20 ∷ sig "a" 10 ∷ []

-- What comes after a signature.
abbrev after : String → List ConfirmedSignatureInfo → List ConfirmedSignatureInfo
after s [] = []
after s (x ∷ xs) = let later = after s xs in if beq x.signature s then xs else later

abbrev fetch_three : Option String → List ConfirmedSignatureInfo
fetch_three none = take 2 three
fetch_three (some s) = take 2 (after s three)

abbrev head_or : ConfirmedSignatureInfo → List ConfirmedSignatureInfo → ConfirmedSignatureInfo
head_or d [] = d
head_or d (x ∷ xs) = x

abbrev tail_of : List ConfirmedSignatureInfo → List ConfirmedSignatureInfo
tail_of [] = []
tail_of (x ∷ xs) = xs

abbrev seen : List ConfirmedSignatureInfo → List ConfirmedSignatureInfo
seen xs = take 2 xs

three-Pages : Pages fetch_three 1 three
three-Pages = record { newest = refl; before = by_place }
  where
    by_place :
        (newer older : List ConfirmedSignatureInfo) (s : ConfirmedSignatureInfo)
        → three ≡ newer ++ s ∷ older
        → fetch_three (some s.signature) ≡ take 2 older
    by_place [] older s split =
        let s_is = ap (head_or s) split in
        let rest = ap tail_of split in rw (sym s_is, sym rest) refl
    by_place (x ∷ []) older s split =
        let s_is = ap (λ xs. head_or s (tail_of xs)) split in
        let rest = ap (λ xs. tail_of (tail_of xs)) split in rw (sym s_is, sym rest) refl
    by_place (x ∷ y ∷ []) older s split =
        let s_is = ap (λ xs. head_or s (tail_of (tail_of xs))) split in
        let rest = ap (λ xs. tail_of (tail_of (tail_of xs))) split in rw (sym s_is, sym rest) refl
    by_place (x ∷ y ∷ z ∷ newer) older s split =
        let gone = ap (λ xs. length (tail_of (tail_of (tail_of xs)))) split in
        absurd (too_long newer older s gone)
      where
        too_long :
            (newer older : List ConfirmedSignatureInfo) (s : ConfirmedSignatureInfo)
            → 0 ≢ length (newer ++ s ∷ older)
        too_long [] older s e = ground (arith, e)
        too_long (x ∷ newer) older s e = ground (arith, e)

three-IsNewestFirst : IsNewestFirst 30 three
three-IsNewestFirst = (30, refl, omega arith, (20, refl, omega arith, (10, refl, omega arith, tt)))

abbrev chain : ViewerChain
chain = record {
  fee_collector = "collector";
  associated_collector = λ t. "associated";
  fetch = λ account. fetch_three;
}

chain-IsChain : IsChain chain 1 4 30 (λ account. three)
chain-IsChain = record {
  pages = λ account. three-Pages;
  sorted = λ account. three-IsNewestFirst;
  enough = λ account. omega arith;
}

get_elusiv_sigs_last_time_lem_example :
    get_elusiv_sigs_last_time chain 15 4 (some usdc)
    ≡ ok (asked_for chain (λ account. three) 15 (some usdc))
get_elusiv_sigs_last_time_lem_example =
    get_elusiv_sigs_last_time_lem chain 1 4 30 15 (λ account. three) chain-IsChain (some usdc)

found : get_elusiv_sigs_last_time chain 15 4 none ≡ ok (sig "c" 30 ∷ sig "b" 20 ∷ [])
unfolding get_elusiv_sigs_last_time sigs_loop
found = refl

abbrev pool_tx : ℕ → ℕ → BalanceTx
pool_tx pre post = record {
  account_keys = "sender" ∷ "pool" ∷ [];
  pre_balances = some (5 ∷ pre ∷ []);
  post_balances = some (5 ∷ post ∷ []);
  pre_token_balances = none;
  post_token_balances = none;
}

abbrev token_tx : BalanceTx
token_tx = record {
  account_keys = "sender" ∷ [];
  pre_balances = some (5 ∷ []);
  post_balances = none;
  pre_token_balances = none;
  post_token_balances = none;
}

-- 50 go out of the pool, 20 come into it, one transaction has another account only and one is missing.
abbrev pool_txs : List (Option BalanceTx)
pool_txs = some (pool_tx 120 70) ∷ none ∷ some token_tx ∷ some (pool_tx 100 120) ∷ []

volume-AreMoves_example : volume "pool" "mint" lamports pool_txs ≡ 70
volume-AreMoves_example = volume-AreMoves "pool" "mint" lamports pool_txs (50 ∷ 0 ∷ 20 ∷ []) (
  inl (120, 70, inl (refl, at_pool 120, at_pool 70), inr refl),
  (
    inr (λ pre post shown. not_shown pre post shown, refl),
    (inl (100, 120, inl (refl, at_pool 100, at_pool 120), inl refl), tt),
  ),
)
  where
    at_pool : (n : ℕ) → ShowsLamports "pool" ("sender" ∷ "pool" ∷ []) (5 ∷ n ∷ []) n
    at_pool n = inr (λ same. cc, inl (refl, refl))

    not_shown : (pre post : ℕ) → ¬ Shows "pool" "mint" lamports token_tx pre post
    not_shown pre post (inl shown) = absurd shown.2
    not_shown pre post (inr other) = absurd (other.0 refl)

abbrev store_tx : ChainTx
store_tx = record {
  static_account_keys = "sender" ∷ "program" ∷ [];
  compiled_instructions =
      record { program_id_index = 1; ix_data = 0 ∷ [] }
      ∷ record { program_id_index = 1; ix_data = 8 ∷ [] }
      ∷ [];
}

one_counted : count_txs "program" (some store_tx ∷ none ∷ []) ≡ ok 1
unfolding count_txs counted_once
one_counted = refl
