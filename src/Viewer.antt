-- ===== src/Viewer.antt =====
-- src/public/elusivViewer.ts: how much has gone through the program lately. The chain's answers are
-- parameters: a page of signatures for an account and the signature before which to search, and the
-- transactions of signatures.
pub mod Pages
pub mod Amounts
pub mod Counting
pub mod Volume
pub mod Tests
use elusiv_sdk.Base.{
  ℕ, zero, suc, ◌+◌, ◌*◌, ◌/◌, ◌-◌, Bool, true, false, not, ◌&&◌, ◌||◌, String, Option, none, some,
  List, [], ◌∷◌, ◌++◌, keep_if, get_elem?, length, if◌then◌else◌, ltb, leb, ◌==◌,
}
use elusiv_sdk.Base.Eq.{beq, string_eq}
use elusiv_sdk.Result.{Result, ok, err, map_result, map_ok, out_of_fuel, invalid_access, ◌>>=◌}
use elusiv_sdk.Token.{TokenType, lamports, token_beq, get_token_types}

pub record ConfirmedSignatureInfo : Type 0 where
  pub signature : String
  pub block_time : Option ℕ

-- `s.blockTime && s.blockTime > untilTimeSec`
abbrev pub is_recent : ℕ → ConfirmedSignatureInfo → Bool
is_recent until s = elim s.block_time [ none ↦ false | some time ↦ ltb until time ]

-- `xs[xs.length - 1]`
abbrev pub last_or {ℓ} : {A : Type ℓ} → A → List A → A
last_or x [] = x
last_or x (y ∷ ys) = last_or y ys

abbrev pub last_of {ℓ} : {A : Type ℓ} → List A → Option A
last_of [] = none
last_of (x ∷ xs) = some (last_or x xs)

-- The condition of the loop, of the oldest signature that is recent and the oldest one.
abbrev pub go_on : Option ConfirmedSignatureInfo → Option ConfirmedSignatureInfo → Bool
go_on (some filtered) (some oldest) = beq filtered.signature oldest.signature
go_on _ _ = false

abbrev pub signature_of : Option ConfirmedSignatureInfo → Option String
signature_of none = none
signature_of (some s) = some s.signature

-- The loop of `getElusivSigsLastTime`, on fuel.
unfoldable pub sigs_loop :
    (Option String → List ConfirmedSignatureInfo)
    → ℕ
    → ℕ
    → Option String
    → Result (List ConfirmedSignatureInfo)
sigs_loop fetch until zero before = err out_of_fuel
sigs_loop fetch until (suc fuel) before =
    let sigs = fetch before in
    let filtered = keep_if (is_recent until) sigs in
    let rest = sigs_loop fetch until fuel (signature_of (last_of sigs)) in
    if go_on (last_of filtered) (last_of sigs)
    then map_ok (λ more. filtered ++ more) rest
    else ok filtered

abbrev pub has_signature : List ConfirmedSignatureInfo → ConfirmedSignatureInfo → Bool
has_signature [] s = false
has_signature (n ∷ ns) s = beq n.signature s.signature || has_signature ns s

abbrev pub in_some : List (List ConfirmedSignatureInfo) → ConfirmedSignatureInfo → Bool
in_some [] s = false
in_some (ns ∷ nss) s = has_signature ns s || in_some nss s

-- What the viewer asks the chain for, and the accounts it asks about.
pub record ViewerChain : Type 0 where
  pub fee_collector : String
  pub associated_collector : TokenType → String
  pub fetch : String → Option String → List ConfirmedSignatureInfo

module _ (chain : ViewerChain) where
  abbrev pub collector_of : Option TokenType → String
  collector_of none = chain.fee_collector
  collector_of (some token_type) =
      if token_beq token_type lamports
      then chain.fee_collector
      else chain.associated_collector token_type

  -- The call for one of the other tokens.
  unfoldable pub non_lamport_sigs : ℕ → ℕ → TokenType → Result (List ConfirmedSignatureInfo)
  unfolding sigs_loop
  non_lamport_sigs until fuel t =
      if token_beq t lamports
      then ok []
      else sigs_loop (chain.fetch (collector_of (some t))) until fuel none

  abbrev pub is_lamports : Option TokenType → Bool
  is_lamports none = false
  is_lamports (some t) = token_beq t lamports

  unfoldable pub get_elusiv_sigs_last_time :
      ℕ → ℕ → Option TokenType → Result (List ConfirmedSignatureInfo)
  unfolding sigs_loop non_lamport_sigs map_result get_token_types
  get_elusiv_sigs_last_time until fuel token_type = do
    total_sigs ← sigs_loop (chain.fetch (collector_of token_type)) until fuel none
    if is_lamports token_type
        then (do
          others ← map_result (non_lamport_sigs until fuel) get_token_types
          ok (keep_if (λ s. not (in_some others s)) total_sigs))
        else ok total_sigs

  -- `Math.ceil(n / 1.5)`
  unfoldable pub estimate_txs_count_last_time : ℕ → ℕ → Option TokenType → Result ℕ
  unfolding get_elusiv_sigs_last_time
  estimate_txs_count_last_time until fuel token_type =
      map_ok (λ sigs. (2 * length sigs + 2) / 3) (get_elusiv_sigs_last_time until fuel token_type)

pub record CompiledIx : Type 0 where
  pub program_id_index : ℕ
  pub ix_data : List ℕ

pub record ChainTx : Type 0 where
  pub static_account_keys : List String
  pub compiled_instructions : List CompiledIx

abbrev pub is_counted : List ℕ → Bool
is_counted [] = false
is_counted (code ∷ bytes) = code == 0 || code == 8

-- `accounts[ix.programIdIndex].equals(...)`, which throws where there is no such account.
abbrev pub is_of_program : String → Option String → Result Bool
is_of_program program none = err invalid_access
is_of_program program (some key) = ok (beq key program)

-- What the inner loop adds for a transaction.
unfoldable pub counted_once : String → List String → List CompiledIx → Result ℕ
counted_once program accounts [] = ok 0
counted_once program accounts (ix ∷ ixs) = do
  own ← is_of_program program (get_elem? accounts ix.program_id_index)
  if own && is_counted ix.ix_data then ok 1 else counted_once program accounts ixs

unfoldable pub count_txs : String → List (Option ChainTx) → Result ℕ
unfolding counted_once
count_txs program [] = ok 0
count_txs program (none ∷ txs) = count_txs program txs
count_txs program (some tx ∷ txs) = do
  here ← counted_once program tx.static_account_keys tx.compiled_instructions
  rest ← count_txs program txs
  ok (here + rest)

-- A balance of a token in a transaction's `meta`.
pub record TokenBalance : Type 0 where
  pub owner : String
  pub mint : String
  pub amount : ℕ

pub record BalanceTx : Type 0 where
  pub account_keys : List String
  pub pre_balances : Option (List ℕ)
  pub post_balances : Option (List ℕ)
  pub pre_token_balances : Option (List TokenBalance)
  pub post_token_balances : Option (List TokenBalance)

abbrev pub only_one : List TokenBalance → Option ℕ
only_one (t ∷ []) = some t.amount
only_one _ = none

-- The pool's balance, if there is exactly one.
unfoldable pub token_amount : String → String → Option (List TokenBalance) → Option ℕ
token_amount pool mint none = none
token_amount pool mint (some balances) =
    only_one (keep_if (λ (t : TokenBalance). beq t.owner pool && beq t.mint mint) balances)

-- The balance at the place of the pool among the accounts.
unfoldable pub lamport_amount : String → List String → List ℕ → Option ℕ
lamport_amount pool (key ∷ keys) (b ∷ balances) =
    let later = lamport_amount pool keys balances in if beq key pool then some b else later
lamport_amount pool _ _ = none

abbrev pub lamport_amount_of : String → List String → Option (List ℕ) → Option ℕ
lamport_amount_of pool keys none = none
lamport_amount_of pool keys (some balances) = lamport_amount pool keys balances

-- `Math.abs(postAmount - preAmount)`
abbrev pub distance : ℕ → ℕ → ℕ
distance a b = (a - b) + (b - a)

abbrev pub moved : Option ℕ → Option ℕ → ℕ
moved (some pre) (some post) = distance post pre
moved _ _ = 0

abbrev pub amounts_of : String → String → TokenType → BalanceTx → Option ℕ × Option ℕ
amounts_of pool mint token_type tx =
    if token_beq token_type lamports
    then (
      lamport_amount_of pool tx.account_keys tx.pre_balances,
      lamport_amount_of pool tx.account_keys tx.post_balances,
    )
    else (
      token_amount pool mint tx.pre_token_balances,
      token_amount pool mint tx.post_token_balances,
    )

-- The sum over the transactions that were fetched.
unfoldable pub volume : String → String → TokenType → List (Option BalanceTx) → ℕ
unfolding token_amount lamport_amount
volume pool mint token_type [] = 0
volume pool mint token_type (none ∷ txs) = volume pool mint token_type txs
volume pool mint token_type (some tx ∷ txs) =
    let amounts = amounts_of pool mint token_type tx in
    moved amounts.0 amounts.1 + volume pool mint token_type txs
