-- ===== src/Token/Laws.antt =====
-- The token table is consistent with the numbers that tokens are serialized as.
use mathlib.Core.Option
use elusiv_sdk.Base.{ℕ, ◌^◌, ◌<◌, String, Bool, true, false, Option, some, ◌≡◌, refl, arith, find}
use elusiv_sdk.Base.Eq.{beq, string_eq}
use elusiv_sdk.Result.{ok, ok-injective}
use elusiv_sdk.Token.{
  TokenType, lamports, usdc, usdt, msol, bonk, samo, TokenInfo, token_name, token_infos, Cluster,
  devnet, testnet, mainnet_beta, get_number_from_token_type, get_token_type_from_number,
  get_token_type_from_str, get_token_info, get_mint_account,
}

-- A token's number is below 6, leads back to the token, and so does its name.
pub get_token_type_from_number-get_number_from_token_type :
    (t : TokenType)
    → (n : ℕ) × (get_number_from_token_type t ≡ ok n)
      × (n < 6)
      × (get_token_type_from_number n ≡ ok t)
      × (get_token_type_from_str (token_name t) ≡ ok t)
unfolding get_number_from_token_type get_token_type_from_number get_token_type_from_str
get_token_type_from_number-get_number_from_token_type lamports = (0, refl, omega arith, refl, refl)
get_token_type_from_number-get_number_from_token_type usdc = (1, refl, omega arith, refl, refl)
get_token_type_from_number-get_number_from_token_type usdt = (2, refl, omega arith, refl, refl)
get_token_type_from_number-get_number_from_token_type msol = (3, refl, omega arith, refl, refl)
get_token_type_from_number-get_number_from_token_type bonk = (4, refl, omega arith, refl, refl)
get_token_type_from_number-get_number_from_token_type samo = (5, refl, omega arith, refl, refl)

-- What the client reads off a token's table entry: the entry is the token's own, its denomination is
-- the power of ten of its decimals, its amount range is not empty.
pub record IsConsistent (t : TokenType) (info : TokenInfo) : Type 0 where
  pub own_symbol : info.symbol ≡ t
  pub is_active : info.active ≡ true
  pub power_of_ten : info.denomination ≡ 10 ^ info.decimals
  pub range : info.min_amount < info.max_amount

-- The lookup of a token's table entry never throws, and the entry is consistent.
pub get_token_info-IsConsistent :
    (t : TokenType) → (info : TokenInfo) × (get_token_info t ≡ ok info) × IsConsistent t info
unfolding get_token_info
get_token_info-IsConsistent lamports = (_, refl, ground arith)
get_token_info-IsConsistent usdc = (_, refl, ground arith)
get_token_info-IsConsistent usdt = (_, refl, ground arith)
get_token_info-IsConsistent msol = (_, refl, ground arith)
get_token_info-IsConsistent bonk = (_, refl, ground arith)
get_token_info-IsConsistent samo = (_, refl, ground arith)

-- The token that a mint account belongs to, found by a search of the table.
abbrev has_mint : Cluster → String → TokenInfo → Bool
has_mint devnet mint info = beq info.mint_devnet mint
has_mint mainnet_beta mint info = beq info.mint_mainnet mint
has_mint testnet mint info = false

owner_of_mint : Cluster → String → Option TokenType
owner_of_mint c mint =
    Option.map (λ (info : TokenInfo). info.symbol) (find (has_mint c mint) token_infos)

owner_of_mint-get_mint_account :
    (t : TokenType) (c : Cluster) (mint : String)
    → get_mint_account t c ≡ ok mint
    → owner_of_mint c mint ≡ some t
unfolding get_mint_account owner_of_mint
owner_of_mint-get_mint_account lamports devnet mint p = rw (← ok-injective p) refl
owner_of_mint-get_mint_account lamports mainnet_beta mint p = rw (← ok-injective p) refl
owner_of_mint-get_mint_account usdc devnet mint p = rw (← ok-injective p) refl
owner_of_mint-get_mint_account usdc mainnet_beta mint p = rw (← ok-injective p) refl
owner_of_mint-get_mint_account usdt devnet mint p = rw (← ok-injective p) refl
owner_of_mint-get_mint_account usdt mainnet_beta mint p = rw (← ok-injective p) refl
owner_of_mint-get_mint_account msol devnet mint p = rw (← ok-injective p) refl
owner_of_mint-get_mint_account msol mainnet_beta mint p = rw (← ok-injective p) refl
owner_of_mint-get_mint_account bonk devnet mint p = rw (← ok-injective p) refl
owner_of_mint-get_mint_account bonk mainnet_beta mint p = rw (← ok-injective p) refl
owner_of_mint-get_mint_account samo devnet mint p = rw (← ok-injective p) refl
owner_of_mint-get_mint_account samo mainnet_beta mint p = rw (← ok-injective p) refl
owner_of_mint-get_mint_account lamports testnet mint p = cc
owner_of_mint-get_mint_account usdc testnet mint p = cc
owner_of_mint-get_mint_account usdt testnet mint p = cc
owner_of_mint-get_mint_account msol testnet mint p = cc
owner_of_mint-get_mint_account bonk testnet mint p = cc
owner_of_mint-get_mint_account samo testnet mint p = cc

-- No two tokens share a mint account of one cluster.
pub get_mint_account-injective :
    (s t : TokenType) (c : Cluster) (mint : String)
    → get_mint_account s c ≡ ok mint
    → get_mint_account t c ≡ ok mint
    → s ≡ t
get_mint_account-injective s t c mint p q =
    cc (owner_of_mint-get_mint_account s c mint p, owner_of_mint-get_mint_account t c mint q)
