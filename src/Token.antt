-- ===== src/Token.antt =====
-- src/public/tokenTypes: the supported tokens (TokenType.ts), their table (Token.ts) and the lookups
-- over it (TokenTypeFuncs.ts). A `PublicKey` is the base58 text that it is made from.
pub mod Laws
pub mod Tests
use elusiv_sdk.Base.{
  ℕ, zero, suc, String, Bool, true, false, Option, none, some, List, [], ◌∷◌, map, length,
  get_elem?, leb, if◌then◌else◌, ◌≡◌, ◌↔◌, arith,
}
use elusiv_sdk.Base.Eq.{Eq, beq, string_eq}
use elusiv_sdk.Result.{Result, ok, err, invalid_token_type, unknown_cluster, ◌>>=◌}

pub data TokenType : Type 0 where
  lamports usdc usdt msol bonk samo : TokenType

abbrev pub token_beq : TokenType → TokenType → Bool
token_beq lamports lamports = true
token_beq usdc usdc = true
token_beq usdt usdt = true
token_beq msol msol = true
token_beq bonk bonk = true
token_beq samo samo = true
token_beq _ _ = false

pub token_beq_iff : (a b : TokenType) → (token_beq a b ≡ true) ↔ (a ≡ b)
token_beq_iff a b = ground arith

instance abbrev pub token_eq : Eq TokenType
token_eq = record { same = token_beq; same_iff = token_beq_iff }

abbrev pub token_type_arr : List TokenType
token_type_arr = lamports ∷ usdc ∷ usdt ∷ msol ∷ bonk ∷ samo ∷ []

-- The string that a member of the union type is in the source.
abbrev pub token_name : TokenType → String
token_name lamports = "LAMPORTS"
token_name usdc = "USDC"
token_name usdt = "USDT"
token_name msol = "mSOL"
token_name bonk = "BONK"
token_name samo = "SAMO"

pub record TokenInfo : Type 0 where
  pub symbol : TokenType
  pub mint_mainnet : String
  pub mint_devnet : String
  pub active : Bool
  pub decimals : ℕ
  pub min_amount : ℕ
  pub max_amount : ℕ
  pub denomination : ℕ
  pub pyth_usd_price_mainnet : String
  pub pyth_usd_price_devnet : String

abbrev pub token_infos : List TokenInfo
token_infos =
    record {
      symbol = lamports;
      mint_mainnet = "11111111111111111111111111111111";
      mint_devnet = "11111111111111111111111111111111";
      active = true;
      decimals = 9;
      min_amount = 1000;
      max_amount = 360_000_000_000;
      denomination = 1_000_000_000;
      pyth_usd_price_mainnet = "H6ARHf6YXhGYeQfUzQNGk6rDNnLBQKrenN712K4AQJEG";
      pyth_usd_price_devnet = "J83w4HKfqxwcq3BEMMkPFSppX3gqekLyLJBexebFVkix";
    }
    ∷ record {
      symbol = usdc;
      mint_mainnet = "EPjFWdd5AufqSSqeM2qN1xzybapC8G4wEGGkZwyTDt1v";
      mint_devnet = "F3hocsFVHrdTBG2yEHwnJHAJo4rZfnSwPg8d5nVMNKYE";
      active = true;
      decimals = 6;
      min_amount = 1000;
      max_amount = 8_000_000_000;
      denomination = 1_000_000;
      pyth_usd_price_mainnet = "Gnt27xtC473ZT2Mw5u8wZ68Z3gULkSTb5DuxJy7eJotD";
      pyth_usd_price_devnet = "5SSkXsEKQepHHAewytPVwdej4epN1nxgLVM84L4KXgy7";
    }
    ∷ record {
      symbol = usdt;
      mint_mainnet = "Es9vMFrzaCERmJfrF4H2FYD4KCoNkY11McCe8BenwNYB";
      mint_devnet = "AyPeYKj4oHBGdhLjMwbj9m8tEdS1gr9tyqkpT3oDEZUV";
      active = true;
      decimals = 6;
      min_amount = 1000;
      max_amount = 8_000_000_000;
      denomination = 1_000_000;
      pyth_usd_price_mainnet = "3vxLXJqLqF3JG5TCbYycbKWRBbCJQLxQmBGCkyqEEefL";
      pyth_usd_price_devnet = "38xoQ4oeJCBrcVvca2cGk7iV1dAfrmTR1kmhSCJQ8Jto";
    }
    ∷ record {
      symbol = msol;
      mint_mainnet = "mSoLzYCxHdYgdzU16g5QSh3i5K3z3KZK7ytfqcJm7So";
      mint_devnet = "4EnmvnhxdmMrHQeHXh5tRnhCCUJpdCjmWjrnJPr3YNzi";
      active = true;
      decimals = 9;
      min_amount = 1000;
      max_amount = 360_000_000_000;
      denomination = 1_000_000_000;
      pyth_usd_price_mainnet = "E4v1BBgoso9s64TQvmyownAVJbhbEPGyzA3qn4n46qj9";
      pyth_usd_price_devnet = "9a6RNx3tCu1TSs6TBSfV2XRXEPEZXQ6WB7jRojZRvyeZ";
    }
    ∷ record {
      symbol = bonk;
      mint_mainnet = "DezXAZ8z7PnrnRJjz3wXBoRgixCa6xjnB7YaB1pPB263";
      mint_devnet = "5B2TabGvtPgV67jnyEhhSrFvTTBv4awdrPg2qxNashhm";
      active = true;
      decimals = 5;
      min_amount = 1_000_000_000;
      max_amount = 2_000_000_000_000_000;
      denomination = 100_000;
      pyth_usd_price_mainnet = "8ihFLu5FimgTQ1Unh4dVyEHUGodJ5gJQCrQf4KUVB9bN";
      pyth_usd_price_devnet = "6bquU99ktV1VRiHDr8gMhDFt3kMfhCQo5nfNrg2Urvsn";
    }
    ∷ record {
      symbol = samo;
      mint_mainnet = "7xKXtg2CW87d97TXJSDpbD5jBkheTqA83TZRuJosgAsU";
      mint_devnet = "QcvLaJJPXCTmcBsif9DxivbHQLqqjUgcXU1F97sKoPJ";
      active = true;
      decimals = 9;
      min_amount = 100_000_000;
      max_amount = 2_000_000_000_000_000;
      denomination = 1_000_000_000;
      pyth_usd_price_mainnet = "5wRjzrwWZG3af3FE26ZrRj3s8A3BVNyeJ9Pt9Uf2ogdf";
      pyth_usd_price_devnet = "G7dySNGaxZ8y2E89aX1K6rFeBt2ZnYBqXuCu1k2Y9MEe";
    }
    ∷ []

-- `Array.prototype.indexOf`: `none` stands for -1.
abbrev pub index_of {ℓ} : {A : Type ℓ} → (A → Bool) → List A → Option ℕ
index_of p [] = none
index_of p (x ∷ xs) =
    let later : Option ℕ = elim (index_of p xs) [ none ↦ none | some n ↦ some (suc n) ] in
    if p x then some 0 else later

-- An element of a table, or the error of a place that it does not have.
abbrev pub elem_or {ℓ} : {A : Type ℓ} → Option A → Result A
elem_or none = err invalid_token_type
elem_or (some a) = ok a

abbrev number_or_throw : Option ℕ → Result ℕ
number_or_throw none = err invalid_token_type
number_or_throw (some n) = ok n

unfoldable pub get_number_from_token_type : TokenType → Result ℕ
get_number_from_token_type t = number_or_throw (index_of (λ u. token_beq u t) token_type_arr)

unfoldable pub get_token_type_from_number : ℕ → Result TokenType
get_token_type_from_number t =
    if leb (length token_type_arr) t
    then err invalid_token_type
    else elem_or (get_elem? token_type_arr t)

-- The cast `t as TokenType` keeps the string; here it finds the member with that name.
unfoldable pub get_token_type_from_str : String → Result TokenType
get_token_type_from_str t = do
  n ← number_or_throw (index_of (λ u. beq (token_name u) t) token_type_arr)
  elem_or (get_elem? token_type_arr n)

unfoldable pub get_token_info : TokenType → Result TokenInfo
unfolding get_number_from_token_type
get_token_info token_type = do
  token_index ← get_number_from_token_type token_type
  if leb (length token_infos) token_index
      then err invalid_token_type
      else elem_or (get_elem? token_infos token_index)

unfoldable pub get_token_types : List TokenType
get_token_types = map (λ (info : TokenInfo). info.symbol) token_infos

-- web3.js's `Cluster`.
pub data Cluster : Type 0 where
  devnet testnet mainnet_beta : Cluster

abbrev by_cluster : Cluster → String → String → Result String
by_cluster devnet on_devnet on_mainnet = ok on_devnet
by_cluster mainnet_beta on_devnet on_mainnet = ok on_mainnet
by_cluster testnet on_devnet on_mainnet = err unknown_cluster

unfoldable pub get_mint_account : TokenType → Cluster → Result String
unfolding get_token_info
get_mint_account token_type cluster = do
  info ← get_token_info token_type
  by_cluster cluster info.mint_devnet info.mint_mainnet

unfoldable pub get_denomination : TokenType → Result ℕ
unfolding get_token_info
get_denomination t = do info ← get_token_info t; ok info.denomination

unfoldable pub get_pyth_price_account : TokenType → Cluster → Result String
unfolding get_token_info
get_pyth_price_account t cluster = do
  info ← get_token_info t
  by_cluster cluster info.pyth_usd_price_devnet info.pyth_usd_price_mainnet
