-- ===== src/Token/Tests.antt =====
-- Concrete lookups of tokens, and the theorems on tokens at concrete inputs.
use elusiv_sdk.Base.{◌≡◌, refl}
use elusiv_sdk.Result.{ok, err, invalid_token_type, unknown_cluster}
use elusiv_sdk.Token.{
  usdc, bonk, testnet, devnet, get_token_type_from_number, get_token_type_from_str,
  get_mint_account, get_denomination,
}

number_too_large : get_token_type_from_number 6 ≡ err invalid_token_type
unfolding get_token_type_from_number
number_too_large = refl

name_unknown : get_token_type_from_str "SOL" ≡ err invalid_token_type
unfolding get_token_type_from_str
name_unknown = refl

mint_on_testnet : get_mint_account usdc testnet ≡ err unknown_cluster
unfolding get_mint_account
mint_on_testnet = refl

bonk_denomination : get_denomination bonk ≡ ok 100_000
unfolding get_denomination
bonk_denomination = refl

bonk_mint : get_mint_account bonk devnet ≡ ok "5B2TabGvtPgV67jnyEhhSrFvTTBv4awdrPg2qxNashhm"
unfolding get_mint_account
bonk_mint = refl
