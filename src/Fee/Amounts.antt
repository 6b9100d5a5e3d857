-- ===== src/Fee/Amounts.antt =====
-- src/public/Fee.ts: totals and sums of fees. The parts of a fee are whole numbers, on which `Math.ceil`
-- is the identity.
use elusiv_sdk.Base.{
  ℕ, zero, suc, Bool, true, false, not, Option, none, some, ◌≡◌, refl, sym, ap, ◌∙◌, if◌then◌else◌,
  ◌==◌,
}
use elusiv_sdk.Base.Int.{ℤ, pos, ◌+ℤ◌, int_laws}
use elusiv_sdk.Result.{Result, ok, err, invalid_token_type, invalid_conversion_rate, ok-injective}
use elusiv_sdk.Token.{TokenType, token_beq, token_beq_iff}
use elusiv_sdk.Fee.{Fee}

unfoldable pub get_computation_fee_total : Fee → ℤ
unfolding ◌+ℤ◌
get_computation_fee_total f = f.privacy_fee +ℤ f.tx_fee

unfoldable pub get_total_fee_amount : Fee → ℤ
unfolding get_computation_fee_total
get_total_fee_amount f = get_computation_fee_total f +ℤ f.token_acc_rent +ℤ f.extra_fee

abbrev pub zero_fee : TokenType → Fee
zero_fee token_type = record {
  token_type = token_type;
  tx_fee = pos 0;
  privacy_fee = pos 0;
  token_acc_rent = pos 0;
  extra_fee = pos 0;
  lamports_per_token = none;
}

-- Both rates are set and differ.
abbrev pub rates_differ : Option ℕ → Option ℕ → Bool
rates_differ (some r1) (some r2) = not (r1 == r2)
rates_differ _ _ = false

-- `r1 || r2`: 0 counts as unset.
abbrev pub first_rate : Option ℕ → Option ℕ → Option ℕ
first_rate (some (suc r1)) r2 = some (suc r1)
first_rate (some zero) r2 = r2
first_rate none r2 = r2

unfoldable pub add_fees : Fee → Fee → Result Fee
unfolding ◌+ℤ◌
add_fees f1 f2 =
    if not (token_beq f1.token_type f2.token_type)
    then err invalid_token_type
    else if rates_differ f1.lamports_per_token f2.lamports_per_token
    then err invalid_conversion_rate
    else ok (record {
      token_type = f1.token_type;
      tx_fee = f1.tx_fee +ℤ f2.tx_fee;
      privacy_fee = f1.privacy_fee +ℤ f2.privacy_fee;
      token_acc_rent = f1.token_acc_rent +ℤ f2.token_acc_rent;
      extra_fee = f1.extra_fee +ℤ f2.extra_fee;
      lamports_per_token = first_rate f1.lamports_per_token f2.lamports_per_token;
    })

abbrev sum_of : Fee → Fee → Fee
sum_of f1 f2 = record {
  token_type = f1.token_type;
  tx_fee = f1.tx_fee +ℤ f2.tx_fee;
  privacy_fee = f1.privacy_fee +ℤ f2.privacy_fee;
  token_acc_rent = f1.token_acc_rent +ℤ f2.token_acc_rent;
  extra_fee = f1.extra_fee +ℤ f2.extra_fee;
  lamports_per_token = first_rate f1.lamports_per_token f2.lamports_per_token;
}

two_guards :
    (c d : Bool) (s f : Fee)
    → (if not c then err invalid_token_type else if d then err invalid_conversion_rate else ok s)
      ≡ ok f
    → (c ≡ true) × (d ≡ false) × (s ≡ f)
two_guards true true s f e = cc
two_guards true false s f e = (refl, refl, ok-injective e)
two_guards false d s f e = cc

add_fees_cases :
    (f1 f2 f : Fee)
    → add_fees f1 f2 ≡ ok f
    → (token_beq f1.token_type f2.token_type ≡ true)
      × (rates_differ f1.lamports_per_token f2.lamports_per_token ≡ false)
      × (sum_of f1 f2 ≡ f)
unfolding add_fees
add_fees_cases f1 f2 f e =
    two_guards (token_beq f1.token_type f2.token_type)
      (rates_differ f1.lamports_per_token f2.lamports_per_token) (sum_of f1 f2) f e

total_parts :
    (f : Fee)
    → get_total_fee_amount f ≡ f.privacy_fee +ℤ f.tx_fee +ℤ f.token_acc_rent +ℤ f.extra_fee
unfolding get_total_fee_amount
total_parts f = refl

regroup :
    (a b c d e f g h : ℤ)
    → a +ℤ b +ℤ (c +ℤ d) +ℤ (e +ℤ f) +ℤ (g +ℤ h) ≡ a +ℤ c +ℤ e +ℤ g +ℤ (b +ℤ d +ℤ f +ℤ h)
regroup a b c d e f g h = omega int_laws

-- Fees that can be added are of one token, and so is their sum, whose total is the sum of the totals.
pub get_total_fee_amount-add_fees :
    (f1 f2 f : Fee)
    → add_fees f1 f2 ≡ ok f
    → (f1.token_type ≡ f2.token_type)
      × (f.token_type ≡ f1.token_type)
      × (get_total_fee_amount f ≡ get_total_fee_amount f1 +ℤ get_total_fee_amount f2)
get_total_fee_amount-add_fees f1 f2 f e =
    let (one_token, rates, summed) = add_fees_cases f1 f2 f e in
    (
      (token_beq_iff f1.token_type f2.token_type).0 one_token,
      ap (λ (g : Fee). g.token_type) (sym summed),
      ap get_total_fee_amount (sym summed)
          ∙ total_parts (sum_of f1 f2)
          ∙ regroup f1.privacy_fee f2.privacy_fee f1.tx_fee f2.tx_fee f1.token_acc_rent
              f2.token_acc_rent f1.extra_fee f2.extra_fee
          ∙ rw (total_parts f1, total_parts f2) refl,
    )
