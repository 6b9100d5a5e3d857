-- ===== src/Base/Eq.antt =====
-- Equality of keys as an interface: how JavaScript's `Map` compares its keys.
use text.Mathlib.TextEquality.{eq_iff as text_beq_iff}
use text.Mathlib.Text.{◌==◌ as text_beq}
use elusiv_sdk.Base.{ℕ, String, Bool, true, ◌≡◌, ◌↔◌, ==_iff}
use elusiv_sdk.Base.{◌==◌ as nat_beq}

pub record Eq {κ} (K : Type κ) : Type κ where
  pub same : K → K → Bool
  pub same_iff : (j k : K) → (same j k ≡ true) ↔ (j ≡ k)

module _ {κ} {K : Type κ} ⦃e : Eq K⦄ where
  abbrev pub beq : K → K → Bool
  beq = e.same

  pub beq_iff : (j k : K) → (beq j k ≡ true) ↔ (j ≡ k)
  beq_iff = e.same_iff

instance abbrev pub nat_eq : Eq ℕ
nat_eq = record { same = nat_beq; same_iff = ==_iff }

instance abbrev pub string_eq : Eq String
string_eq = record { same = text_beq; same_iff = text_beq_iff }
