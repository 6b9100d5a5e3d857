-- ===== src/Index/Bounds.antt =====
-- The level that `getLevelFromIndex` computes, and the ranges of the converted indices.
use mathlib.Core.Logic.{dif_pos, dif_neg}
use mathlib.Core.WellFounded.{Acc}
use elusiv_sdk.Base.{ℕ, suc, ◌+◌, ◌/◌, ◌^◌, ◌≤◌, ◌<◌, ◌≡◌, arith}
use elusiv_sdk.Base.Order.{lt_wf}
use elusiv_sdk.Index.{log2_acc, log2_floor, get_level_from_index}
use native.Mathlib.Nat.{two-pow-succ, pow-le-pow_right}
use native.Mathlib.Bridge.{le_prop}
use native.Mathlib.Decide.{dec_lt}

log2_acc_bounds :
    (n : ℕ) (w : Acc ◌<◌ n)
    → 0 < n
    → (2 ^ log2_acc n w ≤ n) × (n < 2 ^ log2_acc n w + 2 ^ log2_acc n w)
unfolding log2_acc
log2_acc_bounds n (Acc.intro _ smaller) h = elim (dec_lt 1 n) [
  | yes p ↦
      rw (dif_pos _ le_prop p)
        (doubled (n / 2) _ (log2_acc_bounds (n / 2) (smaller (n / 2) _) (omega arith)))
  | no p ↦ rw (dif_neg _ p) (omega arith)
]
  where
    doubled :
        (m k : ℕ)
        → (2 ^ k ≤ n / 2) × (n / 2 < 2 ^ k + 2 ^ k)
        → (2 ^ suc k ≤ n) × (n < 2 ^ suc k + 2 ^ suc k)
    doubled m k (lo, hi) = rw two-pow-succ (omega arith)

-- `getLevelFromIndex` finds the level that the node's place falls in.
pub get_level_from_index_bounds :
    (g : ℕ)
    → (2 ^ get_level_from_index g ≤ g + 1)
      × (g + 1 < 2 ^ get_level_from_index g + 2 ^ get_level_from_index g)
unfolding get_level_from_index log2_floor
get_level_from_index_bounds g = log2_acc_bounds (g + 1) (lt_wf.apply (g + 1)) (omega arith)

-- Powers of two bracket a number at one exponent only.
pub level_unique :
    (n j k : ℕ) → 2 ^ j ≤ n → n < 2 ^ j + 2 ^ j → 2 ^ k ≤ n → n < 2 ^ k + 2 ^ k → j ≡ k
level_unique n j k a b c d = elim (dec_lt j k) [
  | yes p ↦ absurd (below j k p a b c d)
  | no p ↦ elim (dec_lt k j) [ yes q ↦ absurd (below k j q c d a b) | no q ↦ omega arith ]
]
  where
    below : (i m : ℕ) → i < m → 2 ^ i ≤ n → n < 2 ^ i + 2 ^ i → 2 ^ m ≤ n → n < 2 ^ m + 2 ^ m → ⊥
    below i m p a b c d =
        let grows : 2 ^ suc i ≤ 2 ^ m = pow-le-pow_right (omega arith) p in
        omega (arith, rw two-pow-succ at grows)
