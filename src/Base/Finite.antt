-- ===== src/Base/Finite.antt =====
-- A test of every number below a bound, which a proof runs once and applies to any number.
use Prim.Native.Nat.{ℕ, zero, suc, ◌<◌, ◌≤◌}
use mathlib.Core.Path.{◌≡◌, refl, sym}
use mathlib.Core.Logic.{◌⊎◌, inl, inr}
use mathlib.Core.Bool.{Bool, true, false, not, ◌&&◌}
use native.Mathlib.Omega.{arith}
use stm32_rtos.Base.Tests.{split_and}

pub lt_or_ge : (a b : ℕ) → (a < b) ⊎ (b ≤ a)
lt_or_ge a b = grind arith

unfoldable pub all_below : (ℕ → Bool) → ℕ → Bool
all_below p zero = true
all_below p (suc k) = p k && all_below p k

pub at_of_below : (p : ℕ → Bool) (k n : ℕ) → all_below p k ≡ true → n < k → p n ≡ true
unfolding all_below
at_of_below p zero n h lt = absurd (omega arith)
at_of_below p (suc k) n h lt = elim (lt_or_ge n k) [
  | inl below ↦ at_of_below p k n (split_and _ _ h).1 below
  | inr here ↦ let e : n ≡ k = omega arith in rw e (split_and _ _ h).0
]

-- Whether two tests agree.
abbrev pub same : Bool → Bool → Bool
same true b = b
same false b = not b

pub same-eq : (a b : Bool) → same a b ≡ true → a ≡ b
same-eq true b h = sym h
same-eq false true h = h
same-eq false false h = refl
