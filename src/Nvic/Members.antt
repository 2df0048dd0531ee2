-- ===== src/Nvic/Members.antt =====
-- `nvicValidateIrq` against the enumerators of `IRQn_e`.
use stm32_rtos.Base.{
  same, same-eq, ℕ, ◌≤◌, lt_or_ge, all_below, at_of_below, inl, inr, ◌<◌, ltb, ◌==◌, ◌||◌, ◌&&◌,
  split_and, Bool, true, false, ◌≡◌, refl, arith, ℤ, pos, negsuc, List, [], ◌∷◌,
}
use stm32_rtos.Status.{is_ok}
use stm32_rtos.Nvic.{nvic_validate_irq}
use stm32_rtos.Nvic.Irqn.{Irqn, irqn_value, all_irqns}

abbrev is_value : ℤ → ℕ → Bool
is_value (pos m) n = n == m
is_value (negsuc m) n = false

-- The number is the value of one of the enumerators.
abbrev is_one_of : List Irqn → ℕ → Bool
is_one_of [] n = false
is_one_of (e ∷ es) n = is_value (irqn_value e) n || is_one_of es n

-- An enumerator with a value that is not negative: a device interrupt.
abbrev pub is_member : ℤ → Bool
is_member (pos n) = is_one_of all_irqns n
is_member (negsuc n) = false

agree : ℕ → Bool
agree n = same (is_ok (nvic_validate_irq (pos n))) (is_member (pos n))

agree_97 : all_below agree 97 ≡ true
unfolding all_below agree nvic_validate_irq
agree_97 = refl

agree_at : (n : ℕ) → n < 97 → is_ok (nvic_validate_irq (pos n)) ≡ is_member (pos n)
unfolding agree
agree_at n lt = same-eq _ _ (at_of_below agree 97 n agree_97 lt)

-- No value is above 96.
abbrev below_97 : ℤ → Bool
below_97 (pos m) = ltb m 97
below_97 (negsuc m) = true

abbrev all_below_97 : List Irqn → Bool
all_below_97 [] = true
all_below_97 (e ∷ es) = below_97 (irqn_value e) && all_below_97 es

differs : (z : ℤ) (n : ℕ) → below_97 z ≡ true → 97 ≤ n → is_value z n ≡ false
differs (pos m) n below ge = ground arith
differs (negsuc m) n below ge = refl

not_one_of : (es : List Irqn) (n : ℕ) → all_below_97 es ≡ true → 97 ≤ n → is_one_of es n ≡ false
not_one_of [] n below ge = refl
not_one_of (e ∷ es) n below ge =
    let parts = split_and (below_97 (irqn_value e)) (all_below_97 es) below in
    rw (differs (irqn_value e) n parts.0 ge, not_one_of es n parts.1 ge) refl

none_above : (n : ℕ) → 97 ≤ n → is_member (pos n) ≡ false
none_above n ge = not_one_of all_irqns n refl ge

-- `nvicValidateIrq` accepts exactly the values of the enumerators of `IRQn_e` that are not
-- negative.
pub nvic_validate_irq_members : (irqn : ℤ) → is_ok (nvic_validate_irq irqn) ≡ is_member irqn
unfolding nvic_validate_irq
nvic_validate_irq_members (negsuc n) = refl
nvic_validate_irq_members (pos n) = elim (lt_or_ge n 97) [
  | inl lt ↦ agree_at n lt
  | inr ge ↦ let out : ltb 96 n ≡ true = ground arith in rw (out, none_above n ge) refl
]
