-- ===== src/Rcc/Oscillator/Config.antt =====
-- The poll loop on CR and `rccHseEnable`, on hardware that leaves the configuration alone.
use stm32_rtos.Base.{
  ℕ, bit_and, bit_or, true, ◌≡◌, refl, List, ◌∷◌, arith, ◌!=◌, Bool-cases, inl, inr,
}
use stm32_rtos.Bits.{inv32, field_read, or-and_self}
use stm32_rtos.Bus.{Bus, Hw, modify}
use stm32_rtos.Clocks.{Clocks, on_cr}
use stm32_rtos.Clocks.Facts.{
  cr, Steady, Fact, Holds, is_soft, is_apart, all_facts, Only-field, Only-set,
}
use stm32_rtos.Clocks.Keep.{Stands, Ends, Ends-any, step-Stands, wait-Ends, modify-Stands}
use stm32_rtos.Rcc.Oscillator.{rcc_wait_cr_flag, rcc_hse_enable}
use stm32_rtos.Reg.Rcc.{rcc_cr_hsebyp, rcc_cr_hseon, rcc_cr_hserdy}

module _ (hw : Hw Clocks) (steady : Steady hw) (I : Clocks → Type 0) (fs : List Fact)
    (holding : (s : Clocks) → Holds fs s → I s) (are_soft : all_facts is_soft fs ≡ true) where
  pub rcc_wait_cr_flag-Ends :
      (flag expected : ℕ) (b : Bus Clocks)
      → Stands I fs b
      → Ends I fs (rcc_wait_cr_flag hw flag expected b).0 (rcc_wait_cr_flag hw flag expected b).1
  unfolding rcc_wait_cr_flag
  rcc_wait_cr_flag-Ends flag expected b s =
      Ends-any fs _ (wait-Ends hw steady I fs holding are_soft _ _ b s)

  pub set_on :
      (bits : ℕ)
      → all_facts (is_apart cr bits) fs ≡ true
      → (b : Bus Clocks) → Stands I fs b
      → Stands I ((cr, bits, bits) ∷ fs) (modify hw (on_cr (λ x. bit_or x bits)) b).1
  set_on bits apart b s =
      modify-Stands hw steady I fs are_soft cr bits bits bits _ (λ r h. holding r h.1)
        (Only-set bits) apart (λ x. or-and_self x bits) b s

  set_bypass :
      all_facts (is_apart cr rcc_cr_hsebyp) fs ≡ true
      → (b : Bus Clocks) → Stands I fs b
      → Stands I
          ((cr, rcc_cr_hsebyp, rcc_cr_hsebyp) ∷ fs)
          (modify hw (on_cr (λ x. bit_or (bit_and x (inv32 rcc_cr_hsebyp)) rcc_cr_hsebyp)) b).1
  set_bypass apart b s =
      modify-Stands hw steady I fs are_soft cr rcc_cr_hsebyp rcc_cr_hsebyp rcc_cr_hsebyp _
        (λ r h. holding r h.1) (Only-field rcc_cr_hsebyp rcc_cr_hsebyp (omega arith) refl) apart
        (λ x. field_read x rcc_cr_hsebyp rcc_cr_hsebyp (omega arith) refl) b s

pub rcc_hse_enable-Ends :
    (hw : Hw Clocks) (steady : Steady hw) (I : Clocks → Type 0) (fs : List Fact)
    (holding : (s : Clocks) → Holds fs s → I s)
    → all_facts is_soft fs ≡ true
    → all_facts (is_apart cr rcc_cr_hsebyp) fs ≡ true
    → all_facts (is_apart cr rcc_cr_hseon) fs ≡ true
    → (b : Bus Clocks) → Stands I fs b
    → Ends I
        ((cr, rcc_cr_hseon, rcc_cr_hseon) ∷ (cr, rcc_cr_hsebyp, rcc_cr_hsebyp) ∷ fs)
        (rcc_hse_enable hw rcc_cr_hsebyp b).0
        (rcc_hse_enable hw rcc_cr_hsebyp b).1
unfolding rcc_hse_enable
rcc_hse_enable-Ends hw steady I fs holding are_soft apart apart' b s =
    let gs : List Fact = (cr, rcc_cr_hsebyp, rcc_cr_hsebyp) ∷ fs in
    let seen = step-Stands hw steady I fs holding are_soft b s in
    elim (Bool-cases (bit_and (hw b.time b.regs).rcc.cr rcc_cr_hseon != 0)) [
      | inl on ↦ rw on (record { logged = seen.logged; now = seen.now; facts = tt })
      | inr off ↦ rw off (
          rcc_wait_cr_flag-Ends hw steady I ((cr, rcc_cr_hseon, rcc_cr_hseon) ∷ gs)
            (λ r h. holding r h.1.1) are_soft rcc_cr_hserdy rcc_cr_hserdy _
            (set_on hw steady I gs (λ r h. holding r h.1) are_soft rcc_cr_hseon apart' _
              (set_bypass hw steady I fs holding are_soft apart _ seen)))
    ]
