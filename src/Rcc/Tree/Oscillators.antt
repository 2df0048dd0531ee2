-- ===== src/Rcc/Tree/Oscillators.antt =====
-- The oscillator calls keep the source in use switched on: what would take it
-- away is refused.
use stm32_rtos.Base.{ℕ, bit_and, ◌!=◌, ◌&&◌, true, ◌≡◌, refl, inl, inr, arith, Bool-cases}
use stm32_rtos.Bits.{IsWord, inv32, flag_in}
use stm32_rtos.Bus.{Bus, Hw, after_step, modify}
use stm32_rtos.Clocks.{Clocks, on_cr}
use stm32_rtos.Clocks.Facts.{cr, Steady, is_apart, is_set, all_facts, Only-field, Only-clear}
use stm32_rtos.Rcc.Oscillator.{
  rcc_active_sysclk_source, rcc_oscillator_disable_guard, rcc_wait_cr_flag, rcc_hsi_enable,
  rcc_hsi_disable, rcc_hse_enable, rcc_hse_disable,
}
use stm32_rtos.Rcc.Tree.{Feed, hsi, hse, pll_hsi, pll_hse, Follows}
use stm32_rtos.Rcc.Tree.Kept.{Kept, tree_facts, after_step-Kept, wait-Kept, modify-Kept, set-Kept}
use stm32_rtos.Reg.Rcc.{rcc_cr_hsion, rcc_cr_hseon, rcc_cr_hsebyp, rcc_cr_hsirdy, rcc_cr_hserdy}

module _ (hw : Hw Clocks) (steady : Steady hw) (follows : Follows hw) where
  pub flag-Kept :
      (f : Feed) (flag expected : ℕ) (b : Bus Clocks)
      → Kept f b
      → Kept f (rcc_wait_cr_flag hw flag expected b).1
  unfolding rcc_wait_cr_flag
  flag-Kept f flag expected b k = wait-Kept hw steady follows f _ _ b k

  on_hsi : (f : Feed) → all_facts (is_set cr rcc_cr_hsion) (tree_facts f) ≡ true
  on_hsi hsi = refl
  on_hsi hse = refl
  on_hsi pll_hsi = refl
  on_hsi pll_hse = refl

  pub rcc_hsi_enable-Kept : (f : Feed) (b : Bus Clocks) → Kept f b → Kept f (rcc_hsi_enable hw b).1
  unfolding rcc_hsi_enable
  rcc_hsi_enable-Kept f b k =
      flag-Kept f _ _ _ (set-Kept hw steady follows f cr rcc_cr_hsion refl (on_hsi f) b k)

  -- A bit of CR that this source does not need is cleared.
  pub clear-Kept :
      (f : Feed) (bits flag : ℕ)
      → IsWord bits
      → all_facts (is_apart cr bits) (tree_facts f) ≡ true
      → (b : Bus Clocks) → Kept f b
      → Kept f (rcc_wait_cr_flag hw flag 0 (modify hw (on_cr (λ x. bit_and x (inv32 bits))) b).1).1
  clear-Kept f bits flag word apart b k =
      flag-Kept f flag 0 _
        (modify-Kept hw steady follows f cr bits _ (Only-clear bits word) refl apart b k)

  pub rcc_hsi_disable-Kept :
      (f : Feed) (b : Bus Clocks) → Kept f b → Kept f (rcc_hsi_disable hw b).1
  unfolding rcc_hsi_disable rcc_oscillator_disable_guard rcc_active_sysclk_source
  rcc_hsi_disable-Kept f b k =
      let one = after_step-Kept hw steady follows f b k in
      let two = after_step-Kept hw steady follows f _ one in go f one two
    where
      go :
          (f : Feed)
          → Kept f (after_step hw b)
          → Kept f (after_step hw (after_step hw b))
          → Kept f (rcc_hsi_disable hw b).1
      go hsi one two = rw one.in_use two
      go hse one two =
          rw one.in_use (clear-Kept hse rcc_cr_hsion rcc_cr_hsirdy (omega arith) refl _ two)
      go pll_hsi one two = rw (one.in_use, two.facts.1.1.0) two
      go pll_hse one two =
          rw (one.in_use, two.facts.1.1.0)
            (clear-Kept pll_hse rcc_cr_hsion rcc_cr_hsirdy (omega arith) refl _ two)

  pub rcc_hse_disable-Kept :
      (f : Feed) (b : Bus Clocks) → Kept f b → Kept f (rcc_hse_disable hw b).1
  unfolding rcc_hse_disable rcc_oscillator_disable_guard rcc_active_sysclk_source
  rcc_hse_disable-Kept f b k =
      let one = after_step-Kept hw steady follows f b k in
      let two = after_step-Kept hw steady follows f _ one in go f one two
    where
      go :
          (f : Feed)
          → Kept f (after_step hw b)
          → Kept f (after_step hw (after_step hw b))
          → Kept f (rcc_hse_disable hw b).1
      go hsi one two =
          rw one.in_use (clear-Kept hsi rcc_cr_hseon rcc_cr_hserdy (omega arith) refl _ two)
      go hse one two = rw one.in_use two
      go pll_hsi one two =
          rw (one.in_use, two.facts.1.1.0)
            (clear-Kept pll_hsi rcc_cr_hseon rcc_cr_hserdy (omega arith) refl _ two)
      go pll_hse one two = rw (one.in_use, two.facts.1.1.0) two

  bypass_apart : (f : Feed) → all_facts (is_apart cr rcc_cr_hsebyp) (tree_facts f) ≡ true
  bypass_apart hsi = refl
  bypass_apart hse = refl
  bypass_apart pll_hsi = refl
  bypass_apart pll_hse = refl

  on_hse : (f : Feed) → all_facts (is_set cr rcc_cr_hseon) (tree_facts f) ≡ true
  on_hse hsi = refl
  on_hse hse = refl
  on_hse pll_hsi = refl
  on_hse pll_hse = refl

  pub rcc_hse_enable-Kept :
      (f : Feed) (bypass : ℕ) (b : Bus Clocks) → Kept f b → Kept f (rcc_hse_enable hw bypass b).1
  unfolding rcc_hse_enable
  rcc_hse_enable-Kept f bypass b k =
      let one = after_step-Kept hw steady follows f b k in
      elim (Bool-cases (bypass != 0 && bypass != rcc_cr_hsebyp)) [
        | inl refused ↦ rw refused k
        | inr valid ↦ elim (Bool-cases (bit_and (hw b.time b.regs).rcc.cr rcc_cr_hseon != 0)) [
          | inl on ↦ rw (valid, on) one
          | inr off ↦
              let within = flag_in bypass rcc_cr_hsebyp (ground arith) refl in
              rw (valid, off)
                (flag-Kept f rcc_cr_hserdy rcc_cr_hserdy _ (
                  set-Kept hw steady follows f cr rcc_cr_hseon refl (on_hse f) _ (
                    modify-Kept hw steady follows f cr rcc_cr_hsebyp _
                      (Only-field rcc_cr_hsebyp bypass (omega arith) within) refl (bypass_apart f) _
                      one)))
        ]
      ]
