-- ===== src/Pwr/Config.antt =====
-- The PWR functions on hardware that leaves the configuration alone.
use stm32_rtos.Base.{ℕ, true, ◌≡◌, refl, List, ◌∷◌, arith, bit_or}
use stm32_rtos.Bits.{shl32, field_read, or-and_self}
use stm32_rtos.Bus.{Bus, Hw, modify}
use stm32_rtos.Clocks.{Clocks, on_pwr_cr}
use stm32_rtos.Clocks.Facts.{
  pwr_cr, Steady, Fact, Holds, is_soft, is_apart, all_facts, Only-field, Only-set,
}
use stm32_rtos.Clocks.Keep.{Stands, Ends, Ends-ok, Ends-any, if_ok-Ends, wait-Ends, modify-Stands}
use stm32_rtos.Pwr.{
  pwr_wait_csr_flag, pwr_set_voltage_scale, pwr_wait_voltage_scale_ready, pwr_enable_overdrive,
}
use stm32_rtos.Reg.Pwr.{
  pwr_cr_vos_msk, pwr_cr_vos_pos, pwr_cr_vos_scale1, pwr_cr_oden, pwr_cr_odswen, pwr_csr_vosrdy,
  pwr_csr_odrdy, pwr_csr_odswrdy,
}

module _ (hw : Hw Clocks) (steady : Steady hw) (I : Clocks → Type 0) (fs : List Fact)
    (holding : (s : Clocks) → Holds fs s → I s) (are_soft : all_facts is_soft fs ≡ true) where
  pwr_wait_csr_flag-Ends :
      (flag : ℕ) (b : Bus Clocks)
      → Stands I fs b
      → Ends I fs (pwr_wait_csr_flag hw flag b).0 (pwr_wait_csr_flag hw flag b).1
  unfolding pwr_wait_csr_flag
  pwr_wait_csr_flag-Ends flag b s =
      Ends-any fs _ (wait-Ends hw steady I fs holding are_soft _ _ b s)

module _ (hw : Hw Clocks) (steady : Steady hw) (I : Clocks → Type 0) (fs : List Fact)
    (holding : (s : Clocks) → Holds fs s → I s) (are_soft : all_facts is_soft fs ≡ true) where
  pub pwr_set_voltage_scale-Ends :
      all_facts (is_apart pwr_cr pwr_cr_vos_msk) fs ≡ true
      → (b : Bus Clocks) → Stands I fs b
      → Ends I
          ((pwr_cr, pwr_cr_vos_msk, shl32 pwr_cr_vos_scale1 pwr_cr_vos_pos) ∷ fs)
          (pwr_set_voltage_scale hw pwr_cr_vos_scale1 b).0
          (pwr_set_voltage_scale hw pwr_cr_vos_scale1 b).1
  unfolding pwr_set_voltage_scale
  pwr_set_voltage_scale-Ends apart b s = Ends-ok (
      modify-Stands hw steady I fs are_soft pwr_cr pwr_cr_vos_msk pwr_cr_vos_msk
        (shl32 pwr_cr_vos_scale1 pwr_cr_vos_pos) _ (λ r h. holding r h.1)
        (Only-field pwr_cr_vos_msk (shl32 pwr_cr_vos_scale1 pwr_cr_vos_pos) (omega arith) refl)
        apart
        (λ x.
          field_read x pwr_cr_vos_msk (shl32 pwr_cr_vos_scale1 pwr_cr_vos_pos) (omega arith) refl)
        b s)

  pub pwr_wait_voltage_scale_ready-Ends :
      (b : Bus Clocks)
      → Stands I fs b
      → Ends I fs (pwr_wait_voltage_scale_ready hw b).0 (pwr_wait_voltage_scale_ready hw b).1
  unfolding pwr_wait_voltage_scale_ready
  pwr_wait_voltage_scale_ready-Ends b s =
      pwr_wait_csr_flag-Ends hw steady I fs holding are_soft pwr_csr_vosrdy b s

module _ (hw : Hw Clocks) (steady : Steady hw) (I : Clocks → Type 0) (fs : List Fact)
    (holding : (s : Clocks) → Holds fs s → I s) (are_soft : all_facts is_soft fs ≡ true) where
  switch_overdrive :
      all_facts (is_apart pwr_cr pwr_cr_odswen) fs ≡ true
      → (b : Bus Clocks) → Stands I fs b
      → let b' = (modify hw (on_pwr_cr (λ cr. bit_or cr pwr_cr_odswen)) b).1 in
        Ends I
          ((pwr_cr, pwr_cr_odswen, pwr_cr_odswen) ∷ fs)
          (pwr_wait_csr_flag hw pwr_csr_odswrdy b').0
          (pwr_wait_csr_flag hw pwr_csr_odswrdy b').1
  switch_overdrive apart b s =
      let switched =
        modify-Stands hw steady I fs are_soft pwr_cr pwr_cr_odswen pwr_cr_odswen pwr_cr_odswen _
          (λ r h. holding r h.1) (Only-set pwr_cr_odswen) apart (λ x. or-and_self x pwr_cr_odswen) b
          s in
      pwr_wait_csr_flag-Ends hw steady I ((pwr_cr, pwr_cr_odswen, pwr_cr_odswen) ∷ fs)
        (λ r h. holding r h.1) are_soft pwr_csr_odswrdy _ switched

pub pwr_enable_overdrive-Ends :
    (hw : Hw Clocks) (steady : Steady hw) (I : Clocks → Type 0) (fs : List Fact)
    (holding : (s : Clocks) → Holds fs s → I s)
    → all_facts is_soft fs ≡ true
    → all_facts (is_apart pwr_cr pwr_cr_oden) fs ≡ true
    → all_facts (is_apart pwr_cr pwr_cr_odswen) fs ≡ true
    → (b : Bus Clocks) → Stands I fs b
    → Ends I
        ((pwr_cr, pwr_cr_odswen, pwr_cr_odswen) ∷ (pwr_cr, pwr_cr_oden, pwr_cr_oden) ∷ fs)
        (pwr_enable_overdrive hw b).0
        (pwr_enable_overdrive hw b).1
unfolding pwr_enable_overdrive
pwr_enable_overdrive-Ends hw steady I fs holding are_soft apart apart' b s =
    let gs : List Fact = (pwr_cr, pwr_cr_oden, pwr_cr_oden) ∷ fs in
    let enabled =
      modify-Stands hw steady I fs are_soft pwr_cr pwr_cr_oden pwr_cr_oden pwr_cr_oden _
        (λ r h. holding r h.1) (Only-set pwr_cr_oden) apart (λ x. or-and_self x pwr_cr_oden) b s in
    if_ok-Ends _ _ _
      (pwr_wait_csr_flag-Ends hw steady I gs (λ r h. holding r h.1) are_soft pwr_csr_odrdy _
        enabled)
      (λ waited. switch_overdrive hw steady I gs (λ r h. holding r h.1) are_soft apart' _ waited)
