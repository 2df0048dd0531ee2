-- ===== src/Bsp/Answers.antt =====
-- The steps of clock bring-up where the hardware answers: each returns OK.
use stm32_rtos.Base.{
  ℕ, bit_and, bit_or, ltb, ◌!=◌, All, leb, Bool-cases, eq→!=, true, false, ◌≡◌, refl, inl, inr,
  List, [], ◌∷◌, arith,
}
use stm32_rtos.Bits.{shr32, field_read, or-and_self}
use stm32_rtos.Status.{DriverStatus, ok}
use stm32_rtos.Bus.{Bus, Hw, modify, after_step}
use stm32_rtos.Bus.Wait.{wait_under}
use stm32_rtos.Clocks.{Clocks, on_pwr_cr}
use stm32_rtos.Clocks.Facts.{
  cr, pwr_cr, apb1enr, Steady, Fact, IsFact, Holds, Steady-Holds, Only-set,
}
use stm32_rtos.Clocks.Keep.{Stands, Ends, step-Stands, modify-Stands}
use stm32_rtos.Flash.{flash_set_latency}
use stm32_rtos.Flash.Config.{flash_set_latency-Stands}
use stm32_rtos.Pwr.{pwr_set_voltage_scale, pwr_wait_voltage_scale_ready, pwr_enable_overdrive}
use stm32_rtos.Rcc.Gate.{rcc_pwr_clock_enable}
use stm32_rtos.Rcc.Oscillator.{rcc_hse_enable}
use stm32_rtos.Rcc.Pll.{rcc_pll_config, rcc_pll_enable}
use stm32_rtos.Rcc.Sysclk.{
  rcc_bus_prescaler_config, rcc_sysclk_switch, raise_latency, check_source_ready, request_source,
  lower_latency, rcc_validate_hpre, rcc_validate_ppre,
}
use stm32_rtos.Reg.Flash.{flash_acr_latency_msk, flash_acr_latency_pos}
use stm32_rtos.Reg.Pwr.{
  pwr_cr_vos_scale1, pwr_cr_oden, pwr_cr_odswen, pwr_csr_vosrdy, pwr_csr_odrdy, pwr_csr_odswrdy,
}
use stm32_rtos.Reg.Rcc.Enable.{rcc_apb1enr_pwren}
use stm32_rtos.Reg.Rcc.{
  rcc_cr_hsebyp, rcc_pllcfgr_pllsrc_hse, rcc_cr_hseon, rcc_cr_pllon, rcc_cr_pllrdy,
}
use stm32_rtos.Rcc.Sysclk.Config.{sw_is}
use stm32_rtos.Bsp.Responsive.{IsResponsive, hse_comes, pll_comes, csr_comes}

abbrev pub U : Clocks → Type 0
U s = Unit

nothing : (ss : List Clocks) → All U ss
nothing [] = tt
nothing (s ∷ ss) = (tt, nothing ss)

-- HSE and the PLL are off.
abbrev pub off_facts : List Fact
off_facts = (cr, rcc_cr_hseon, 0) ∷ (cr, rcc_cr_pllon, 0) ∷ []

abbrev pub pll_on : List Fact
pll_on = (cr, rcc_cr_pllon, rcc_cr_pllon) ∷ []

pub standing : (fs : List Fact) (b : Bus Clocks) → Holds fs b.regs → Stands U fs b
standing fs b h = record { logged = nothing b.log; now = tt; facts = h }

pub Ends-Stands :
    (fs : List Fact) (st : DriverStatus) (b : Bus Clocks) → st ≡ ok → Ends U fs st b → Stands U fs b
Ends-Stands fs st b done e = record { logged = e.logged; now = tt; facts = rw done at e.facts }

module _ (hw : Hw Clocks) (steady : Steady hw) (responds : IsResponsive hw) where
  pub hse_enabled :
      (b : Bus Clocks)
      → IsFact b.regs (cr, rcc_cr_hseon, 0)
      → (rcc_hse_enable hw rcc_cr_hsebyp b).0 ≡ ok
  unfolding rcc_hse_enable
  hse_enabled b h =
      let off : (bit_and (hw b.time b.regs).rcc.cr rcc_cr_hseon != 0) ≡ false =
        eq→!= _ _
          (Steady-Holds hw steady ((cr, rcc_cr_hseon, 0) ∷ []) refl b.time b.regs (h, tt)).0 in
      rw off (hse_comes hw steady responds _ (or-and_self _ rcc_cr_hseon))

  pub scale_set : (b : Bus Clocks) → (pwr_set_voltage_scale hw pwr_cr_vos_scale1 b).0 ≡ ok
  unfolding pwr_set_voltage_scale
  scale_set b = refl

  pub pll_configured :
      (b : Bus Clocks)
      → IsFact b.regs (cr, rcc_cr_pllon, 0)
      → (rcc_pll_config hw rcc_pllcfgr_pllsrc_hse 8 360 0 b).0 ≡ ok
  unfolding rcc_pll_config
  pll_configured b h =
      let off : (bit_and (hw b.time b.regs).rcc.cr rcc_cr_pllon != 0) ≡ false =
        eq→!= _ _
          (Steady-Holds hw steady ((cr, rcc_cr_pllon, 0) ∷ []) refl b.time b.regs (h, tt)).0 in
      rw off refl

  pub pll_enabled : (b : Bus Clocks) → (rcc_pll_enable hw b).0 ≡ ok
  unfolding rcc_pll_enable
  pll_enabled b = pll_comes hw steady responds _ (or-and_self _ rcc_cr_pllon)

  pub scale_ready :
      (b : Bus Clocks)
      → IsFact b.regs (cr, rcc_cr_pllon, rcc_cr_pllon)
      → (pwr_wait_voltage_scale_ready hw b).0 ≡ ok
  unfolding pwr_wait_voltage_scale_ready
  scale_ready b h =
      csr_comes hw steady responds pwr_csr_vosrdy (cr, rcc_cr_pllon, rcc_cr_pllon)
        (Steady-Holds hw steady ((cr, rcc_cr_pllon, rcc_cr_pllon) ∷ []) refl) responds.vos_ready b h

  pub overdriven : (b : Bus Clocks) → (pwr_enable_overdrive hw b).0 ≡ ok
  unfolding pwr_enable_overdrive
  overdriven b =
      let on =
        csr_comes hw steady responds pwr_csr_odrdy (pwr_cr, pwr_cr_oden, pwr_cr_oden)
          (Steady-Holds hw steady ((pwr_cr, pwr_cr_oden, pwr_cr_oden) ∷ []) refl)
          responds.overdrive_ready (modify hw (on_pwr_cr (λ x. bit_or x pwr_cr_oden)) b).1
          (or-and_self _ pwr_cr_oden) in
      rw on (
        csr_comes hw steady responds pwr_csr_odswrdy (pwr_cr, pwr_cr_odswen, pwr_cr_odswen)
          (Steady-Holds hw steady ((pwr_cr, pwr_cr_odswen, pwr_cr_odswen) ∷ []) refl)
          responds.switching_ready _ (or-and_self _ pwr_cr_odswen))

  pub prescaled : (b : Bus Clocks) → (rcc_bus_prescaler_config hw 0 5 4 b).0 ≡ ok
  unfolding rcc_bus_prescaler_config rcc_validate_hpre rcc_validate_ppre
  prescaled b = refl

  latency_set : (b : Bus Clocks) → (flash_set_latency hw 5 b).0 ≡ ok
  latency_set b =
      (flash_set_latency-Stands hw steady U [] refl refl 5 (omega arith) (λ s h. tt) b
        (record { logged = nothing b.log; now = tt; facts = tt })).1

  requested : (b : Bus Clocks) → (request_source hw 2 b).0 ≡ ok
  unfolding request_source
  requested b =
      wait_under hw _ (Holds (sw_is 2 ∷ [])) (Steady-Holds hw steady (sw_is 2 ∷ []) refl)
        (λ k s h. eq→!= _ _ (responds.pll_selected k s h.0)) _ _
        (field_read _ 3 2 (omega arith) refl, tt)

  checked :
      (b : Bus Clocks)
      → IsFact b.regs (cr, rcc_cr_pllon, rcc_cr_pllon)
      → (check_source_ready hw 2 b).0 ≡ ok
  unfolding check_source_ready
  checked b h =
      let up : bit_and (hw b.time b.regs).rcc.cr rcc_cr_pllrdy ≡ rcc_cr_pllrdy =
        responds.pll_ready b.time b.regs h in
      rw up refl

  pub switched :
      (b : Bus Clocks)
      → IsFact b.regs (cr, rcc_cr_pllon, rcc_cr_pllon)
      → (rcc_sysclk_switch hw 2 5 b).0 ≡ ok
  unfolding rcc_sysclk_switch raise_latency lower_latency
  switched b h = elim (Bool-cases (ltb cur 5)) [
    | inl low ↦
        let not_again : leb 5 cur ≡ false = ground arith in
        let set =
          flash_set_latency-Stands hw steady U ((cr, rcc_cr_pllon, rcc_cr_pllon) ∷ []) refl refl 5
            (omega arith) (λ s h. tt) _ seen in
        let raised = (flash_set_latency hw 5 (after_step hw b)).1 in
        let ready = (check_source_ready hw 2 raised).1 in
        rw (low, set.1, checked raised set.0.facts.1.0, requested ready, not_again) refl
    | inr high ↦
        let again : leb 5 cur ≡ true = ground arith in
        let ready = (check_source_ready hw 2 (after_step hw b)).1 in
        rw (high, checked (after_step hw b) seen.facts.0, requested ready, again) (latency_set _)
  ]
    where
      cur : ℕ
      cur = shr32 (bit_and (hw b.time b.regs).flash.acr flash_acr_latency_msk) flash_acr_latency_pos

      seen : Stands U ((cr, rcc_cr_pllon, rcc_cr_pllon) ∷ []) (after_step hw b)
      seen =
          step-Stands hw steady U ((cr, rcc_cr_pllon, rcc_cr_pllon) ∷ []) (λ s h. tt) refl b
            (record { logged = nothing b.log; now = tt; facts = (h, tt) })

  pub clocked :
      (b : Bus Clocks) → Holds off_facts b.regs → Stands U off_facts (rcc_pwr_clock_enable hw b).1
  unfolding rcc_pwr_clock_enable
  clocked b h =
      step-Stands hw steady U off_facts (λ s h'. tt) refl _
        (let written =
            modify-Stands hw steady U off_facts refl apb1enr rcc_apb1enr_pwren rcc_apb1enr_pwren
              rcc_apb1enr_pwren _ (λ s h'. tt) (Only-set rcc_apb1enr_pwren) refl
              (λ x. or-and_self x rcc_apb1enr_pwren) b
              (record { logged = nothing b.log; now = tt; facts = h }) in
          record { logged = written.logged; now = tt; facts = written.facts.1 })
