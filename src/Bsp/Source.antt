-- ===== src/Bsp/Source.antt =====
-- `bspClockInit` and CFGR alone: SYSCLK (stays-IsAsked hw steady follows) on HSI until the PLL is requested.
use stm32_rtos.Bsp.Asked.{IsAsked, stays-IsAsked, write, scaled, asks, ask_pll}
use stm32_rtos.Reg.Flash.{
  flash_acr_latency_msk, flash_acr_latency_pos, flash_acr_prften, flash_acr_icen, flash_acr_dcen,
}
use stm32_rtos.Rcc.Pll.Config.{write_pll}
use stm32_rtos.Reg.Pwr.{
  pwr_cr_vos_msk, pwr_cr_vos_scale1, pwr_cr_vos_pos, pwr_csr_odswrdy, pwr_csr_odrdy, pwr_cr_oden,
  pwr_cr_odswen, pwr_csr_vosrdy,
}
use stm32_rtos.Base.{ℕ, bit_and, bit_or, refl, ◌!=◌, ◌&&◌, ltb, leb}
use stm32_rtos.Bits.{inv32, shl32}
use stm32_rtos.Status.{err_busy, DriverStatus, is_ok, ok}
use stm32_rtos.Bus.{Hw, pure, if_ok, ◌>>◌}
use stm32_rtos.Bus.Keeps.{
  Keeps, pure-Keeps, if_ok-Keeps, if-Keeps, step-Keeps, modify-Keeps, wait-Keeps,
}
use stm32_rtos.Clocks.{Clocks}
use stm32_rtos.Clocks.Facts.{cr, pllcfgr, cfgr, apb1enr, pwr_cr, acr, update_reg, Steady}
use stm32_rtos.Flash.{flash_set_latency, flash_enable_caches}
use stm32_rtos.Pwr.{
  pwr_wait_csr_flag, pwr_set_voltage_scale, pwr_wait_voltage_scale_ready, pwr_enable_overdrive,
}
use stm32_rtos.Rcc.Gate.{rcc_pwr_clock_enable}
use stm32_rtos.Rcc.Oscillator.{rcc_wait_cr_flag, rcc_hse_enable}
use stm32_rtos.Rcc.Pll.{rcc_pll_config, rcc_pll_enable}
use stm32_rtos.Rcc.Sysclk.{
  rcc_bus_prescaler_config, rcc_sysclk_switch, raise_latency, check_source_ready, request_source,
  lower_latency, rcc_validate_hpre, rcc_validate_ppre,
}
use stm32_rtos.Rcc.Sysclk.Config.{write_prescalers}
use stm32_rtos.Rcc.Tree.{Follows}
use stm32_rtos.Reg.Rcc.{rcc_cr_hseon, rcc_cr_hsebyp, rcc_pllcfgr_pllsrc_hse, rcc_cr_pllon}
use stm32_rtos.Reg.Rcc.Enable.{rcc_apb1enr_pwren}
use stm32_rtos.Bsp.{bsp_clock_init}

module _ (hw : Hw Clocks) (steady : Steady hw) (follows : Follows hw) where
  pwr_clock : Keeps IsAsked (rcc_pwr_clock_enable hw)
  unfolding rcc_pwr_clock_enable
  pwr_clock b h =
      step-Keeps hw (stays-IsAsked hw steady follows) _
        (write hw steady follows apb1enr (λ x. bit_or x rcc_apb1enr_pwren) refl refl refl b h)

  hse : Keeps IsAsked (rcc_hse_enable hw rcc_cr_hsebyp)
  unfolding rcc_hse_enable rcc_wait_cr_flag
  hse b h =
      if-Keeps (bit_and (hw b.time b.regs).rcc.cr rcc_cr_hseon != 0) (pure err_busy) _
        (pure-Keeps err_busy)
        (λ b' h'. wait-Keeps hw (stays-IsAsked hw steady follows) _ _ _ (
          write hw steady follows cr (λ x. bit_or x rcc_cr_hseon) refl refl refl _
            (write hw steady follows cr
              (λ x. bit_or (bit_and x (inv32 rcc_cr_hsebyp)) rcc_cr_hsebyp) refl refl refl b' h')))
        _ (step-Keeps hw (stays-IsAsked hw steady follows) b h)

  csr_flag : (flag : ℕ) → Keeps IsAsked (pwr_wait_csr_flag hw flag)
  unfolding pwr_wait_csr_flag
  csr_flag flag = wait-Keeps hw (stays-IsAsked hw steady follows) _ _

  scale : Keeps IsAsked (pwr_set_voltage_scale hw pwr_cr_vos_scale1)
  unfolding pwr_set_voltage_scale
  scale =
      write hw steady follows pwr_cr
        (λ x. bit_or (bit_and x (inv32 pwr_cr_vos_msk)) (shl32 pwr_cr_vos_scale1 pwr_cr_vos_pos))
        refl refl refl

  overdrive : Keeps IsAsked (pwr_enable_overdrive hw)
  unfolding pwr_enable_overdrive
  overdrive b h =
      if_ok-Keeps _ _
        (λ b' h'.
          csr_flag pwr_csr_odswrdy _
            (write hw steady follows pwr_cr (λ x. bit_or x pwr_cr_odswen) refl refl refl b' h'))
        _
        (csr_flag pwr_csr_odrdy _
          (write hw steady follows pwr_cr (λ x. bit_or x pwr_cr_oden) refl refl refl b h))

  pll_set : Keeps IsAsked (rcc_pll_config hw rcc_pllcfgr_pllsrc_hse 8 360 0)
  unfolding rcc_pll_config
  pll_set b h =
      if-Keeps (bit_and (hw b.time b.regs).rcc.cr rcc_cr_pllon != 0) (pure err_busy) _
        (pure-Keeps err_busy) (write hw steady follows pllcfgr write_pll refl refl refl) _
        (step-Keeps hw (stays-IsAsked hw steady follows) b h)

  pll_on : Keeps IsAsked (rcc_pll_enable hw)
  unfolding rcc_pll_enable rcc_wait_cr_flag
  pll_on b h =
      wait-Keeps hw (stays-IsAsked hw steady follows) _ _ _
        (write hw steady follows cr (λ x. bit_or x rcc_cr_pllon) refl refl refl b h)

  supply : Keeps IsAsked (pwr_wait_voltage_scale_ready hw)
  unfolding pwr_wait_voltage_scale_ready
  supply = csr_flag pwr_csr_vosrdy

  buses : Keeps IsAsked (rcc_bus_prescaler_config hw 0 5 4)
  unfolding rcc_bus_prescaler_config rcc_validate_hpre rcc_validate_ppre
  buses =
      modify-Keeps hw (stays-IsAsked hw steady follows) (update_reg cfgr write_prescalers) scaled

  latency : Keeps IsAsked (flash_set_latency hw 5)
  unfolding flash_set_latency
  latency b h = step-Keeps hw (stays-IsAsked hw steady follows) _ (
      write hw steady follows acr
        (λ x. bit_or (bit_and x (inv32 flash_acr_latency_msk)) (shl32 5 flash_acr_latency_pos)) refl
        refl refl b h)

  request : Keeps IsAsked (request_source hw 2)
  unfolding request_source
  request b h =
      wait-Keeps hw (stays-IsAsked hw steady follows) _ _ _
        (modify-Keeps hw (stays-IsAsked hw steady follows) (update_reg cfgr ask_pll) asks b h)

  raise : (cur : ℕ) → Keeps IsAsked (raise_latency hw 2 5 cur)
  unfolding raise_latency
  raise cur = if-Keeps (ltb cur 5) (flash_set_latency hw 5) (pure ok) latency (pure-Keeps ok)

  check : Keeps IsAsked (check_source_ready hw 2)
  unfolding check_source_ready
  check b h = step-Keeps hw (stays-IsAsked hw steady follows) b h

  lower : (cur : ℕ) (st : DriverStatus) → Keeps IsAsked (lower_latency hw 5 cur st)
  unfolding lower_latency
  lower cur st =
      if-Keeps (is_ok st && leb 5 cur) (flash_set_latency hw 5) (pure st) latency (pure-Keeps st)

  switch : Keeps IsAsked (rcc_sysclk_switch hw 2 5)
  unfolding rcc_sysclk_switch
  switch b h =
      let raised = raise _ _ (step-Keeps hw (stays-IsAsked hw steady follows) b h) in
      let checked = if_ok-Keeps _ (check_source_ready hw 2) check _ raised in
      let asked = if_ok-Keeps _ (request_source hw 2) request _ checked in lower _ _ _ asked

  caches : Keeps IsAsked (flash_enable_caches hw)
  unfolding flash_enable_caches
  caches =
      write hw steady follows acr
        (λ x. bit_or x (bit_or (bit_or flash_acr_prften flash_acr_icen) flash_acr_dcen)) refl refl
        refl

  -- Every state that `bspClockInit` stores is one of these.
  pub bsp_clock_init-IsAsked : Keeps IsAsked (bsp_clock_init hw)
  unfolding bsp_clock_init
  bsp_clock_init-IsAsked b h =
      let r0 = rcc_hse_enable hw rcc_cr_hsebyp (rcc_pwr_clock_enable hw b).1 in
      let k1 = pwr_set_voltage_scale hw pwr_cr_vos_scale1 in
      let r1 = if_ok r0.0 k1 r0.1 in
      let k2 = rcc_pll_config hw rcc_pllcfgr_pllsrc_hse 8 360 0 in
      let r2 = if_ok r1.0 k2 r1.1 in
      let k3 = rcc_pll_enable hw in
      let r3 = if_ok r2.0 k3 r2.1 in
      let k4 = pwr_wait_voltage_scale_ready hw in
      let r4 = if_ok r3.0 k4 r3.1 in
      let k5 = pwr_enable_overdrive hw in
      let r5 = if_ok r4.0 k5 r4.1 in
      let k6 = rcc_bus_prescaler_config hw 0 5 4 in
      let r6 = if_ok r5.0 k6 r5.1 in
      let k7 = rcc_sysclk_switch hw 2 5 in
      let r7 = if_ok r6.0 k7 r6.1 in
      let h1 = if_ok-Keeps r0.0 k1 scale r0.1 (hse _ (pwr_clock b h)) in
      let h2 = if_ok-Keeps r1.0 k2 pll_set r1.1 h1 in
      let h3 = if_ok-Keeps r2.0 k3 pll_on r2.1 h2 in
      let h4 = if_ok-Keeps r3.0 k4 supply r3.1 h3 in
      let h5 = if_ok-Keeps r4.0 k5 overdrive r4.1 h4 in
      let h6 = if_ok-Keeps r5.0 k6 buses r5.1 h5 in
      let h7 = if_ok-Keeps r6.0 k7 switch r6.1 h6 in
      if_ok-Keeps r7.0 (flash_enable_caches hw >> pure r7.0) caches r7.1 h7
