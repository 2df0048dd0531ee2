-- ===== src/Examples/Board.antt =====
-- `bspClockInit` on hardware where every flag comes at once.
use stm32_rtos.Base.{bit_and, bit_or, ◌≡◌, refl, ◌∙◌, All, arith, ◌∷◌}
use stm32_rtos.Bits.{inv32, and-inv32_self, field_read, set_frame, or-and_self}
use stm32_rtos.Status.{ok, err_timeout}
use stm32_rtos.Bus.{Hw, fresh, wait, poll}
use stm32_rtos.Examples.Reset.{after_reset}
use stm32_rtos.Clocks.{Clocks, on_cr, on_cfgr}
use stm32_rtos.Clocks.Facts.{
  cr, pllcfgr, cfgr, apb1enr, pwr_cr, acr, Steady, Holds, Only-set, Only-field, Only-clear,
}
use stm32_rtos.Bsp.{bsp_clock_init}
use stm32_rtos.Bsp.Responsive.{IsResponsive}
use stm32_rtos.Bsp.NoClock.{IsSpared, bsp_clock_init-IsSpared}
use stm32_rtos.Bsp.Progress.{bsp_clock_init_finishes}
use stm32_rtos.Reg.Rcc.{rcc_cr_pllrdy, rcc_cr_hserdy}
use stm32_rtos.Bsp.Safety.{
  bsp_clock_init-IsSafe, bsp_clock_init-ok, IsSafe, cache_bits, full_speed_facts,
}
use stm32_rtos.Flash.{flash_set_latency, flash_enable_caches}
use stm32_rtos.Pwr.{
  pwr_set_voltage_scale, pwr_wait_voltage_scale_ready, pwr_enable_overdrive, pwr_wait_csr_flag,
}
use stm32_rtos.Rcc.Gate.{rcc_pwr_clock_enable}
use stm32_rtos.Rcc.Oscillator.{rcc_hse_enable, rcc_wait_cr_flag}
use stm32_rtos.Rcc.Pll.{rcc_pll_config, rcc_pll_enable}
use stm32_rtos.Rcc.Sysclk.{
  rcc_bus_prescaler_config, rcc_sysclk_switch, raise_latency, check_source_ready, request_source,
  lower_latency, rcc_validate_hpre, rcc_validate_ppre,
}
use stm32_rtos.Rcc.Sysclk.Config.{latency_is, sw_is}

-- HSERDY, PLLRDY and CFGR.SWS at PLL.
abbrev ready_rcc : Clocks → Clocks
ready_rcc s =
    on_cfgr (λ x. bit_or (bit_and x (inv32 0xc)) 0x8)
      (on_cr (λ x. bit_or (bit_or x rcc_cr_pllrdy) rcc_cr_hserdy) s)

-- Every flag is set before each load.
abbrev board : Hw Clocks
board n s = record (ready_rcc s) { pwr = record s.pwr { csr = 0xffffffff } }

board-Steady : Steady board
board-Steady n s cr =
    Only-set rcc_cr_hserdy (bit_or s.rcc.cr rcc_cr_pllrdy) _ (omega arith) refl
    ∙ Only-set rcc_cr_pllrdy s.rcc.cr _ (omega arith) refl
board-Steady n s cfgr = Only-field 0xc 0x8 (omega arith) refl s.rcc.cfgr _ (omega arith) refl
board-Steady n s pllcfgr = refl
board-Steady n s apb1enr = refl
board-Steady n s pwr_cr = refl
board-Steady n s acr = refl

board-IsResponsive : IsResponsive board
board-IsResponsive = record {
  hse_ready = λ k s h. or-and_self (bit_or s.rcc.cr rcc_cr_pllrdy) rcc_cr_hserdy;
  pll_ready = λ k s h.
      set_frame (bit_or s.rcc.cr rcc_cr_pllrdy) rcc_cr_hserdy rcc_cr_pllrdy refl
      ∙ or-and_self s.rcc.cr rcc_cr_pllrdy;
  vos_ready = λ k s h. λ e. absurd (omega (arith, e));
  overdrive_ready = λ k s h. λ e. absurd (omega (arith, e));
  switching_ready = λ k s h. λ e. absurd (omega (arith, e));
  pll_selected = λ k s h. rw (field_read s.rcc.cfgr 0xc 0x8 (omega arith) refl) refl;
}

bring_up_ok : (bsp_clock_init board (fresh after_reset 0)).0 ≡ ok
unfolding bsp_clock_init rcc_pwr_clock_enable rcc_hse_enable pwr_set_voltage_scale rcc_pll_config
    rcc_pll_enable pwr_wait_voltage_scale_ready pwr_enable_overdrive rcc_bus_prescaler_config
    rcc_sysclk_switch raise_latency check_source_ready request_source lower_latency
    rcc_validate_hpre rcc_validate_ppre flash_set_latency flash_enable_caches wait poll
    pwr_wait_csr_flag rcc_wait_cr_flag
bring_up_ok = refl

bsp_clock_init_finishes_example : (bsp_clock_init board (fresh after_reset 0)).0 ≡ ok
bsp_clock_init_finishes_example =
    bsp_clock_init_finishes board after_reset 0 board-Steady board-IsResponsive refl refl

bsp_clock_init-IsSafe_example :
    All IsSafe (bsp_clock_init board (fresh after_reset 0)).1.log
    × IsSafe (bsp_clock_init board (fresh after_reset 0)).1.regs
bsp_clock_init-IsSafe_example = bsp_clock_init-IsSafe board after_reset 0 board-Steady refl

bsp_clock_init-ok_example :
    Holds
      ((acr, cache_bits, cache_bits) ∷ sw_is 2 ∷ latency_is 5 ∷ full_speed_facts)
      (bsp_clock_init board (fresh after_reset 0)).1.regs
bsp_clock_init-ok_example = bsp_clock_init-ok board after_reset 0 board-Steady refl bring_up_ok

abbrev no_hse : Hw Clocks
no_hse n s = on_cr (λ x. bit_and x (inv32 rcc_cr_hserdy)) s

no_hse-Steady : Steady no_hse
no_hse-Steady n s cr = Only-clear rcc_cr_hserdy (omega arith) s.rcc.cr _ (omega arith) refl
no_hse-Steady n s cfgr = refl
no_hse-Steady n s pllcfgr = refl
no_hse-Steady n s apb1enr = refl
no_hse-Steady n s pwr_cr = refl
no_hse-Steady n s acr = refl

bsp_clock_init-IsSpared_example :
    let r = bsp_clock_init no_hse (fresh after_reset 0) in
    (r.0 ≡ err_timeout)
    × (r.1.time ≡ 100007)
    × All (IsSpared after_reset) r.1.log
    × IsSpared after_reset r.1.regs
bsp_clock_init-IsSpared_example =
    bsp_clock_init-IsSpared no_hse after_reset 0 no_hse-Steady
      (λ n s. and-inv32_self s.rcc.cr rcc_cr_hserdy (omega arith)) refl
