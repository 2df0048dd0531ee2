-- ===== src/Examples/Clock.antt =====
-- The oscillators and the PLL on hardware that stands still.
use stm32_rtos.Base.{
  ℕ, bit_and, ◌≡◌, ◌≢◌, ◌⊎◌, inl, inr, refl, [], ◌∷◌, arith, Bool, false, ltb, ◌==◌, if◌then◌else◌,
  Bool-cases,
}
use stm32_rtos.Bits.{inv32}
use stm32_rtos.Status.{ok, err_invalid_param, err_busy}
use stm32_rtos.Bus.{Hw, fresh, wait}
use stm32_rtos.Bus.Wait.{wait_settles}
use stm32_rtos.Examples.Reset.{after_reset}
use stm32_rtos.Clocks.{Clocks, on_cr, on_cfgr, on_pllcfgr}
use stm32_rtos.Rcc.Oscillator.{rcc_hsi_disable, rcc_hse_disable}
use stm32_rtos.Rcc.Oscillator.Guard.{Feeds, rcc_hsi_disable_guarded, rcc_hse_disable_guarded}
use stm32_rtos.Rcc.Pll.{rcc_pll_config}
use stm32_rtos.Rcc.Pll.Fields.{IsPllRequest, IsPllValue, rcc_pll_config_outcome}
use stm32_rtos.Rcc.Sysclk.{rcc_bus_prescaler_config}
use stm32_rtos.Rcc.Sysclk.Prescalers.{IsScale, IsScaled, rcc_bus_prescaler_config_fields}
use stm32_rtos.Reg.Rcc.{rcc_cr_pllon, rcc_cr_hsion, rcc_cr_hseon, rcc_pllcfgr_pllsrc}

abbrev still : Hw Clocks
still n s = s

rcc_pll_config_outcome_example :
    let r = rcc_pll_config still rcc_pllcfgr_pllsrc 8 360 0 (fresh after_reset 0) in
    (IsPllRequest rcc_pllcfgr_pllsrc 8 360 0
      × (((bit_and after_reset.rcc.cr rcc_cr_pllon ≢ 0)
            × (r.0 ≡ err_busy)
            × (r.1.log ≡ [])
            × (r.1.regs ≡ after_reset))
          ⊎ (bit_and after_reset.rcc.cr rcc_cr_pllon ≡ 0)
            × (r.0 ≡ ok)
            × (r.1.log ≡ r.1.regs ∷ [])
            × (r.1.regs ≡ on_pllcfgr (λ x. r.1.regs.rcc.pllcfgr) after_reset)
            × IsPllValue r.1.regs.rcc.pllcfgr rcc_pllcfgr_pllsrc 8 360 0 after_reset.rcc.pllcfgr))
    ⊎ (¬ IsPllRequest rcc_pllcfgr_pllsrc 8 360 0) × (r ≡ (err_invalid_param, fresh after_reset 0))
rcc_pll_config_outcome_example =
    rcc_pll_config_outcome still rcc_pllcfgr_pllsrc 8 360 0 after_reset 0

rcc_hsi_disable_guarded_example :
    let r = rcc_hsi_disable still (fresh after_reset 0) in
    (Feeds after_reset after_reset 0 0 × (r.0 ≡ err_busy) × (r.1.log ≡ []))
    ⊎ (¬ Feeds after_reset after_reset 0 0)
      × (r.0 ≢ err_busy)
      × (r.1.log ≡ on_cr (λ cr. bit_and cr (inv32 rcc_cr_hsion)) after_reset ∷ [])
rcc_hsi_disable_guarded_example = rcc_hsi_disable_guarded still after_reset 0

rcc_hse_disable_guarded_example :
    let r = rcc_hse_disable still (fresh after_reset 0) in
    (Feeds after_reset after_reset 1 rcc_pllcfgr_pllsrc × (r.0 ≡ err_busy) × (r.1.log ≡ []))
    ⊎ (¬ Feeds after_reset after_reset 1 rcc_pllcfgr_pllsrc)
      × (r.0 ≢ err_busy)
      × (r.1.log ≡ on_cr (λ cr. bit_and cr (inv32 rcc_cr_hseon)) after_reset ∷ [])
rcc_hse_disable_guarded_example = rcc_hse_disable_guarded still after_reset 0

-- A flag in a number: it is clear before load 3, and set from there on.
abbrev late : Hw ℕ
late n s = if ltb n 3 then s else 1

abbrev flag_clear : ℕ → Bool
flag_clear s = s == 0

late_latched : (k s : ℕ) → flag_clear s ≡ false → flag_clear (late k s) ≡ false
late_latched k s h = elim (Bool-cases (ltb k 3)) [
  | inl early ↦ rw early h
  | inr past ↦ rw past refl
]

wait_settles_example : (wait late flag_clear 5 (fresh 0 0)).0 ≡ ok
wait_settles_example =
    wait_settles late flag_clear late_latched 5 3 (fresh 0 0) (omega arith) (λ s. refl)

rcc_bus_prescaler_config_fields_example :
    let r = rcc_bus_prescaler_config still 8 5 4 (fresh after_reset 0) in
    (IsScale 8 5 4
      × (r.0 ≡ ok)
      × (r.1.log ≡ r.1.regs ∷ [])
      × (r.1.regs ≡ on_cfgr (λ x. r.1.regs.rcc.cfgr) after_reset)
      × IsScaled r.1.regs.rcc.cfgr 8 5 4 after_reset.rcc.cfgr)
    ⊎ (¬ IsScale 8 5 4) × (r ≡ (err_invalid_param, fresh after_reset 0))
rcc_bus_prescaler_config_fields_example = rcc_bus_prescaler_config_fields still 8 5 4 after_reset 0
