-- ===== src/Bsp/Safety.antt =====
-- `bspClockInit` on hardware that leaves the configuration alone: SYSCLK is requested from the
-- PLL only with everything that 180 MHz needs in place, and success means the whole setup.
use stm32_rtos.Base.{ℕ, ◌≤◌, bit_or, ◌≡◌, refl, ◌⊎◌, inl, inr, List, [], ◌∷◌, All, arith, bit_and}
use stm32_rtos.Bits.{shl32, or-and_self}
use stm32_rtos.Status.{ok}
use stm32_rtos.Bus.{Bus, Hw, fresh}
use stm32_rtos.Clocks.{Clocks}
use stm32_rtos.Clocks.Facts.{
  cr, pllcfgr, cfgr, apb1enr, pwr_cr, acr, Steady, Fact, IsFact, Holds, Only-set,
}
use stm32_rtos.Clocks.Keep.{Stands, Ends, Ends-any, if_ok-Ends, step-Stands, modify-Stands}
use stm32_rtos.Flash.{flash_enable_caches}
use stm32_rtos.Pwr.{pwr_set_voltage_scale, pwr_wait_voltage_scale_ready, pwr_enable_overdrive}
use stm32_rtos.Pwr.Config.{
  pwr_set_voltage_scale-Ends, pwr_wait_voltage_scale_ready-Ends, pwr_enable_overdrive-Ends,
}
use stm32_rtos.Rcc.Gate.{rcc_pwr_clock_enable}
use stm32_rtos.Rcc.Oscillator.Config.{rcc_hse_enable-Ends}
use stm32_rtos.Rcc.Pll.{rcc_pll_config, rcc_pll_enable, pll_mask}
use stm32_rtos.Rcc.Pll.Config.{rcc_pll_config-Ends, rcc_pll_enable-Ends, pll_value}
use stm32_rtos.Rcc.Sysclk.{rcc_bus_prescaler_config, rcc_sysclk_switch, prescaler_mask}
use stm32_rtos.Rcc.Sysclk.Config.{
  rcc_bus_prescaler_config-Ends, rcc_sysclk_switch-Ends, prescaler_value, latency_is, sw_is,
}
use stm32_rtos.Reg.Flash.{flash_acr_latency_msk, flash_acr_prften, flash_acr_icen, flash_acr_dcen}
use stm32_rtos.Reg.Pwr.{
  pwr_cr_vos_msk, pwr_cr_vos_pos, pwr_cr_vos_scale1, pwr_cr_oden, pwr_cr_odswen,
}
use stm32_rtos.Reg.Rcc.{rcc_cr_hsebyp, rcc_cr_hseon, rcc_cr_pllon, rcc_pllcfgr_pllsrc_hse}
use stm32_rtos.Reg.Rcc.Enable.{rcc_apb1enr_pwren}
use stm32_rtos.Bsp.{bsp_clock_init}

abbrev pub pwr_fact : List Fact
pwr_fact = (apb1enr, rcc_apb1enr_pwren, rcc_apb1enr_pwren) ∷ []

-- The PWR clock, and HSE in bypass mode.
abbrev pub hse_facts : List Fact
hse_facts = (cr, rcc_cr_hseon, rcc_cr_hseon) ∷ (cr, rcc_cr_hsebyp, rcc_cr_hsebyp) ∷ pwr_fact

-- Regulator scale 1 besides.
abbrev pub scale_facts : List Fact
scale_facts = (pwr_cr, pwr_cr_vos_msk, shl32 pwr_cr_vos_scale1 pwr_cr_vos_pos) ∷ hse_facts

-- The PLL set to 360 MHz / 2 from HSE, then switched on.
abbrev pub config_facts : List Fact
config_facts = (pllcfgr, pll_mask, pll_value) ∷ scale_facts

abbrev pub pll_facts : List Fact
pll_facts = (cr, rcc_cr_pllon, rcc_cr_pllon) ∷ config_facts

-- Over-drive besides.
abbrev pub overdrive_facts : List Fact
overdrive_facts =
    (pwr_cr, pwr_cr_odswen, pwr_cr_odswen) ∷ (pwr_cr, pwr_cr_oden, pwr_cr_oden) ∷ pll_facts

-- All that 180 MHz needs but the flash latency: the bus prescalers besides.
abbrev pub full_speed_facts : List Fact
full_speed_facts = (cfgr, prescaler_mask, prescaler_value) ∷ overdrive_facts

abbrev pub cache_bits : ℕ
cache_bits = bit_or (bit_or flash_acr_prften flash_acr_icen) flash_acr_dcen

-- CFGR.SW asks for HSI, or the latency is at least 5 and all that 180 MHz needs is set.
abbrev pub IsSafe : Clocks → Type 0
IsSafe s =
    IsFact s (sw_is 0) ⊎ (5 ≤ bit_and s.flash.acr flash_acr_latency_msk) × Holds full_speed_facts s

-- A list of facts, and that CFGR.SW still asks for HSI.
abbrev with_hsi : List Fact → List Fact
with_hsi [] = sw_is 0 ∷ []
with_hsi (f ∷ fs) = f ∷ with_hsi fs

split_hsi : (fs : List Fact) (s : Clocks) → Holds (with_hsi fs) s → Holds (sw_is 0 ∷ fs) s
split_hsi [] s h = h
split_hsi (f ∷ fs) s h = let rest = split_hsi fs s h.1 in (rest.0, (h.0, rest.1))

on_hsi : (fs : List Fact) (s : Clocks) → Holds (with_hsi fs) s → IsSafe s
on_hsi fs s h = inl (split_hsi fs s h).0

hsi_first :
    (fs : List Fact) (b : Bus Clocks)
    → Stands IsSafe (with_hsi fs) b
    → Stands IsSafe (sw_is 0 ∷ fs) b
hsi_first fs b s = record { logged = s.logged; now = s.now; facts = split_hsi fs b.regs s.facts }

on_pll : (v : ℕ) → 5 ≤ v → (s : Clocks) → Holds (latency_is v ∷ full_speed_facts) s → IsSafe s
on_pll v enough s h = inr (rw h.0 enough, h.1)

module _ (hw : Hw Clocks) (steady : Steady hw) where
  clock_pwr :
      (b : Bus Clocks)
      → Stands IsSafe (with_hsi []) b
      → Stands IsSafe (with_hsi pwr_fact) (rcc_pwr_clock_enable hw b).1
  unfolding rcc_pwr_clock_enable
  clock_pwr b s = step-Stands hw steady IsSafe (with_hsi pwr_fact) (on_hsi pwr_fact) refl _ (
      modify-Stands hw steady IsSafe (with_hsi []) refl apb1enr rcc_apb1enr_pwren rcc_apb1enr_pwren
        rcc_apb1enr_pwren _ (on_hsi pwr_fact) (Only-set rcc_apb1enr_pwren) refl
        (λ x. or-and_self x rcc_apb1enr_pwren) b s)

  enable_caches :
      (b : Bus Clocks)
      → Stands IsSafe (sw_is 2 ∷ latency_is 5 ∷ full_speed_facts) b
      → Stands IsSafe
          ((acr, cache_bits, cache_bits) ∷ sw_is 2 ∷ latency_is 5 ∷ full_speed_facts)
          (flash_enable_caches hw b).1
  unfolding flash_enable_caches
  enable_caches b s =
      modify-Stands hw steady IsSafe (sw_is 2 ∷ latency_is 5 ∷ full_speed_facts) refl acr cache_bits
        cache_bits cache_bits _ (λ r h. on_pll 5 (omega arith) r (h.1.1.0, h.1.1.1))
        (Only-set cache_bits) refl (λ x. or-and_self x cache_bits) b s

  pub bsp_clock_init-Ends :
      (b : Bus Clocks)
      → Stands IsSafe (with_hsi []) b
      → Ends IsSafe
          ((acr, cache_bits, cache_bits) ∷ sw_is 2 ∷ latency_is 5 ∷ full_speed_facts)
          (bsp_clock_init hw b).0
          (bsp_clock_init hw b).1
  unfolding bsp_clock_init
  bsp_clock_init-Ends b s =
      let hse =
        rcc_hse_enable-Ends hw steady IsSafe (with_hsi pwr_fact) (on_hsi pwr_fact) refl refl refl _
          (clock_pwr b s) in
      let scale = if_ok-Ends _ _ (pwr_set_voltage_scale hw 3) hse (
        pwr_set_voltage_scale-Ends hw steady IsSafe (with_hsi hse_facts) (on_hsi hse_facts) refl
          refl _) in
      let pll = if_ok-Ends _ _ (rcc_pll_config hw rcc_pllcfgr_pllsrc_hse 8 360 0) scale (
        rcc_pll_config-Ends hw steady IsSafe (with_hsi scale_facts) (on_hsi scale_facts) refl refl
          _) in
      let locked = if_ok-Ends _ _ (rcc_pll_enable hw) pll (
        rcc_pll_enable-Ends hw steady IsSafe (with_hsi config_facts) (on_hsi config_facts) refl refl
          _) in
      let ready = if_ok-Ends _ _ (pwr_wait_voltage_scale_ready hw) locked (
        pwr_wait_voltage_scale_ready-Ends hw steady IsSafe (with_hsi pll_facts) (on_hsi pll_facts)
          refl _) in
      let overdriven = if_ok-Ends _ _ (pwr_enable_overdrive hw) ready (
        pwr_enable_overdrive-Ends hw steady IsSafe (with_hsi pll_facts) (on_hsi pll_facts) refl refl
          refl _) in
      let scaled = if_ok-Ends _ _ (rcc_bus_prescaler_config hw 0 5 4) overdriven (
        rcc_bus_prescaler_config-Ends hw steady IsSafe (with_hsi overdrive_facts)
          (on_hsi overdrive_facts) refl refl _) in
      let switched = if_ok-Ends _ _ (rcc_sysclk_switch hw 2 5) scaled (λ t.
        rcc_sysclk_switch-Ends hw steady IsSafe full_speed_facts on_pll refl refl refl
          (λ r h. inl h.0) _ (hsi_first full_speed_facts _ t)) in
      if_ok-Ends _ _ _ switched (λ t. Ends-any _ _ (enable_caches _ t))

-- Called with SYSCLK on HSI, on hardware that leaves the configuration bits alone, `bspClockInit`
-- stores no state in which CFGR.SW asks for anything but HSI unless the flash latency is at least
-- 5, the PLL is set up from HSE and on, the regulator is at scale 1 with over-drive on, and the
-- bus prescalers are set. Whatever its status, the registers at its return are no such state
-- either.
pub bsp_clock_init-IsSafe :
    (hw : Hw Clocks) (s : Clocks) (t : ℕ)
    → Steady hw
    → IsFact s (sw_is 0)
    → All IsSafe (bsp_clock_init hw (fresh s t)).1.log
      × IsSafe (bsp_clock_init hw (fresh s t)).1.regs
bsp_clock_init-IsSafe hw s t steady hsi =
    let run =
      bsp_clock_init-Ends hw steady (fresh s t)
        (record { logged = tt; now = inl hsi; facts = (hsi, tt) }) in
    (run.logged, run.now)

-- Called with SYSCLK on HSI, on hardware that leaves the configuration bits alone, where
-- `bspClockInit` returns OK, CFGR.SW asks for the PLL, the latency is 5, prefetch and
-- caches are on, the prescalers are /1, /4 and /2, over-drive is on and switched to, the PLL is
-- on with M = 8, N = 360, P = /2 from HSE, the regulator is at scale 1, HSE is on in bypass mode
-- and the PWR clock is on.
pub bsp_clock_init-ok :
    (hw : Hw Clocks) (s : Clocks) (t : ℕ)
    → Steady hw
    → IsFact s (sw_is 0)
    → (bsp_clock_init hw (fresh s t)).0 ≡ ok
    → Holds
        ((acr, cache_bits, cache_bits) ∷ sw_is 2 ∷ latency_is 5 ∷ full_speed_facts)
        (bsp_clock_init hw (fresh s t)).1.regs
bsp_clock_init-ok hw s t steady hsi done =
    rw done at
      (bsp_clock_init-Ends hw steady (fresh s t)
        (record { logged = tt; now = inl hsi; facts = (hsi, tt) })).facts
