-- ===== src/Bsp/NoClock.antt =====
-- `bspClockInit` on a board whose HSE never becomes ready.
use stm32_rtos.Base.{ℕ, ◌+◌, bit_and, bit_or, ◌!=◌, true, ◌≡◌, refl, All, List, [], ◌∷◌, arith}
use stm32_rtos.Bits.{inv32, or-and_self}
use stm32_rtos.Status.{err_timeout}
use stm32_rtos.Bus.{Bus, Hw, fresh, after_step, modify}
use stm32_rtos.Bus.Wait.{wait_stuck}
use stm32_rtos.Clocks.{Clocks, on_cr}
use stm32_rtos.Clocks.Facts.{
  cr, pllcfgr, cfgr, apb1enr, pwr_cr, acr, soft, Steady, Fact, IsFact, Holds, Only-set,
}
use stm32_rtos.Clocks.Keep.{Stands, step-Stands, modify-Stands}
use stm32_rtos.Rcc.Gate.{rcc_pwr_clock_enable}
use stm32_rtos.Rcc.Oscillator.{rcc_hse_enable, rcc_wait_cr_flag}
use stm32_rtos.Rcc.Oscillator.Config.{rcc_hse_enable-Ends}
use stm32_rtos.Reg.Rcc.{rcc_cr_hsebyp, rcc_cr_hseon, rcc_cr_hserdy}
use stm32_rtos.Reg.Rcc.Enable.{rcc_apb1enr_pwren}
use stm32_rtos.Bsp.{bsp_clock_init}

-- The software bits of CR but for HSEON and HSEBYP: HSION, its trimming, the security system, and
-- PLLON with those of the other PLLs.
abbrev pub other_cr : ℕ
other_cr = bit_and (soft cr) (inv32 (bit_or rcc_cr_hseon rcc_cr_hsebyp))

-- The software bits of the registers of the PLL, SYSCLK, the regulator and the flash.
abbrev spared : Clocks → List Fact
spared s =
    (pllcfgr, soft pllcfgr, bit_and s.rcc.pllcfgr (soft pllcfgr))
    ∷ (cfgr, soft cfgr, bit_and s.rcc.cfgr (soft cfgr))
    ∷ (pwr_cr, soft pwr_cr, bit_and s.pwr.cr (soft pwr_cr))
    ∷ (acr, soft acr, bit_and s.flash.acr (soft acr))
    ∷ (cr, other_cr, bit_and s.rcc.cr other_cr)
    ∷ []

-- CR but for HSE, the PLL, SYSCLK, the regulator and the flash are configured as in `before`.
pub record IsSpared (before s : Clocks) : Type 0 where
  pub pll_as_before :
      bit_and s.rcc.pllcfgr (soft pllcfgr) ≡ bit_and before.rcc.pllcfgr (soft pllcfgr)
  pub sysclk_as_before : bit_and s.rcc.cfgr (soft cfgr) ≡ bit_and before.rcc.cfgr (soft cfgr)
  pub regulator_as_before : bit_and s.pwr.cr (soft pwr_cr) ≡ bit_and before.pwr.cr (soft pwr_cr)
  pub flash_as_before : bit_and s.flash.acr (soft acr) ≡ bit_and before.flash.acr (soft acr)
  pub switches_as_before : bit_and s.rcc.cr other_cr ≡ bit_and before.rcc.cr other_cr

is_spared : (before s : Clocks) → Holds (spared before) s → IsSpared before s
is_spared before s h = record {
  pll_as_before = h.0;
  sysclk_as_before = h.1.0;
  regulator_as_before = h.1.1.0;
  flash_as_before = h.1.1.1.0;
  switches_as_before = h.1.1.1.1.0;
}

module _ (hw : Hw Clocks) (steady : Steady hw)
    (absent : (n : ℕ) (s : Clocks) → bit_and (hw n s).rcc.cr rcc_cr_hserdy ≡ 0) where
  waiting : (n : ℕ) (s : Clocks) → (bit_and (hw n s).rcc.cr rcc_cr_hserdy != rcc_cr_hserdy) ≡ true
  waiting n s = rw (absent n s) refl

  hse_times_out :
      (b : Bus Clocks)
      → bit_and (hw b.time b.regs).rcc.cr rcc_cr_hseon ≡ 0
      → let r = rcc_hse_enable hw rcc_cr_hsebyp b in
        (r.0 ≡ err_timeout) × (r.1.time ≡ b.time + 100005)
  unfolding rcc_hse_enable rcc_wait_cr_flag
  hse_times_out b off =
      let b1 =
        (modify hw (on_cr (λ x. bit_or (bit_and x (inv32 rcc_cr_hsebyp)) rcc_cr_hsebyp))
          (after_step hw b)).1 in
      let b2 = (modify hw (on_cr (λ x. bit_or x rcc_cr_hseon)) b1).1 in
      let stuck =
        wait_stuck hw (λ s. bit_and s.rcc.cr rcc_cr_hserdy != rcc_cr_hserdy) waiting 100000 b2 in
      rw off (stuck.0, omega (arith, stuck.1))

  module _ (before : Clocks) (t : ℕ) (off : IsFact before (cr, rcc_cr_hseon, 0)) where
    powered : Bus Clocks
    powered = (rcc_pwr_clock_enable hw (fresh before t)).1

    off_facts : List Fact
    off_facts = (cr, rcc_cr_hseon, 0) ∷ spared before

    powered-Stands :
        Stands
          (IsSpared before)
          ((apb1enr, rcc_apb1enr_pwren, rcc_apb1enr_pwren) ∷ off_facts)
          powered
    unfolding rcc_pwr_clock_enable powered off_facts
    powered-Stands =
        let fs : List Fact = (apb1enr, rcc_apb1enr_pwren, rcc_apb1enr_pwren) ∷ off_facts in
        step-Stands hw steady (IsSpared before) fs (λ s h. is_spared before s h.1.1) refl _
          (modify-Stands hw steady (IsSpared before) off_facts refl apb1enr rcc_apb1enr_pwren
            rcc_apb1enr_pwren rcc_apb1enr_pwren _ (λ s h. is_spared before s h.1.1)
            (Only-set rcc_apb1enr_pwren) refl (λ x. or-and_self x rcc_apb1enr_pwren)
            (fresh before t)
            (record {
              logged = tt;
              now = is_spared before before (refl, (refl, (refl, (refl, (refl, tt)))));
              facts = (off, (refl, (refl, (refl, (refl, (refl, tt))))));
            }))

    hse_off : bit_and (hw powered.time powered.regs).rcc.cr rcc_cr_hseon ≡ 0
    unfolding off_facts
    hse_off =
        let fs : List Fact = (apb1enr, rcc_apb1enr_pwren, rcc_apb1enr_pwren) ∷ off_facts in
        (step-Stands hw steady (IsSpared before) fs (λ s h. is_spared before s h.1.1) refl powered
          powered-Stands).facts.1.0

    hse_stopped :
        let r = rcc_hse_enable hw rcc_cr_hsebyp powered in
        All (IsSpared before) r.1.log × IsSpared before r.1.regs
    unfolding off_facts
    hse_stopped =
        let st = powered-Stands in
        let e =
          rcc_hse_enable-Ends hw steady (IsSpared before) (spared before) (is_spared before) refl
            refl refl powered (record { logged = st.logged; now = st.now; facts = st.facts.1.1 }) in
        (e.logged, e.now)

    powered-time : powered.time ≡ t + 2
    unfolding powered rcc_pwr_clock_enable
    powered-time = omega arith

    hse_time : (rcc_hse_enable hw rcc_cr_hsebyp powered).1.time ≡ t + 100007
    hse_time = omega (arith, (hse_times_out powered hse_off).1, powered-time)

    clock_stops :
        let r = bsp_clock_init hw (fresh before t) in
        (r.0 ≡ err_timeout)
        × (r.1.time ≡ t + 100007)
        × All (IsSpared before) r.1.log
        × IsSpared before r.1.regs
    unfolding bsp_clock_init powered rcc_pwr_clock_enable
    clock_stops =
        rw (hse_times_out powered hse_off).0 (refl, hse_time, hse_stopped.0, hse_stopped.1)

-- Called with HSE off, on hardware that leaves the configuration bits alone and never shows HSE
-- ready, `bspClockInit` returns TIMEOUT after 100007 loads. The PLL, SYSCLK, the regulator and the
-- flash are configured as before the call in every stored state and at its return.
pub bsp_clock_init-IsSpared :
    (hw : Hw Clocks) (s : Clocks) (t : ℕ)
    → Steady hw
    → ((n : ℕ) (r : Clocks) → bit_and (hw n r).rcc.cr rcc_cr_hserdy ≡ 0)
    → IsFact s (cr, rcc_cr_hseon, 0)
    → let r = bsp_clock_init hw (fresh s t) in
      (r.0 ≡ err_timeout) × (r.1.time ≡ t + 100007) × All (IsSpared s) r.1.log × IsSpared s r.1.regs
bsp_clock_init-IsSpared hw s t steady absent off = clock_stops hw steady absent s t off
