-- ===== src/Smoke/Clock.antt =====
-- `actualPclk1Hz` against the frequency that the registers set, after `bspClockInit`.
use stm32_rtos.Rcc.Sysclk.Config.{sw_is, latency_is}
use stm32_rtos.Bsp.Safety.{IsSafe, full_speed_facts}
use stm32_rtos.Bsp.Asked.{stays-IsAsked}
use stm32_rtos.Bits.{shr32, bit_and-lt, bit_and_comm}
use stm32_rtos.Base.{
  ℕ, ◌/◌, ◌≤◌, bit_and, ◌==◌, ◌≡◌, refl, ap, inl, inr, [], ◌∷◌, arith, suc, ◌<◌, ==→eq, all_below,
  at_of_below, Bool, ◌∙◌,
}
use stm32_rtos.Bus.{Bus, Hw, fresh}
use stm32_rtos.Clocks.{Clocks}
use stm32_rtos.Clocks.Facts.{Steady, Steady-Holds, Holds, cfgr}
use stm32_rtos.Rcc.Oscillator.{active_source}
use stm32_rtos.Rcc.Rates.{pclk1_hz, apb_divisor}
use stm32_rtos.Rcc.Tree.{Follows}
use stm32_rtos.Reg.Rcc.{rcc_cfgr_ppre1_msk, rcc_cfgr_ppre1_pos}
use stm32_rtos.Bsp.{bsp_clock_init, bsp_hse_hz}
use stm32_rtos.Bsp.Limits.{OnHsi, bsp_clock_init-IsBoth}
use stm32_rtos.Bsp.Rates.{full_pll, IsKnown, known, IsBoth}
use stm32_rtos.Smoke.{actual_pclk1_hz, pclk1_from}

-- The shift is the division by the code's divisor.
abbrev agrees : ℕ → ℕ → ℕ → Bool
agrees sws n code = pclk1_from sws code == n / apb_divisor code

on_hsi : (code : ℕ) → code < 8 → pclk1_from 0 code ≡ 16000000 / apb_divisor code
unfolding all_below
on_hsi code small = ==→eq _ _ (at_of_below (agrees 0 16000000) 8 code refl small)

on_pll : (code : ℕ) → code < 8 → pclk1_from 2 code ≡ 180000000 / apb_divisor code
unfolding all_below
on_pll code small = ==→eq _ _ (at_of_below (agrees 2 180000000) 8 code refl small)

-- The APB1 code of a value of CFGR.
abbrev ppre1_code : Clocks → ℕ
ppre1_code s = shr32 (bit_and s.rcc.cfgr rcc_cfgr_ppre1_msk) rcc_cfgr_ppre1_pos

code_small : (s : Clocks) → ppre1_code s < 8
code_small s = omega (
  arith,
  bit_and-lt 13 rcc_cfgr_ppre1_msk s.rcc.cfgr (omega arith),
  bit_and_comm s.rcc.cfgr rcc_cfgr_ppre1_msk,
)

pclk1_seen :
    (s : Clocks) → IsKnown s → pclk1_from (active_source s) (ppre1_code s) ≡ pclk1_hz bsp_hse_hz s
pclk1_seen s k = elim k.source [
  | inl hsi ↦ rw (hsi, k.divided.0) (on_hsi (ppre1_code s) (code_small s))
  | inr (pll, full, _) ↦
      rw (pll, k.divided.0, full_pll s full) (on_pll (ppre1_code s) (code_small s))
]

module _ (hw : Hw Clocks) (steady : Steady hw) where
  stays-IsSafe : (n : ℕ) (s : Clocks) → IsSafe s → IsSafe (hw n s)
  stays-IsSafe n s (inl h) = inl (Steady-Holds hw steady (sw_is 0 ∷ []) refl n s (h, tt)).0
  stays-IsSafe n s (inr (enough, full)) =
      on_pll_still _ enough
        (Steady-Holds hw steady (latency_is _ ∷ full_speed_facts) refl n s (refl, full))
    where
      on_pll_still :
          (v : ℕ) → 5 ≤ v → Holds (latency_is v ∷ full_speed_facts) (hw n s) → IsSafe (hw n s)
      on_pll_still v enough h = inr (rw h.0 enough, h.1)

  pub stays-IsBoth : Follows hw → (n : ℕ) (s : Clocks) → IsBoth s → IsBoth (hw n s)
  stays-IsBoth follows n s (safe, asked) =
      (stays-IsSafe n s safe, stays-IsAsked hw steady follows n s asked)

  -- The call from any state of this kind.
  pub actual_pclk1_hz-IsBoth :
      Follows hw
      → (b : Bus Clocks) → IsBoth b.regs
      → (actual_pclk1_hz hw b).0 ≡ pclk1_hz bsp_hse_hz (hw b.time b.regs)
  unfolding actual_pclk1_hz
  actual_pclk1_hz-IsBoth follows b both =
      let seen = hw b.time b.regs in
      let (safe, asked) = stays-IsBoth follows b.time b.regs both in
      let same =
        (Steady-Holds hw steady
          ((cfgr, rcc_cfgr_ppre1_msk, bit_and seen.rcc.cfgr rcc_cfgr_ppre1_msk) ∷ []) refl
          (suc b.time) seen (refl, tt)).0 in
      ap (λ (x : ℕ). pclk1_from (active_source seen) (shr32 x rcc_cfgr_ppre1_pos)) same
      ∙ pclk1_seen seen (known seen safe asked)

-- `actualPclk1Hz`, called after `bspClockInit` had been called with SYSCLK on HSI and AHB and APB1
-- undivided, on hardware that leaves the configuration bits alone and moves CFGR.SWS only to a
-- requested source that is switched on: whatever status `bspClockInit` returned, it gives the PCLK1
-- frequency that the registers set when it first loads CFGR.
pub actual_pclk1_hz_agrees :
    (hw : Hw Clocks) (s : Clocks) (t : ℕ)
    → Steady hw
    → Follows hw
    → OnHsi s
    → let b = (bsp_clock_init hw (fresh s t)).1 in
      (actual_pclk1_hz hw b).0 ≡ pclk1_hz bsp_hse_hz (hw b.time b.regs)
actual_pclk1_hz_agrees hw s t steady follows start =
    actual_pclk1_hz-IsBoth hw steady follows _
      (bsp_clock_init-IsBoth hw s t steady follows start).now
