-- ===== src/Bsp/Rates.antt =====
-- The frequencies of a state of `bspClockInit`: within the limits on HSI and at full speed, and those
-- of bsp.h at full speed on the PLL.
use stm32_rtos.Bsp.Asked.{hpre_none, IsAsked, IsDivided, IsSwitching}
use stm32_rtos.Reg.Rcc.{rcc_cfgr_hpre_msk, rcc_cfgr_ppre1_msk, rcc_cfgr_ppre2_msk}
use stm32_rtos.Rcc.Sysclk.{prescaler_mask}
use stm32_rtos.Base.{ℕ, ◌/◌, ◌≤◌, bit_and, ◌≡◌, refl, ◌⊎◌, inl, inr, arith}
use native.Mathlib.Nat.{div-le_self}
use stm32_rtos.Bits.{part_read, shl32}
use stm32_rtos.Clocks.{Clocks}
use stm32_rtos.Clocks.Facts.{IsFact, Holds}
use stm32_rtos.Rcc.Oscillator.{active_source}
use stm32_rtos.Rcc.Pll.{pll_mask}
use stm32_rtos.Rcc.Pll.Config.{pll_value}
use stm32_rtos.Rcc.Rates.{
  hsi_hz, pll_hz, sysclk_hz, hclk_hz, pclk1_hz, pclk2_hz, supply_hz, WithinLimits,
}
use stm32_rtos.Rcc.Sysclk.Config.{prescaler_value}
use stm32_rtos.Reg.Flash.{flash_acr_latency_msk}
use stm32_rtos.Bsp.{bsp_hse_hz, bsp_sysclk_hz, bsp_hclk_hz, bsp_pclk1_hz, bsp_pclk2_hz}
use stm32_rtos.Bsp.Safety.{IsSafe, full_speed_facts}

-- What full speed fixes, whatever source is in use.
pub full_pll :
    (s : Clocks) → Holds full_speed_facts s → pll_hz bsp_hse_hz s.rcc.pllcfgr ≡ bsp_sysclk_hz
full_pll s (_, (_, (_, (_, (h, _))))) =
    let m = part_read s.rcc.pllcfgr pll_mask pll_value 0x3f h refl in
    let n = part_read s.rcc.pllcfgr pll_mask pll_value 0x7fc0 h refl in
    let p = part_read s.rcc.pllcfgr pll_mask pll_value 0x30000 h refl in
    let source = part_read s.rcc.pllcfgr pll_mask pll_value 0x400000 h refl in
    rw (m, n, p, source) refl

full_supply : (s : Clocks) → Holds full_speed_facts s → supply_hz s ≡ 180000000
full_supply s (_, (switched, (driven, (_, (_, (scale, _)))))) = rw (scale, driven, switched) refl

full_hpre : (s : Clocks) → Holds full_speed_facts s → IsFact s hpre_none
full_hpre s (h, _) = part_read s.rcc.cfgr prescaler_mask prescaler_value rcc_cfgr_hpre_msk h refl

full_ppre1 :
    (s : Clocks) → Holds full_speed_facts s → bit_and s.rcc.cfgr rcc_cfgr_ppre1_msk ≡ shl32 5 10
full_ppre1 s (h, _) = part_read s.rcc.cfgr prescaler_mask prescaler_value rcc_cfgr_ppre1_msk h refl

full_ppre2 :
    (s : Clocks) → Holds full_speed_facts s → bit_and s.rcc.cfgr rcc_cfgr_ppre2_msk ≡ shl32 4 13
full_ppre2 s (h, _) = part_read s.rcc.cfgr prescaler_mask prescaler_value rcc_cfgr_ppre2_msk h refl

supply_low : (s : Clocks) → 120000000 ≤ supply_hz s
supply_low s = ground arith

divided : (n d k : ℕ) → n ≤ k → n / d ≤ k
divided n d k h = omega (arith, div-le_self n d)

-- SYSCLK from HSI is within every limit.
slow : (s : Clocks) → active_source s ≡ 0 → WithinLimits bsp_hse_hz s
slow s e =
    let base : sysclk_hz bsp_hse_hz s ≡ hsi_hz = rw e refl in
    let hclk : hclk_hz bsp_hse_hz s ≤ hsi_hz = divided _ _ hsi_hz (omega (arith, base)) in
    record {
      supplied = omega (arith, base, supply_low s);
      read_in_time = omega (arith, hclk);
      apb1_slow = divided _ _ 45000000 (omega (arith, hclk));
      apb2_slow = divided _ _ 90000000 (omega (arith, hclk));
    }

pub full_rates :
    (s : Clocks)
    → active_source s ≡ 2
    → Holds full_speed_facts s
    → (sysclk_hz bsp_hse_hz s ≡ bsp_sysclk_hz)
      × (hclk_hz bsp_hse_hz s ≡ bsp_hclk_hz)
      × (pclk1_hz bsp_hse_hz s ≡ bsp_pclk1_hz)
      × (pclk2_hz bsp_hse_hz s ≡ bsp_pclk2_hz)
full_rates s e full =
    let whole : sysclk_hz bsp_hse_hz s ≡ bsp_sysclk_hz = rw e (full_pll s full) in
    let ahb : hclk_hz bsp_hse_hz s ≡ bsp_hclk_hz = rw (full_hpre s full, whole) refl in
    (whole, ahb, rw (full_ppre1 s full, ahb) refl, rw (full_ppre2 s full, ahb) refl)

-- So is SYSCLK from the PLL at full speed.
fast :
    (s : Clocks)
    → active_source s ≡ 2
    → Holds full_speed_facts s
    → 5 ≤ bit_and s.flash.acr flash_acr_latency_msk
    → WithinLimits bsp_hse_hz s
fast s e full latency =
    let rates = full_rates s e full in
    record {
      supplied = rw (full_supply s full, rates.0) (omega arith);
      read_in_time = omega (arith, rates.1);
      apb1_slow = omega (arith, rates.2);
      apb2_slow = omega (arith, rates.3);
    }

-- SYSCLK is on HSI, or on the PLL at full speed.
pub record IsKnown (s : Clocks) : Type 0 where
  pub divided : IsDivided s
  pub source :
      (active_source s ≡ 0)
      ⊎ (active_source s ≡ 2)
        × Holds full_speed_facts s
        × (5 ≤ bit_and s.flash.acr flash_acr_latency_msk)

source_known :
    (s : Clocks)
    → IsSafe s
    → IsSwitching s
    → (active_source s ≡ 0)
      ⊎ (active_source s ≡ 2)
        × Holds full_speed_facts s
        × (5 ≤ bit_and s.flash.acr flash_acr_latency_msk)
source_known s safe (inl (_, hsi)) = inl hsi
source_known s safe (inr (_, inl hsi)) = inl hsi
source_known s (inl asked_hsi) (inr (asked_pll, inr _)) =
    absurd (omega (arith, asked_hsi, asked_pll))
source_known s (inr (latency, full)) (inr (_, inr pll)) = inr (pll, full, latency)

pub known : (s : Clocks) → IsSafe s → IsAsked s → IsKnown s
known s safe a = record { divided = a.divided; source = source_known s safe a.switching }

IsKnown-limits : (s : Clocks) → IsKnown s → WithinLimits bsp_hse_hz s
IsKnown-limits s k = elim k.source [
  | inl hsi ↦ slow s hsi
  | inr (pll, full, latency) ↦ fast s pll full latency
]

pub IsBoth-limits : (s : Clocks) → IsSafe s × IsAsked s → WithinLimits bsp_hse_hz s
IsBoth-limits s (safe, asked) = IsKnown-limits s (known s safe asked)

-- What holds in every state of `bspClockInit`.
abbrev pub IsBoth : Clocks → Type 0
IsBoth s = IsSafe s × IsAsked s
