-- ===== src/Rcc/Tree.antt =====
-- What feeds SYSCLK, and the calls of drivers/src/rcc.c that may touch it, in any order.
pub mod Kept
pub mod Oscillators
pub mod PllBuses
pub mod Switch
pub mod Invariant
pub mod Latency
use stm32_rtos.Base.{ℕ, ◌≡◌, ◌≢◌, ◌⊎◌, List, [], ◌∷◌}
use stm32_rtos.Status.{err_timeout}
use stm32_rtos.Bus.{Bus, Hw, after_step}
use stm32_rtos.Clocks.{Clocks}
use stm32_rtos.Clocks.Facts.{cr, pllcfgr, cfgr, Fact, IsFact, Holds}
use stm32_rtos.Rcc.Oscillator.{
  active_source, rcc_hsi_enable, rcc_hsi_disable, rcc_hse_enable, rcc_hse_disable,
}
use stm32_rtos.Rcc.Pll.{rcc_pll_config, rcc_pll_enable, rcc_pll_disable}
use stm32_rtos.Rcc.Sysclk.{rcc_bus_prescaler_config, rcc_sysclk_switch}
use stm32_rtos.Reg.Rcc.{
  rcc_cr_hsion, rcc_cr_hseon, rcc_cr_pllon, rcc_pllcfgr_pllsrc, rcc_cfgr_sw_msk,
}

-- The ways to feed SYSCLK: from an oscillator, or from the PLL on one of them.
pub data Feed : Type 0 where
  hsi hse pll_hsi pll_hse : Feed

abbrev pub source_of : Feed → ℕ
source_of hsi = 0
source_of hse = 1
source_of pll_hsi = 2
source_of pll_hse = 2

-- Everything on the way is switched on.
abbrev pub feed_facts : Feed → List Fact
feed_facts hsi = (cr, rcc_cr_hsion, rcc_cr_hsion) ∷ []
feed_facts hse = (cr, rcc_cr_hseon, rcc_cr_hseon) ∷ []
feed_facts pll_hsi =
    (cr, rcc_cr_pllon, rcc_cr_pllon)
    ∷ (pllcfgr, rcc_pllcfgr_pllsrc, 0)
    ∷ (cr, rcc_cr_hsion, rcc_cr_hsion)
    ∷ []
feed_facts pll_hse =
    (cr, rcc_cr_pllon, rcc_cr_pllon)
    ∷ (pllcfgr, rcc_pllcfgr_pllsrc, rcc_pllcfgr_pllsrc)
    ∷ (cr, rcc_cr_hseon, rcc_cr_hseon)
    ∷ []

abbrev pub requested : ℕ → Fact
requested source = (cfgr, rcc_cfgr_sw_msk, source)

-- CFGR.SWS shows the source, and it is fed in this way.
pub record Runs (f : Feed) (s : Clocks) : Type 0 where
  pub in_use : active_source s ≡ source_of f
  pub on : Holds (feed_facts f) s

-- The source that SYSCLK runs on is switched on.
abbrev pub IsFed : Clocks → Type 0
IsFed s = (f : Feed) × Runs f s

-- Besides, CFGR.SW asks for no other source: no switch is under way.
abbrev pub IsSettled : Clocks → Type 0
IsSettled s = (f : Feed) × Runs f s × IsFact s (requested (source_of f))

-- CFGR.SWS changes only to the source that CFGR.SW asks for, and only where that source is fed
-- (RM0390, SYSCLK selection: a switch occurs only if the target clock source is ready).
abbrev pub Follows : Hw Clocks → Type 0
Follows hw =
    (n : ℕ) (s : Clocks)
    → (active_source (hw n s) ≡ active_source s)
      ⊎ (f : Feed) × Holds (feed_facts f) s
        × IsFact s (requested (source_of f))
        × (active_source (hw n s) ≡ source_of f)

-- One call, with any arguments. After a switch that returned TIMEOUT the hardware may still be
-- about to switch, so that call is left out. `idle` is a load by other code.
pub data ClockCall (hw : Hw Clocks) : Bus Clocks → Bus Clocks → Type 0 where
  idle : (b : Bus Clocks) → ClockCall hw b (after_step hw b)
  hsi_on : (b : Bus Clocks) → ClockCall hw b (rcc_hsi_enable hw b).1
  hsi_off : (b : Bus Clocks) → ClockCall hw b (rcc_hsi_disable hw b).1
  hse_on : (bypass : ℕ) (b : Bus Clocks) → ClockCall hw b (rcc_hse_enable hw bypass b).1
  hse_off : (b : Bus Clocks) → ClockCall hw b (rcc_hse_disable hw b).1
  pll_set :
      (source m n p : ℕ) (b : Bus Clocks) → ClockCall hw b (rcc_pll_config hw source m n p b).1
  pll_on : (b : Bus Clocks) → ClockCall hw b (rcc_pll_enable hw b).1
  pll_off : (b : Bus Clocks) → ClockCall hw b (rcc_pll_disable hw b).1
  buses :
      (hpre ppre1 ppre2 : ℕ) (b : Bus Clocks)
      → ClockCall hw b (rcc_bus_prescaler_config hw hpre ppre1 ppre2 b).1
  switch :
      (source latency : ℕ) (b : Bus Clocks)
      → (rcc_sysclk_switch hw source latency b).0 ≢ err_timeout
      → ClockCall hw b (rcc_sysclk_switch hw source latency b).1

-- Any number of calls, one after the other.
pub data Reach (hw : Hw Clocks) : Bus Clocks → Bus Clocks → Type 0 where
  here : (b : Bus Clocks) → Reach hw b b
  after : {b c d : Bus Clocks} → ClockCall hw b c → Reach hw c d → Reach hw b d
