-- ===== src/Rcc/Oscillator/Guard.antt =====
-- The oscillator that feeds SYSCLK, directly or as the input of the PLL, is not switched off.
use stm32_rtos.Base.{
  ℕ, suc, bit_and, ◌==◌, ◌&&◌, split_and, ==→eq, Bool-cases, ◌≡◌, ◌≢◌, refl, ◌⊎◌, inl, inr, arith,
  [], ◌∷◌,
}
use stm32_rtos.Status.{ok, err_busy}
use stm32_rtos.Bus.{Bus, Hw, fresh}
use stm32_rtos.Bus.Wait.{wait-log, wait_not_busy}
use stm32_rtos.Bits.{inv32}
use stm32_rtos.Clocks.{Clocks, on_cr}
use stm32_rtos.Rcc.Oscillator.{
  active_source, rcc_oscillator_disable_guard, rcc_wait_cr_flag, rcc_hsi_disable, rcc_hse_disable,
}
use stm32_rtos.Reg.Rcc.{rcc_cr_hsion, rcc_cr_hseon, rcc_pllcfgr_pllsrc}

-- By what two loads show, the source feeds SYSCLK: it is in use, or the PLL is and has it as its
-- input.
abbrev pub Feeds : Clocks → Clocks → ℕ → ℕ → Type 0
Feeds first second source input =
    (active_source first ≡ source)
    ⊎ (active_source first ≡ 2) × (bit_and second.rcc.pllcfgr rcc_pllcfgr_pllsrc ≡ input)

module _ (hw : Hw Clocks) (s : Clocks) (t : ℕ) where
  Feeds-cases :
      (source input : ℕ)
      → (Feeds (hw t s) (hw (suc t) (hw t s)) source input
          × ((rcc_oscillator_disable_guard hw source input (fresh s t)).0 ≡ err_busy))
        ⊎ (¬ Feeds (hw t s) (hw (suc t) (hw t s)) source input)
          × ((rcc_oscillator_disable_guard hw source input (fresh s t)).0 ≡ ok)
  unfolding rcc_oscillator_disable_guard
  Feeds-cases source input = elim (Bool-cases (active_source (hw t s) == source)) [
    | inl used ↦ rw used (inl (inl (==→eq _ _ used), refl))
    | inr unused ↦
        elim (Bool-cases (
          active_source (hw t s) == 2
          && bit_and (hw (suc t) (hw t s)).rcc.pllcfgr rcc_pllcfgr_pllsrc == input)) [
            | inl through ↦
                let parts = split_and _ _ through in
                rw (unused, through) (inl (inr (==→eq _ _ parts.0, ==→eq _ _ parts.1), refl))
            | inr apart ↦ rw (unused, apart) (inr (ground arith, refl))
          ]
  ]

  guard_reads :
      (source input : ℕ)
      → (rcc_oscillator_disable_guard hw source input (fresh s t)).1
        ≡ fresh (hw (suc t) (hw t s)) (suc (suc t))
  unfolding rcc_oscillator_disable_guard
  guard_reads source input = refl

flag_not_busy :
    (hw : Hw Clocks) (bit expected : ℕ) (b : Bus Clocks)
    → (rcc_wait_cr_flag hw bit expected b).0 ≢ err_busy
unfolding rcc_wait_cr_flag
flag_not_busy hw bit expected b = wait_not_busy hw _ _ b

flag-log :
    (hw : Hw Clocks) (bit expected : ℕ) (b : Bus Clocks)
    → (rcc_wait_cr_flag hw bit expected b).1.log ≡ b.log
unfolding rcc_wait_cr_flag
flag-log hw bit expected b = wait-log hw _ _ b

-- `rccHsiDisable` returns BUSY and stores nothing where HSI feeds SYSCLK. Elsewhere it stores
-- once, clearing HSION alone, and returns another status.
pub rcc_hsi_disable_guarded :
    (hw : Hw Clocks) (s : Clocks) (t : ℕ)
    → let r = rcc_hsi_disable hw (fresh s t) in
      let first = hw t s in
      let second = hw (suc t) first in
      (Feeds first second 0 0 × (r.0 ≡ err_busy) × (r.1.log ≡ []))
      ⊎ (¬ Feeds first second 0 0)
        × (r.0 ≢ err_busy)
        × (r.1.log ≡ on_cr (λ cr. bit_and cr (inv32 rcc_cr_hsion)) (hw (suc (suc t)) second) ∷ [])
unfolding rcc_hsi_disable
rcc_hsi_disable_guarded hw s t = elim (Feeds-cases hw s t 0 0) [
  | inl (feeds, busy) ↦ rw (busy, guard_reads hw s t 0 0) (inl (feeds, refl, refl))
  | inr (idle, free) ↦
      rw (free, guard_reads hw s t 0 0) (inr (idle, flag_not_busy hw _ _ _, flag-log hw _ _ _))
]

-- `rccHseDisable` does the same for HSE and HSEON.
pub rcc_hse_disable_guarded :
    (hw : Hw Clocks) (s : Clocks) (t : ℕ)
    → let r = rcc_hse_disable hw (fresh s t) in
      let first = hw t s in
      let second = hw (suc t) first in
      (Feeds first second 1 rcc_pllcfgr_pllsrc × (r.0 ≡ err_busy) × (r.1.log ≡ []))
      ⊎ (¬ Feeds first second 1 rcc_pllcfgr_pllsrc)
        × (r.0 ≢ err_busy)
        × (r.1.log ≡ on_cr (λ cr. bit_and cr (inv32 rcc_cr_hseon)) (hw (suc (suc t)) second) ∷ [])
unfolding rcc_hse_disable
rcc_hse_disable_guarded hw s t = elim (Feeds-cases hw s t 1 rcc_pllcfgr_pllsrc) [
  | inl (feeds, busy) ↦ rw (busy, guard_reads hw s t 1 rcc_pllcfgr_pllsrc) (inl (feeds, refl, refl))
  | inr (idle, free) ↦
      rw (free, guard_reads hw s t 1 rcc_pllcfgr_pllsrc)
        (inr (idle, flag_not_busy hw _ _ _, flag-log hw _ _ _))
]
