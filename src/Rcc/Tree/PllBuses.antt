-- ===== src/Rcc/Tree/PllBuses.antt =====
-- The PLL and prescaler calls keep the source in use switched on: the PLL that SYSCLK runs on is
-- neither stopped nor configured.
use stm32_rtos.Base.{
  ℕ, bit_and, bit_or, ◌!=◌, ◌&&◌, ◌||◌, ltb, true, ◌≡◌, refl, ◌∙◌, inl, inr, ◌⊎◌, arith, Bool-cases,
  ◌<◌, ◌≤◌, ◌^◌, ◌-◌, ◌+◌,
}
use stm32_rtos.Bits.{
  inv32, shl32, within_apart, within_within, shl32-in, set_frame, and-inv32_disjoint,
}
use stm32_rtos.Bus.{Bus, Hw, after_step}
use stm32_rtos.Clocks.{Clocks}
use stm32_rtos.Clocks.Facts.{cr, pllcfgr, cfgr, Steady, Holds, is_apart, is_set, all_facts, Only}
use stm32_rtos.Rcc.Oscillator.{rcc_active_sysclk_source}
use stm32_rtos.Rcc.Pll.{pll_mask, rcc_pll_config, rcc_pll_enable, rcc_pll_disable}
use stm32_rtos.Rcc.Tree.{Feed, hsi, hse, pll_hsi, pll_hse, Follows}
use stm32_rtos.Rcc.Tree.Kept.{
  Kept, tree_facts, after_step-Kept, modify-Kept, set-Kept, rewrite-Kept,
}
use stm32_rtos.Reg.Rcc.{rcc_cr_pllon, rcc_pllcfgr_pllsrc, rcc_cr_pllrdy}
use stm32_rtos.Rcc.Sysclk.{rcc_bus_prescaler_config, prescaler_mask}
use stm32_rtos.Rcc.Sysclk.Prescalers.{IsHpre-cases, IsPpre-cases, IsHpre-lt, IsPpre-lt}
use stm32_rtos.Rcc.Tree.Oscillators.{flag-Kept, clear-Kept}

module _ (hw : Hw Clocks) (steady : Steady hw) (follows : Follows hw) where
  on_pll : (f : Feed) → all_facts (is_set cr rcc_cr_pllon) (tree_facts f) ≡ true
  on_pll hsi = refl
  on_pll hse = refl
  on_pll pll_hsi = refl
  on_pll pll_hse = refl

  pub rcc_pll_enable-Kept : (f : Feed) (b : Bus Clocks) → Kept f b → Kept f (rcc_pll_enable hw b).1
  unfolding rcc_pll_enable
  rcc_pll_enable-Kept f b k =
      flag-Kept hw steady follows f _ _ _
        (set-Kept hw steady follows f cr rcc_cr_pllon refl (on_pll f) b k)

  pub rcc_pll_disable-Kept :
      (f : Feed) (b : Bus Clocks) → Kept f b → Kept f (rcc_pll_disable hw b).1
  unfolding rcc_pll_disable rcc_active_sysclk_source
  rcc_pll_disable-Kept f b k = go f (after_step-Kept hw steady follows f b k)
    where
      go : (f : Feed) → Kept f (after_step hw b) → Kept f (rcc_pll_disable hw b).1
      go hsi one =
          rw one.in_use
            (clear-Kept hw steady follows hsi rcc_cr_pllon rcc_cr_pllrdy (omega arith) refl _ one)
      go hse one =
          rw one.in_use
            (clear-Kept hw steady follows hse rcc_cr_pllon rcc_cr_pllrdy (omega arith) refl _ one)
      go pll_hsi one = rw one.in_use one
      go pll_hse one = rw one.in_use one

  off_or_on :
      (f : Feed)
      → (all_facts (is_apart pllcfgr 0xffffffff) (tree_facts f) ≡ true)
        ⊎ ((s : Clocks) → Holds (tree_facts f) s → (bit_and s.rcc.cr rcc_cr_pllon != 0) ≡ true)
  off_or_on hsi = inl refl
  off_or_on hse = inl refl
  off_or_on pll_hsi = inr (λ s h. rw h.1.0 refl)
  off_or_on pll_hse = inr (λ s h. rw h.1.0 refl)

  abbrev pll_value : ℕ → ℕ → ℕ → ℕ → ℕ → ℕ
  pll_value source m n p x =
      bit_or
        (bit_or (bit_or (bit_or (bit_and x (inv32 pll_mask)) (shl32 m 0)) (shl32 n 6)) (shl32 p 16))
        source

  -- The PLL is configured only where it is off.
  pub rcc_pll_config-Kept :
      (f : Feed) (source m n p : ℕ) (b : Bus Clocks)
      → Kept f b
      → Kept f (rcc_pll_config hw source m n p b).1
  unfolding rcc_pll_config
  rcc_pll_config-Kept f source m n p b k =
      let one = after_step-Kept hw steady follows f b k in
      elim (Bool-cases (source != 0 && source != rcc_pllcfgr_pllsrc)) [
        | inl bad ↦ rw bad k
        | inr source_ok ↦ elim (Bool-cases (ltb m 2 || ltb 63 m)) [
          | inl bad ↦ rw (source_ok, bad) k
          | inr m_ok ↦ elim (Bool-cases (ltb n 50 || ltb 432 n)) [
            | inl bad ↦ rw (source_ok, m_ok, bad) k
            | inr n_ok ↦ elim (Bool-cases (ltb 3 p)) [
              | inl bad ↦ rw (source_ok, m_ok, n_ok, bad) k
              | inr p_ok ↦
                  rw (source_ok, m_ok, n_ok, p_ok)
                    elim (off_or_on f) [
                      | inr on ↦ rw (on _ one.facts) one
                      | inl apart ↦
                          elim (Bool-cases (bit_and (hw b.time b.regs).rcc.cr rcc_cr_pllon != 0)) [
                            | inl on ↦ rw on one
                            | inr off ↦ rw off (
                                rewrite-Kept hw steady follows f pllcfgr (pll_value source m n p)
                                  refl apart _ one)
                          ]
                    ]
            ]
          ]
        ]
      ]

  -- A field that lies in the mask.
  in_mask :
      (w k v : ℕ)
      → v < 2 ^ w
      → k + w ≤ 32
      → bit_and (shl32 (2 ^ w - 1) k) prescaler_mask ≡ shl32 (2 ^ w - 1) k
      → bit_and (shl32 v k) prescaler_mask ≡ shl32 v k
  in_mask w k v h fits part =
      within_within (shl32 v k) _ prescaler_mask (shl32-in w k v h fits) part

  prescaler-Only :
      (hpre ppre1 ppre2 : ℕ)
      → hpre < 2 ^ 4
      → ppre1 < 2 ^ 3
      → ppre2 < 2 ^ 3
      → Only prescaler_mask (λ x.
        bit_or
          (bit_or (bit_or (bit_and x (inv32 prescaler_mask)) (shl32 hpre 4)) (shl32 ppre1 10))
          (shl32 ppre2 13))
  prescaler-Only hpre ppre1 ppre2 h h1 h2 x n word apart =
      let no_hpre = within_apart _ _ n (in_mask 4 4 hpre h (omega arith) refl) apart in
      let no_ppre1 = within_apart _ _ n (in_mask 3 10 ppre1 h1 (omega arith) refl) apart in
      let no_ppre2 = within_apart _ _ n (in_mask 3 13 ppre2 h2 (omega arith) refl) apart in
      set_frame _ _ n no_ppre2
      ∙ (set_frame _ _ n no_ppre1
          ∙ (set_frame _ _ n no_hpre
              ∙ and-inv32_disjoint x prescaler_mask n (omega arith) word apart))

  prescaler_apart : (f : Feed) → all_facts (is_apart cfgr prescaler_mask) (tree_facts f) ≡ true
  prescaler_apart hsi = refl
  prescaler_apart hse = refl
  prescaler_apart pll_hsi = refl
  prescaler_apart pll_hse = refl

  pub rcc_bus_prescaler_config-Kept :
      (f : Feed) (hpre ppre1 ppre2 : ℕ) (b : Bus Clocks)
      → Kept f b
      → Kept f (rcc_bus_prescaler_config hw hpre ppre1 ppre2 b).1
  unfolding rcc_bus_prescaler_config
  rcc_bus_prescaler_config-Kept f hpre ppre1 ppre2 b k = elim (IsHpre-cases hpre) [
    | inl (bad, _) ↦ rw bad k
    | inr (h_ok, h) ↦ elim (IsPpre-cases ppre1) [
      | inl (bad, _) ↦ rw (h_ok, bad) k
      | inr (p_ok, h1) ↦ elim (IsPpre-cases ppre2) [
        | inl (bad, _) ↦ rw (h_ok, p_ok, bad) k
        | inr (p_ok', h2) ↦
            rw (h_ok, p_ok, p_ok')
              (modify-Kept hw steady follows f cfgr prescaler_mask _
                (prescaler-Only hpre ppre1 ppre2 (IsHpre-lt hpre h) (IsPpre-lt ppre1 h1)
                  (IsPpre-lt ppre2 h2))
                refl (prescaler_apart f) b k)
      ]
    ]
  ]
