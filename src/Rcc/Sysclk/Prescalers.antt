-- ===== src/Rcc/Sysclk/Prescalers.antt =====
-- `rccBusPrescalerConfig` for every argument: the fields that it writes, and what it refuses.
use stm32_rtos.Base.{
  ℕ, ◌≤◌, ◌<◌, ◌^◌, bit_and, bit_or, ◌!=◌, ◌&&◌, ◌≡◌, ◌⊎◌, inl, inr, refl, [], ◌∷◌, ◌∙◌, arith,
  Bool-cases,
}
use stm32_rtos.Bits.{
  shl32, inv32, clear_within, or-and_distrib, zero-bit_or, bit_or-zero, shl32-in, bit_and_assoc,
  within_apart,
}
use stm32_rtos.Status.{ok, err_invalid_param}
use stm32_rtos.Bus.{Hw, fresh}
use stm32_rtos.Clocks.{Clocks, on_cfgr}
use stm32_rtos.Rcc.Sysclk.{
  rcc_validate_hpre, rcc_validate_ppre, rcc_bus_prescaler_config, prescaler_mask,
}
use stm32_rtos.Reg.Rcc.{rcc_cfgr_hpre_msk, rcc_cfgr_ppre1_msk, rcc_cfgr_ppre2_msk}

-- The codes of the AHB prescaler: 0 for /1, and 8 to 15.
abbrev pub IsHpre : ℕ → Type 0
IsHpre hpre = (hpre ≡ 0) ⊎ (8 ≤ hpre) × (hpre ≤ 15)

-- The codes of an APB prescaler: 0 for /1, and 4 to 7.
abbrev pub IsPpre : ℕ → Type 0
IsPpre ppre = (ppre ≡ 0) ⊎ (4 ≤ ppre) × (ppre ≤ 7)

pub IsHpre-cases :
    (hpre : ℕ)
    → (rcc_validate_hpre hpre ≡ err_invalid_param) × (¬ IsHpre hpre)
      ⊎ (rcc_validate_hpre hpre ≡ ok) × IsHpre hpre
unfolding rcc_validate_hpre
IsHpre-cases hpre =
    elim (Bool-cases (
      hpre != 0
      && hpre != 8
      && hpre != 9
      && hpre != 10
      && hpre != 11
      && hpre != 12
      && hpre != 13
      && hpre != 14
      && hpre != 15)) [
        | inl bad ↦ inl (rw bad (refl, ground arith))
        | inr valid ↦ inr (rw valid (refl, ground arith))
      ]

pub IsPpre-cases :
    (ppre : ℕ)
    → (rcc_validate_ppre ppre ≡ err_invalid_param) × (¬ IsPpre ppre)
      ⊎ (rcc_validate_ppre ppre ≡ ok) × IsPpre ppre
unfolding rcc_validate_ppre
IsPpre-cases ppre =
    elim (Bool-cases (ppre != 0 && ppre != 4 && ppre != 5 && ppre != 6 && ppre != 7)) [
      | inl bad ↦ inl (rw bad (refl, ground arith))
      | inr valid ↦ inr (rw valid (refl, ground arith))
    ]

pub IsHpre-lt : (hpre : ℕ) → IsHpre hpre → hpre < 2 ^ 4
IsHpre-lt hpre (inl e) = omega arith
IsHpre-lt hpre (inr (_, high)) = omega arith

pub IsPpre-lt : (ppre : ℕ) → IsPpre ppre → ppre < 2 ^ 3
IsPpre-lt ppre (inl e) = omega arith
IsPpre-lt ppre (inr (_, high)) = omega arith

-- The three fields in a value of CFGR, and the bits of another value around them.
pub record IsScaled (x hpre ppre1 ppre2 old : ℕ) : Type 0 where
  pub hpre_field : bit_and x rcc_cfgr_hpre_msk ≡ shl32 hpre 4
  pub ppre1_field : bit_and x rcc_cfgr_ppre1_msk ≡ shl32 ppre1 10
  pub ppre2_field : bit_and x rcc_cfgr_ppre2_msk ≡ shl32 ppre2 13
  pub kept : bit_and x (inv32 prescaler_mask) ≡ bit_and old (inv32 prescaler_mask)

abbrev written : ℕ → ℕ → ℕ → ℕ → ℕ
written x hpre ppre1 ppre2 =
    bit_or (bit_or (bit_or (bit_and x (inv32 prescaler_mask)) (shl32 hpre 4)) (shl32 ppre1 10))
      (shl32 ppre2 13)

-- A mask that meets one of the four parts of the written value.
part :
    (x hpre ppre1 ppre2 k a b c d : ℕ)
    → bit_and (bit_and x (inv32 prescaler_mask)) k ≡ a
    → bit_and (shl32 hpre 4) k ≡ b
    → bit_and (shl32 ppre1 10) k ≡ c
    → bit_and (shl32 ppre2 13) k ≡ d
    → bit_and (written x hpre ppre1 ppre2) k ≡ bit_or (bit_or (bit_or a b) c) d
part x hpre ppre1 ppre2 k a b c d ha hb hc hd = simp (or-and_distrib, ha, hb, hc, hd)

module _ (hpre ppre1 ppre2 : ℕ) (h : hpre < 2 ^ 4) (h1 : ppre1 < 2 ^ 3) (h2 : ppre2 < 2 ^ 3) where
  hpre_in : bit_and (shl32 hpre 4) rcc_cfgr_hpre_msk ≡ shl32 hpre 4
  hpre_in = shl32-in 4 4 hpre h (omega arith)

  ppre1_in : bit_and (shl32 ppre1 10) rcc_cfgr_ppre1_msk ≡ shl32 ppre1 10
  ppre1_in = shl32-in 3 10 ppre1 h1 (omega arith)

  ppre2_in : bit_and (shl32 ppre2 13) rcc_cfgr_ppre2_msk ≡ shl32 ppre2 13
  ppre2_in = shl32-in 3 13 ppre2 h2 (omega arith)

  hpre_out : (k : ℕ) → bit_and rcc_cfgr_hpre_msk k ≡ 0 → bit_and (shl32 hpre 4) k ≡ 0
  hpre_out k apart = within_apart _ _ _ hpre_in apart

  ppre1_out : (k : ℕ) → bit_and rcc_cfgr_ppre1_msk k ≡ 0 → bit_and (shl32 ppre1 10) k ≡ 0
  ppre1_out k apart = within_apart _ _ _ ppre1_in apart

  ppre2_out : (k : ℕ) → bit_and rcc_cfgr_ppre2_msk k ≡ 0 → bit_and (shl32 ppre2 13) k ≡ 0
  ppre2_out k apart = within_apart _ _ _ ppre2_in apart

  written-IsScaled : (x : ℕ) → IsScaled (written x hpre ppre1 ppre2) hpre ppre1 ppre2 x
  written-IsScaled x = record {
    hpre_field =
        part x hpre ppre1 ppre2 rcc_cfgr_hpre_msk 0 (shl32 hpre 4) 0 0
          (clear_within x prescaler_mask rcc_cfgr_hpre_msk (omega arith) refl) hpre_in
          (ppre1_out _ refl) (ppre2_out _ refl)
        ∙ simp (zero-bit_or, bit_or-zero);
    ppre1_field =
        part x hpre ppre1 ppre2 rcc_cfgr_ppre1_msk 0 0 (shl32 ppre1 10) 0
          (clear_within x prescaler_mask rcc_cfgr_ppre1_msk (omega arith) refl) (hpre_out _ refl)
          ppre1_in (ppre2_out _ refl)
        ∙ simp (zero-bit_or, bit_or-zero);
    ppre2_field =
        part x hpre ppre1 ppre2 rcc_cfgr_ppre2_msk 0 0 0 (shl32 ppre2 13)
          (clear_within x prescaler_mask rcc_cfgr_ppre2_msk (omega arith) refl) (hpre_out _ refl)
          (ppre1_out _ refl) ppre2_in
        ∙ simp zero-bit_or;
    kept =
        part x hpre ppre1 ppre2 (inv32 prescaler_mask) (bit_and x (inv32 prescaler_mask)) 0 0 0
          (bit_and_assoc x (inv32 prescaler_mask) (inv32 prescaler_mask)) (hpre_out _ refl)
          (ppre1_out _ refl) (ppre2_out _ refl)
        ∙ simp bit_or-zero;
  }

-- The domain of `rccBusPrescalerConfig`.
pub record IsScale (hpre ppre1 ppre2 : ℕ) : Type 0 where
  pub ahb_code : IsHpre hpre
  pub apb1_code : IsPpre ppre1
  pub apb2_code : IsPpre ppre2

-- `rccBusPrescalerConfig` returns OK for the codes of the prescalers and stores once, changing
-- CFGR alone, which then has the three fields asked for and its other bits as they were. For any
-- other argument it returns INVALID_PARAM and neither loads nor stores.
pub rcc_bus_prescaler_config_fields :
    (hw : Hw Clocks) (hpre ppre1 ppre2 : ℕ) (s : Clocks) (t : ℕ)
    → let r = rcc_bus_prescaler_config hw hpre ppre1 ppre2 (fresh s t) in
      (IsScale hpre ppre1 ppre2
        × (r.0 ≡ ok)
        × (r.1.log ≡ r.1.regs ∷ [])
        × (r.1.regs ≡ on_cfgr (λ x. r.1.regs.rcc.cfgr) (hw t s))
        × IsScaled r.1.regs.rcc.cfgr hpre ppre1 ppre2 (hw t s).rcc.cfgr)
      ⊎ (¬ IsScale hpre ppre1 ppre2) × (r ≡ (err_invalid_param, fresh s t))
unfolding rcc_bus_prescaler_config
rcc_bus_prescaler_config_fields hw hpre ppre1 ppre2 s t = elim (IsHpre-cases hpre) [
  | inl (bad, no_code) ↦ rw bad (inr (λ scale. no_code scale.ahb_code, refl))
  | inr (h_ok, h) ↦ elim (IsPpre-cases ppre1) [
    | inl (bad, no_code) ↦ rw (h_ok, bad) (inr (λ scale. no_code scale.apb1_code, refl))
    | inr (p_ok, h1) ↦ elim (IsPpre-cases ppre2) [
      | inl (bad, no_code) ↦ rw (h_ok, p_ok, bad) (inr (λ scale. no_code scale.apb2_code, refl))
      | inr (p_ok', h2) ↦
          let fields =
            written-IsScaled hpre ppre1 ppre2 (IsHpre-lt hpre h) (IsPpre-lt ppre1 h1)
              (IsPpre-lt ppre2 h2) (hw t s).rcc.cfgr in
          rw (h_ok, p_ok, p_ok')
            (inl
              (record { ahb_code = h; apb1_code = h1; apb2_code = h2 }, refl, refl, refl, fields))
    ]
  ]
]
