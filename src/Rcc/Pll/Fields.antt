-- ===== src/Rcc/Pll/Fields.antt =====
-- `rccPllConfig` for every argument: the fields that it writes, and what it refuses.
use stm32_rtos.Base.{
  ℕ, suc, ◌≤◌, ◌<◌, ◌^◌, bit_and, bit_or, ltb, ◌||◌, ◌&&◌, ◌!=◌, false, ◌≡◌, ◌≢◌, ◌⊎◌, inl, inr,
  refl, [], ◌∷◌, ◌∙◌, arith, Bool-cases, ap, sym,
}
use stm32_rtos.Bits.{
  flag_apart, flag_in, shl32, inv32, clear_within, or-and_distrib, zero-bit_or, bit_or-zero,
  shl32-in, bit_and_assoc, within_apart,
}
use stm32_rtos.Status.{ok, err_invalid_param, err_busy, not_refused}
use stm32_rtos.Bus.{Hw, fresh}
use stm32_rtos.Clocks.{Clocks, on_pllcfgr}
use stm32_rtos.Rcc.Pll.{rcc_pll_config, pll_mask}
use stm32_rtos.Reg.Rcc.{
  rcc_cr_pllon, rcc_pllcfgr_pllsrc, rcc_pllcfgr_pllm_msk, rcc_pllcfgr_plln_msk,
  rcc_pllcfgr_pllp_msk,
}

-- The domain of `rccPllConfig`.
pub record IsPllRequest (source m n p : ℕ) : Type 0 where
  pub source_fits : (source ≡ 0) ⊎ (source ≡ rcc_pllcfgr_pllsrc)
  pub m_low : 2 ≤ m
  pub m_high : m ≤ 63
  pub n_low : 50 ≤ n
  pub n_high : n ≤ 432
  pub p_high : p ≤ 3

-- The four fields in a value of PLLCFGR, and the bits of another value around them.
pub record IsPllValue (x source m n p old : ℕ) : Type 0 where
  pub m_field : bit_and x rcc_pllcfgr_pllm_msk ≡ shl32 m 0
  pub n_field : bit_and x rcc_pllcfgr_plln_msk ≡ shl32 n 6
  pub p_field : bit_and x rcc_pllcfgr_pllp_msk ≡ shl32 p 16
  pub source_field : bit_and x rcc_pllcfgr_pllsrc ≡ source
  pub kept : bit_and x (inv32 pll_mask) ≡ bit_and old (inv32 pll_mask)

abbrev written : ℕ → ℕ → ℕ → ℕ → ℕ → ℕ
written x source m n p =
    bit_or
      (bit_or (bit_or (bit_or (bit_and x (inv32 pll_mask)) (shl32 m 0)) (shl32 n 6)) (shl32 p 16))
      source

-- A mask that meets one of the five parts of the written value.
part :
    (x source m n p k a b c d e : ℕ)
    → bit_and (bit_and x (inv32 pll_mask)) k ≡ a
    → bit_and (shl32 m 0) k ≡ b
    → bit_and (shl32 n 6) k ≡ c
    → bit_and (shl32 p 16) k ≡ d
    → bit_and source k ≡ e
    → bit_and (written x source m n p) k ≡ bit_or (bit_or (bit_or (bit_or a b) c) d) e
part x source m n p k a b c d e ha hb hc hd he = simp (or-and_distrib, ha, hb, hc, hd, he)

-- Fields of two sizes, the one with the lower place first, from either side.
module _ (m n p : ℕ) (m_high : m < 2 ^ 6) (n_high : n < 2 ^ 9) (p_high : p < 2 ^ 2) where
  m_in : bit_and (shl32 m 0) rcc_pllcfgr_pllm_msk ≡ shl32 m 0
  m_in = shl32-in 6 0 m m_high (omega arith)

  n_in : bit_and (shl32 n 6) rcc_pllcfgr_plln_msk ≡ shl32 n 6
  n_in = shl32-in 9 6 n n_high (omega arith)

  p_in : bit_and (shl32 p 16) rcc_pllcfgr_pllp_msk ≡ shl32 p 16
  p_in = shl32-in 2 16 p p_high (omega arith)

  -- A mask that misses a field's mask misses the field.
  m_out : (k : ℕ) → bit_and rcc_pllcfgr_pllm_msk k ≡ 0 → bit_and (shl32 m 0) k ≡ 0
  m_out k apart = within_apart _ _ _ m_in apart

  n_out : (k : ℕ) → bit_and rcc_pllcfgr_plln_msk k ≡ 0 → bit_and (shl32 n 6) k ≡ 0
  n_out k apart = within_apart _ _ _ n_in apart

  p_out : (k : ℕ) → bit_and rcc_pllcfgr_pllp_msk k ≡ 0 → bit_and (shl32 p 16) k ≡ 0
  p_out k apart = within_apart _ _ _ p_in apart

  written-IsPllValue :
      (source x : ℕ)
      → (source ≡ 0) ⊎ (source ≡ rcc_pllcfgr_pllsrc)
      → IsPllValue (written x source m n p) source m n p x
  written-IsPllValue source x h = record {
    m_field =
        part x source m n p rcc_pllcfgr_pllm_msk 0 (shl32 m 0) 0 0 0
          (clear_within x pll_mask rcc_pllcfgr_pllm_msk (omega arith) refl) m_in (n_out _ refl)
          (p_out _ refl) (flag_apart source rcc_pllcfgr_pllsrc _ h refl)
        ∙ simp (zero-bit_or, bit_or-zero);
    n_field =
        part x source m n p rcc_pllcfgr_plln_msk 0 0 (shl32 n 6) 0 0
          (clear_within x pll_mask rcc_pllcfgr_plln_msk (omega arith) refl) (m_out _ refl) n_in
          (p_out _ refl) (flag_apart source rcc_pllcfgr_pllsrc _ h refl)
        ∙ simp (zero-bit_or, bit_or-zero);
    p_field =
        part x source m n p rcc_pllcfgr_pllp_msk 0 0 0 (shl32 p 16) 0
          (clear_within x pll_mask rcc_pllcfgr_pllp_msk (omega arith) refl) (m_out _ refl)
          (n_out _ refl) p_in (flag_apart source rcc_pllcfgr_pllsrc _ h refl)
        ∙ simp (zero-bit_or, bit_or-zero);
    source_field =
        part x source m n p rcc_pllcfgr_pllsrc 0 0 0 0 source
          (clear_within x pll_mask rcc_pllcfgr_pllsrc (omega arith) refl) (m_out _ refl)
          (n_out _ refl) (p_out _ refl) (flag_in source rcc_pllcfgr_pllsrc h refl)
        ∙ simp zero-bit_or;
    kept =
        part x source m n p (inv32 pll_mask) (bit_and x (inv32 pll_mask)) 0 0 0 0
          (bit_and_assoc x (inv32 pll_mask) (inv32 pll_mask)) (m_out _ refl) (n_out _ refl)
          (p_out _ refl) (flag_apart source rcc_pllcfgr_pllsrc _ h refl)
        ∙ simp bit_or-zero;
  }

source_test :
    (source : ℕ)
    → (source ≡ 0) ⊎ (source ≡ rcc_pllcfgr_pllsrc)
    → (source != 0 && source != rcc_pllcfgr_pllsrc) ≡ false
source_test source (inl e) = rw e
source_test source (inr e) = rw e

module _ (hw : Hw Clocks) (source m n p : ℕ) (s : Clocks) (t : ℕ) where
  pll_cases :
      IsPllRequest source m n p
      ⊎ (rcc_pll_config hw source m n p (fresh s t) ≡ (err_invalid_param, fresh s t))
  unfolding rcc_pll_config
  pll_cases = elim (Bool-cases (source != 0 && source != rcc_pllcfgr_pllsrc)) [
    | inl bad ↦ inr (rw bad)
    | inr e1 ↦ elim (Bool-cases (ltb m 2 || ltb 63 m)) [
      | inl bad ↦ inr (rw (e1, bad))
      | inr e2 ↦ elim (Bool-cases (ltb n 50 || ltb 432 n)) [
        | inl bad ↦ inr (rw (e1, e2, bad))
        | inr e3 ↦ elim (Bool-cases (ltb 3 p)) [
          | inl bad ↦ inr (rw (e1, e2, e3, bad))
          | inr e4 ↦ inl (record {
            source_fits = ground arith;
            m_low = ground arith;
            m_high = ground arith;
            n_low = ground arith;
            n_high = ground arith;
            p_high = ground arith;
          })
        ]
      ]
    ]
  ]

  -- Outside its domain `rccPllConfig` returns INVALID_PARAM without a load or a store.
  pub rcc_pll_config_refused :
      ¬ IsPllRequest source m n p
      → rcc_pll_config hw source m n p (fresh s t) ≡ (err_invalid_param, fresh s t)
  rcc_pll_config_refused h = elim pll_cases [ inl valid ↦ absurd (h valid) | inr refused ↦ refused ]

  -- Within its domain `rccPllConfig` decides by PLLON as the hardware shows it. With the PLL on
  -- it returns BUSY and stores nothing; with the PLL off it returns OK and changes PLLCFGR alone,
  -- which then has the four fields asked for and its other bits as they were.
  pub rcc_pll_config_fields :
      IsPllRequest source m n p
      → let r = rcc_pll_config hw source m n p (fresh s t) in
        let seen = hw t s in
        let before = hw (suc t) seen in
        ((bit_and seen.rcc.cr rcc_cr_pllon ≢ 0)
          × (r.0 ≡ err_busy)
          × (r.1.log ≡ [])
          × (r.1.regs ≡ seen))
        ⊎ (bit_and seen.rcc.cr rcc_cr_pllon ≡ 0)
          × (r.0 ≡ ok)
          × (r.1.log ≡ r.1.regs ∷ [])
          × (r.1.regs ≡ on_pllcfgr (λ x. r.1.regs.rcc.pllcfgr) before)
          × IsPllValue r.1.regs.rcc.pllcfgr source m n p before.rcc.pllcfgr
  unfolding rcc_pll_config
  rcc_pll_config_fields h =
      let valid : (source != 0 && source != rcc_pllcfgr_pllsrc) ≡ false =
        source_test source h.source_fits in
      let m_ok : (ltb m 2 || ltb 63 m) ≡ false = ground arith in
      let n_ok : (ltb n 50 || ltb 432 n) ≡ false = ground arith in
      let p_ok : ltb 3 p ≡ false = ground arith in
      elim (Bool-cases (bit_and (hw t s).rcc.cr rcc_cr_pllon != 0)) [
        | inl on ↦ rw (valid, m_ok, n_ok, p_ok, on) (inl (ground arith, refl, refl, refl))
        | inr off ↦
            rw (valid, m_ok, n_ok, p_ok, off)
              (inr (
                ground arith,
                refl,
                refl,
                refl,
                written-IsPllValue m n p (omega arith) (omega arith) (omega arith) source _
                    h.source_fits,
              ))
      ]

  -- For a known source, an M of 2 to 63, an N of 50 to 432 and a P code of 0 to 3 `rccPllConfig`
  -- decides by PLLON as the hardware shows it: with the PLL on it returns BUSY and stores nothing;
  -- with the PLL off it returns OK and changes PLLCFGR alone, which then has the four fields asked
  -- for and its other bits as they were. For any other argument it returns INVALID_PARAM without a
  -- load or a store.
  pub rcc_pll_config_outcome :
      let r = rcc_pll_config hw source m n p (fresh s t) in
      let seen = hw t s in
      let before = hw (suc t) seen in
      (IsPllRequest source m n p
        × (((bit_and seen.rcc.cr rcc_cr_pllon ≢ 0)
              × (r.0 ≡ err_busy)
              × (r.1.log ≡ [])
              × (r.1.regs ≡ seen))
            ⊎ (bit_and seen.rcc.cr rcc_cr_pllon ≡ 0)
              × (r.0 ≡ ok)
              × (r.1.log ≡ r.1.regs ∷ [])
              × (r.1.regs ≡ on_pllcfgr (λ x. r.1.regs.rcc.pllcfgr) before)
              × IsPllValue r.1.regs.rcc.pllcfgr source m n p before.rcc.pllcfgr))
      ⊎ (¬ IsPllRequest source m n p) × (r ≡ (err_invalid_param, fresh s t))
  rcc_pll_config_outcome = elim pll_cases [
    | inl h ↦ inl (h, rcc_pll_config_fields h)
    | inr refused ↦ inr (
      λ h. elim (rcc_pll_config_fields h) [
        | inl (_, busy, _, _) ↦
            let e : err_busy ≡ err_invalid_param = sym busy ∙ ap (λ q. q.0) refused in
            absurd (grind arith)
        | inr (_, done, _, _, _) ↦ not_refused _ done (ap (λ q. q.0) refused)
      ],
      refused,
    )
  ]
