-- ===== src/Bsp/Asked.antt =====
-- CFGR while `bspClockInit` runs, from one store or step of the hardware to the next: which source
-- is asked for and shown, and the prescalers of AHB and APB1.

use stm32_rtos.Rcc.Sysclk.{prescaler_mask}
use stm32_rtos.Base.{
  ℕ, bit_and, true, ◌≡◌, refl, sym, ◌∙◌, ◌⊎◌, inl, inr, [], ◌∷◌, arith, ◌<◌, bit_or,
}
use stm32_rtos.Bits.{shl32, field_read, inv32}
use stm32_rtos.Bus.{Hw, modify}
use stm32_rtos.Bus.Keeps.{Keeps, modify-Keeps}
use stm32_rtos.Clocks.{Clocks}
use stm32_rtos.Clocks.Facts.{
  cfgr, ClockReg, update_reg, Steady, Steady-Holds, Fact, IsFact, Holds, Only, is_apart, all_facts,
  update_reg-Holds, Only-field,
}
use stm32_rtos.Rcc.Oscillator.{active_source}
use stm32_rtos.Rcc.Sysclk.Config.{
  sw_is, write_prescalers, write_prescalers-Only, write_prescalers_hpre, write_prescalers_ppre1,
}
use stm32_rtos.Rcc.Tree.{Follows}
use stm32_rtos.Rcc.Tree.Kept.{kept_source, rewritten}
use stm32_rtos.Reg.Rcc.{
  rcc_cfgr_sw_msk, rcc_cfgr_sws_msk, rcc_cfgr_hpre_msk, rcc_cfgr_ppre1_msk, rcc_cfgr_ppre1_pos,
  rcc_cfgr_sw_pos,
}

abbrev pub hpre_none : Fact
hpre_none = (cfgr, rcc_cfgr_hpre_msk, 0)

-- The APB1 prescaler has this code.
abbrev pub ppre1_is : ℕ → Fact
ppre1_is v = (cfgr, rcc_cfgr_ppre1_msk, shl32 v rcc_cfgr_ppre1_pos)

-- AHB runs undivided, and APB1 undivided or divided by 4.
abbrev pub IsDivided : Clocks → Type 0
IsDivided s = IsFact s hpre_none × (IsFact s (ppre1_is 0) ⊎ IsFact s (ppre1_is 5))

-- CFGR.SW asks for HSI and CFGR.SWS shows it, or CFGR.SW asks for the PLL and CFGR.SWS shows HSI
-- or the PLL.
abbrev pub IsSwitching : Clocks → Type 0
IsSwitching s =
    IsFact s (sw_is 0) × (active_source s ≡ 0)
    ⊎ IsFact s (sw_is 2) × ((active_source s ≡ 0) ⊎ (active_source s ≡ 2))

pub record IsAsked (s : Clocks) : Type 0 where
  pub divided : IsDivided s
  pub switching : IsSwitching s

-- What keeps both facts, whichever APB1 has, keeps the prescalers.
kept-IsDivided :
    (s s' : Clocks)
    → ((v : ℕ)
        → v < 8
        → Holds (hpre_none ∷ ppre1_is v ∷ []) s
        → Holds (hpre_none ∷ ppre1_is v ∷ []) s')
    → IsDivided s
    → IsDivided s'
kept-IsDivided s s' keep (hpre, inl h) =
    let kept = keep 0 (omega arith) (hpre, (h, tt)) in (kept.0, inl kept.1.0)
kept-IsDivided s s' keep (hpre, inr h) =
    let kept = keep 5 (omega arith) (hpre, (h, tt)) in (kept.0, inr kept.1.0)

-- A store apart from CFGR.SW and CFGR.SWS.
pub store-IsSwitching :
    (r : ClockReg) (mask : ℕ) (g : ℕ → ℕ)
    → Only mask g
    → all_facts (is_apart r mask) ((cfgr, rcc_cfgr_sws_msk, 0) ∷ []) ≡ true
    → all_facts (is_apart r mask) (sw_is 0 ∷ []) ≡ true
    → (s : Clocks) → IsSwitching s
    → IsSwitching (update_reg r g s)
store-IsSwitching r mask g only apart apart' s (inl h) = inl (
  (update_reg-Holds r mask g (sw_is 0 ∷ []) only apart' s (h.0, tt)).0,
  kept_source r mask g only apart s ∙ h.1,
)
store-IsSwitching r mask g only apart apart' s (inr h) = inr (
  (update_reg-Holds r mask g (sw_is 2 ∷ []) only apart' s (h.0, tt)).0,
  rw (kept_source r mask g only apart s) h.1,
)

-- A store apart from the prescalers.
pub store-IsDivided :
    (r : ClockReg) (mask : ℕ) (g : ℕ → ℕ)
    → Only mask g
    → all_facts (is_apart r mask) (hpre_none ∷ ppre1_is 0 ∷ []) ≡ true
    → (s : Clocks) → IsDivided s
    → IsDivided (update_reg r g s)
store-IsDivided r mask g only apart s d =
    kept-IsDivided s (update_reg r g s)
      (λ v small. update_reg-Holds r mask g (hpre_none ∷ ppre1_is v ∷ []) only apart s) d

-- The store of the prescalers.
pub scaled : (s : Clocks) → IsAsked s → IsAsked (update_reg cfgr write_prescalers s)
scaled s a = record {
  divided = (write_prescalers_hpre s.rcc.cfgr, inr (write_prescalers_ppre1 s.rcc.cfgr));
  switching =
      store-IsSwitching cfgr prescaler_mask write_prescalers write_prescalers-Only refl refl s
        a.switching;
}

-- The store that asks for the PLL.
abbrev pub ask_pll : ℕ → ℕ
ask_pll x = bit_or (bit_and x (inv32 rcc_cfgr_sw_msk)) (shl32 2 rcc_cfgr_sw_pos)

ask_pll-Only : Only rcc_cfgr_sw_msk ask_pll
ask_pll-Only = Only-field rcc_cfgr_sw_msk 2 (omega arith) refl

shows : (s : Clocks) → IsSwitching s → (active_source s ≡ 0) ⊎ (active_source s ≡ 2)
shows s (inl h) = inl h.1
shows s (inr h) = h.1

pub asks : (s : Clocks) → IsAsked s → IsAsked (update_reg cfgr ask_pll s)
asks s a = record {
  divided = store-IsDivided cfgr rcc_cfgr_sw_msk ask_pll ask_pll-Only refl s a.divided;
  switching = inr (
    field_read s.rcc.cfgr rcc_cfgr_sw_msk 2 (omega arith) refl,
    rw (kept_source cfgr rcc_cfgr_sw_msk ask_pll ask_pll-Only refl s) (shows s a.switching),
  );
}

module _ (hw : Hw Clocks) (steady : Steady hw) (follows : Follows hw) where
  moved :
      (n : ℕ) (s : Clocks)
      → (active_source (hw n s) ≡ active_source s)
        ⊎ (active_source (hw n s) ≡ bit_and s.rcc.cfgr rcc_cfgr_sw_msk)
  moved n s = elim (follows n s) [
    | inl same ↦ inl same
    | inr (g, _, asked, now) ↦ inr (now ∙ sym asked)
  ]

  stays-IsSwitching : (n : ℕ) (s : Clocks) → IsSwitching s → IsSwitching (hw n s)
  stays-IsSwitching n s (inl h) = inl (
    (Steady-Holds hw steady (sw_is 0 ∷ []) refl n s (h.0, tt)).0,
    elim (moved n s) [ inl same ↦ same ∙ h.1 | inr now ↦ now ∙ h.0 ],
  )
  stays-IsSwitching n s (inr h) = inr (
    (Steady-Holds hw steady (sw_is 2 ∷ []) refl n s (h.0, tt)).0,
    elim (moved n s) [ inl same ↦ rw same h.1 | inr now ↦ inr (now ∙ h.0) ],
  )

  pub stays-IsAsked : (n : ℕ) (s : Clocks) → IsAsked s → IsAsked (hw n s)
  stays-IsAsked n s a = record {
    divided =
        kept-IsDivided s (hw n s)
          (λ v small. Steady-Holds hw steady (hpre_none ∷ ppre1_is v ∷ []) refl n s) a.divided;
    switching = stays-IsSwitching n s a.switching;
  }

  -- A read-modify-write of any register but CFGR.
  pub write :
      (r : ClockReg) (g : ℕ → ℕ)
      → all_facts (is_apart r 0xffffffff) ((cfgr, rcc_cfgr_sws_msk, 0) ∷ []) ≡ true
      → all_facts (is_apart r 0xffffffff) (sw_is 0 ∷ []) ≡ true
      → all_facts (is_apart r 0xffffffff) (hpre_none ∷ ppre1_is 0 ∷ []) ≡ true
      → Keeps IsAsked (modify hw (update_reg r g))
  write r g apart apart' apart'' = modify-Keeps hw stays-IsAsked (update_reg r g) λ s a. record {
    divided = store-IsDivided r 0xffffffff g (rewritten g) apart'' s a.divided;
    switching = store-IsSwitching r 0xffffffff g (rewritten g) apart apart' s a.switching;
  }
