-- ===== src/Rcc/Pll/Config.antt =====
-- The PLL functions of clock bring-up, on hardware that leaves the configuration alone.
use stm32_rtos.Base.{
  ℕ, bit_and, bit_or, true, ◌≡◌, refl, List, ◌∷◌, arith, ◌!=◌, Bool-cases, inl, inr,
}
use stm32_rtos.Bits.{shl32, inv32, field_read, bit_or_assoc}
use stm32_rtos.Bus.{Bus, Hw}
use stm32_rtos.Clocks.{Clocks}
use stm32_rtos.Clocks.Facts.{
  cr, pllcfgr, Steady, Fact, Holds, is_soft, is_apart, all_facts, Only-field, Only,
}
use stm32_rtos.Clocks.Keep.{Stands, Ends, Ends-ok, step-Stands, modify-Stands}
use stm32_rtos.Rcc.Oscillator.Config.{rcc_wait_cr_flag-Ends, set_on}
use stm32_rtos.Rcc.Pll.{rcc_pll_config, rcc_pll_enable, pll_mask}
use stm32_rtos.Reg.Rcc.{rcc_cr_pllon, rcc_cr_pllrdy, rcc_pllcfgr_pllsrc_hse}

pub rcc_pll_enable-Ends :
    (hw : Hw Clocks) (steady : Steady hw) (I : Clocks → Type 0) (fs : List Fact)
    (holding : (s : Clocks) → Holds fs s → I s)
    → all_facts is_soft fs ≡ true
    → all_facts (is_apart cr rcc_cr_pllon) fs ≡ true
    → (b : Bus Clocks) → Stands I fs b
    → Ends I ((cr, rcc_cr_pllon, rcc_cr_pllon) ∷ fs) (rcc_pll_enable hw b).0 (rcc_pll_enable hw b).1
unfolding rcc_pll_enable
rcc_pll_enable-Ends hw steady I fs holding are_soft apart b s =
    rcc_wait_cr_flag-Ends hw steady I ((cr, rcc_cr_pllon, rcc_cr_pllon) ∷ fs) (λ r h. holding r h.1)
      are_soft rcc_cr_pllrdy rcc_cr_pllrdy _
      (set_on hw steady I fs holding are_soft rcc_cr_pllon apart b s)

-- What bring-up writes: M = 8, N = 360 and P = /2, from HSE.
abbrev pub pll_value : ℕ
pll_value = bit_or (bit_or (bit_or (shl32 8 0) (shl32 360 6)) (shl32 0 16)) rcc_pllcfgr_pllsrc_hse

abbrev pub write_pll : ℕ → ℕ
write_pll x =
    bit_or
      (bit_or (bit_or (bit_or (bit_and x (inv32 pll_mask)) (shl32 8 0)) (shl32 360 6)) (shl32 0 16))
      rcc_pllcfgr_pllsrc_hse

-- The four fields are one field under the union of their masks.
write_pll_lem : (x : ℕ) → write_pll x ≡ bit_or (bit_and x (inv32 pll_mask)) pll_value
write_pll_lem x = simp bit_or_assoc

write_pll-Only : Only pll_mask write_pll
write_pll-Only x n word apart =
    rw write_pll_lem (Only-field pll_mask pll_value (omega arith) refl x n word apart)

pub rcc_pll_config-Ends :
    (hw : Hw Clocks) (steady : Steady hw) (I : Clocks → Type 0) (fs : List Fact)
    (holding : (s : Clocks) → Holds fs s → I s)
    → all_facts is_soft fs ≡ true
    → all_facts (is_apart pllcfgr pll_mask) fs ≡ true
    → (b : Bus Clocks) → Stands I fs b
    → Ends I
        ((pllcfgr, pll_mask, pll_value) ∷ fs)
        (rcc_pll_config hw rcc_pllcfgr_pllsrc_hse 8 360 0 b).0
        (rcc_pll_config hw rcc_pllcfgr_pllsrc_hse 8 360 0 b).1
unfolding rcc_pll_config
rcc_pll_config-Ends hw steady I fs holding are_soft apart b s =
    let seen = step-Stands hw steady I fs holding are_soft b s in
    elim (Bool-cases (bit_and (hw b.time b.regs).rcc.cr rcc_cr_pllon != 0)) [
      | inl on ↦ rw on (record { logged = seen.logged; now = seen.now; facts = tt })
      | inr off ↦ rw off (
          Ends-ok (
            modify-Stands hw steady I fs are_soft pllcfgr pll_mask pll_mask pll_value write_pll
              (λ r h. holding r h.1) write_pll-Only apart
              (λ x. rw write_pll_lem (field_read x pll_mask pll_value (omega arith) refl)) _ seen))
    ]
