-- ===== src/Rcc/Sysclk/Config.antt =====
-- The prescalers and the switch to the PLL at flash latency 5, on hardware that leaves the
-- configuration alone.
use stm32_rtos.Base.{
  ℕ, ◌≤◌, bit_and, bit_or, true, false, ◌≡◌, refl, List, ◌∷◌, arith, ltb, leb, Bool-cases, inl, inr,
}
use stm32_rtos.Bits.{shl32, shr32, inv32, field_read, bit_or_assoc, part_read}
use stm32_rtos.Status.{DriverStatus, ok}
use stm32_rtos.Bus.{Bus, Hw, if_ok, after_step}
use stm32_rtos.Clocks.{Clocks}
use stm32_rtos.Clocks.Facts.{
  cfgr, acr, Steady, Fact, Holds, is_soft, is_apart, all_facts, Only-field, Only,
}
use stm32_rtos.Clocks.Keep.{
  Stands, Ends, Ends-ok, Ends-any, if_ok-Ends, step-Stands, wait-Ends, modify-Stands,
}
use stm32_rtos.Flash.{flash_set_latency}
use stm32_rtos.Flash.Config.{flash_set_latency-Stands}
use stm32_rtos.Rcc.Sysclk.{
  rcc_validate_hpre, rcc_validate_ppre, rcc_bus_prescaler_config, prescaler_mask, raise_latency,
  check_source_ready, request_source, lower_latency, rcc_sysclk_switch,
}
use stm32_rtos.Reg.Flash.{flash_acr_latency_msk}
use stm32_rtos.Reg.Rcc.{rcc_cfgr_sw_msk, rcc_cfgr_hpre_msk, rcc_cfgr_ppre1_msk, rcc_cfgr_ppre1_pos}

-- What bring-up writes: AHB /1, APB1 /4 and APB2 /2.
abbrev pub prescaler_value : ℕ
prescaler_value = bit_or (bit_or (shl32 0 4) (shl32 5 10)) (shl32 4 13)

abbrev pub write_prescalers : ℕ → ℕ
write_prescalers x =
    bit_or (bit_or (bit_or (bit_and x (inv32 prescaler_mask)) (shl32 0 4)) (shl32 5 10))
      (shl32 4 13)

-- The three fields are one field under the union of their masks.
write_prescalers_lem :
    (x : ℕ) → write_prescalers x ≡ bit_or (bit_and x (inv32 prescaler_mask)) prescaler_value
write_prescalers_lem x = simp bit_or_assoc

pub write_prescalers-Only : Only prescaler_mask write_prescalers
write_prescalers-Only x n word apart =
    rw write_prescalers_lem
      (Only-field prescaler_mask prescaler_value (omega arith) refl x n word apart)

-- AHB is left undivided.
pub write_prescalers_hpre : (x : ℕ) → bit_and (write_prescalers x) rcc_cfgr_hpre_msk ≡ 0
write_prescalers_hpre x =
    part_read (write_prescalers x) prescaler_mask prescaler_value rcc_cfgr_hpre_msk
      (rw write_prescalers_lem (field_read x prescaler_mask prescaler_value (omega arith) refl))
      refl

-- APB1 is divided by 4.
pub write_prescalers_ppre1 :
    (x : ℕ) → bit_and (write_prescalers x) rcc_cfgr_ppre1_msk ≡ shl32 5 rcc_cfgr_ppre1_pos
write_prescalers_ppre1 x =
    part_read (write_prescalers x) prescaler_mask prescaler_value rcc_cfgr_ppre1_msk
      (rw write_prescalers_lem (field_read x prescaler_mask prescaler_value (omega arith) refl))
      refl

pub rcc_bus_prescaler_config-Ends :
    (hw : Hw Clocks) (steady : Steady hw) (I : Clocks → Type 0) (fs : List Fact)
    (holding : (s : Clocks) → Holds fs s → I s)
    → all_facts is_soft fs ≡ true
    → all_facts (is_apart cfgr prescaler_mask) fs ≡ true
    → (b : Bus Clocks) → Stands I fs b
    → Ends I
        ((cfgr, prescaler_mask, prescaler_value) ∷ fs)
        (rcc_bus_prescaler_config hw 0 5 4 b).0
        (rcc_bus_prescaler_config hw 0 5 4 b).1
unfolding rcc_bus_prescaler_config rcc_validate_hpre rcc_validate_ppre
rcc_bus_prescaler_config-Ends hw steady I fs holding are_soft apart b s = Ends-ok (
    modify-Stands hw steady I fs are_soft cfgr prescaler_mask prescaler_mask prescaler_value
      write_prescalers (λ r h. holding r h.1) write_prescalers-Only apart
      (λ x.
        rw write_prescalers_lem (field_read x prescaler_mask prescaler_value (omega arith) refl))
      b s)

-- The latency field of ACR has this value.
abbrev pub latency_is : ℕ → Fact
latency_is v = (acr, flash_acr_latency_msk, v)

-- CFGR.SW requests this source.
abbrev pub sw_is : ℕ → Fact
sw_is v = (cfgr, rcc_cfgr_sw_msk, v)

module _ (hw : Hw Clocks) (steady : Steady hw) (I : Clocks → Type 0) (fs : List Fact)
    (holding : (v : ℕ) → 5 ≤ v → (s : Clocks) → Holds (latency_is v ∷ fs) s → I s)
    (are_soft : all_facts is_soft fs ≡ true)
    (apart : all_facts (is_apart cfgr rcc_cfgr_sw_msk) fs ≡ true)
    (apart' : all_facts (is_apart acr flash_acr_latency_msk) fs ≡ true) where
  request_pll :
      (v : ℕ)
      → 5 ≤ v
      → (b : Bus Clocks) → Stands I (latency_is v ∷ fs) b
      → Ends I (sw_is 2 ∷ latency_is v ∷ fs) (request_source hw 2 b).0 (request_source hw 2 b).1
  unfolding request_source
  request_pll v enough b s =
      let requested =
        modify-Stands hw steady I (latency_is v ∷ fs) are_soft cfgr rcc_cfgr_sw_msk rcc_cfgr_sw_msk
          2 _ (λ r h. holding v enough r h.1) (Only-field rcc_cfgr_sw_msk 2 (omega arith) refl)
          apart (λ x. field_read x rcc_cfgr_sw_msk 2 (omega arith) refl) b s in
      Ends-any (sw_is 2 ∷ latency_is v ∷ fs) _ (
        wait-Ends hw steady I (sw_is 2 ∷ latency_is v ∷ fs) (λ r h. holding v enough r h.1) are_soft
          _ _ _ requested)

  check_pll :
      (v : ℕ)
      → 5 ≤ v
      → (b : Bus Clocks) → Stands I (latency_is v ∷ fs) b
      → Ends I (latency_is v ∷ fs) (check_source_ready hw 2 b).0 (check_source_ready hw 2 b).1
  unfolding check_source_ready
  check_pll v enough b s =
      Ends-any (latency_is v ∷ fs) _
        (step-Stands hw steady I (latency_is v ∷ fs) (holding v enough) are_soft b s)

  -- The last step: at OK the latency is 5, either from before the switch or set now.
  lower_pll :
      (v cur : ℕ)
      → 5 ≤ v
      → (leb 5 cur ≡ false → v ≡ 5)
      → (st : DriverStatus) (b : Bus Clocks) → Ends I (sw_is 2 ∷ latency_is v ∷ fs) st b
      → Ends I
          (sw_is 2 ∷ latency_is 5 ∷ fs)
          (lower_latency hw 5 cur st b).0
          (lower_latency hw 5 cur st b).1
  unfolding lower_latency
  lower_pll v cur enough raised ok b e = elim (Bool-cases (leb 5 cur)) [
    | inl again ↦ rw again (set_again (record { logged = e.logged; now = e.now; facts = e.facts }))
    | inr not_again ↦ rw not_again (rw (← raised not_again) e)
  ]
    where
      set_again :
          Stands I (sw_is 2 ∷ latency_is v ∷ fs) b
          → Ends I
              (sw_is 2 ∷ latency_is 5 ∷ fs)
              (flash_set_latency hw 5 b).0
              (flash_set_latency hw 5 b).1
      set_again s =
          let written =
            flash_set_latency-Stands hw steady I (sw_is 2 ∷ fs) are_soft apart' 5 (omega arith)
              (λ r h. holding 5 (omega arith) r (h.0, h.1.1)) b
              (record { logged = s.logged; now = s.now; facts = (s.facts.0, s.facts.1.1) }) in
          rw written.1 (
            Ends-ok (record {
              logged = written.0.logged;
              now = written.0.now;
              facts = (written.0.facts.1.0, (written.0.facts.0, written.0.facts.1.1));
            }))
  lower_pll v cur enough raised st b e = record { logged = e.logged; now = e.now; facts = tt }

  -- From the latency in place: the ready check, the request and the last step.
  switch_pll :
      (v cur : ℕ)
      → 5 ≤ v
      → (leb 5 cur ≡ false → v ≡ 5)
      → (b : Bus Clocks) → Stands I (latency_is v ∷ fs) b
      → let r = check_source_ready hw 2 b in
        let r' = if_ok r.0 (request_source hw 2) r.1 in
        Ends I
          (sw_is 2 ∷ latency_is 5 ∷ fs)
          (lower_latency hw 5 cur r'.0 r'.1).0
          (lower_latency hw 5 cur r'.0 r'.1).1
  switch_pll v cur enough raised b s =
      lower_pll v cur enough raised _ _
        (if_ok-Ends _ _ (request_source hw 2) (check_pll v enough b s) (request_pll v enough _))

  pub rcc_sysclk_switch-Ends :
      ((s : Clocks) → Holds (sw_is 0 ∷ fs) s → I s)
      → (b : Bus Clocks) → Stands I (sw_is 0 ∷ fs) b
      → Ends I
          (sw_is 2 ∷ latency_is 5 ∷ fs)
          (rcc_sysclk_switch hw 2 5 b).0
          (rcc_sysclk_switch hw 2 5 b).1
  unfolding rcc_sysclk_switch raise_latency
  rcc_sysclk_switch-Ends on_hsi b s = elim (Bool-cases (ltb cur 5)) [
    | inl low ↦
        let written =
          flash_set_latency-Stands hw steady I (sw_is 0 ∷ fs) are_soft apart' 5 (omega arith)
            (λ r h. on_hsi r h.1) _ seen in
        rw (low, written.1)
          (switch_pll 5 cur (omega arith) (λ _. refl) _
            (record {
              logged = written.0.logged;
              now = written.0.now;
              facts = (written.0.facts.0, written.0.facts.1.1);
            }))
    | inr high ↦ rw high (
        switch_pll v cur (ground arith) (λ below. absurd (ground arith)) _
          (record { logged = seen.logged; now = seen.now; facts = (refl, seen.facts.1) }))
  ]
    where
      v : ℕ
      v = bit_and (hw b.time b.regs).flash.acr flash_acr_latency_msk

      cur : ℕ
      cur = shr32 v 0

      seen : Stands I (sw_is 0 ∷ fs) (after_step hw b)
      seen = step-Stands hw steady I (sw_is 0 ∷ fs) on_hsi are_soft b s
