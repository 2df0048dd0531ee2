-- ===== src/Rcc/Sysclk/Finish.antt =====
-- `rccSysclkSwitch` for every source and latency where the hardware answers.
use stm32_rtos.Base.{
  ℕ, ◌≤◌, ◌<◌, bit_and, bit_or, ltb, leb, ◌==◌, ◌!=◌, ne→==, eq→!=, false, ◌≡◌, ◌≢◌, refl, sym, ◌∙◌,
  ◌⊎◌, inl, inr, [], ◌∷◌, Bool-cases, arith, if◌then◌else◌,
}
use stm32_rtos.Bits.{shl32, shr32, inv32, field_read, bit_and-ones}
use stm32_rtos.Status.{DriverStatus, ok, err_timeout}
use stm32_rtos.Bus.{Bus, Hw, fresh, after_step, modify, if_ok}
use stm32_rtos.Bus.Wait.{wait_under}
use stm32_rtos.Clocks.{Clocks, on_cfgr}
use stm32_rtos.Clocks.Facts.{Steady, Holds, Steady-Holds}
use stm32_rtos.Clocks.Keep.{Stands, step-Stands}
use stm32_rtos.Flash.{flash_set_latency}
use stm32_rtos.Flash.Config.{flash_set_latency-Stands}
use stm32_rtos.Rcc.Oscillator.{active_source}
use stm32_rtos.Rcc.Sysclk.{
  ready_bit_of, check_source_ready, request_source, lower_latency, rcc_sysclk_switch,
}
use stm32_rtos.Rcc.Sysclk.Config.{sw_is}
use stm32_rtos.Rcc.Sysclk.Steps.{sw, lat, sw_and_latency, requested-Stands, Raised, raise-Raised}
use stm32_rtos.Reg.Flash.{flash_acr_latency_msk}
use stm32_rtos.Reg.Rcc.{rcc_cfgr_sw_msk}

-- The source is in use and requested, and the latency is this one.
pub record RunsAt (source latency : ℕ) (s : Clocks) : Type 0 where
  pub in_use : active_source s ≡ source
  pub asked : bit_and s.rcc.cfgr rcc_cfgr_sw_msk ≡ source
  pub wait_states : bit_and s.flash.acr flash_acr_latency_msk ≡ latency

ok_apart : ¬ (ok ≡ err_timeout)
ok_apart h = grind arith

module _ (hw : Hw Clocks) (steady : Steady hw) (source latency : ℕ)
    (ready : (n : ℕ) (s : Clocks) → bit_and (hw n s).rcc.cr (ready_bit_of source) ≢ 0)
    (selects : (n : ℕ) (s : Clocks)
      → bit_and s.rcc.cfgr rcc_cfgr_sw_msk ≡ source
      → active_source (hw n s) ≡ source)
    (known : source ≤ 2) (small : latency ≤ 15) where
  abbrev U : Clocks → Type 0
  U s = Unit

  check_ok : (b : Bus Clocks) → (check_source_ready hw source b).0 ≡ ok
  unfolding check_source_ready
  check_ok b =
      let shown : (bit_and (hw b.time b.regs).rcc.cr (ready_bit_of source) == 0) ≡ false =
        ne→== _ _ (ready b.time b.regs) in
      rw shown refl

  asked_stays :
      (n : ℕ) (s : Clocks)
      → bit_and s.rcc.cfgr rcc_cfgr_sw_msk ≡ source
      → bit_and (hw n s).rcc.cfgr rcc_cfgr_sw_msk ≡ source
  asked_stays n s h = (Steady-Holds hw steady (sw_is source ∷ []) refl n s (h, tt)).0

  request_ok : (b : Bus Clocks) → (request_source hw source b).0 ≡ ok
  unfolding request_source
  request_ok b =
      let fits : shl32 source 0 ≡ source = omega arith in
      let within = bit_and-ones 2 source (omega arith) in
      rw fits (
        wait_under hw (λ s. active_source s != source)
          (λ s. bit_and s.rcc.cfgr rcc_cfgr_sw_msk ≡ source) asked_stays
          (λ n s h. eq→!= _ _ (selects n s h)) 100000
          (modify hw (on_cfgr (λ x. bit_or (bit_and x (inv32 rcc_cfgr_sw_msk)) source)) b).1
          (field_read (hw b.time b.regs).rcc.cfgr rcc_cfgr_sw_msk source (omega arith) within))

  lower_in_use :
      (b : Bus Clocks)
      → bit_and b.regs.rcc.cfgr rcc_cfgr_sw_msk ≡ source
      → active_source (flash_set_latency hw latency b).1.regs ≡ source
  unfolding flash_set_latency
  lower_in_use b h =
      let in_range : ltb 15 latency ≡ false = ground arith in
      rw in_range (selects _ _ (asked_stays b.time b.regs h))

  -- The latency that is lowered at last.
  lower_ok :
      (v : ℕ) (b : Bus Clocks)
      → Stands U (sw_and_latency source v) b
      → ((flash_set_latency hw latency b).0 ≡ ok)
        × RunsAt source latency (flash_set_latency hw latency b).1.regs
  lower_ok v b st =
      let fits : shl32 latency 0 ≡ latency = omega arith in
      let w =
        flash_set_latency-Stands hw steady U (sw_is source ∷ []) refl refl latency small (λ r h. tt)
          b (record { logged = st.logged; now = tt; facts = (st.facts.0, tt) }) in
      (
        w.1,
        record {
          in_use = lower_in_use b st.facts.0;
          asked = w.0.facts.1.0;
          wait_states = w.0.facts.0 ∙ fits;
        },
      )

  -- Where the request has ended with OK, CFGR.SWS shows the source.
  shown :
      (st : DriverStatus) (s : Clocks)
      → st ≡ ok
      → st ≡ (if active_source s != source then err_timeout else ok)
      → active_source s ≡ source
  shown st s done decided = elim (Bool-cases (active_source s != source)) [
    | inl waiting ↦ absurd (ok_apart (sym done ∙ (decided ∙ rw waiting refl)))
    | inr there ↦ ground arith
  ]

  module _ (before : Clocks) where
    on_old : (v : ℕ) → lat before ≤ v → (s : Clocks) → Holds (sw_and_latency (sw before) v) s → U s
    on_old v enough s h = tt

    on_new :
        (v : ℕ)
        → lat before ≤ v
        → latency ≤ v
        → (s : Clocks) → Holds (sw_and_latency source v) s
        → U s
    on_new v enough enough' s h = tt

    check-Stands :
        (v : ℕ) (b : Bus Clocks)
        → lat before ≤ v
        → Stands U (sw_and_latency (sw before) v) b
        → Stands U (sw_and_latency (sw before) v) (check_source_ready hw source b).1
    unfolding check_source_ready
    check-Stands v b enough st =
        step-Stands hw steady U (sw_and_latency (sw before) v) (on_old v enough) refl b st

    raised_value :
        (v : ℕ)
        → (latency ≤ lat before) ⊎ (v ≡ latency) × (lat before < latency)
        → leb latency (lat before) ≡ false
        → v ≡ latency
    raised_value v (inl le) no_more = absurd (ground arith)
    raised_value v (inr (e, _)) no_more = e

    after_raise :
        (st : DriverStatus) (b : Bus Clocks)
        → Raised hw steady before source latency U on_old on_new st b
        → let c = if_ok st (check_source_ready hw source) b in
          let q = if_ok c.0 (request_source hw source) c.1 in
          let r = lower_latency hw latency (lat before) q.0 q.1 in
          (r.0 ≡ ok) × RunsAt source latency r.1.regs
    unfolding lower_latency
    after_raise st b (inl (_, _, inl unknown)) = absurd (omega arith)
    after_raise st b (inl (_, _, inr large)) = absurd (omega arith)
    after_raise st b (inr (v, good, enough, enough', _, which, stands)) =
        let c = (check_source_ready hw source b).1 in
        let checked = check-Stands v b enough stands in
        let w =
          requested-Stands hw steady before source latency U on_old on_new v enough enough' known c
            checked in
        let q = request_source hw source c in
        rw (good, check_ok b, request_ok c)
          elim (Bool-cases (leb latency (lat before))) [
            | inl lower ↦ rw lower (lower_ok v q.1 w.0)
            | inr kept ↦ rw kept (
              refl,
              record {
                in_use = shown q.0 q.1.regs (request_ok c) w.1;
                asked = w.0.facts.0;
                wait_states = w.0.facts.1.0 ∙ raised_value v which kept;
              },
            )
          ]

    switch_ok :
        (t : ℕ)
        → let r = rcc_sysclk_switch hw source latency (fresh before t) in
          (r.0 ≡ ok) × RunsAt source latency r.1.regs
    unfolding rcc_sysclk_switch
    switch_ok t =
        let seen =
          step-Stands hw steady U (sw_and_latency (sw before) (lat before))
            (on_old (lat before) (omega arith)) refl (fresh before t)
            (record { logged = tt; now = tt; facts = (refl, (refl, tt)) }) in
        let current : shr32 (lat (hw t before)) 0 ≡ lat before = omega (arith, seen.facts.1.0) in
        let b = after_step hw (fresh before t) in
        rw current
          (after_raise _ _ (raise-Raised hw steady before source latency U on_old on_new b seen))

-- For SYSCLK from HSI, HSE or the PLL and a latency of 0 to 15, on hardware that leaves the
-- configuration bits alone, shows the source ready at every load, and shows it in CFGR.SWS at the
-- first load after CFGR.SW asks for it, `rccSysclkSwitch` returns OK, with the source requested and
-- in use and the flash latency set.
pub rcc_sysclk_switch_finishes :
    (hw : Hw Clocks) (source latency : ℕ) (s : Clocks) (t : ℕ)
    → Steady hw
    → ((n : ℕ) (r : Clocks) → bit_and (hw n r).rcc.cr (ready_bit_of source) ≢ 0)
    → ((n : ℕ) (r : Clocks)
        → bit_and r.rcc.cfgr rcc_cfgr_sw_msk ≡ source
        → active_source (hw n r) ≡ source)
    → source ≤ 2
    → latency ≤ 15
    → let r = rcc_sysclk_switch hw source latency (fresh s t) in
      (r.0 ≡ ok) × RunsAt source latency r.1.regs
rcc_sysclk_switch_finishes hw source latency s t steady ready selects known small =
    switch_ok hw steady source latency ready selects known small s t
