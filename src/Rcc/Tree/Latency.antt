-- ===== src/Rcc/Tree/Latency.antt =====
-- `rccSysclkSwitch` for every source and latency: the flash latency never falls short of the
-- source that is asked for, nor of the source that is still in use.
use stm32_rtos.Base.{
  ℕ, ◌≤◌, bit_and, ltb, leb, ◌!=◌, false, ◌≡◌, refl, sym, ◌∙◌, ◌⊎◌, inl, inr, All, Bool-cases,
  arith,
}
use native.Mathlib.Nat.{le_of_eq}
use stm32_rtos.Bits.{shl32, shr32, field_read, bit_and-ones}
use stm32_rtos.Status.{DriverStatus, is_ok}
use stm32_rtos.Bus.{Bus, Hw, fresh, after_step, if_ok}
use stm32_rtos.Clocks.{Clocks}
use stm32_rtos.Clocks.Facts.{Steady, IsFact, Holds}
use stm32_rtos.Clocks.Keep.{Stands, step-Stands}
use stm32_rtos.Flash.{flash_set_latency}
use stm32_rtos.Rcc.Oscillator.{active_source}
use stm32_rtos.Rcc.Sysclk.{check_source_ready, request_source, lower_latency, rcc_sysclk_switch}
use stm32_rtos.Rcc.Sysclk.Steps.{
  sw, lat, lat_fits, sw_and_latency, requested-Stands, Raised, raise-Raised,
}
use stm32_rtos.Rcc.Tree.{Follows, requested, Feed, feed_facts, source_of}
use stm32_rtos.Reg.Flash.{flash_acr_latency_msk}
use stm32_rtos.Reg.Rcc.{rcc_cfgr_sw_msk}

-- CFGR.SW asks for what it asked for before the call, or the new latency is reached; CFGR.SWS shows
-- the new source, or the old latency is still there.
abbrev pub HasLatency : Clocks → ℕ → ℕ → Clocks → Type 0
HasLatency before source latency s =
    ((bit_and s.rcc.cfgr rcc_cfgr_sw_msk ≡ bit_and before.rcc.cfgr rcc_cfgr_sw_msk)
      ⊎ (latency ≤ bit_and s.flash.acr flash_acr_latency_msk))
    × ((active_source s ≡ source)
        ⊎ (bit_and before.flash.acr flash_acr_latency_msk
            ≤ bit_and s.flash.acr flash_acr_latency_msk))

module _ (hw : Hw Clocks) (steady : Steady hw) (before : Clocks) (source latency : ℕ) where
  abbrev I : Clocks → Type 0
  I = HasLatency before source latency

  on_old : (v : ℕ) → lat before ≤ v → (s : Clocks) → Holds (sw_and_latency (sw before) v) s → I s
  on_old v enough s h = (inl h.0, inr (rw h.1.0 enough))

  on_new :
      (v : ℕ)
      → lat before ≤ v
      → latency ≤ v
      → (s : Clocks) → Holds (sw_and_latency source v) s
      → I s
  on_new v enough enough' s h = (inr (rw h.1.0 enough'), inr (rw h.1.0 enough))

  -- The last store, made once CFGR.SWS shows the source.
  lowered :
      Follows hw
      → (v : ℕ) (b : Bus Clocks) → Stands I (sw_and_latency source v) b
      → active_source b.regs ≡ source
      → latency ≤ 15
      → All I (flash_set_latency hw latency b).1.log
  unfolding flash_set_latency
  lowered follows v b st in_use small =
      let good : ltb 15 latency ≡ false = ground arith in
      let within = bit_and-ones 4 latency (omega arith) in
      let fits : shl32 latency 0 ≡ latency = omega arith in
      let set =
        field_read (hw b.time b.regs).flash.acr flash_acr_latency_msk latency (omega arith)
          within in
      let reached = le_of_eq (sym set) in
      rw (good, fits) ((inr reached, inl (still (follows b.time b.regs))), st.logged)
    where
      still :
          (active_source (hw b.time b.regs) ≡ active_source b.regs)
            ⊎ (g : Feed) × Holds (feed_facts g) b.regs
              × IsFact b.regs (requested (source_of g))
              × (active_source (hw b.time b.regs) ≡ source_of g)
          → active_source (hw b.time b.regs) ≡ source
      still (inl same) = same ∙ in_use
      still (inr (g, _, asked, now)) = now ∙ (sym asked ∙ st.facts.0)

  finished :
      Follows hw
      → (v : ℕ) → lat before ≤ v
      → latency ≤ v
      → source ≤ 2
      → (st : DriverStatus) (b : Bus Clocks) → Stands I (sw_and_latency (sw before) v) b
      → let q = if_ok st (request_source hw source) b in
        All I (lower_latency hw latency (lat before) q.0 q.1).1.log
  unfolding lower_latency
  finished follows v enough enough' small st b stands = elim (Bool-cases (is_ok st)) [
    | inr bad ↦ rw (bad, bad) stands.logged
    | inl good ↦
        let w =
          requested-Stands hw steady before source latency I on_old on_new v enough enough' small b
            stands in
        let r = (request_source hw source b).1 in
        rw good elim (Bool-cases (active_source r.regs != source)) [
          | inl waiting ↦ rw (w.1, waiting) w.0.logged
          | inr there ↦ elim (Bool-cases (leb latency (lat before))) [
            | inr high ↦ rw (w.1, there, high) w.0.logged
            | inl low ↦
                rw (w.1, there, low)
                  (lowered follows v r w.0 (ground arith) (ground (arith, lat_fits before)))
          ]
        ]
  ]

  after_raise :
      (st : DriverStatus) (b : Bus Clocks)
      → Follows hw
      → Raised hw steady before source latency I on_old on_new st b
      → let c = if_ok st (check_source_ready hw source) b in
        let q = if_ok c.0 (request_source hw source) c.1 in
        All I (lower_latency hw latency (lat before) q.0 q.1).1.log
  unfolding lower_latency check_source_ready
  after_raise st b follows (inl (bad, logged, _)) = rw (bad, bad, bad) logged
  after_raise st b follows (inr (v, _, enough, enough', known, _, stands)) =
      let checked =
        step-Stands hw steady I (sw_and_latency (sw before) v) (on_old v enough) refl b stands in
      elim (Bool-cases (is_ok st)) [
        | inl good ↦ rw good (finished follows v enough enough' known _ (after_step hw b) checked)
        | inr bad ↦ rw bad (finished follows v enough enough' known st b stands)
      ]

  switch-HasLatency :
      (t : ℕ) → Follows hw → All I (rcc_sysclk_switch hw source latency (fresh before t)).1.log
  unfolding rcc_sysclk_switch
  switch-HasLatency t follows =
      let seen =
        step-Stands hw steady I (sw_and_latency (sw before) (lat before))
          (on_old (lat before) (omega arith)) refl (fresh before t)
          (record {
            logged = tt;
            now = (inl refl, inr (omega arith));
            facts = (refl, (refl, tt));
          }) in
      let current : shr32 (lat (hw t before)) 0 ≡ lat before = omega (arith, seen.facts.1.0) in
      rw current (
        after_raise _ _ follows (
          raise-Raised hw steady before source latency I on_old on_new
            (after_step hw (fresh before t)) seen))

-- On hardware that leaves the configuration bits alone and moves CFGR.SWS only to a requested
-- source that is switched on, `rccSysclkSwitch` with any source and latency stores no state in
-- which CFGR.SW asks for another source than before the call and the flash latency is below the
-- new one, and none in which CFGR.SWS shows another source than the new one and the latency is
-- below what it was before the call.
pub rcc_sysclk_switch-HasLatency :
    (hw : Hw Clocks) (s : Clocks) (t source latency : ℕ)
    → Steady hw
    → Follows hw
    → All (HasLatency s source latency) (rcc_sysclk_switch hw source latency (fresh s t)).1.log
rcc_sysclk_switch-HasLatency hw s t source latency steady follows =
    switch-HasLatency hw steady s source latency t follows
