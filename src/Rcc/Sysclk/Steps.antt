-- ===== src/Rcc/Sysclk/Steps.antt =====
-- The blocks of `rccSysclkSwitch` for every source and latency, on hardware that leaves the
-- configuration alone, with an invariant that the facts about CFGR.SW and the latency give.
use stm32_rtos.Base.{
  ◌<◌, ℕ, ◌≤◌, bit_and, bit_or, ltb, ◌!=◌, ◌&&◌, false, ◌≡◌, refl, ◌∙◌, ◌⊎◌, inl, inr, List, [],
  ◌∷◌, All, Bool-cases, arith, if◌then◌else◌,
}
use stm32_rtos.Bits.{shl32, inv32, field_read, bit_and-ones, bit_and-lt, bit_and_comm}
use stm32_rtos.Status.{DriverStatus, ok, err_timeout, is_ok}
use stm32_rtos.Bus.{Bus, Hw}
use stm32_rtos.Bus.Wait.{wait_decides}
use stm32_rtos.Clocks.{Clocks}
use stm32_rtos.Clocks.Facts.{cfgr, Steady, Fact, Holds, Only-field}
use stm32_rtos.Clocks.Keep.{Stands, wait-Ends, modify-Stands}
use stm32_rtos.Flash.{flash_set_latency}
use stm32_rtos.Flash.Config.{flash_set_latency-Stands}
use stm32_rtos.Rcc.Oscillator.{active_source}
use stm32_rtos.Rcc.Sysclk.{raise_latency, request_source}
use stm32_rtos.Rcc.Sysclk.Config.{latency_is, sw_is}
use stm32_rtos.Reg.Flash.{flash_acr_latency_msk}
use stm32_rtos.Reg.Rcc.{rcc_cfgr_sw_msk}

abbrev pub sw : Clocks → ℕ
sw s = bit_and s.rcc.cfgr rcc_cfgr_sw_msk

abbrev pub lat : Clocks → ℕ
lat s = bit_and s.flash.acr flash_acr_latency_msk

pub lat_fits : (s : Clocks) → lat s ≤ 15
lat_fits s = omega (
  arith,
  bit_and-lt 4 flash_acr_latency_msk s.flash.acr (omega arith),
  bit_and_comm s.flash.acr flash_acr_latency_msk,
)

-- CFGR.SW requests this source, and the latency has this value.
abbrev pub sw_and_latency : ℕ → ℕ → List Fact
sw_and_latency source v = sw_is source ∷ latency_is v ∷ []

module _ (hw : Hw Clocks) (steady : Steady hw) (before : Clocks) (source latency : ℕ)
    (I : Clocks → Type 0)
    (on_old : (v : ℕ)
      → lat before ≤ v
      → (s : Clocks) → Holds (sw_and_latency (sw before) v) s
      → I s)
    (on_new : (v : ℕ)
      → lat before ≤ v
      → latency ≤ v
      → (s : Clocks) → Holds (sw_and_latency source v) s
      → I s) where
  -- The request and the wait.
  pub requested-Stands :
      (v : ℕ)
      → lat before ≤ v
      → latency ≤ v
      → source ≤ 2
      → (b : Bus Clocks) → Stands I (sw_and_latency (sw before) v) b
      → Stands I (sw_and_latency source v) (request_source hw source b).1
        × ((request_source hw source b).0 ≡ (
            if active_source (request_source hw source b).1.regs != source
            then err_timeout
            else ok))
  unfolding request_source
  requested-Stands v enough enough' small b st =
      let fits : shl32 source 0 ≡ source = omega arith in
      let within = bit_and-ones 2 source (omega arith) in
      let asked =
        modify-Stands hw steady I (latency_is v ∷ []) refl cfgr rcc_cfgr_sw_msk rcc_cfgr_sw_msk
          source (λ x. bit_or (bit_and x (inv32 rcc_cfgr_sw_msk)) source) (on_new v enough enough')
          (Only-field rcc_cfgr_sw_msk source (omega arith) within) refl
          (λ x. field_read x rcc_cfgr_sw_msk source (omega arith) within) b
          (record { logged = st.logged; now = st.now; facts = st.facts.1 }) in
      rw fits (
        wait-Ends hw steady I (sw_and_latency source v) (on_new v enough enough') refl _ _ _ asked,
        wait_decides hw _ _ _,
      )

  -- The first check and the latency that goes in before the switch.
  abbrev pub Raised : DriverStatus → Bus Clocks → Type 0
  Raised st b =
      ((is_ok st ≡ false) × All I b.log × ((3 ≤ source) ⊎ (16 ≤ latency)))
      ⊎ (v : ℕ) × (st ≡ ok)
        × (lat before ≤ v)
        × (latency ≤ v)
        × (source ≤ 2)
        × ((latency ≤ lat before) ⊎ (v ≡ latency) × (lat before < latency))
        × Stands I (sw_and_latency (sw before) v) b

  written :
      (b : Bus Clocks)
      → Stands I (sw_and_latency (sw before) (lat before)) b
      → source ≤ 2
      → lat before < latency
      → Raised (flash_set_latency hw latency b).0 (flash_set_latency hw latency b).1
  unfolding flash_set_latency
  written b st known low = elim (Bool-cases (ltb 15 latency)) [
    | inl big ↦ rw big (inl (refl, st.logged, inr (ground arith)))
    | inr small ↦
        let in_field : latency ≤ 15 = ground arith in
        let fits : shl32 latency 0 ≡ latency = omega arith in
        let w =
          flash_set_latency-Stands hw steady I (sw_is (sw before) ∷ []) refl refl latency in_field
            (λ r h. on_old latency (omega arith) r (h.1.0, (h.0 ∙ fits, tt))) b
            (record { logged = st.logged; now = st.now; facts = (st.facts.0, tt) }) in
        inr (
          latency,
          w.1,
          omega arith,
          omega arith,
          known,
          inr (refl, low),
          record {
            logged = w.0.logged;
            now = w.0.now;
            facts = (w.0.facts.1.0, (w.0.facts.0 ∙ fits, tt));
          },
        )
  ]

  pub raise-Raised :
      (b : Bus Clocks)
      → Stands I (sw_and_latency (sw before) (lat before)) b
      → let r = raise_latency hw source latency (lat before) b in Raised r.0 r.1
  unfolding raise_latency
  raise-Raised b st = elim (Bool-cases (source != 0 && source != 1 && source != 2)) [
    | inl bad ↦ rw bad (inl (refl, st.logged, inl (ground arith)))
    | inr valid ↦
        let known : source ≤ 2 = ground arith in
        elim (Bool-cases (ltb (lat before) latency)) [
          | inr high ↦
              rw (valid, high)
                (inr (lat before, refl, omega arith, ground arith, known, inl (ground arith), st))
          | inl low ↦ rw (valid, low) (written b st known (ground arith))
        ]
  ]
