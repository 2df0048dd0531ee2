-- ===== src/Rcc/Sysclk/InUse.antt =====
-- Where `rccSysclkSwitch` returns OK, whatever the hardware did meanwhile.
use stm32_rtos.Reg.Flash.{flash_acr_latency_msk, flash_acr_latency_pos}
use stm32_rtos.Base.{
  ℕ, ◌≤◌, bit_and, bit_or, ltb, leb, ◌!=◌, ◌≡◌, refl, sym, ◌∙◌, inl, inr, [], ◌∷◌, Bool-cases,
  arith, true, false, if◌then◌else◌,
}
use stm32_rtos.Bits.{shl32, shr32, inv32, field_read, bit_and-ones}
use stm32_rtos.Status.{DriverStatus, ok, err_timeout, is_ok, ok_only}
use stm32_rtos.Bus.{Bus, Hw, M, after_step, modify, if_ok, wait}
use stm32_rtos.Bus.Wait.{wait_keeps, wait_decides}
use stm32_rtos.Clocks.{Clocks, on_cfgr}
use stm32_rtos.Clocks.Facts.{Steady, IsFact, Steady-Holds}
use stm32_rtos.Flash.{flash_set_latency}
use stm32_rtos.Rcc.Oscillator.{active_source}
use stm32_rtos.Rcc.Sysclk.{
  request_source, lower_latency, rcc_sysclk_switch, raise_latency, check_source_ready,
}
use stm32_rtos.Rcc.Sysclk.Config.{sw_is}
use stm32_rtos.Rcc.Tree.{Follows}
use stm32_rtos.Reg.Rcc.{rcc_cfgr_sw_msk}

-- CFGR.SW asks for the source and CFGR.SWS shows it.
abbrev pub InUse : ℕ → Clocks → Type 0
InUse source s = IsFact s (sw_is source) × (active_source s ≡ source)

-- What a chain of `if (status == DRIVER_STATUS_OK)` reaches.
pub if_ok_reaches :
    (P : Bus Clocks → Type 0) (st : DriverStatus) (k : M Clocks DriverStatus) (b : Bus Clocks)
    → ((k b).0 ≡ ok → P (k b).1)
    → (if_ok st k b).0 ≡ ok
    → P (if_ok st k b).1
if_ok_reaches P st k b reach done = elim (Bool-cases (is_ok st)) [
  | inl good ↦ rw good (reach (rw good at done))
  | inr bad ↦
      let same : st ≡ ok = rw bad at done in
      let none : true ≡ false = rw same at bad in absurd (grind arith)
]

module _ (hw : Hw Clocks) (steady : Steady hw) (follows : Follows hw) (source : ℕ) where
  pub stays-InUse : (n : ℕ) (s : Clocks) → InUse source s → InUse source (hw n s)
  stays-InUse n s h = (
    (Steady-Holds hw steady (sw_is source ∷ []) refl n s (h.0, tt)).0,
    elim (follows n s) [ inl same ↦ same ∙ h.1 | inr (g, _, asked, now) ↦ now ∙ (sym asked ∙ h.0) ],
  )

  latency-InUse :
      (latency : ℕ) (b : Bus Clocks)
      → InUse source b.regs
      → InUse source (flash_set_latency hw latency b).1.regs
  unfolding flash_set_latency
  latency-InUse latency b h = elim (Bool-cases (ltb 15 latency)) [
    | inl big ↦ rw big h
    | inr small ↦ rw small (stays-InUse _ _ (stays-InUse b.time b.regs h))
  ]

  lower-InUse :
      (latency cur : ℕ) (st : DriverStatus) (b : Bus Clocks)
      → (st ≡ ok → InUse source b.regs)
      → (lower_latency hw latency cur st b).0 ≡ ok
      → InUse source (lower_latency hw latency cur st b).1.regs
  unfolding lower_latency
  lower-InUse latency cur st b h done = elim (Bool-cases (is_ok st)) [
    | inr bad ↦ rw bad (h (rw bad at done))
    | inl good ↦ elim (Bool-cases (leb latency cur)) [
      | inl low ↦ rw (good, low) (latency-InUse latency b (h (ok_only st good)))
      | inr high ↦ rw (good, high) (h (ok_only st good))
    ]
  ]

  shown :
      (s : Clocks)
      → ok ≡ (if active_source s != source then err_timeout else ok)
      → active_source s ≡ source
  shown s decided = elim (Bool-cases (active_source s != source)) [
    | inl waiting ↦ let late : ok ≡ err_timeout = rw waiting at decided in absurd (grind arith)
    | inr there ↦ ground arith
  ]

  request-InUse :
      source ≤ 2
      → (b : Bus Clocks) → (request_source hw source b).0 ≡ ok
      → InUse source (request_source hw source b).1.regs
  unfolding request_source
  request-InUse small b done =
      let fits : shl32 source 0 ≡ source = omega arith in
      let within = bit_and-ones 2 source (omega arith) in
      let c = (modify hw (on_cfgr (λ x. bit_or (bit_and x (inv32 rcc_cfgr_sw_msk)) source)) b).1 in
      let asked =
        wait_keeps hw (λ s. active_source s != source) (λ s. IsFact s (sw_is source))
          (λ n s h. (Steady-Holds hw steady (sw_is source ∷ []) refl n s (h, tt)).0) 100000 c
          (field_read (hw b.time b.regs).rcc.cfgr rcc_cfgr_sw_msk source (omega arith) within) in
      let ended : (wait hw (λ s. active_source s != source) 100000 c).0 ≡ ok = rw fits at done in
      let decided = sym ended ∙ wait_decides hw (λ s. active_source s != source) 100000 c in
      rw fits (asked, shown (wait hw (λ s. active_source s != source) 100000 c).1.regs decided)

  pub rcc_sysclk_switch-InUse :
      source ≤ 2
      → (latency : ℕ) (b : Bus Clocks) → (rcc_sysclk_switch hw source latency b).0 ≡ ok
      → InUse source (rcc_sysclk_switch hw source latency b).1.regs
  unfolding rcc_sysclk_switch
  rcc_sysclk_switch-InUse small latency b done =
      let cur =
        shr32 (bit_and (hw b.time b.regs).flash.acr flash_acr_latency_msk) flash_acr_latency_pos in
      let r = raise_latency hw source latency cur (after_step hw b) in
      let c = if_ok r.0 (check_source_ready hw source) r.1 in
      lower-InUse latency cur (if_ok c.0 (request_source hw source) c.1).0
        (if_ok c.0 (request_source hw source) c.1).1
        (if_ok_reaches (λ d. InUse source d.regs) c.0 (request_source hw source) c.1
          (request-InUse small c.1))
        done
