-- ===== src/Rcc/Tree/Switch.antt =====
-- `rccSysclkSwitch` from a settled source: every stored state is fed, and unless it returns
-- TIMEOUT the result is settled again, on the old source or on the new one.
use stm32_rtos.Base.{
  ℕ, bit_and, bit_or, ltb, leb, ◌!=◌, ◌&&◌, true, false, ◌≡◌, refl, ◌∙◌, ◌⊎◌, inl, inr, [], ◌∷◌,
  All, Bool-cases, arith, ◌≤◌, if◌then◌else◌,
}
use stm32_rtos.Bits.{shl32, shr32, inv32, field_read, bit_and-ones}
use stm32_rtos.Status.{DriverStatus, ok, err_timeout, is_ok}
use stm32_rtos.Bus.{M, Bus, Hw, after_step, modify, if_ok}
use stm32_rtos.Bus.Wait.{wait_keeps, wait-log, wait_decides}
use stm32_rtos.Clocks.{Clocks, on_cfgr}
use stm32_rtos.Clocks.Facts.{
  cfgr, acr, Steady, IsFact, Holds, is_apart, all_facts, Only-field, Steady-Holds, update_reg-Holds,
}
use stm32_rtos.Flash.{flash_set_latency}
use stm32_rtos.Rcc.Oscillator.{active_source}
use stm32_rtos.Rcc.Sysclk.{
  raise_latency, check_source_ready, request_source, lower_latency, rcc_sysclk_switch,
}
use stm32_rtos.Rcc.Tree.{
  Feed, hsi, hse, pll_hsi, pll_hse, source_of, feed_facts, requested, IsFed, Follows,
}
use stm32_rtos.Rcc.Tree.Kept.{
  Kept, tree_facts, feed_soft, kept_source, after_step-Kept, if_ok-Kept, rewrite-Kept,
}
use stm32_rtos.Reg.Flash.{flash_acr_latency_msk}
use stm32_rtos.Reg.Rcc.{rcc_cfgr_sw_msk}

-- SYSCLK is fed while CFGR.SW asks for this source.
abbrev IsMoving : ℕ → Clocks → Type 0
IsMoving source s = IsFed s × IsFact s (requested source)

-- After the call: settled on some source, or the switch has timed out.
pub record Switched (st : DriverStatus) (b : Bus Clocks) : Type 0 where
  pub logged : All IsFed b.log
  pub now : (st ≡ err_timeout) ⊎ (f : Feed) × Kept f b

settled : (f : Feed) (st : DriverStatus) (b : Bus Clocks) → Kept f b → Switched st b
settled f st b k = record { logged = k.logged; now = inr (f, k) }

-- The end of the wait: CFGR.SWS shows the source, or the status is TIMEOUT.
arrived :
    (source : ℕ) (st : DriverStatus) (b : Bus Clocks)
    → All IsFed b.log
    → IsMoving source b.regs
    → st ≡ (if active_source b.regs != source then err_timeout else ok)
    → Switched st b
arrived source st b logged ((f, r), asked) decided =
    elim (Bool-cases (active_source b.regs != source)) [
      | inl waiting ↦ record { logged = logged; now = inl (decided ∙ rw waiting refl) }
      | inr there ↦
          let same : source ≡ active_source b.regs = ground arith in
          settled f st b (record {
            logged = logged;
            in_use = r.in_use;
            facts = (asked ∙ (same ∙ r.in_use), r.on);
          })
    ]

module _ (hw : Hw Clocks) (steady : Steady hw) (follows : Follows hw) where
  feed_apart : (f : Feed) → all_facts (is_apart cfgr rcc_cfgr_sw_msk) (feed_facts f) ≡ true
  feed_apart hsi = refl
  feed_apart hse = refl
  feed_apart pll_hsi = refl
  feed_apart pll_hse = refl

  feed_stays :
      (f : Feed) (n : ℕ) (s : Clocks) → Holds (feed_facts f) s → Holds (feed_facts f) (hw n s)
  feed_stays f n s h = Steady-Holds hw steady (feed_facts f) (feed_soft f) n s h

  IsMoving-stays : (source n : ℕ) (s : Clocks) → IsMoving source s → IsMoving source (hw n s)
  IsMoving-stays source n s (fed, asked) = (
    go fed (follows n s),
    (Steady-Holds hw steady (requested source ∷ []) refl n s (asked, tt)).0,
  )
    where
      go :
          IsFed s
          → (active_source (hw n s) ≡ active_source s)
            ⊎ (g : Feed) × Holds (feed_facts g) s
              × IsFact s (requested (source_of g))
              × (active_source (hw n s) ≡ source_of g)
          → IsFed (hw n s)
      go (f, r) (inl same) = (f, record { in_use = same ∙ r.in_use; on = feed_stays f n s r.on })
      go fed (inr (g, on, _, now)) = (g, record { in_use = now; on = feed_stays g n s on })

  acr_apart : (f : Feed) → all_facts (is_apart acr 0xffffffff) (tree_facts f) ≡ true
  acr_apart hsi = refl
  acr_apart hse = refl
  acr_apart pll_hsi = refl
  acr_apart pll_hse = refl

  latency-Kept :
      (f : Feed) (latency : ℕ) (b : Bus Clocks)
      → Kept f b
      → Kept f (flash_set_latency hw latency b).1
  unfolding flash_set_latency
  latency-Kept f latency b k = elim (Bool-cases (ltb 15 latency)) [
    | inl bad ↦ rw bad k
    | inr small ↦ rw small (
        after_step-Kept hw steady follows f _ (
          rewrite-Kept hw steady follows f acr
            (λ x. bit_or (bit_and x (inv32 flash_acr_latency_msk)) (shl32 latency 0)) refl
            (acr_apart f) b k))
  ]

  if_ok-Switched :
      (f : Feed) (st : DriverStatus) (b : Bus Clocks) (k : M Clocks DriverStatus)
      → Kept f b
      → (Kept f b → Switched (k b).0 (k b).1)
      → Switched (if_ok st k b).0 (if_ok st k b).1
  if_ok-Switched f st b k h step = elim (Bool-cases (is_ok st)) [
    | inl good ↦ rw good (step h)
    | inr bad ↦ rw bad (settled f st b h)
  ]

  -- The request and the wait, for a source that the field can hold.
  request-Switched :
      (f : Feed) (source : ℕ) (b : Bus Clocks)
      → shl32 source 0 ≡ source
      → bit_and source rcc_cfgr_sw_msk ≡ source
      → Kept f b
      → Switched (request_source hw source b).0 (request_source hw source b).1
  unfolding request_source
  request-Switched f source b fits within k =
      let before = after_step-Kept hw steady follows f b k in
      let g = λ (x : ℕ). bit_or (bit_and x (inv32 rcc_cfgr_sw_msk)) source in
      let only = Only-field rcc_cfgr_sw_msk source (omega arith) within in
      let s = hw b.time b.regs in
      let fed : IsFed (on_cfgr g s) = (
        f,
        record {
          in_use = kept_source cfgr rcc_cfgr_sw_msk g only refl s ∙ before.in_use;
          on =
              update_reg-Holds cfgr rcc_cfgr_sw_msk g (feed_facts f) only (feed_apart f) s
                before.facts.1;
        },
      ) in
      let asked = field_read s.rcc.cfgr rcc_cfgr_sw_msk source (omega arith) within in
      let b' : Bus Clocks = (modify hw (on_cfgr g) b).1 in
      let pending = λ (r : Clocks). active_source r != source in
      let moving =
        wait_keeps hw pending (IsMoving source) (IsMoving-stays source) 100000 b' (fed, asked) in
      rw fits (
        arrived source _ _ (rw (wait-log hw pending 100000 b') (fed, k.logged)) moving
          (wait_decides hw pending 100000 b'))

  lower-Switched :
      (latency current : ℕ) (st : DriverStatus) (b : Bus Clocks)
      → Switched st b
      → Switched (lower_latency hw latency current st b).0 (lower_latency hw latency current st b).1
  unfolding lower_latency
  lower-Switched latency current st b w = elim w.now [
    | inl late ↦ rw late (record { logged = w.logged; now = inl refl })
    | inr (f, k) ↦ elim (Bool-cases (is_ok st && leb latency current)) [
      | inl again ↦ rw again (settled f _ _ (latency-Kept f latency b k))
      | inr done ↦ rw done (settled f st b k)
    ]
  ]

  raise-Kept :
      (f : Feed) (source latency current : ℕ) (b : Bus Clocks)
      → Kept f b
      → Kept f (raise_latency hw source latency current b).1
  unfolding raise_latency
  raise-Kept f source latency current b k =
      elim (Bool-cases (source != 0 && source != 1 && source != 2)) [
        | inl bad ↦ rw bad k
        | inr valid ↦ elim (Bool-cases (ltb current latency)) [
          | inl low ↦ rw (valid, low) (latency-Kept f latency b k)
          | inr high ↦ rw (valid, high) k
        ]
      ]

  raise_valid :
      (source latency current : ℕ) (b : Bus Clocks)
      → (is_ok (raise_latency hw source latency current b).0 ≡ false) ⊎ (source ≤ 2)
  unfolding raise_latency
  raise_valid source latency current b =
      elim (Bool-cases (source != 0 && source != 1 && source != 2)) [
        | inl bad ↦ inl (rw bad refl)
        | inr valid ↦ inr (ground arith)
      ]

  check-Kept :
      (f : Feed) (source : ℕ) (b : Bus Clocks)
      → Kept f b
      → Kept f (check_source_ready hw source b).1
  unfolding check_source_ready
  check-Kept f source b k = after_step-Kept hw steady follows f b k

  pub rcc_sysclk_switch-Switched :
      (f : Feed) (source latency : ℕ) (b : Bus Clocks)
      → Kept f b
      → Switched (rcc_sysclk_switch hw source latency b).0 (rcc_sysclk_switch hw source latency b).1
  unfolding rcc_sysclk_switch
  rcc_sysclk_switch-Switched f source latency b k =
      let current = shr32 (bit_and (hw b.time b.regs).flash.acr flash_acr_latency_msk) 0 in
      let r = raise_latency hw source latency current (after_step hw b) in
      let raised =
        raise-Kept f source latency current _ (after_step-Kept hw steady follows f b k) in
      elim (raise_valid source latency current (after_step hw b)) [
        | inl bad ↦
            rw (bad, bad) (lower-Switched latency current r.0 r.1 (settled f r.0 r.1 raised))
        | inr small ↦
            let fits : shl32 source 0 ≡ source = omega arith in
            let within = bit_and-ones 2 source (omega arith) in
            let check = check_source_ready hw source in
            let c = if_ok r.0 check r.1 in
            let checked = if_ok-Kept f r.0 r.1 check raised (check-Kept f source r.1) in
            let request = request_source hw source in
            let q = if_ok c.0 request c.1 in
            lower-Switched latency current q.0 q.1
              (if_ok-Switched f c.0 c.1 request checked (request-Switched f source c.1 fits within))
      ]
