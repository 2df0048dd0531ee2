-- ===== src/Watchdog/Wwdg/Start.antt =====
-- `wwdgStart` and `wwdgRefresh`: the windows that they accept, and what they write.
use stm32_rtos.Base.{
  ℕ, ◌≤◌, ltb, ◌||◌, Bool-cases, false, bit_and, bit_or, ◌≡◌, refl, ap, ◌∙◌, ◌⊎◌, inl, inr, arith,
}
use stm32_rtos.Bits.{
  shl32, shl32-in, or-and_distrib, bit_or-zero, zero-bit_or, zero-bit_and, set_frame, bit_and_assoc,
  bit_and_comm, within_apart,
}
use stm32_rtos.Status.{ok, err_invalid_param, not_refused}
use stm32_rtos.Bus.{fresh}
use stm32_rtos.Reg.Wwdg.{WwdgRegisters}
use stm32_rtos.Watchdog.Wwdg.{wwdg_start, wwdg_validate_count}

-- The requests that `wwdgStart` accepts.
pub record IsWindow (prescaler window counter : ℕ) : Type 0 where
  pub prescaler_fits : prescaler ≤ 3
  pub window_low : 64 ≤ window
  pub window_high : window ≤ 127
  pub counter_low : 64 ≤ counter
  pub counter_high : counter ≤ 127

-- The fields of CFR and CR: the window, the prescaler, the early-wakeup enable as it was, the
-- counter, and the watchdog on.
pub record IsStarted (s before : WwdgRegisters) (prescaler window counter : ℕ) : Type 0 where
  pub window_field : bit_and s.cfr 0x7f ≡ shl32 window 0
  pub prescaler_field : bit_and s.cfr 0x180 ≡ shl32 prescaler 7
  pub wakeup_kept : bit_and s.cfr 0x200 ≡ bit_and before.cfr 0x200
  pub counter_field : bit_and s.cr 0x7f ≡ shl32 counter 0
  pub active : bit_and s.cr 0x80 ≡ 0x80
  pub flag_cleared : s.sr ≡ 0

masked_out : (x k m : ℕ) → bit_and k m ≡ 0 → bit_and (bit_and x k) m ≡ 0
masked_out x k m apart =
    bit_and_assoc x k m ∙ ap (bit_and x) apart ∙ bit_and_comm x 0 ∙ zero-bit_and x

part :
    (x w p m a b c : ℕ)
    → bit_and x m ≡ a
    → bit_and w m ≡ b
    → bit_and p m ≡ c
    → bit_and (bit_or (bit_or x w) p) m ≡ bit_or (bit_or a b) c
part x w p m a b c ha hb hc = simp (or-and_distrib, ha, hb, hc)

module _ (prescaler window counter : ℕ) (s : WwdgRegisters) (t : ℕ) where
  IsWindow-cases :
      IsWindow prescaler window counter
      ⊎ (wwdg_start prescaler window counter (fresh s t) ≡ (err_invalid_param, fresh s t))
  unfolding wwdg_start wwdg_validate_count
  IsWindow-cases = elim (Bool-cases (ltb window 64 || ltb 127 window)) [
    | inl bad ↦ inr (rw bad refl)
    | inr e1 ↦ elim (Bool-cases (ltb counter 64 || ltb 127 counter)) [
      | inl bad ↦ inr (rw (e1, bad) refl)
      | inr e2 ↦ elim (Bool-cases (ltb 3 prescaler)) [
        | inl bad ↦ inr (rw (e1, e2, bad) refl)
        | inr e3 ↦ inl (record {
          prescaler_fits = ground arith;
          window_low = ground arith;
          window_high = ground arith;
          counter_low = ground arith;
          counter_high = ground arith;
        })
      ]
    ]
  ]

  -- `wwdgStart` refuses every other request with INVALID_PARAM, and then stores nothing.
  pub wwdg_start_refused :
      ¬ IsWindow prescaler window counter
      → wwdg_start prescaler window counter (fresh s t) ≡ (err_invalid_param, fresh s t)
  wwdg_start_refused h = elim IsWindow-cases [
    | inl valid ↦ absurd (h valid)
    | inr refused ↦ refused
  ]

  -- For an accepted request `wwdgStart` returns OK. CFR holds the window, the prescaler and the
  -- early-wakeup enable that it had, CR holds the counter with the watchdog on, and SR is 0.
  pub wwdg_start-IsStarted :
      IsWindow prescaler window counter
      → let r = wwdg_start prescaler window counter (fresh s t) in
        (r.0 ≡ ok) × IsStarted r.1.regs s prescaler window counter
  unfolding wwdg_start wwdg_validate_count
  wwdg_start-IsStarted h =
      let e1 : (ltb window 64 || ltb 127 window) ≡ false = ground arith in
      let e2 : (ltb counter 64 || ltb 127 counter) ≡ false = ground arith in
      let e3 : ltb 3 prescaler ≡ false = ground arith in
      let w_in = shl32-in 7 0 window (omega arith) (omega arith) in
      let p_in = shl32-in 2 7 prescaler (omega arith) (omega arith) in
      let c_in = shl32-in 7 0 counter (omega arith) (omega arith) in
      let wakeup = bit_and s.cfr 0x200 in
      rw (e1, e2, e3)
        (
          refl,
          record {
            window_field =
                part wakeup (shl32 window 0) (shl32 prescaler 7) 0x7f 0 (shl32 window 0) 0
                  (masked_out s.cfr 0x200 0x7f refl) w_in
                  (within_apart (shl32 prescaler 7) 0x180 0x7f p_in refl)
                ∙ simp (zero-bit_or, bit_or-zero);
            prescaler_field =
                part wakeup (shl32 window 0) (shl32 prescaler 7) 0x180 0 0 (shl32 prescaler 7)
                  (masked_out s.cfr 0x200 0x180 refl)
                  (within_apart (shl32 window 0) 0x7f 0x180 w_in refl) p_in
                ∙ simp zero-bit_or;
            wakeup_kept =
                part wakeup (shl32 window 0) (shl32 prescaler 7) 0x200 wakeup 0 0
                  (bit_and_assoc s.cfr 0x200 0x200)
                  (within_apart (shl32 window 0) 0x7f 0x200 w_in refl)
                  (within_apart (shl32 prescaler 7) 0x180 0x200 p_in refl)
                ∙ simp bit_or-zero;
            counter_field =
                or-and_distrib 0x80 (shl32 counter 0) 0x7f
                ∙ ap (bit_or 0) c_in
                ∙ zero-bit_or (shl32 counter 0);
            active =
                set_frame 0x80 (shl32 counter 0) 0x80
                  (within_apart (shl32 counter 0) 0x7f 0x80 c_in refl);
            flag_cleared = refl;
          },
        )

  -- For a prescaler code of 0 to 3 and a window and a counter of 64 to 127 `wwdgStart` returns OK:
  -- CFR holds the window, the prescaler and the early-wakeup enable that it had, CR holds the
  -- counter with the watchdog on, and SR is 0. For any other argument it returns INVALID_PARAM and
  -- stores nothing.
  pub wwdg_start_outcome :
      let r = wwdg_start prescaler window counter (fresh s t) in
      (IsWindow prescaler window counter
        × (r.0 ≡ ok)
        × IsStarted r.1.regs s prescaler window counter)
      ⊎ (¬ IsWindow prescaler window counter) × (r ≡ (err_invalid_param, fresh s t))
  wwdg_start_outcome = elim IsWindow-cases [
    | inl h ↦ let done = wwdg_start-IsStarted h in inl (h, done.0, done.1)
    | inr refused ↦
        inr (λ h. not_refused _ (wwdg_start-IsStarted h).0 (ap (λ p. p.0) refused), refused)
  ]
