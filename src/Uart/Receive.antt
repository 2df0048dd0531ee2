-- ===== src/Uart/Receive.antt =====
-- `uartReceive`, on hardware that may change any register at any load: the bytes that reach the
-- buffer, and what an overrun, noise, framing or parity error or a timeout leaves there.
use stm32_rtos.Base.{
  ◌==◌, Bool, ap, sym, ℕ, ◌%◌, ◌^◌, bit_and, ◌!=◌, Bool-cases, false, ◌≡◌, ◌≢◌, refl, ◌∙◌, ◌⊎◌, inl,
  inr, arith, List, [], ◌∷◌, some,
}
use stm32_rtos.Status.{DriverStatus, ok, err_timeout, err_hw_fault, is_ok}
use stm32_rtos.Bus.{Bus, Hw, fresh, after_step}
use stm32_rtos.Bus.Waited.{Waited, wait-Waited}
use stm32_rtos.Reg.Uart.{UartRegisters, usart_sr_rxne}
use stm32_rtos.Uart.{buffer, uart_wait_sr_flag, uart_receive_byte, uart_receive_loop, uart_receive}
use stm32_rtos.Uart.Transmit.{flag_cases, flag-log}

-- ORE, NE, FE and PE.
abbrev pub error_flags : ℕ
error_flags = 0xf

abbrev pub no_byte : UartRegisters → Bool
no_byte s = bit_and s.sr usart_sr_rxne == 0

module _ (hw : Hw UartRegisters) (timeout : ℕ) where
  -- The load of SR and then of DR, made right after a wait that ended at `got`.
  abbrev pub errors_at : Bus UartRegisters → ℕ
  errors_at got = bit_and (hw got.time got.regs).sr error_flags

  abbrev pub taken : Bus UartRegisters → Bus UartRegisters
  taken got = after_step hw (after_step hw got)

  abbrev pub byte_at : Bus UartRegisters → ℕ
  byte_at got = (taken got).regs.dr % 2 ^ 8

  -- The accesses and the buffer before and after, with the status. Each place takes one wait for
  -- RXNE, the wait for the next starting right after the byte was taken. A byte without an error
  -- goes in and the rest follows; one with an error goes in and is the last; a timeout leaves the
  -- rest as it was.
  pub data Filled
      : DriverStatus → Bus UartRegisters → List ℕ → List ℕ → Bus UartRegisters → Type 0 where
    whole : (b : Bus UartRegisters) → Filled ok b [] [] b
    byte :
        {st : DriverStatus} {olds news : List ℕ} {end : Bus UartRegisters} (old : ℕ)
        (b got : Bus UartRegisters)
        → Waited hw no_byte timeout b ok got
        → errors_at got ≡ 0
        → Filled st (taken got) olds news end
        → Filled st b (old ∷ olds) (byte_at got ∷ news) end
    faulty :
        (old : ℕ) (olds : List ℕ) (b got : Bus UartRegisters)
        → Waited hw no_byte timeout b ok got
        → errors_at got ≢ 0
        → Filled err_hw_fault b (old ∷ olds) (byte_at got ∷ olds) (taken got)
    late :
        (old : ℕ) (olds : List ℕ) (b got : Bus UartRegisters)
        → Waited hw no_byte timeout b err_timeout got
        → Filled err_timeout b (old ∷ olds) (old ∷ olds) got

  waits :
      (b : Bus UartRegisters)
      → let r = uart_wait_sr_flag hw usart_sr_rxne timeout b in Waited hw no_byte timeout b r.0 r.1
  unfolding uart_wait_sr_flag
  waits b = wait-Waited hw no_byte timeout b

  -- One byte: read without an error, read with one, or not come.
  byte_cases :
      (old : ℕ) (b : Bus UartRegisters)
      → let r = uart_receive_byte hw (some old) timeout b in
        (r.1.log ≡ b.log)
        × (((got : Bus UartRegisters) × Waited hw no_byte timeout b ok got
              × (errors_at got ≡ 0)
              × (r ≡ ((ok, some (byte_at got)), taken got)))
            ⊎ ((got : Bus UartRegisters) × Waited hw no_byte timeout b ok got
                × (errors_at got ≢ 0)
                × (r ≡ ((err_hw_fault, some (byte_at got)), taken got)))
            ⊎ ((got : Bus UartRegisters) × Waited hw no_byte timeout b err_timeout got
                × (r ≡ ((err_timeout, some old), got))))
  unfolding uart_receive_byte
  byte_cases old b =
      let got = (uart_wait_sr_flag hw usart_sr_rxne timeout b).1 in
      let kept = flag-log hw timeout usart_sr_rxne b in
      elim (flag_cases hw timeout usart_sr_rxne b) [
        | inl (come, _) ↦
            let w : Waited hw no_byte timeout b ok got = rw (← come) (waits b) in
            elim (Bool-cases (errors_at got != 0)) [
              | inl bad ↦ rw (come, bad) (kept, inr (inl (got, w, ground arith, refl)))
              | inr clean ↦ rw (come, clean) (kept, inl (got, w, ground arith, refl))
            ]
        | inr not_come ↦
            let w : Waited hw no_byte timeout b err_timeout got = rw (← not_come) (waits b) in
            rw not_come (kept, inr (inr (got, w, refl)))
      ]

  loop_stopped :
      (places : List ℕ) (status : DriverStatus) (b : Bus UartRegisters)
      → is_ok status ≡ false
      → uart_receive_loop hw timeout places status b ≡ ((status, places), b)
  unfolding uart_receive_loop
  loop_stopped [] status b h = refl
  loop_stopped (old ∷ places) status b h = rw h refl

  loop_fills :
      (places : List ℕ) (b : Bus UartRegisters)
      → let r = uart_receive_loop hw timeout places ok b in
        (r.1.log ≡ b.log) × Filled r.0.0 b places r.0.1 r.1
  unfolding uart_receive_loop
  loop_fills [] b = (refl, whole b)
  loop_fills (old ∷ places) b =
      let (kept, outcome) = byte_cases old b in
      elim outcome [
        | inl (got, w, clean, e) ↦
            let (logged, filled) = loop_fills places (taken got) in
            rw e (logged ∙ sym (ap (λ r. r.1.log) e) ∙ kept, byte old b got w clean filled)
        | inr (inl (got, w, bad, e)) ↦
            rw (e, loop_stopped places err_hw_fault (taken got) refl)
              (sym (ap (λ r. r.1.log) e) ∙ kept, faulty old places b got w bad)
        | inr (inr (got, w, e)) ↦
            rw (e, loop_stopped places err_timeout got refl)
              (sym (ap (λ r. r.1.log) e) ∙ kept, late old places b got w)
      ]

  -- `uartReceive` makes no store. It fills the buffer from the front: for each place it waits for
  -- RXNE once, loads SR and then DR, and puts the low byte of DR there. After the first byte that was
  -- read with ORE, NE, FE or PE set it stops with HW_FAULT, after the first wait that ends without
  -- RXNE with TIMEOUT, and leaves the rest of the buffer as it was; otherwise the buffer is full
  -- and it returns OK.
  pub uart_receive-Filled :
      (places : List ℕ) (s : UartRegisters) (t : ℕ)
      → let r = uart_receive hw (buffer places) timeout (fresh s t) in
        (r.1.log ≡ []) × Filled r.0.0 (fresh s t) places r.0.1 r.1
  unfolding uart_receive
  uart_receive-Filled places s t = loop_fills places (fresh s t)
