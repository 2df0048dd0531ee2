-- ===== src/Uart/Transmit.antt =====
-- `uartTransmit`, on hardware that may change any register at any load: the bytes that reach
-- DR, and the flags that guard them.
use stm32_rtos.Base.{
  ℕ, suc, bit_and, ltb, ◌==◌, ◌&&◌, split_and, Bool-cases, true, false, ◌≡◌, ◌≢◌, refl, sym, ap,
  ◌∙◌, ◌⊎◌, inl, inr, arith, List, [], ◌∷◌, All, length,
}
use stm32_rtos.Status.{ok_only, DriverStatus, ok, err_timeout, is_ok}
use stm32_rtos.Bus.{Bus, Hw, fresh, wait}
use stm32_rtos.Bus.Wait.{wait-log, wait_decides}
use stm32_rtos.Uart.{
  buffer, uart_wait_sr_flag, uart_flush, uart_transmit_byte, uart_transmit_loop, uart_transmit,
}
use stm32_rtos.Reg.Uart.{UartRegisters, usart_sr_txe, usart_sr_tc}

-- The values stored in DR, the first one first, with more after them.
pub sent : List UartRegisters → List ℕ → List ℕ
sent [] after = after
sent (s ∷ ss) after = sent ss (s.dr ∷ after)

-- TXE was set when the store was made.
abbrev pub Guarded : UartRegisters → Type 0
Guarded s = bit_and s.sr usart_sr_txe ≢ 0

clash : (st : DriverStatus) → st ≡ ok → is_ok st ≡ false → ⊥
clash st e f = let t : is_ok st ≡ true = rw e refl in ground arith

counted : (n : ℕ) → ltb 0 (suc n) ≡ false → ⊥
counted n h = ground arith

empty : (bytes : List ℕ) → ltb 0 (length bytes) ≡ false → bytes ≡ []
empty [] h = refl
empty (byte ∷ bytes) h = absurd (counted (length bytes) h)

module _ (hw : Hw UartRegisters) (timeout : ℕ) where
  pub flag_cases :
      (flag : ℕ) (b : Bus UartRegisters)
      → ((uart_wait_sr_flag hw flag timeout b).0 ≡ ok)
          × (bit_and (uart_wait_sr_flag hw flag timeout b).1.regs.sr flag ≢ 0)
        ⊎ ((uart_wait_sr_flag hw flag timeout b).0 ≡ err_timeout)
  unfolding uart_wait_sr_flag
  flag_cases flag b =
      let pending = λ (s : UartRegisters). bit_and s.sr flag == 0 in
      elim (Bool-cases (pending (wait hw pending timeout b).1.regs)) [
        | inl more ↦ inr (wait_decides hw pending timeout b ∙ rw more refl)
        | inr done ↦ inl (wait_decides hw pending timeout b ∙ rw done refl, ground arith)
      ]

  pub flag-log :
      (flag : ℕ) (b : Bus UartRegisters) → (uart_wait_sr_flag hw flag timeout b).1.log ≡ b.log
  unfolding uart_wait_sr_flag
  flag-log flag b = wait-log hw _ timeout b

  -- One byte: it is stored with TXE set, or nothing is.
  byte_cases :
      (byte : ℕ) (b : Bus UartRegisters)
      → ((s : UartRegisters) × ((uart_transmit_byte hw byte timeout b).0 ≡ ok)
          × ((uart_transmit_byte hw byte timeout b).1.log ≡ s ∷ b.log)
          × (s.dr ≡ byte)
          × Guarded s)
        ⊎ ((uart_transmit_byte hw byte timeout b).0 ≡ err_timeout)
          × ((uart_transmit_byte hw byte timeout b).1.log ≡ b.log)
  unfolding uart_transmit_byte
  byte_cases byte b = elim (flag_cases usart_sr_txe b) [
    | inl (sent_it, set) ↦
        rw (sent_it, flag-log usart_sr_txe b)
          (inl (
            record (uart_wait_sr_flag hw usart_sr_txe timeout b).1.regs { dr = byte },
            refl,
            refl,
            refl,
            set,
          ))
    | inr late ↦ rw (late, flag-log usart_sr_txe b) (inr (refl, refl))
  ]

  loop_stopped :
      (bytes : List ℕ) (status : DriverStatus) (b : Bus UartRegisters)
      → is_ok status ≡ false
      → uart_transmit_loop hw timeout bytes status b ≡ (status, b)
  unfolding uart_transmit_loop
  loop_stopped [] status b h = refl
  loop_stopped (byte ∷ bytes) status b h = rw h refl

  -- From any state of the loop: what is stored is the first part of what was to be sent.
  loop_sends :
      (bytes : List ℕ) (status : DriverStatus) (b : Bus UartRegisters)
      → (rest : List ℕ) × (sent (uart_transmit_loop hw timeout bytes status b).1.log rest
          ≡ sent b.log bytes)
        × ((uart_transmit_loop hw timeout bytes status b).0 ≡ ok → rest ≡ [])
  unfolding uart_transmit_loop sent
  loop_sends [] status b = ([], refl, λ _. refl)
  loop_sends (byte ∷ bytes) status b = elim (Bool-cases (is_ok status)) [
    | inl going ↦
        let sending = uart_transmit_byte hw byte timeout b in
        let (rest, same, whole) = loop_sends bytes sending.0 sending.1 in
        rw going elim (byte_cases byte b) [
          | inl (_, fine, logged, stored, guarded) ↦ (rest, same ∙ rw (logged, stored) refl, whole)
          | inr (late, kept) ↦
              rw (loop_stopped bytes sending.0 sending.1 (rw late refl), late)
                (byte ∷ bytes, rw kept refl, λ done. absurd (clash err_timeout done refl))
        ]
    | inr stopped ↦ rw stopped (byte ∷ bytes, refl, λ done. absurd (clash status done stopped))
  ]

  loop_status :
      (bytes : List ℕ) (status : DriverStatus) (b : Bus UartRegisters)
      → (status ≡ ok) ⊎ (status ≡ err_timeout)
      → ((uart_transmit_loop hw timeout bytes status b).0 ≡ ok)
        ⊎ ((uart_transmit_loop hw timeout bytes status b).0 ≡ err_timeout)
  unfolding uart_transmit_loop
  loop_status [] status b h = h
  loop_status (byte ∷ bytes) status b h = elim (Bool-cases (is_ok status)) [
    | inl going ↦
        let sending = uart_transmit_byte hw byte timeout b in
        rw going (
          loop_status bytes sending.0 sending.1 elim (byte_cases byte b) [
            | inl (_, fine, logged, stored, guarded) ↦ inl fine
            | inr (late, kept) ↦ inr late
          ])
    | inr stopped ↦ rw stopped h
  ]

  loop-Guarded :
      (bytes : List ℕ) (status : DriverStatus) (b : Bus UartRegisters)
      → All Guarded b.log
      → All Guarded (uart_transmit_loop hw timeout bytes status b).1.log
  unfolding uart_transmit_loop
  loop-Guarded [] status b h = h
  loop-Guarded (byte ∷ bytes) status b h = elim (Bool-cases (is_ok status)) [
    | inl going ↦
        let sending = uart_transmit_byte hw byte timeout b in
        rw going (
          loop-Guarded bytes sending.0 sending.1 elim (byte_cases byte b) [
            | inl (_, fine, logged, stored, guarded) ↦ rw logged (guarded, h)
            | inr (late, kept) ↦ rw kept h
          ])
    | inr stopped ↦ rw stopped h
  ]

  module _ (s : UartRegisters) (t : ℕ) (bytes : List ℕ) where
    transmit_cases :
        let run = uart_transmit_loop hw timeout bytes ok (fresh s t) in
        let r = uart_transmit hw (buffer bytes) timeout (fresh s t) in
        (r.1.log ≡ run.1.log)
        × (((r.0 ≡ ok) × (run.0 ≡ ok) × ((bytes ≡ []) ⊎ (bit_and r.1.regs.sr usart_sr_tc ≢ 0)))
            ⊎ (r.0 ≡ err_timeout))
    unfolding uart_transmit uart_flush
    transmit_cases =
        let run = uart_transmit_loop hw timeout bytes ok (fresh s t) in
        elim (Bool-cases (is_ok run.0 && ltb 0 (length bytes))) [
          | inl more ↦ rw more (
            flag-log usart_sr_tc run.1,
            elim (flag_cases usart_sr_tc run.1) [
              | inl (done, set) ↦ inl (done, ok_only run.0 (split_and _ _ more).0, inr set)
              | inr late ↦ inr late
            ],
          )
          | inr none_left ↦ rw none_left (
            refl,
            elim (loop_status bytes ok (fresh s t) (inl refl)) [
              | inl fine ↦ inl (fine, fine, inl (empty bytes (rw fine at none_left)))
              | inr late ↦ inr late
            ],
          )
        ]

    -- `uartTransmit` returns OK or TIMEOUT. Every store is made with TXE set. On OK the values
    -- stored in DR are the bytes, in order, and TC is set at the end unless there was no byte; on
    -- TIMEOUT they are the first part of the bytes.
    pub uart_transmit_sends :
        let r = uart_transmit hw (buffer bytes) timeout (fresh s t) in
        All Guarded r.1.log
        × (((r.0 ≡ ok)
              × (sent r.1.log [] ≡ bytes)
              × ((bytes ≡ []) ⊎ (bit_and r.1.regs.sr usart_sr_tc ≢ 0)))
            ⊎ (r.0 ≡ err_timeout) × ((rest : List ℕ) × (sent r.1.log rest ≡ bytes)))
    unfolding sent
    uart_transmit_sends =
        let (rest, same, whole) = loop_sends bytes ok (fresh s t) in
        let guarded = loop-Guarded bytes ok (fresh s t) tt in
        let (logged, outcome) = transmit_cases in
        rw logged (
          guarded,
          elim outcome [
            | inl (done, finished, complete) ↦ inl (
              done,
              ap (sent (uart_transmit_loop hw timeout bytes ok (fresh s t)).1.log)
                    (sym (whole finished))
                  ∙ same,
              complete,
            )
            | inr late ↦ inr (late, (rest, same))
          ],
        )
