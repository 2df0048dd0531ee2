-- ===== src/Uart/Finish.antt =====
-- `uartTransmit` on hardware that is always ready.
use stm32_rtos.Base.{
  ℕ, suc, bit_and, ltb, ◌==◌, ne→==, true, ◌≡◌, ◌≢◌, refl, arith, List, [], ◌∷◌, length,
}
use stm32_rtos.Status.{ok}
use stm32_rtos.Bus.{Bus, Hw, fresh}
use stm32_rtos.Bus.Wait.{wait_settles}
use stm32_rtos.Uart.{
  buffer, uart_wait_sr_flag, uart_flush, uart_transmit_byte, uart_transmit_loop, uart_transmit,
}
use stm32_rtos.Reg.Uart.{UartRegisters, usart_sr_txe, usart_sr_tc}

module _ (hw : Hw UartRegisters) (timeout : ℕ) where
  module _
      (ready : (k : ℕ) (s : UartRegisters)
        → (bit_and (hw k s).sr usart_sr_txe ≢ 0) × (bit_and (hw k s).sr usart_sr_tc ≢ 0)) where
    flag_ready :
        (flag : ℕ) (b : Bus UartRegisters)
        → ((k : ℕ) (s : UartRegisters) → bit_and (hw k s).sr flag ≢ 0)
        → (uart_wait_sr_flag hw flag timeout b).0 ≡ ok
    unfolding uart_wait_sr_flag
    flag_ready flag b set =
        wait_settles hw (λ s. bit_and s.sr flag == 0) (λ k s _. ne→== _ _ (set k s)) timeout 0 b
          (omega arith) (λ s. ne→== _ _ (set _ s))

    loop_ready :
        (bytes : List ℕ) (b : Bus UartRegisters) → (uart_transmit_loop hw timeout bytes ok b).0 ≡ ok
    unfolding uart_transmit_loop uart_transmit_byte
    loop_ready [] b = refl
    loop_ready (byte ∷ bytes) b =
        let fine = flag_ready usart_sr_txe b (λ k s. (ready k s).0) in rw fine (loop_ready bytes _)

    -- With TXE and TC set whenever they are read, `uartTransmit` returns OK for every buffer and
    -- every timeout.
    pub uart_transmit_finishes :
        (s : UartRegisters) (t : ℕ) (bytes : List ℕ)
        → (uart_transmit hw (buffer bytes) timeout (fresh s t)).0 ≡ ok
    unfolding uart_transmit uart_flush
    uart_transmit_finishes s t [] = rw (loop_ready [] (fresh s t)) refl
    uart_transmit_finishes s t (byte ∷ bytes) =
        let more : ltb 0 (suc (length bytes)) ≡ true = ground arith in
        rw (loop_ready (byte ∷ bytes) (fresh s t), more)
          (flag_ready usart_sr_tc _ (λ k s. (ready k s).1))
