-- ===== src/Examples/Serial.antt =====
-- The UART: hardware that is always ready, and the rates of the board.
use stm32_rtos.Base.{
  ℕ, ◌+◌, ◌*◌, ◌/◌, ◌≤◌, ◌<◌, bit_and, ◌≡◌, ◌≢◌, ◌⊎◌, refl, inl, inr, List, [], ◌∷◌, All, arith,
  ◌==◌, if◌then◌else◌,
}
use stm32_rtos.Status.{ok, err_invalid_param, err_timeout}
use stm32_rtos.Bus.{Hw, fresh}
use stm32_rtos.Reg.Uart.{UartRegisters, usart_sr_txe, usart_sr_tc, usart_cr1_pce}
use stm32_rtos.Uart.{buffer, uart_compute_brr, uart_transmit, uart_init, uart_receive}
use stm32_rtos.Uart.Format.{IsFormat, IsLine, IsOff}
use stm32_rtos.Uart.Init.{Steady, uart_init-IsLine, uart_init_refused}
use stm32_rtos.Uart.Receive.{Filled, uart_receive-Filled}
use stm32_rtos.Uart.Baud.{uart_compute_brr_outcome}
use stm32_rtos.Uart.Transmit.{sent, Guarded, uart_transmit_sends}
use stm32_rtos.Uart.Finish.{uart_transmit_finishes}

abbrev pub idle : UartRegisters
idle = record { sr = 0; dr = 0; brr = 0; cr1 = 0; cr2 = 0; cr3 = 0; gtpr = 0 }

abbrev pub ready : Hw UartRegisters
ready n s = record s { sr = 0xc0 }

abbrev text : List ℕ
text = 0x4f ∷ 0x4b ∷ []

uart_transmit_sends_example :
    let r = uart_transmit ready (buffer text) 10 (fresh idle 0) in
    All Guarded r.1.log
    × (((r.0 ≡ ok)
          × (sent r.1.log [] ≡ text)
          × ((text ≡ []) ⊎ (bit_and r.1.regs.sr usart_sr_tc ≢ 0)))
        ⊎ (r.0 ≡ err_timeout) × ((rest : List ℕ) × (sent r.1.log rest ≡ text)))
uart_transmit_sends_example = uart_transmit_sends ready 10 idle 0 text

always_ready :
    (k : ℕ) (s : UartRegisters)
    → (bit_and (ready k s).sr usart_sr_txe ≢ 0) × (bit_and (ready k s).sr usart_sr_tc ≢ 0)
always_ready k s = (λ e. absurd (omega (arith, e)), λ e. absurd (omega (arith, e)))

uart_transmit_finishes_example : (uart_transmit ready (buffer text) 10 (fresh idle 0)).0 ≡ ok
uart_transmit_finishes_example = uart_transmit_finishes ready 10 always_ready idle 0 text

-- 115200 baud from 45 MHz.
board_rate : uart_compute_brr 45000000 115200 0 ≡ (ok, 391)
unfolding uart_compute_brr
board_rate = refl

abbrev pclk : ℕ
pclk = 45000000

abbrev rate : ℕ
rate = 10000000

too_fast : (uart_compute_brr pclk rate 0).0 ≢ ok
unfolding uart_compute_brr
too_fast h = absurd (grind arith)

uart_compute_brr_outcome_example :
    let r = uart_compute_brr pclk rate 0 in
    ((r.0 ≡ ok)
      × (16 ≤ r.1)
      × (r.1 ≤ 65535)
      × (2 * (r.1 * rate) ≤ 2 * pclk + rate)
      × (2 * pclk ≤ 2 * (r.1 * rate) + rate))
    ⊎ (r ≡ (err_invalid_param, 0))
      × ((pclk ≡ 0) ⊎ (rate ≡ 0) ⊎ (pclk + rate / 2 < 16 * rate) ⊎ (65536 * rate ≤ pclk + rate / 2))
uart_compute_brr_outcome_example = uart_compute_brr_outcome pclk rate 0

abbrev still : Hw UartRegisters
still n s = s

still-Steady : Steady still
still-Steady n s = (refl, refl, refl)

-- One stop bit, even parity, both directions.
even : IsFormat 0 usart_cr1_pce 0 0xc
even = record {
  stop_fits = inl refl;
  parity_fits = inr refl;
  select_fits = inl refl;
  direction_fits = refl;
}

uart_init-IsLine_example :
    let r = uart_init still 45000000 115200 0 usart_cr1_pce 0 0xc (fresh idle 0) in
    (r.0 ≡ ok)
    × IsLine r.1.regs 391 0 usart_cr1_pce 0 0xc
    × ((earlier : List UartRegisters) × (r.1.log ≡ r.1.regs ∷ earlier) × All IsOff earlier)
uart_init-IsLine_example =
    uart_init-IsLine still 45000000 115200 391 0 usart_cr1_pce 0 0xc idle 0 still-Steady board_rate
      even (omega arith)

uart_init_refused_example :
    uart_init still pclk rate 0 0 0 0xc (fresh idle 0) ≡ (err_invalid_param, fresh idle 0)
uart_init_refused_example = uart_init_refused still pclk rate 0 0 0 0xc idle 0 (inl too_fast)

-- RXNE is set at every load; the third byte comes with a framing error.
abbrev receives : Hw UartRegisters
receives n s = record s { sr = if n == 6 then 0x22 else 0x20; dr = 0x40 + n }

uart_receive-Filled_example :
    let r = uart_receive receives (buffer (0 ∷ 0 ∷ 0 ∷ [])) 10 (fresh idle 0) in
    (r.1.log ≡ []) × Filled receives 10 r.0.0 (fresh idle 0) (0 ∷ 0 ∷ 0 ∷ []) r.0.1 r.1
uart_receive-Filled_example = uart_receive-Filled receives 10 (0 ∷ 0 ∷ 0 ∷ []) idle 0
