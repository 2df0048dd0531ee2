-- ===== src/Smoke/Board.antt =====
-- tests/target/smoke.c: `boardIoInit`. It works on RCC, GPIOA and USART2, each with its own accesses.
use stm32_rtos.Base.{ℕ, bit_or, if◌then◌else◌}
use stm32_rtos.Bus.{Bus, Hw, M, ◌>>=◌, ◌>>◌, if_ok}
use stm32_rtos.Clocks.{Clocks}
use stm32_rtos.Gpio.{gpio_init, gpio_set_alternate_function}
use stm32_rtos.Rcc.Gate.{rcc_gpio_clock_enable, rcc_usart2_clock_enable}
use stm32_rtos.Reg.Gpio.{GpioRegisters, gpioa}
use stm32_rtos.Reg.Uart.{UartRegisters, usart_cr2_stop_1, usart_cr1_te, usart_cr1_re}
use stm32_rtos.Smoke.{actual_pclk1_hz}
use stm32_rtos.Status.{DriverStatus, is_ok}
use stm32_rtos.Uart.{uart_init}

pub record Board : Type 0 where
  pub clocks : Bus Clocks
  pub port : Bus GpioRegisters
  pub usart2 : Bus UartRegisters

abbrev pub gpio_mode_output : ℕ
gpio_mode_output = 0x1

abbrev pub gpio_mode_af : ℕ
gpio_mode_af = 0x2

abbrev pub gpio_otype_pp : ℕ
gpio_otype_pp = 0x0

abbrev pub gpio_ospeed_low : ℕ
gpio_ospeed_low = 0x0

abbrev pub gpio_ospeed_medium : ℕ
gpio_ospeed_medium = 0x1

abbrev pub gpio_pupd_none : ℕ
gpio_pupd_none = 0x0

abbrev pub smoke_baud : ℕ
smoke_baud = 115200

-- The calls on GPIOA: LD2 on PA5, and USART2 on PA2 and PA3.
unfoldable pub board_pins : M GpioRegisters DriverStatus
board_pins = do
  status ← gpio_init 5 gpio_mode_output gpio_otype_pp gpio_ospeed_low gpio_pupd_none
  status ← if_ok status (gpio_set_alternate_function 2 7)
  status ← if_ok status (gpio_set_alternate_function 3 7)
  status ← if_ok status (gpio_init 2 gpio_mode_af gpio_otype_pp gpio_ospeed_medium gpio_pupd_none)
  if_ok status (gpio_init 3 gpio_mode_af gpio_otype_pp gpio_ospeed_medium gpio_pupd_none)

module _ (hw : Hw Clocks) (hw_uart : Hw UartRegisters) where
  -- The clock of USART2, and the frequency that its divisor is computed from.
  unfoldable pub board_uart_clock : M Clocks ℕ
  board_uart_clock = do rcc_usart2_clock_enable hw; actual_pclk1_hz hw

  unfoldable pub board_io_init : Board → DriverStatus × Board
  board_io_init b =
      let (enabled, clocks) = rcc_gpio_clock_enable hw gpioa b.clocks in
      let (status, port) = if_ok enabled board_pins b.port in
      let (pclk1, clocks') = board_uart_clock clocks in
      let (started, usart2) =
        uart_init hw_uart pclk1 smoke_baud usart_cr2_stop_1 0 0 (bit_or usart_cr1_te usart_cr1_re)
          b.usart2 in
      if is_ok status
      then (started, record { clocks = clocks'; port = port; usart2 = usart2 })
      else (status, record { clocks = clocks; port = port; usart2 = b.usart2 })
