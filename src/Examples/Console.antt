-- ===== src/Examples/Console.antt =====
-- The console: numbers as they are printed, and the line that it is printed on.
use stm32_rtos.Base.{All, ℕ, Bool, false, ◌≡◌, refl, List, [], ◌∷◌, length, some, arith}
use stm32_rtos.Status.{ok}
use stm32_rtos.Bus.{M, fresh}
use stm32_rtos.Bsp.{bsp_hse_hz}
use stm32_rtos.Examples.Rates.{supplied, supplied-OnHsi}
use stm32_rtos.Examples.Serial.{idle, ready}
use stm32_rtos.Examples.Tree.{tracks, tracks-Steady, tracks-Follows}
use stm32_rtos.Gpio.Port.{view}
use stm32_rtos.Rcc.Rates.{pclk1_hz}
use stm32_rtos.Reg.Gpio.{GpioRegisters}
use stm32_rtos.Reg.Uart.{UartRegisters}
use stm32_rtos.Smoke.{print_hex, print_dec, dec_text, dec_loop, hex_text, hex_loop}
use stm32_rtos.Smoke.Board.{board_io_init}
use stm32_rtos.Smoke.Console.{Printed, print_dec-Printed, print_hex-Printed}
use stm32_rtos.Smoke.Decimal.{IsDecimal}
use stm32_rtos.Smoke.Hex.{IsHexDigit, hex_value}
use stm32_rtos.Smoke.Line.{IsNearest, after_clocks, clocks_seen, board_io_init-IsLine}
use stm32_rtos.Smoke.Pins.{board_config}
use stm32_rtos.Uart.Format.{IsLine}

-- 4294967295 fills the array.
largest : dec_text 4294967295 ≡ some (52 ∷ 50 ∷ 57 ∷ 52 ∷ 57 ∷ 54 ∷ 55 ∷ 50 ∷ 57 ∷ 53 ∷ 0 ∷ [])
unfolding dec_text dec_loop
largest = refl

-- 0 has one digit.
smallest : dec_text 0 ≡ some (48 ∷ 0 ∷ [])
unfolding dec_text dec_loop
smallest = refl

-- 0x00c0ffee.
in_hex : hex_text 0xc0ffee ≡ 48 ∷ 120 ∷ 48 ∷ 48 ∷ 99 ∷ 48 ∷ 102 ∷ 102 ∷ 101 ∷ 101 ∷ 0 ∷ []
unfolding hex_text hex_loop
in_hex = refl

print_dec-Printed_example :
    (ds : List ℕ) × IsDecimal 391 ds
    × ((m : M UartRegisters Bool) × (print_dec ready 391 false ≡ some m)
        × Printed ds false (m (fresh idle 0)).0 (m (fresh idle 0)).1)
print_dec-Printed_example = print_dec-Printed ready idle 0 false 391 (omega arith)

print_hex-Printed_example :
    (ds : List ℕ) × (length ds ≡ 8)
    × All IsHexDigit ds
    × (hex_value ds 0 ≡ 0xc0ffee)
    × (let r = print_hex ready 0xc0ffee false (fresh idle 0) in
        Printed (48 ∷ 120 ∷ ds) false r.0 r.1)
print_hex-Printed_example = print_hex-Printed ready idle 0 false 0xc0ffee (omega arith)

-- GPIOA after reset.
abbrev port_a : GpioRegisters
port_a = record {
  moder = 0xa8000000;
  otyper = 0;
  ospeedr = 0;
  pupdr = 0x64000000;
  idr = 0;
  odr = 0;
  bsrr = 0;
  lckr = 0;
  afrl = 0;
  afrh = 0;
}

board_io_init-IsLine_example :
    let r = board_io_init tracks ready (after_clocks tracks ready supplied 0 port_a idle) in
    (r.0 ≡ ok)
    × ((brr : ℕ) × IsNearest
          (pclk1_hz bsp_hse_hz (clocks_seen tracks ready supplied 0 port_a idle))
          brr
        × IsLine r.1.usart2.regs brr 0 0 0 0xc)
    × (view r.1.port.regs 2 ≡ board_config (view port_a) 2)
board_io_init-IsLine_example =
    board_io_init-IsLine tracks ready supplied 0 port_a idle 2 tracks-Steady tracks-Follows
      supplied-OnHsi (λ k s. (refl, refl, refl)) (omega arith)
