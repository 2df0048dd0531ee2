-- ===== src/Smoke/Line.antt =====
-- `boardIoInit` after `bspClockInit`, whatever came of it: the pins, and the rate of the console.
use stm32_rtos.Uart.Format.{IsLine, IsFormat}
use stm32_rtos.Uart
use stm32_rtos.Uart.Init.{uart_init-IsLine}
use stm32_rtos.Smoke.Pins.{pins_ok, board_config, board_pins-config}
use stm32_rtos.Gpio.Port.{view}
use stm32_rtos.Base.{ℕ, ◌+◌, ◌*◌, ◌≤◌, bit_or, ◌≡◌, refl, ◌⊎◌, inl, inr, arith}
use stm32_rtos.Status.{ok}
use stm32_rtos.Bus.{Bus, Hw, fresh}
use stm32_rtos.Bus.Keeps.{Keeps, modify-Keeps, step-Keeps}
use stm32_rtos.Bsp.{bsp_clock_init, bsp_hse_hz}
use stm32_rtos.Bsp.Limits.{OnHsi, bsp_clock_init-IsBoth}
use stm32_rtos.Bsp.Rates.{IsBoth, IsKnown, known, full_rates}
use stm32_rtos.Bsp.Safety.{IsSafe, full_speed_facts}
use stm32_rtos.Clocks.{Clocks, on_ahb1enr, on_apb1enr}
use stm32_rtos.Clocks.Facts.{apb1enr, Steady, set-Holds}
use stm32_rtos.Rcc.Gate.{rcc_gpio_clock_enable, rcc_usart2_clock_enable, rcc_gpio_clock_bit}
use stm32_rtos.Rcc.Rates.{pclk1_hz}
use stm32_rtos.Rcc.Tree.{Follows}
use stm32_rtos.Reg.Gpio.{GpioRegisters, gpioa}
use stm32_rtos.Reg.Rcc.Enable.{rcc_apb1enr_usart2en, rcc_ahb1enr_gpioaen}
use stm32_rtos.Reg.Uart.{UartRegisters}
use stm32_rtos.Smoke.Board.{Board, board_uart_clock, board_io_init, smoke_baud}
use stm32_rtos.Smoke.Clock.{stays-IsBoth, actual_pclk1_hz-IsBoth}
use stm32_rtos.Uart.{uart_compute_brr}

-- PCLK1 is 16, 4 or 45 MHz.
pclk1_values :
    (s : Clocks)
    → IsKnown s
    → (pclk1_hz bsp_hse_hz s ≡ 16000000)
      ⊎ (pclk1_hz bsp_hse_hz s ≡ 4000000)
      ⊎ (pclk1_hz bsp_hse_hz s ≡ 45000000)
pclk1_values s k = elim k.source [
  | inr (pll, full, _) ↦ inr (inr (full_rates s pll full).2)
  | inl hsi ↦ elim k.divided.1 [
    | inl undivided ↦ inl (rw (hsi, k.divided.0, undivided) refl)
    | inr by_four ↦ inr (inl (rw (hsi, k.divided.0, by_four) refl))
  ]
]

ahb-IsBoth : (f : ℕ → ℕ) (s : Clocks) → IsBoth s → IsBoth (on_ahb1enr f s)
ahb-IsBoth f s (safe, asked) =
    (safe, record { divided = asked.divided; switching = asked.switching })

usart-IsSafe : (s : Clocks) → IsSafe s → IsSafe (on_apb1enr (λ x. bit_or x rcc_apb1enr_usart2en) s)
usart-IsSafe s (inl h) = inl h
usart-IsSafe s (inr (enough, full)) =
    inr (enough, set-Holds apb1enr rcc_apb1enr_usart2en full_speed_facts refl s full)

usart-IsBoth : (s : Clocks) → IsBoth s → IsBoth (on_apb1enr (λ x. bit_or x rcc_apb1enr_usart2en) s)
usart-IsBoth s (safe, asked) =
    (usart-IsSafe s safe, record { divided = asked.divided; switching = asked.switching })

module _ (hw : Hw Clocks) (steady : Steady hw) (follows : Follows hw) where
  gpio_clock : Keeps IsBoth (rcc_gpio_clock_enable hw gpioa)
  unfolding rcc_gpio_clock_enable rcc_gpio_clock_bit
  gpio_clock b h =
      let stays = stays-IsBoth hw steady follows in
      step-Keeps hw stays _
        (modify-Keeps hw stays (on_ahb1enr (λ x. bit_or x rcc_ahb1enr_gpioaen)) (ahb-IsBoth _) b h)

  uart_clock : Keeps IsBoth (rcc_usart2_clock_enable hw)
  unfolding rcc_usart2_clock_enable
  uart_clock b h =
      let stays = stays-IsBoth hw steady follows in
      step-Keeps hw stays _
        (modify-Keeps hw stays (on_apb1enr (λ x. bit_or x rcc_apb1enr_usart2en)) usart-IsBoth b h)

  gpio_clock_ok : (b : Bus Clocks) → (rcc_gpio_clock_enable hw gpioa b).0 ≡ ok
  unfolding rcc_gpio_clock_enable rcc_gpio_clock_bit
  gpio_clock_ok b = refl

-- The divisor is the nearest for this frequency.
pub record IsNearest (hz brr : ℕ) : Type 0 where
  pub not_above : 2 * (brr * smoke_baud) ≤ 2 * hz + smoke_baud
  pub not_below : 2 * hz ≤ 2 * (brr * smoke_baud) + smoke_baud

divisor_of :
    (hz : ℕ)
    → (hz ≡ 16000000) ⊎ (hz ≡ 4000000) ⊎ (hz ≡ 45000000)
    → (brr : ℕ) × (uart_compute_brr hz smoke_baud 0 ≡ (ok, brr)) × IsNearest hz brr
unfolding uart_compute_brr
divisor_of hz (inl e) =
    rw e (139, refl, record { not_above = omega arith; not_below = omega arith })
divisor_of hz (inr (inl e)) =
    rw e (35, refl, record { not_above = omega arith; not_below = omega arith })
divisor_of hz (inr (inr e)) =
    rw e (391, refl, record { not_above = omega arith; not_below = omega arith })

console-IsFormat : IsFormat 0 0 0 0xc
console-IsFormat = record {
  stop_fits = inl refl;
  parity_fits = inl refl;
  select_fits = inl refl;
  direction_fits = refl;
}

module _ (hw : Hw Clocks) (hw_uart : Hw UartRegisters) (s : Clocks) (t : ℕ) (port : GpioRegisters)
    (usart2 : UartRegisters) where
  -- The board after `bspClockInit`.
  abbrev pub after_clocks : Board
  after_clocks = record {
    clocks = (bsp_clock_init hw (fresh s t)).1;
    port = fresh port 0;
    usart2 = fresh usart2 0;
  }

  -- The clock registers as `actualPclk1Hz` first loads them in `boardIoInit`.
  abbrev pub clocks_seen : Clocks
  clocks_seen =
      let b =
        (rcc_usart2_clock_enable hw (rcc_gpio_clock_enable hw gpioa after_clocks.clocks).1).1 in
      hw b.time b.regs

  -- After `bspClockInit` had been called with SYSCLK on HSI and AHB and APB1 undivided, on hardware
  -- that leaves the clock configuration, CR1, CR2 and BRR alone and moves CFGR.SWS only to a
  -- requested source that is switched on: whatever status `bspClockInit` returned, `boardIoInit`
  -- returns OK with USART2 on for 8 data bits, one stop bit, no parity and both directions, at the
  -- divisor nearest to the PCLK1 frequency that the registers set when `actualPclk1Hz` first loads
  -- them; PA5 is an output, PA2 and PA3 are on AF7, and every other pin is as it was.
  pub board_io_init-IsLine :
      (p : ℕ)
      → Steady hw
      → Follows hw
      → OnHsi s
      → Uart.Init.Steady hw_uart
      → p ≤ 15
      → let r = board_io_init hw hw_uart after_clocks in
        (r.0 ≡ ok)
        × ((brr : ℕ) × IsNearest (pclk1_hz bsp_hse_hz clocks_seen) brr
            × IsLine r.1.usart2.regs brr 0 0 0 0xc)
        × (view r.1.port.regs p ≡ board_config (view port) p)
  unfolding board_io_init board_uart_clock
  board_io_init-IsLine p steady follows start uart_steady fits =
      let both = bsp_clock_init-IsBoth hw s t steady follows start in
      let on_port = gpio_clock hw steady follows _ both in
      let on_uart = uart_clock hw steady follows _ on_port in
      let b =
        (rcc_usart2_clock_enable hw (rcc_gpio_clock_enable hw gpioa after_clocks.clocks).1).1 in
      let (safe, asked) = stays-IsBoth hw steady follows b.time b.regs on_uart.now in
      let (brr, computed, nearest) =
        divisor_of (pclk1_hz bsp_hse_hz clocks_seen)
          (pclk1_values clocks_seen (known clocks_seen safe asked)) in
      let frequency = actual_pclk1_hz-IsBoth hw steady follows b on_uart.now in
      let (fine, line, _) =
        uart_init-IsLine hw_uart (pclk1_hz bsp_hse_hz clocks_seen) smoke_baud brr 0 0 0 0xc usart2 0
          uart_steady computed console-IsFormat (omega arith) in
      rw (gpio_clock_ok hw steady follows after_clocks.clocks, pins_ok port, frequency)
        (fine, (brr, nearest, line), board_pins-config port p fits)
