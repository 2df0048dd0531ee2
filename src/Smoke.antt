-- ===== src/Smoke.antt =====
-- The console of the target firmware, tests/target/smoke.c: its view of the clock tree, and what
-- it prints. A text is the list of its bytes from the first one that is printed.
pub mod Board
pub mod Clock
pub mod Decimal
pub mod Hex
pub mod Line
pub mod Pins
pub mod Console
use stm32_rtos.Base.{
  ℕ, zero, suc, ◌+◌, ◌-◌, ◌*◌, ◌/◌, ◌%◌, bit_and, leb, ◌==◌, ◌!=◌, if◌then◌else◌, Bool, true, List,
  [], ◌∷◌, ◌++◌, Option, none, some,
}
use mathlib.Core.Option
use stm32_rtos.Bits.{shr32}
use stm32_rtos.Status.{is_ok}
use stm32_rtos.Bus.{Hw, M, pure, ◌>>=◌, load}
use stm32_rtos.Bsp.{bsp_hse_hz, bsp_sysclk_hz}
use stm32_rtos.Clocks.{Clocks}
use stm32_rtos.Rcc.Oscillator.{active_source}
use stm32_rtos.Reg.Rcc.{
  rcc_cfgr_sysclk_hse, rcc_cfgr_sysclk_pll, rcc_cfgr_ppre1_msk, rcc_cfgr_ppre1_pos,
  rcc_cfgr_ppre_div2,
}
use stm32_rtos.Reg.Uart.{UartRegisters}
use stm32_rtos.Uart.{buffer, uart_transmit}

abbrev pub smoke_uart_timeout : ℕ
smoke_uart_timeout = 100000

abbrev pub smoke_hsi_hz : ℕ
smoke_hsi_hz = 16000000

-- From here on the function computes on what its two loads gave.
abbrev pub pclk1_from : ℕ → ℕ → ℕ
pclk1_from sws ppre1 =
    let sysclk =
      if sws == rcc_cfgr_sysclk_pll
      then bsp_sysclk_hz
      else if sws == rcc_cfgr_sysclk_hse
      then bsp_hse_hz
      else smoke_hsi_hz in
    let shift = if leb rcc_cfgr_ppre_div2 ppre1 then ppre1 - rcc_cfgr_ppre_div2 + 1 else 0 in
    shr32 sysclk shift

unfoldable pub actual_pclk1_hz : Hw Clocks → M Clocks ℕ
actual_pclk1_hz hw = do
  sws ← load hw active_source
  ppre1 ← load hw (λ s. shr32 (bit_and s.rcc.cfgr rcc_cfgr_ppre1_msk) rcc_cfgr_ppre1_pos)
  pure (pclk1_from sws ppre1)

-- The bytes before the first 0.
unfoldable pub c_string : List ℕ → List ℕ
c_string [] = []
c_string (c ∷ text) = let rest = c_string text in if c != 0 then c ∷ rest else []

-- `"0123456789abcdef"[i]`.
abbrev pub hex_digit : ℕ → ℕ
hex_digit i = if leb 10 i then 97 + (i - 10) else 48 + i

-- The digits that the loop of `printHex` writes from index `i` on, with `left` turns to go.
unfoldable pub hex_loop : ℕ → ℕ → ℕ → List ℕ
hex_loop value i zero = []
hex_loop value i (suc left) =
    hex_digit (bit_and (shr32 value (28 - 4 * i)) 0xf) ∷ hex_loop value (suc i) left

unfoldable pub hex_text : ℕ → List ℕ
hex_text value = 48 ∷ 120 ∷ hex_loop value 0 8 ++ (0 ∷ [])

-- The loop of `printDec` with `i` places left before `text`; `none` where it would write before
-- the array.
unfoldable pub dec_loop : ℕ → ℕ → List ℕ → Option (List ℕ)
dec_loop zero rest text = none
dec_loop (suc i) rest text =
    let text' = (48 + rest % 10) ∷ text in
    let further = dec_loop i (rest / 10) text' in if rest / 10 != 0 then further else some text'

unfoldable pub dec_text : ℕ → Option (List ℕ)
dec_text value = dec_loop 10 value (0 ∷ [])

-- `console_failed` goes in and comes out.
module _ (hw : Hw UartRegisters) where
  unfoldable pub print : List ℕ → Bool → M UartRegisters Bool
  print text console_failed = do
    status ← uart_transmit hw (buffer (c_string text)) smoke_uart_timeout
    pure (if is_ok status then console_failed else true)

  unfoldable pub print_hex : ℕ → Bool → M UartRegisters Bool
  print_hex value console_failed = print (hex_text value) console_failed

  unfoldable pub print_dec : ℕ → Bool → Option (M UartRegisters Bool)
  print_dec value console_failed = Option.map (λ text. print text console_failed) (dec_text value)
