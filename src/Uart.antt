-- ===== src/Uart.antt =====
-- drivers/src/uart.c.
pub mod Baud
pub mod Finish
pub mod Format
pub mod Init
pub mod Receive
pub mod Transmit
use stm32_rtos.Base.{
  ℕ, ◌+◌, ◌/◌, ◌%◌, bit_and, bit_or, ltb, ◌==◌, ◌!=◌, ◌&&◌, ◌||◌, if◌then◌else◌, List, [], ◌∷◌,
  Option, none, some, length, ◌^◌, Bool, true, false,
}
use mathlib.Core.Option
use stm32_rtos.Bits.{inv32, shl32}
use stm32_rtos.Status.{DriverStatus, ok, err_invalid_param, err_hw_fault, is_ok}
use stm32_rtos.Bus.{Hw, M, pure, ◌>>=◌, ◌>>◌, load, modify, store, wait, if_ok}
use stm32_rtos.Reg.Uart.{
  UartRegisters, usart_brr_div_mantissa_msk, usart_brr_div_fraction_msk, usart_cr2_stop_1,
  usart_cr2_stop_2, usart_cr2_stop_msk, usart_cr2_stop_pos, usart_cr1_pce, usart_cr1_ps,
  usart_cr1_te, usart_cr1_re, usart_cr1_m, usart_cr1_over8, usart_cr1_ue, usart_sr_txe, usart_sr_tc,
  usart_sr_rxne, usart_sr_ore, usart_sr_ne, usart_sr_fe, usart_sr_pe,
}

abbrev pub uart_brr_min : ℕ
uart_brr_min = 16

-- A `data` pointer with its `length`: the null pointer, or the bytes there.
pub data Buffer : Type 0 where
  null_buffer : ℕ → Buffer
  buffer : List ℕ → Buffer

abbrev pub is_null : Buffer → Bool
is_null (null_buffer _) = true
is_null (buffer _) = false

abbrev pub buffer_length : Buffer → ℕ
buffer_length (null_buffer len) = len
buffer_length (buffer bytes) = length bytes

abbrev pub buffer_bytes : Buffer → List ℕ
buffer_bytes (null_buffer _) = []
buffer_bytes (buffer bytes) = bytes

-- The status, and what `*brr` holds afterwards. The sum is below `2 ^ 64`, so it is exact.
unfoldable pub uart_compute_brr : ℕ → ℕ → ℕ → DriverStatus × ℕ
uart_compute_brr pclk_hz baud brr =
    if pclk_hz == 0 || baud == 0
    then (err_invalid_param, brr)
    else let rounded = (pclk_hz + baud / 2) / baud in
      if ltb rounded uart_brr_min
      then (err_invalid_param, brr)
      else if ltb (bit_or usart_brr_div_mantissa_msk usart_brr_div_fraction_msk) rounded
      then (err_invalid_param, brr)
      else (ok, rounded)

-- The checks of `uartInit` on its other arguments, in order.
pub uart_check_format : ℕ → ℕ → ℕ → ℕ → DriverStatus → DriverStatus
uart_check_format stop_bits parity_enable parity_select direction status =
    let status =
      if is_ok status
      then (if stop_bits != usart_cr2_stop_1 && stop_bits != usart_cr2_stop_2
          then err_invalid_param
          else status)
      else status in
    let status =
      if is_ok status
      then (if parity_enable != 0 && parity_enable != usart_cr1_pce
          then err_invalid_param
          else status)
      else status in
    let status =
      if is_ok status
      then (if parity_select != 0 && parity_select != usart_cr1_ps
          then err_invalid_param
          else status)
      else status in
    if is_ok status
    then (if bit_and direction (inv32 (bit_or usart_cr1_te usart_cr1_re)) != 0
        then err_invalid_param
        else status)
    else status

-- The CR1 bits that `uartInit` replaces.
abbrev pub cr1_mask : ℕ
cr1_mask =
    bit_or
      (bit_or (bit_or (bit_or (bit_or usart_cr1_m usart_cr1_over8) usart_cr1_pce) usart_cr1_ps)
        usart_cr1_te)
      usart_cr1_re

module _ (hw : Hw UartRegisters) where
  -- The stores of `uartInit`: disable, the fields, enable.
  pub uart_apply : ℕ → ℕ → ℕ → ℕ → ℕ → M UartRegisters (Unit {0})
  uart_apply brr stop_bits parity_enable parity_select direction = do
    let frame_length = if parity_enable != 0 then usart_cr1_m else 0
    modify hw (λ s. record s { cr1 = bit_and s.cr1 (inv32 usart_cr1_ue) })
    store (λ s. record s { brr = brr })
    modify hw λ s. record s {
      cr2 = bit_or (bit_and s.cr2 (inv32 usart_cr2_stop_msk)) (shl32 stop_bits usart_cr2_stop_pos);
    }
    modify hw λ s. record s {
      cr1 =
          bit_or
            (bit_or (bit_or (bit_or (bit_and s.cr1 (inv32 cr1_mask)) frame_length) parity_enable)
              parity_select)
            direction;
    }
    modify hw (λ s. record s { cr1 = bit_or s.cr1 usart_cr1_ue })

  pub uart_init : ℕ → ℕ → ℕ → ℕ → ℕ → ℕ → M UartRegisters DriverStatus
  unfolding uart_compute_brr uart_check_format
  uart_init pclk_hz baud stop_bits parity_enable parity_select direction =
      let (computed, brr) = uart_compute_brr pclk_hz baud 0 in
      let status = uart_check_format stop_bits parity_enable parity_select direction computed in
      if_ok status do uart_apply brr stop_bits parity_enable parity_select direction; pure status

  pub uart_deinit : M UartRegisters (Unit {0})
  uart_deinit = do
    store (λ s. record s { cr1 = 0 })
    store (λ s. record s { cr2 = 0 })
    store (λ s. record s { cr3 = 0 })
    store (λ s. record s { brr = 0 })
    store (λ s. record s { gtpr = 0 })

  unfoldable pub uart_wait_sr_flag : ℕ → ℕ → M UartRegisters DriverStatus
  uart_wait_sr_flag flag timeout = wait hw (λ s. bit_and s.sr flag == 0) timeout

  pub uart_flush : ℕ → M UartRegisters DriverStatus
  uart_flush timeout = uart_wait_sr_flag usart_sr_tc timeout

  pub uart_transmit_byte : ℕ → ℕ → M UartRegisters DriverStatus
  uart_transmit_byte byte timeout = do
    status ← uart_wait_sr_flag usart_sr_txe timeout
    if_ok status do store (λ s. record s { dr = byte }); pure status

  -- The loop of `uartTransmit` over the bytes that are left.
  pub uart_transmit_loop : ℕ → List ℕ → DriverStatus → M UartRegisters DriverStatus
  uart_transmit_loop timeout [] status b = (status, b)
  uart_transmit_loop timeout (byte ∷ bytes) status b =
      let (status', b') = uart_transmit_byte byte timeout b in
      let rest = uart_transmit_loop timeout bytes status' b' in
      if is_ok status then rest else (status, b)

  pub uart_transmit : Buffer → ℕ → M UartRegisters DriverStatus
  uart_transmit data_ptr timeout = do
    let len = buffer_length data_ptr
    let status = if is_null data_ptr && ltb 0 len then err_invalid_param else ok
    status ← uart_transmit_loop timeout (buffer_bytes data_ptr) status
    if is_ok status && ltb 0 len then uart_flush timeout else pure status

  -- What `byte` points to goes in, `none` for the null pointer, and comes out.
  pub uart_receive_byte : Option ℕ → ℕ → M UartRegisters (DriverStatus × Option ℕ)
  uart_receive_byte none timeout = pure (err_invalid_param, none)
  uart_receive_byte (some old) timeout = do
    status ← uart_wait_sr_flag usart_sr_rxne timeout
    if is_ok status
        then (do
          sr ← load hw (λ s. s.sr)
          dr ← load hw (λ s. s.dr)
          pure (
            if bit_and sr
                    (bit_or (bit_or (bit_or usart_sr_ore usart_sr_ne) usart_sr_fe) usart_sr_pe)
                  != 0
                then err_hw_fault
                else status,
            some (dr % 2 ^ 8),
          ))
        else pure (status, some old)

  -- The loop of `uartReceive` over the places that are left, with their contents.
  pub uart_receive_loop : ℕ → List ℕ → DriverStatus → M UartRegisters (DriverStatus × List ℕ)
  uart_receive_loop timeout [] status b = ((status, []), b)
  uart_receive_loop timeout (old ∷ places) status b =
      let (got, b') = uart_receive_byte (some old) timeout b in
      let rest = uart_receive_loop timeout places got.0 b' in
      if is_ok status
      then ((rest.0.0, Option.get_or got.1 old ∷ rest.0.1), rest.1)
      else ((status, old ∷ places), b)

  -- The status, and the contents of the buffer afterwards.
  pub uart_receive : Buffer → ℕ → M UartRegisters (DriverStatus × List ℕ)
  uart_receive data_ptr timeout =
      let len = buffer_length data_ptr in
      let status = if is_null data_ptr && ltb 0 len then err_invalid_param else ok in
      uart_receive_loop timeout (buffer_bytes data_ptr) status
