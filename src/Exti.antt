-- ===== src/Exti.antt =====
-- drivers/src/exti.c. EXTICR is a function of its index; an edge is the number behind
-- `ExtiEdge_e`. The registers are changed by software alone, but for PR, which is only read.
pub mod Lines
pub mod Pending
pub mod Port
pub mod Refine
pub mod Replay
pub mod Runs
pub mod Table
use stm32_rtos.Base.{
  ℕ, ◌*◌, ◌/◌, ◌%◌, bit_and, bit_or, ltb, ◌==◌, ◌!=◌, ◌&&◌, ◌||◌, if◌then◌else◌, Bool, true, false,
  Option, none, some,
}
use stm32_rtos.Bits.{inv32, shl32}
use stm32_rtos.Status.{DriverStatus, ok, err_invalid_param, is_ok}
use stm32_rtos.Bus.{M, pure, ◌>>=◌, ◌>>◌, peek, store, if_ok}
use stm32_rtos.Nvic.{write_at}
use stm32_rtos.Reg.Gpio.{gpioa, gpiob, gpioc, gpiod, gpioe, gpiof, gpiog, gpioh}
use stm32_rtos.Reg.Exti.{
  ExtiRegisters, exti_line_max, exti_line_unused, exti_gpio_line_max, syscfg_exticr_pa,
  syscfg_exticr_pb, syscfg_exticr_pc, syscfg_exticr_pd, syscfg_exticr_pe, syscfg_exticr_pf,
  syscfg_exticr_pg, syscfg_exticr_ph,
}

pub record SyscfgRegisters : Type 0 where
  pub memrmp : ℕ
  pub pmc : ℕ
  pub exticr : ℕ → ℕ
  pub cmpcr : ℕ

abbrev pub exti_edge_rising : ℕ
exti_edge_rising = 1

abbrev pub exti_edge_falling : ℕ
exti_edge_falling = 2

abbrev pub exti_edge_both : ℕ
exti_edge_both = 3

pub exti_validate_line : ℕ → DriverStatus
exti_validate_line line =
    if ltb exti_line_max line || line == exti_line_unused then err_invalid_param else ok

-- The status, and what `*selector` holds afterwards.
unfoldable pub exti_port_selector : ℕ → ℕ → DriverStatus × ℕ
exti_port_selector port selector =
    if port == gpioa
    then (ok, syscfg_exticr_pa)
    else if port == gpiob
    then (ok, syscfg_exticr_pb)
    else if port == gpioc
    then (ok, syscfg_exticr_pc)
    else if port == gpiod
    then (ok, syscfg_exticr_pd)
    else if port == gpioe
    then (ok, syscfg_exticr_pe)
    else if port == gpiof
    then (ok, syscfg_exticr_pf)
    else if port == gpiog
    then (ok, syscfg_exticr_pg)
    else if port == gpioh
    then (ok, syscfg_exticr_ph)
    else (err_invalid_param, selector)

pub exti_select_port : ℕ → ℕ → M SyscfgRegisters DriverStatus
unfolding exti_port_selector
exti_select_port line port =
    let (chosen, selector) =
      if ltb exti_gpio_line_max line then (err_invalid_param, 0) else exti_port_selector port 0 in
    let status =
      if is_ok chosen && selector == syscfg_exticr_ph && ltb 1 line
      then err_invalid_param
      else chosen in
    let index = line / 4 in
    let shift = line % 4 * 4 in
    if_ok status do
      store λ s. record s {
        exticr =
            write_at index
              (bit_or (bit_and (s.exticr index) (inv32 (shl32 0xf shift))) (shl32 selector shift))
              s.exticr;
      }
      pure status

pub exti_configure : ℕ → ℕ → M ExtiRegisters DriverStatus
unfolding exti_validate_line
exti_configure line edge = do
  status ← pure (exti_validate_line line)
  status ← pure (
      if is_ok status
        && edge != exti_edge_rising
        && edge != exti_edge_falling
        && edge != exti_edge_both
      then err_invalid_param
      else status)
  if_ok status do
    let bit = shl32 1 line
    if edge == exti_edge_falling
        then store (λ s. record s { rtsr = bit_and s.rtsr (inv32 bit) })
        else store (λ s. record s { rtsr = bit_or s.rtsr bit })
    if edge == exti_edge_rising
        then store (λ s. record s { ftsr = bit_and s.ftsr (inv32 bit) })
        else store (λ s. record s { ftsr = bit_or s.ftsr bit })
    pure status

pub exti_enable_interrupt : ℕ → M ExtiRegisters DriverStatus
unfolding exti_validate_line
exti_enable_interrupt line =
    if_ok (exti_validate_line line)
      do store (λ s. record s { imr = bit_or s.imr (shl32 1 line) }); pure (exti_validate_line line)

pub exti_disable_interrupt : ℕ → M ExtiRegisters DriverStatus
unfolding exti_validate_line
exti_disable_interrupt line = if_ok (exti_validate_line line) do
  store (λ s. record s { imr = bit_and s.imr (inv32 (shl32 1 line)) })
  pure (exti_validate_line line)

-- `SWIER |= bit`. The hardware sets the pending bit of a line whose bit goes from 0 to 1 where its
-- interrupt is unmasked.
abbrev pub raise_swier : ℕ → ExtiRegisters → ExtiRegisters
raise_swier bit s = record s {
  swier = bit_or s.swier bit;
  pr = if bit_and s.swier bit == 0 then bit_or s.pr (bit_and s.imr bit) else s.pr;
}

pub exti_trigger_software : ℕ → M ExtiRegisters DriverStatus
unfolding exti_validate_line
exti_trigger_software line =
    if_ok (exti_validate_line line)
      do store (raise_swier (shl32 1 line)); pure (exti_validate_line line)

-- What `pending` points to goes in, `none` for the null pointer, and comes out.
pub exti_is_pending : ℕ → Option Bool → M ExtiRegisters (DriverStatus × Option Bool)
unfolding exti_validate_line
exti_is_pending line none =
    let status = exti_validate_line line in
    pure (if is_ok status then err_invalid_param else status, none)
exti_is_pending line (some old) = do
  pr ← peek (λ s. s.pr)
  let status = exti_validate_line line
  pure (status, if is_ok status then some (bit_and pr (shl32 1 line) != 0) else some old)

-- `PR = value`. The hardware clears the pending bits that are written 1, and with them the same
-- bits of SWIER.
abbrev pub write_pr : ℕ → ExtiRegisters → ExtiRegisters
write_pr value s = record s {
  pr = bit_and s.pr (inv32 value);
  swier = bit_and s.swier (inv32 value);
}

pub exti_clear_pending : ℕ → M ExtiRegisters DriverStatus
unfolding exti_validate_line
exti_clear_pending line =
    if_ok (exti_validate_line line)
      do store (write_pr (shl32 1 line)); pure (exti_validate_line line)
