-- ===== src/Gpio.antt =====
-- drivers/src/gpio.c and the types of drivers/inc/gpio.h. The configuration registers are
-- changed by software alone, so they are memory here. A pin is the number behind `GpioPin_e`.
pub mod Drive
pub mod Init
pub mod Places
pub mod Port
pub mod Refine
pub mod Replay
use stm32_rtos.Base.{
  ℕ, ◌+◌, ◌*◌, bit_and, bit_or, ltb, ◌==◌, ◌!=◌, ◌||◌, if◌then◌else◌, Bool, true, false,
}
use stm32_rtos.Bits.{inv32, shl32}
use stm32_rtos.Status.{DriverStatus, ok, err_invalid_param}
use stm32_rtos.Bus.{M, pure, ◌>>=◌, ◌>>◌, peek, store, if_ok}
use stm32_rtos.Reg.Gpio.{
  GpioRegisters, gpioa, gpiob, gpio_mode_analog, gpio_otype_od, gpio_ospeed_high, gpio_pupd_down,
  gpioa_moder_reset, gpioa_pupdr_reset, gpiob_moder_reset, gpiob_ospeedr_reset, gpiob_pupdr_reset,
  gpio_af_max,
}

pub data GpioPinState : Type 0 where
  gpio_pin_reset gpio_pin_set : GpioPinState

pub record GpioResetValues : Type 0 where
  pub moder : ℕ
  pub ospeedr : ℕ
  pub pupdr : ℕ

-- `GPIO_PIN_15`.
abbrev pub gpio_pin_15 : ℕ
gpio_pin_15 = 15

-- `(reg & ~(ones << shift)) | (value << shift)`.
abbrev pub set_field : ℕ → ℕ → ℕ → ℕ → ℕ
set_field ones shift value reg = bit_or (bit_and reg (inv32 (shl32 ones shift))) (shl32 value shift)

unfoldable pub gpio_validate_pin : ℕ → DriverStatus
gpio_validate_pin pin = if ltb gpio_pin_15 pin then err_invalid_param else ok

unfoldable pub gpio_init : ℕ → ℕ → ℕ → ℕ → ℕ → M GpioRegisters DriverStatus
unfolding gpio_validate_pin
gpio_init pin mode otype ospeed pupd = do
  let field_shift = pin * 2
  status ← pure (gpio_validate_pin pin)
  status ← if_ok status (
      pure (
        if ltb gpio_mode_analog mode
          || ltb gpio_otype_od otype
          || ltb gpio_ospeed_high ospeed
          || ltb gpio_pupd_down pupd
        then err_invalid_param
        else status))
  if_ok status do
    store (λ s. record s { otyper = set_field 1 pin otype s.otyper })
    store (λ s. record s { ospeedr = set_field 3 field_shift ospeed s.ospeedr })
    store (λ s. record s { pupdr = set_field 3 field_shift pupd s.pupdr })
    store (λ s. record s { moder = set_field 3 field_shift mode s.moder })
    pure status

pub gpio_port_reset_values : ℕ → GpioResetValues
gpio_port_reset_values port =
    if port == gpioa
    then record { moder = gpioa_moder_reset; ospeedr = 0; pupdr = gpioa_pupdr_reset }
    else if port == gpiob
    then record {
      moder = gpiob_moder_reset;
      ospeedr = gpiob_ospeedr_reset;
      pupdr = gpiob_pupdr_reset;
    }
    else record { moder = 0; ospeedr = 0; pupdr = 0 }

-- Where a pin's alternate function lies in AFRL or AFRH.
abbrev pub afr_shift : ℕ → ℕ
afr_shift pin_pos = bit_and pin_pos 0x7 * 4

-- A field taken back to its bits of a reset value.
abbrev pub restore_field : ℕ → ℕ → ℕ → ℕ
restore_field pin_field reset reg = bit_or (bit_and reg (inv32 pin_field)) (bit_and reset pin_field)

pub gpio_deinit_to_reset : ℕ → GpioResetValues → M GpioRegisters (Unit {0})
gpio_deinit_to_reset pin_pos reset = do
  let pin_field = shl32 0x3 (pin_pos * 2)
  store (λ s. record s { moder = restore_field pin_field reset.moder s.moder })
  store (λ s. record s { otyper = bit_and s.otyper (inv32 (shl32 0x1 pin_pos)) })
  store (λ s. record s { ospeedr = restore_field pin_field reset.ospeedr s.ospeedr })
  store (λ s. record s { pupdr = restore_field pin_field reset.pupdr s.pupdr })
  if ltb pin_pos 8
      then store (λ s. record s { afrl = bit_and s.afrl (inv32 (shl32 0xf (afr_shift pin_pos))) })
      else store (λ s. record s { afrh = bit_and s.afrh (inv32 (shl32 0xf (afr_shift pin_pos))) })

-- `port` is the address of the block that the store goes to.
pub gpio_deinit : ℕ → ℕ → M GpioRegisters (Unit {0})
unfolding gpio_deinit_to_reset gpio_port_reset_values
gpio_deinit port pin = gpio_deinit_to_reset pin (gpio_port_reset_values port)

unfoldable pub gpio_set_alternate_function : ℕ → ℕ → M GpioRegisters DriverStatus
unfolding gpio_validate_pin
gpio_set_alternate_function pin af = do
  status ← pure (gpio_validate_pin pin)
  status ← if_ok status (pure (if ltb gpio_af_max af then err_invalid_param else status))
  if_ok status do
    if ltb pin 8
        then store (λ s. record s { afrl = set_field 0xf (afr_shift pin) af s.afrl })
        else store (λ s. record s { afrh = set_field 0xf (afr_shift pin) af s.afrh })
    pure status

pub gpio_write_pin : ℕ → GpioPinState → M GpioRegisters (Unit {0})
gpio_write_pin pin gpio_pin_set = store (λ s. record s { bsrr = shl32 0x1 pin })
gpio_write_pin pin gpio_pin_reset = store (λ s. record s { bsrr = shl32 0x1 (pin + 16) })

pub gpio_read_pin : ℕ → M GpioRegisters GpioPinState
gpio_read_pin pin =
    peek (λ s. if bit_and s.idr (shl32 0x1 pin) != 0 then gpio_pin_set else gpio_pin_reset)

pub gpio_toggle_pin : ℕ → M GpioRegisters (Unit {0})
gpio_toggle_pin pin = do
  odr ← peek (λ s. s.odr)
  if bit_and odr (shl32 0x1 pin) != 0
      then store (λ s. record s { bsrr = shl32 0x1 (pin + 16) })
      else store (λ s. record s { bsrr = shl32 0x1 pin })
