-- ===== src/Gpio/Port.antt =====
-- A port as its driver promises it: a configuration for each pin, and what each call makes of
-- them.
use stm32_rtos.Base.{ℕ, ◌*◌, ltb, leb, ◌==◌, ◌&&◌, if◌then◌else◌, List, [], ◌∷◌, ◌≤◌}
use stm32_rtos.Bits.{field_of}
use stm32_rtos.Bus.{fresh}
use stm32_rtos.Gpio.{
  gpio_port_reset_values, afr_shift, gpio_init, gpio_set_alternate_function, gpio_deinit,
}
use stm32_rtos.Reg.Gpio.{GpioRegisters}

pub record PinConfig : Type 0 where
  pub mode : ℕ
  pub otype : ℕ
  pub ospeed : ℕ
  pub pupd : ℕ
  pub alternate : ℕ

-- The configuration of a pin, read off the registers.
abbrev pub view : GpioRegisters → ℕ → PinConfig
view s p = record {
  mode = field_of 2 (p * 2) s.moder;
  otype = field_of 1 p s.otyper;
  ospeed = field_of 2 (p * 2) s.ospeedr;
  pupd = field_of 2 (p * 2) s.pupdr;
  alternate = field_of 4 (afr_shift p) (if ltb p 8 then s.afrl else s.afrh);
}

-- A call of `gpioInit`, `gpioSetAlternateFunction` or `gpioDeinit`; the first argument of the
-- last is the address of the port.
pub data Call : Type 0 where
  init : (pin mode otype ospeed pupd : ℕ) → Call
  set_alternate : (pin af : ℕ) → Call
  deinit : (port pin : ℕ) → Call

-- What the caller owes: `gpioDeinit` has no check of the pin.
abbrev pub IsCall : Call → Type 0
IsCall (init pin mode otype ospeed pupd) = Unit
IsCall (set_alternate pin af) = Unit
IsCall (deinit port pin) = pin ≤ 15

-- A call on the registers. Its status is dropped.
abbrev pub step : Call → GpioRegisters → GpioRegisters
step (init pin mode otype ospeed pupd) s = (gpio_init pin mode otype ospeed pupd (fresh s 0)).1.regs
step (set_alternate pin af) s = (gpio_set_alternate_function pin af (fresh s 0)).1.regs
step (deinit port pin) s = (gpio_deinit port pin (fresh s 0)).1.regs

unfoldable pub run : List Call → GpioRegisters → GpioRegisters
run [] s = s
run (call ∷ calls) s = run calls (step call s)

abbrev pub update : (ℕ → PinConfig) → ℕ → PinConfig → ℕ → PinConfig
update f pin c p = if p == pin then c else f p

-- The configuration of a pin after reset.
abbrev pub reset_config : ℕ → ℕ → PinConfig
reset_config port p = record {
  mode = field_of 2 (p * 2) (gpio_port_reset_values port).moder;
  otype = 0;
  ospeed = field_of 2 (p * 2) (gpio_port_reset_values port).ospeedr;
  pupd = field_of 2 (p * 2) (gpio_port_reset_values port).pupdr;
  alternate = 0;
}

-- A call on the configurations: it sets those of its pin, or is refused and changes nothing.
abbrev pub apply : Call → (ℕ → PinConfig) → ℕ → PinConfig
apply (init pin mode otype ospeed pupd) f =
    if leb pin 15 && leb mode 3 && leb otype 1 && leb ospeed 3 && leb pupd 2
    then update f pin (record (f pin) { mode = mode; otype = otype; ospeed = ospeed; pupd = pupd })
    else f
apply (set_alternate pin af) f =
    if leb pin 15 && leb af 15 then update f pin (record (f pin) { alternate = af }) else f
apply (deinit port pin) f = update f pin (reset_config port pin)

unfoldable pub replay : List Call → (ℕ → PinConfig) → ℕ → PinConfig
replay [] f = f
replay (call ∷ calls) f = replay calls (apply call f)
