-- ===== src/Gpio/Drive.antt =====
-- `gpioWritePin` and `gpioTogglePin`: what their stores in BSRR make of the output of each pin.
use stm32_rtos.Base.{
  same, same-eq, ℕ, ◌+◌, ◌≤◌, ◌<◌, all_below, at_of_below, ◌==◌, ◌!=◌, ne→==, true, false,
  Bool-cases, if◌then◌else◌, Bool, [], ◌∷◌, bit_and, ◌≡◌, inl, inr, refl, arith,
}
use stm32_rtos.Bits.{shl32}
use stm32_rtos.Bus.{M, fresh}
use stm32_rtos.Gpio.{GpioPinState, gpio_write_pin, gpio_toggle_pin}
use stm32_rtos.Gpio.GpioPinState.{gpio_pin_reset, gpio_pin_set}
use stm32_rtos.Reg.Gpio.{GpioRegisters}

pub data Action : Type 0 where
  write : (state : GpioPinState) → Action
  toggle : Action

abbrev pub act : Action → ℕ → M GpioRegisters (Unit {0})
act (write state) pin = gpio_write_pin pin state
act toggle pin = gpio_toggle_pin pin

abbrev pub bit_set : ℕ → ℕ → Bool
bit_set r p = bit_and r (shl32 1 p) != 0

-- The level of an output after a store in BSRR, by the manual: its lower half sets the output of
-- a pin, its upper half clears it, and the lower half wins.
abbrev pub driven : ℕ → ℕ → Bool → Bool
driven bsrr p old = if bit_set bsrr p then true else if bit_set bsrr (p + 16) then false else old

-- The level that an action asks for, where the output had the level `old`.
abbrev pub asked : Action → Bool → Bool
asked (write gpio_pin_set) old = true
asked (write gpio_pin_reset) old = false
asked toggle old = if old then false else true

bit_test : ℕ → ℕ → Bool
bit_test a b = same (bit_set (shl32 1 a) b) (b == a)

bits_test : ℕ → Bool
bits_test a = all_below (bit_test a) 32

bits_32 : all_below bits_test 32 ≡ true
unfolding all_below bits_test bit_test
bits_32 = refl

bit_at : (a b : ℕ) → a < 32 → b < 32 → bit_set (shl32 1 a) b ≡ (b == a)
unfolding bits_test bit_test
bit_at a b fa fb =
    same-eq _ _ (at_of_below (bit_test a) 32 b (at_of_below bits_test 32 a bits_32 fa) fb)

module _ (pin p : ℕ) (old : Bool) (fits : pin ≤ 15) (low : p ≤ 15) where
  drives_high : driven (shl32 1 pin) p old ≡ (if p == pin then true else old)
  drives_high =
      let above : (p + 16 == pin) ≡ false = ne→== _ _ (λ e. absurd (omega arith)) in
      rw
        (
          bit_at pin p (omega arith) (omega arith),
          bit_at pin (p + 16) (omega arith) (omega arith),
          above,
        )
        refl

  drives_low : driven (shl32 1 (pin + 16)) p old ≡ (if p == pin then false else old)
  drives_low =
      let above : (p == pin + 16) ≡ false = ne→== _ _ (λ e. absurd (omega arith)) in
      let shifted : (p + 16 == pin + 16) ≡ (p == pin) = ground arith in
      rw
        (
          bit_at (pin + 16) p (omega arith) (omega arith),
          bit_at (pin + 16) (p + 16) (omega arith) (omega arith),
          above,
          shifted,
        )
        refl

-- For pins 0 to 15 `gpioWritePin` and `gpioTogglePin` make one store, which changes BSRR alone and
-- drives the output of the pin to the state asked for, for a toggle to the opposite of what ODR
-- shows, and leaves the output of every other pin at what ODR shows.
pub act_drives :
    (a : Action) (pin p : ℕ) (s : GpioRegisters) (t : ℕ)
    → pin ≤ 15
    → p ≤ 15
    → let r = act a pin (fresh s t) in
      (r.1.log ≡ r.1.regs ∷ [])
      × (r.1.regs ≡ record s { bsrr = r.1.regs.bsrr })
      × (driven r.1.regs.bsrr p (bit_set s.odr p)
          ≡ (if p == pin then asked a (bit_set s.odr pin) else bit_set s.odr p))
unfolding gpio_write_pin gpio_toggle_pin
act_drives (write gpio_pin_set) pin p s t fits low =
    (refl, refl, drives_high pin p (bit_set s.odr p) fits low)
act_drives (write gpio_pin_reset) pin p s t fits low =
    (refl, refl, drives_low pin p (bit_set s.odr p) fits low)
act_drives toggle pin p s t fits low = elim (Bool-cases (bit_set s.odr pin)) [
  | inl on ↦ rw on (refl, refl, drives_low pin p (bit_set s.odr p) fits low)
  | inr off ↦ rw off (refl, refl, drives_high pin p (bit_set s.odr p) fits low)
]
