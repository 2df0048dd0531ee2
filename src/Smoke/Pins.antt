-- ===== src/Smoke/Pins.antt =====
-- The calls of `boardIoInit` on GPIOA, pin by pin.
use stm32_rtos.Gpio.Replay.{run_refines}
use stm32_rtos.Gpio.Port.Call.{init, set_alternate}
use stm32_rtos.Gpio.Port.{PinConfig, view, Call, run, replay}
use stm32_rtos.Gpio.{gpio_init, gpio_set_alternate_function, gpio_validate_pin}
use stm32_rtos.Base.{
  ℕ, ◌≤◌, ◌≡◌, refl, inl, inr, [], ◌∷◌, ◌==◌, ◌||◌, if◌then◌else◌, List, ◌∙◌, Bool-cases, ==→eq,
}
use stm32_rtos.Status.{ok}
use stm32_rtos.Bus.{fresh}
use stm32_rtos.Reg.Gpio.{GpioRegisters}
use stm32_rtos.Smoke.Board.{board_pins}

-- The pins as `boardIoInit` sets them up.
abbrev pub board_config : (ℕ → PinConfig) → ℕ → PinConfig
board_config f p =
    if p == 5
    then record { mode = 1; otype = 0; ospeed = 0; pupd = 0; alternate = (f p).alternate }
    else if p == 2 || p == 3
    then record { mode = 2; otype = 0; ospeed = 1; pupd = 0; alternate = 7 }
    else f p

abbrev pin_calls : List Call
pin_calls =
    init 5 1 0 0 0 ∷ set_alternate 2 7 ∷ set_alternate 3 7 ∷ init 2 2 0 1 0 ∷ init 3 2 0 1 0 ∷ []

pub pins_ok : (s : GpioRegisters) → (board_pins (fresh s 0)).0 ≡ ok
unfolding board_pins gpio_init gpio_set_alternate_function gpio_validate_pin
pins_ok s = refl

pins_run : (s : GpioRegisters) → (board_pins (fresh s 0)).1.regs ≡ run pin_calls s
unfolding board_pins gpio_init gpio_set_alternate_function gpio_validate_pin run
pins_run s = refl

pins_replayed : (f : ℕ → PinConfig) (p : ℕ) → replay pin_calls f p ≡ board_config f p
unfolding replay
pins_replayed f p = elim (Bool-cases (p == 5)) [
  | inl led ↦ rw (==→eq _ _ led) refl
  | inr not_led ↦ elim (Bool-cases (p == 2)) [
    | inl tx ↦ rw (==→eq _ _ tx) refl
    | inr not_tx ↦ elim (Bool-cases (p == 3)) [
      | inl rx ↦ rw (==→eq _ _ rx) refl
      | inr not_rx ↦ rw (not_led, not_tx, not_rx) refl
    ]
  ]
]

pub board_pins-config :
    (s : GpioRegisters) (p : ℕ)
    → p ≤ 15
    → view (board_pins (fresh s 0)).1.regs p ≡ board_config (view s) p
board_pins-config s p fits =
    rw (pins_run s)
      (run_refines pin_calls s p (tt, (tt, (tt, (tt, (tt, tt))))) fits ∙ pins_replayed (view s) p)
