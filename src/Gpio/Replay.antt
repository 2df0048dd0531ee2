-- ===== src/Gpio/Replay.antt =====
-- The driver implements the port: any sequence of calls on the registers reads, pin by pin, as
-- the same calls on the configurations.
use stm32_rtos.Base.{
  ℕ, ◌+◌, ◌*◌, ◌≤◌, ltb, leb, ◌==◌, ==→eq, ◌&&◌, Bool-cases, if◌then◌else◌, bit_and, ◌≡◌, ◌≢◌, refl,
  sym, ◌∙◌, inl, inr, List, [], ◌∷◌, All, arith,
}
use stm32_rtos.Bits.{
  shl32, inv32, field_of-restore, field_of-restore_other, field_of-clear, field_of-clear_other,
}
use stm32_rtos.Bus.{fresh}
use stm32_rtos.Gpio.{
  gpio_deinit, gpio_deinit_to_reset, gpio_port_reset_values, GpioResetValues, afr_shift,
  restore_field,
}
use stm32_rtos.Gpio.Port.{PinConfig, view, Call, IsCall, step, run, reset_config, apply, replay}
use stm32_rtos.Gpio.Port.Call.{init, set_alternate, deinit}
use stm32_rtos.Reg.Gpio.{GpioRegisters}
use stm32_rtos.Gpio.Places.{pairs_apart, singles_apart, quads_apart, afr_fits, config_eq}
use stm32_rtos.Gpio.Refine.{init_refines, set_alternate_refines}

-- The registers after `gpioDeinit`.
abbrev pub after_deinit : ℕ → GpioResetValues → GpioRegisters → GpioRegisters
after_deinit pin reset s =
    let common : GpioRegisters = record s {
      moder = restore_field (shl32 3 (pin * 2)) reset.moder s.moder;
      otyper = bit_and s.otyper (inv32 (shl32 1 pin));
      ospeedr = restore_field (shl32 3 (pin * 2)) reset.ospeedr s.ospeedr;
      pupdr = restore_field (shl32 3 (pin * 2)) reset.pupdr s.pupdr;
    } in
    if ltb pin 8
    then record common { afrl = bit_and s.afrl (inv32 (shl32 15 (afr_shift pin))) }
    else record common { afrh = bit_and s.afrh (inv32 (shl32 15 (afr_shift pin))) }

pub gpio_deinit_runs :
    (port pin : ℕ) (s : GpioRegisters)
    → (gpio_deinit port pin (fresh s 0)).1.regs ≡ after_deinit pin (gpio_port_reset_values port) s
unfolding gpio_deinit gpio_deinit_to_reset
gpio_deinit_runs port pin s = elim (Bool-cases (ltb pin 8)) [
  | inl low ↦ rw low refl
  | inr high ↦ rw high refl
]

module _ (port pin : ℕ) (s : GpioRegisters) (p : ℕ) (valid : pin ≤ 15) (fits : p ≤ 15) where
  deinit_here :
      p ≡ pin → view (after_deinit pin (gpio_port_reset_values port) s) p ≡ reset_config port pin
  deinit_here here =
      let reset = gpio_port_reset_values port in
      let room : afr_shift pin + 4 ≤ 32 = afr_fits pin valid in
      let mode = field_of-restore 2 (pin * 2) s.moder (omega arith) reset.moder in
      let otype = field_of-clear 1 pin s.otyper (omega arith) in
      let ospeed = field_of-restore 2 (pin * 2) s.ospeedr (omega arith) reset.ospeedr in
      let pupd = field_of-restore 2 (pin * 2) s.pupdr (omega arith) reset.pupdr in
      elim (Bool-cases (ltb pin 8)) [
        | inl low ↦
            rw (here, low)
              (config_eq _ _ mode otype ospeed pupd (field_of-clear 4 (afr_shift pin) s.afrl room))
        | inr high ↦
            rw (here, high)
              (config_eq _ _ mode otype ospeed pupd (field_of-clear 4 (afr_shift pin) s.afrh room))
      ]

  deinit_other : p ≢ pin → view (after_deinit pin (gpio_port_reset_values port) s) p ≡ view s p
  deinit_other ne =
      let reset = gpio_port_reset_values port in
      let two = pairs_apart pin p ne in
      let room : afr_shift pin + 4 ≤ 32 = afr_fits pin valid in
      let room' : afr_shift p + 4 ≤ 32 = afr_fits p fits in
      let mode =
        field_of-restore_other 2 (pin * 2) s.moder (omega arith) (p * 2) (omega arith) two
          reset.moder in
      let otype =
        field_of-clear_other 1 pin s.otyper (omega arith) p (omega arith)
          (singles_apart pin p ne) in
      let ospeed =
        field_of-restore_other 2 (pin * 2) s.ospeedr (omega arith) (p * 2) (omega arith) two
          reset.ospeedr in
      let pupd =
        field_of-restore_other 2 (pin * 2) s.pupdr (omega arith) (p * 2) (omega arith) two
          reset.pupdr in
      elim (Bool-cases (ltb pin 8)) [
        | inl low ↦ elim (Bool-cases (ltb p 8)) [
          | inl low' ↦
              rw (low, low')
                (config_eq _ _ mode otype ospeed pupd (
                  field_of-clear_other 4 (afr_shift pin) s.afrl room (afr_shift p) room'
                    (quads_apart pin p valid fits ne (low' ∙ sym low))))
          | inr high' ↦ rw (low, high') (config_eq _ _ mode otype ospeed pupd refl)
        ]
        | inr high ↦ elim (Bool-cases (ltb p 8)) [
          | inl low' ↦ rw (high, low') (config_eq _ _ mode otype ospeed pupd refl)
          | inr high' ↦
              rw (high, high')
                (config_eq _ _ mode otype ospeed pupd (
                  field_of-clear_other 4 (afr_shift pin) s.afrh room (afr_shift p) room'
                    (quads_apart pin p valid fits ne (high' ∙ sym high))))
        ]
      ]

  deinit_refines :
      view (gpio_deinit port pin (fresh s 0)).1.regs p ≡ apply (deinit port pin) (view s) p
  deinit_refines = rw (gpio_deinit_runs port pin s) elim (Bool-cases (p == pin)) [
    | inl here ↦ rw here (deinit_here (==→eq _ _ here))
    | inr other ↦ rw other (deinit_other (λ e. ground arith))
  ]

-- A call looks at no configuration but that of the pin asked for, or of its own.
apply_same :
    (call : Call) (f g : ℕ → PinConfig)
    → IsCall call
    → ((q : ℕ) → q ≤ 15 → f q ≡ g q)
    → (p : ℕ) → p ≤ 15
    → apply call f p ≡ apply call g p
apply_same (init pin mode otype ospeed pupd) f g h same p hp =
    elim (Bool-cases (leb pin 15 && leb mode 3 && leb otype 1 && leb ospeed 3 && leb pupd 2)) [
      | inl valid ↦ rw (valid, same p hp, same pin (ground arith)) refl
      | inr refused ↦ rw (refused, same p hp) refl
    ]
apply_same (set_alternate pin af) f g h same p hp = elim (Bool-cases (leb pin 15 && leb af 15)) [
  | inl valid ↦ rw (valid, same p hp, same pin (ground arith)) refl
  | inr refused ↦ rw (refused, same p hp) refl
]
apply_same (deinit port pin) f g h same p hp = rw (same p hp) refl

replay_same :
    (calls : List Call) (f g : ℕ → PinConfig)
    → All IsCall calls
    → ((q : ℕ) → q ≤ 15 → f q ≡ g q)
    → (p : ℕ) → p ≤ 15
    → replay calls f p ≡ replay calls g p
unfolding replay
replay_same [] f g h same p hp = same p hp
replay_same (call ∷ calls) f g (h, hs) same p hp =
    replay_same calls _ _ hs (apply_same call f g h same) p hp

call_refines :
    (call : Call) (s : GpioRegisters)
    → IsCall call
    → (p : ℕ) → p ≤ 15
    → view (step call s) p ≡ apply call (view s) p
call_refines (init pin mode otype ospeed pupd) s h p hp =
    init_refines pin mode otype ospeed pupd s p hp
call_refines (set_alternate pin af) s h p hp = set_alternate_refines pin af s p hp
call_refines (deinit port pin) s h p hp = deinit_refines port pin s p h hp

-- Whatever calls of `gpioInit`, `gpioSetAlternateFunction` and, on pins 0 to 15, `gpioDeinit` are
-- made in whatever order, the registers read at each pin as the same calls on the configurations.
pub run_refines :
    (calls : List Call) (s : GpioRegisters) (p : ℕ)
    → All IsCall calls
    → p ≤ 15
    → view (run calls s) p ≡ replay calls (view s) p
unfolding run replay
run_refines [] s p h hp = refl
run_refines (call ∷ calls) s p (h, hs) hp =
    run_refines calls (step call s) p hs hp ∙ replay_same calls _ _ hs (call_refines call s h) p hp
