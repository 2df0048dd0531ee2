-- ===== src/Gpio/Refine.antt =====
-- `gpioInit` and `gpioSetAlternateFunction` implement the port: they read as their calls on the
-- configurations.
use stm32_rtos.Base.{
  ℕ, ◌+◌, ◌*◌, ◌≤◌, ltb, leb, ◌==◌, ==→eq, ◌&&◌, Bool-cases, if◌then◌else◌, true, false, ◌≡◌, ◌≢◌,
  refl, sym, ◌∙◌, inl, inr, arith,
}
use stm32_rtos.Bits.{field_of-set, field_of-set_other}
use stm32_rtos.Bus.{fresh}
use stm32_rtos.Gpio.{
  gpio_init, gpio_set_alternate_function, gpio_validate_pin, afr_shift, set_field,
}
use stm32_rtos.Gpio.Init.{IsRequest, gpio_init_runs, IsRequest-cases, after_moder}
use stm32_rtos.Gpio.Port.{view, apply}
use stm32_rtos.Gpio.Port.Call.{init, set_alternate}
use stm32_rtos.Reg.Gpio.{GpioRegisters}
use stm32_rtos.Gpio.Places.{pairs_apart, singles_apart, quads_apart, afr_fits, config_eq}

-- The four fields that `gpioInit` sets, at its own pin and at another.
module _ (pin mode otype ospeed pupd : ℕ) (s : GpioRegisters) (p : ℕ) (fits : p ≤ 15) where
  init_here :
      IsRequest pin mode otype ospeed pupd
      → p ≡ pin
      → view (after_moder pin mode otype ospeed pupd s) p
        ≡ record (view s pin) { mode = mode; otype = otype; ospeed = ospeed; pupd = pupd }
  init_here h here = rw here (
      config_eq _ _ (field_of-set 2 (pin * 2) s.moder (omega arith) mode (omega arith))
        (field_of-set 1 pin s.otyper (omega arith) otype (omega arith))
        (field_of-set 2 (pin * 2) s.ospeedr (omega arith) ospeed (omega arith))
        (field_of-set 2 (pin * 2) s.pupdr (omega arith) pupd (omega arith)) refl)

  init_other :
      IsRequest pin mode otype ospeed pupd
      → p ≢ pin
      → view (after_moder pin mode otype ospeed pupd s) p ≡ view s p
  init_other h ne =
      let two = pairs_apart pin p ne in
      let one = singles_apart pin p ne in
      config_eq _ _
        (field_of-set_other 2 (pin * 2) s.moder (omega arith) (p * 2) (omega arith) two mode
          (omega arith))
        (field_of-set_other 1 pin s.otyper (omega arith) p (omega arith) one otype (omega arith))
        (field_of-set_other 2 (pin * 2) s.ospeedr (omega arith) (p * 2) (omega arith) two ospeed
          (omega arith))
        (field_of-set_other 2 (pin * 2) s.pupdr (omega arith) (p * 2) (omega arith) two pupd
          (omega arith))
        refl

  pub init_refines :
      view (gpio_init pin mode otype ospeed pupd (fresh s 0)).1.regs p
      ≡ apply (init pin mode otype ospeed pupd) (view s) p
  init_refines =
      elim (Bool-cases (leb pin 15 && leb mode 3 && leb otype 1 && leb ospeed 3 && leb pupd 2)) [
        | inl valid ↦
            let request : IsRequest pin mode otype ospeed pupd = record {
              pin_fits = ground arith;
              mode_fits = ground arith;
              otype_fits = ground arith;
              ospeed_fits = ground arith;
              pupd_fits = ground arith;
            } in
            rw (valid, gpio_init_runs pin mode otype ospeed pupd s 0 request)
              elim (Bool-cases (p == pin)) [
                | inl here ↦ rw here (init_here request (==→eq _ _ here))
                | inr other ↦ rw other (init_other request (λ e. ground arith))
              ]
        | inr refused ↦ elim (IsRequest-cases pin mode otype ospeed pupd s 0) [
          | inl r ↦
              let a = r.pin_fits in
              let b = r.mode_fits in
              let c = r.otype_fits in
              let d = r.ospeed_fits in let e = r.pupd_fits in absurd (ground arith)
          | inr same ↦ rw (refused, same) refl
        ]
      ]

-- The registers after `gpioSetAlternateFunction`.
abbrev pub after_af : ℕ → ℕ → GpioRegisters → GpioRegisters
after_af pin af s =
    if ltb pin 8
    then record s { afrl = set_field 15 (afr_shift pin) af s.afrl }
    else record s { afrh = set_field 15 (afr_shift pin) af s.afrh }

pub gpio_set_alternate_runs :
    (pin af : ℕ) (s : GpioRegisters)
    → (gpio_set_alternate_function pin af (fresh s 0)).1.regs
      ≡ (if leb pin 15 && leb af 15 then after_af pin af s else s)
unfolding gpio_set_alternate_function gpio_validate_pin
gpio_set_alternate_runs pin af s = elim (Bool-cases (ltb 15 pin)) [
  | inl out ↦ let out' : leb pin 15 ≡ false = ground arith in rw (out, out') refl
  | inr fits ↦
      let fits' : leb pin 15 ≡ true = ground arith in
      elim (Bool-cases (ltb 15 af)) [
        | inl big ↦ let big' : leb af 15 ≡ false = ground arith in rw (fits, fits', big, big') refl
        | inr small ↦
            let small' : leb af 15 ≡ true = ground arith in
            elim (Bool-cases (ltb pin 8)) [
              | inl low ↦ rw (fits, fits', small, small', low) refl
              | inr high ↦ rw (fits, fits', small, small', high) refl
            ]
      ]
]

module _ (pin af : ℕ) (s : GpioRegisters) (p : ℕ) (fits : p ≤ 15) where
  set_here : af ≤ 15 → p ≡ pin → view (after_af pin af s) p ≡ record (view s pin) { alternate = af }
  set_here h here =
      let room : afr_shift pin + 4 ≤ 32 = afr_fits pin (omega arith) in
      elim (Bool-cases (ltb pin 8)) [
        | inl low ↦
            rw (here, low)
              (config_eq _ _ refl refl refl refl
                (field_of-set 4 (afr_shift pin) s.afrl room af (omega arith)))
        | inr high ↦
            rw (here, high)
              (config_eq _ _ refl refl refl refl
                (field_of-set 4 (afr_shift pin) s.afrh room af (omega arith)))
      ]

  set_other : pin ≤ 15 → af ≤ 15 → p ≢ pin → view (after_af pin af s) p ≡ view s p
  set_other h h' ne =
      let room : afr_shift pin + 4 ≤ 32 = afr_fits pin h in
      let room' : afr_shift p + 4 ≤ 32 = afr_fits p fits in
      elim (Bool-cases (ltb pin 8)) [
        | inl low ↦ elim (Bool-cases (ltb p 8)) [
          | inl low' ↦
              rw (low, low')
                (config_eq _ _ refl refl refl refl (
                  field_of-set_other 4 (afr_shift pin) s.afrl room (afr_shift p) room'
                    (quads_apart pin p h fits ne (low' ∙ sym low)) af (omega arith)))
          | inr high' ↦ rw (low, high') refl
        ]
        | inr high ↦ elim (Bool-cases (ltb p 8)) [
          | inl low' ↦ rw (high, low') refl
          | inr high' ↦
              rw (high, high')
                (config_eq _ _ refl refl refl refl (
                  field_of-set_other 4 (afr_shift pin) s.afrh room (afr_shift p) room'
                    (quads_apart pin p h fits ne (high' ∙ sym high)) af (omega arith)))
        ]
      ]

  pub set_alternate_refines :
      view (gpio_set_alternate_function pin af (fresh s 0)).1.regs p
      ≡ apply (set_alternate pin af) (view s) p
  set_alternate_refines = elim (Bool-cases (leb pin 15 && leb af 15)) [
    | inl valid ↦
        let h : pin ≤ 15 = ground arith in
        let h' : af ≤ 15 = ground arith in
        rw (gpio_set_alternate_runs pin af s, valid)
          elim (Bool-cases (p == pin)) [
            | inl here ↦ rw here (set_here h' (==→eq _ _ here))
            | inr other ↦ rw other (set_other h h' (λ e. ground arith))
          ]
    | inr refused ↦ rw (gpio_set_alternate_runs pin af s, refused) refl
  ]
