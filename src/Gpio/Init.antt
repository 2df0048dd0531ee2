-- ===== src/Gpio/Init.antt =====
-- `gpioInit`: the pin that it configures, the other pins, and the order of its stores.
use stm32_rtos.Base.{
  ℕ, ◌+◌, ◌*◌, ◌≤◌, ◌≡◌, ◌≢◌, ◌⊎◌, inl, inr, bit_and, arith, All, [], ◌∷◌, refl, ltb, ◌||◌, false,
  Bool-cases, ap,
}
use stm32_rtos.Bits.{shl32, mask_read, mask_frame}
use stm32_rtos.Status.{ok, err_invalid_param, not_refused}
use stm32_rtos.Bus.{fresh}
use stm32_rtos.Gpio.{gpio_init, gpio_validate_pin, set_field}
use stm32_rtos.Reg.Gpio.{GpioRegisters}

-- The domain of `gpioInit`: pins 0 to 15 and the values of the four fields.
pub record IsRequest (pin mode otype ospeed pupd : ℕ) : Type 0 where
  pub pin_fits : pin ≤ 15
  pub mode_fits : mode ≤ 3
  pub otype_fits : otype ≤ 1
  pub ospeed_fits : ospeed ≤ 3
  pub pupd_fits : pupd ≤ 2

-- The four fields of a pin.
pub record IsConfigured (s : GpioRegisters) (pin mode otype ospeed pupd : ℕ) : Type 0 where
  pub moder_field : bit_and s.moder (shl32 3 (pin * 2)) ≡ shl32 mode (pin * 2)
  pub otyper_field : bit_and s.otyper (shl32 1 pin) ≡ shl32 otype pin
  pub ospeedr_field : bit_and s.ospeedr (shl32 3 (pin * 2)) ≡ shl32 ospeed (pin * 2)
  pub pupdr_field : bit_and s.pupdr (shl32 3 (pin * 2)) ≡ shl32 pupd (pin * 2)

-- The four fields of a pin are the same in two states.
pub record SamePin (s t : GpioRegisters) (pin : ℕ) : Type 0 where
  pub same_moder : bit_and s.moder (shl32 3 (pin * 2)) ≡ bit_and t.moder (shl32 3 (pin * 2))
  pub same_otyper : bit_and s.otyper (shl32 1 pin) ≡ bit_and t.otyper (shl32 1 pin)
  pub same_ospeedr : bit_and s.ospeedr (shl32 3 (pin * 2)) ≡ bit_and t.ospeedr (shl32 3 (pin * 2))
  pub same_pupdr : bit_and s.pupdr (shl32 3 (pin * 2)) ≡ bit_and t.pupdr (shl32 3 (pin * 2))

-- The four stores of `gpioInit`, in order.
module _ (pin mode otype ospeed pupd : ℕ) (s : GpioRegisters) where
  abbrev pub after_otyper : GpioRegisters
  after_otyper = record s { otyper = set_field 1 pin otype s.otyper }

  abbrev pub after_ospeedr : GpioRegisters
  after_ospeedr = record after_otyper { ospeedr = set_field 3 (pin * 2) ospeed s.ospeedr }

  abbrev pub after_pupdr : GpioRegisters
  after_pupdr = record after_ospeedr { pupdr = set_field 3 (pin * 2) pupd s.pupdr }

  abbrev pub after_moder : GpioRegisters
  after_moder = record after_pupdr { moder = set_field 3 (pin * 2) mode s.moder }

  pub gpio_init_runs :
      (t : ℕ)
      → IsRequest pin mode otype ospeed pupd
      → gpio_init pin mode otype ospeed pupd (fresh s t) ≡ (
        ok,
        record {
          regs = after_moder;
          time = t;
          log = after_moder ∷ after_pupdr ∷ after_ospeedr ∷ after_otyper ∷ [];
        },
      )
  unfolding gpio_init gpio_validate_pin
  gpio_init_runs t h =
      let pin_ok : ltb 15 pin ≡ false = ground arith in
      let fields_ok : (ltb 3 mode || ltb 1 otype || ltb 3 ospeed || ltb 2 pupd) ≡ false =
        ground arith in
      rw (pin_ok, fields_ok)

  -- Either the arguments are in the domain, or the call is refused.
  pub IsRequest-cases :
      (t : ℕ)
      → IsRequest pin mode otype ospeed pupd
        ⊎ (gpio_init pin mode otype ospeed pupd (fresh s t) ≡ (err_invalid_param, fresh s t))
  unfolding gpio_init gpio_validate_pin
  IsRequest-cases t = elim (Bool-cases (ltb 15 pin)) [
    | inl out ↦ inr (rw out)
    | inr pin_ok ↦ elim (Bool-cases (ltb 3 mode || ltb 1 otype || ltb 3 ospeed || ltb 2 pupd)) [
      | inl bad ↦ inr (rw (pin_ok, bad))
      | inr fields_ok ↦ inl (record {
        pin_fits = ground arith;
        mode_fits = ground arith;
        otype_fits = ground arith;
        ospeed_fits = ground arith;
        pupd_fits = ground arith;
      })
    ]
  ]

  kept :
      (other : ℕ)
      → IsRequest pin mode otype ospeed pupd
      → other ≤ 15
      → other ≢ pin
      → SamePin after_moder s other
  kept other h fits ne =
      let apart : (pin * 2 + 2 ≤ other * 2) ⊎ (other * 2 + 2 ≤ pin * 2) = grind arith in
      let apart' : (pin + 1 ≤ other) ⊎ (other + 1 ≤ pin) = grind arith in
      record {
        same_moder =
            mask_frame 2 (pin * 2) mode s.moder (other * 2) (omega arith) (omega arith)
              (omega arith) apart;
        same_otyper =
            mask_frame 1 pin otype s.otyper other (omega arith) (omega arith) (omega arith) apart';
        same_ospeedr =
            mask_frame 2 (pin * 2) ospeed s.ospeedr (other * 2) (omega arith) (omega arith)
              (omega arith) apart;
        same_pupdr =
            mask_frame 2 (pin * 2) pupd s.pupdr (other * 2) (omega arith) (omega arith)
              (omega arith) apart;
      }

  configured :
      IsRequest pin mode otype ospeed pupd → IsConfigured after_moder pin mode otype ospeed pupd
  configured h = record {
    moder_field = mask_read 2 (pin * 2) mode s.moder (omega arith) (omega arith);
    otyper_field = mask_read 1 pin otype s.otyper (omega arith) (omega arith);
    ospeedr_field = mask_read 2 (pin * 2) ospeed s.ospeedr (omega arith) (omega arith);
    pupdr_field = mask_read 2 (pin * 2) pupd s.pupdr (omega arith) (omega arith);
  }

-- Within its domain `gpioInit` returns OK and sets the pin's four fields to the arguments.
pub gpio_init-IsConfigured :
    (pin mode otype ospeed pupd : ℕ) (s : GpioRegisters) (t : ℕ)
    → IsRequest pin mode otype ospeed pupd
    → let r = gpio_init pin mode otype ospeed pupd (fresh s t) in
      (r.0 ≡ ok) × IsConfigured r.1.regs pin mode otype ospeed pupd
gpio_init-IsConfigured pin mode otype ospeed pupd s t h =
    rw (gpio_init_runs pin mode otype ospeed pupd s t h)
      (refl, configured pin mode otype ospeed pupd s h)

-- Whatever it returns, `gpioInit` leaves the four fields of every other pin as they were.
pub gpio_init-SamePin :
    (pin mode otype ospeed pupd other : ℕ) (s : GpioRegisters) (t : ℕ)
    → other ≤ 15
    → other ≢ pin
    → SamePin (gpio_init pin mode otype ospeed pupd (fresh s t)).1.regs s other
gpio_init-SamePin pin mode otype ospeed pupd other s t fits ne =
    elim (IsRequest-cases pin mode otype ospeed pupd s t) [
      | inl h ↦
          rw (gpio_init_runs pin mode otype ospeed pupd s t h)
            (kept pin mode otype ospeed pupd s other h fits ne)
      | inr refused ↦
          rw refused (record {
            same_moder = refl;
            same_otyper = refl;
            same_ospeedr = refl;
            same_pupdr = refl;
          })
    ]

-- `gpioInit` stores no state in which MODER has changed and the pin is not fully configured.
pub gpio_init-moder_last :
    (pin mode otype ospeed pupd : ℕ) (s : GpioRegisters) (t : ℕ)
    → All
        (λ s'. (s'.moder ≡ s.moder) ⊎ IsConfigured s' pin mode otype ospeed pupd)
        (gpio_init pin mode otype ospeed pupd (fresh s t)).1.log
gpio_init-moder_last pin mode otype ospeed pupd s t =
    elim (IsRequest-cases pin mode otype ospeed pupd s t) [
      | inl h ↦
          rw (gpio_init_runs pin mode otype ospeed pupd s t h) (
            inr (configured pin mode otype ospeed pupd s h),
            (inl refl, (inl refl, (inl refl, tt))),
          )
      | inr refused ↦ rw refused tt
    ]

-- Outside its domain `gpioInit` returns INVALID_PARAM, and stores nothing.
pub gpio_init_refused :
    (pin mode otype ospeed pupd : ℕ) (s : GpioRegisters) (t : ℕ)
    → ¬ IsRequest pin mode otype ospeed pupd
    → gpio_init pin mode otype ospeed pupd (fresh s t) ≡ (err_invalid_param, fresh s t)
gpio_init_refused pin mode otype ospeed pupd s t h =
    elim (IsRequest-cases pin mode otype ospeed pupd s t) [
      | inl valid ↦ absurd (h valid)
      | inr refused ↦ refused
    ]

-- For pins 0 to 15 and values in range `gpioInit` returns OK, sets the four fields of the pin to the
-- arguments, and stores no state in which MODER has changed and the pin is not fully configured.
-- For any other argument it returns INVALID_PARAM and stores nothing.
pub gpio_init_outcome :
    (pin mode otype ospeed pupd : ℕ) (s : GpioRegisters) (t : ℕ)
    → let r = gpio_init pin mode otype ospeed pupd (fresh s t) in
      (IsRequest pin mode otype ospeed pupd
        × (r.0 ≡ ok)
        × IsConfigured r.1.regs pin mode otype ospeed pupd
        × All (λ s'. (s'.moder ≡ s.moder) ⊎ IsConfigured s' pin mode otype ospeed pupd) r.1.log)
      ⊎ (¬ IsRequest pin mode otype ospeed pupd) × (r ≡ (err_invalid_param, fresh s t))
gpio_init_outcome pin mode otype ospeed pupd s t =
    elim (IsRequest-cases pin mode otype ospeed pupd s t) [
      | inl h ↦
          let done = gpio_init-IsConfigured pin mode otype ospeed pupd s t h in
          inl (h, done.0, done.1, gpio_init-moder_last pin mode otype ospeed pupd s t)
      | inr refused ↦ inr (
        λ h.
            not_refused _ (gpio_init-IsConfigured pin mode otype ospeed pupd s t h).0
              (ap (λ p. p.0) refused),
        refused,
      )
    ]
