-- ===== src/Systick/Period.antt =====
-- `systickInit`: the period that it sets, the order of its stores, and what it refuses.
use stm32_rtos.Base.{
  List, ◌∷◌, div_bounds, ℕ, ◌+◌, ◌*◌, ◌/◌, ◌-◌, ◌≤◌, ◌<◌, ◌==◌, ◌||◌, ltb, Bool-cases, false,
  bit_and, ◌≡◌, ◌≢◌, refl, ◌⊎◌, inl, inr, arith, All, ap,
}
use stm32_rtos.Status.{ok, err_invalid_param, not_refused}
use stm32_rtos.Bus.{fresh}
use stm32_rtos.Systick.{systick_init, systick_reload}
use stm32_rtos.Reg.Systick.{SysTickRegisters, systick_ctrl_enable}

-- The requests that `systickInit` accepts: both rates given, and from 2 clocks to 2 ^ 24.
pub record IsTick (core_hz tick_hz : ℕ) : Type 0 where
  pub core_given : core_hz ≢ 0
  pub tick_given : tick_hz ≢ 0
  pub two_clocks : 2 ≤ core_hz / tick_hz
  pub reload_fits : core_hz / tick_hz ≤ 16777216

abbrev pub IsOff : SysTickRegisters → Type 0
IsOff s = bit_and s.ctrl systick_ctrl_enable ≡ 0

module _ (core_hz tick_hz : ℕ) (s : SysTickRegisters) (t : ℕ) where
  IsTick-cases :
      IsTick core_hz tick_hz
      ⊎ (systick_init core_hz tick_hz (fresh s t) ≡ (err_invalid_param, fresh s t))
  unfolding systick_init systick_reload
  IsTick-cases = elim (Bool-cases (core_hz == 0 || tick_hz == 0)) [
    | inl bad ↦ inr (rw bad)
    | inr given ↦ elim (Bool-cases (ltb (core_hz / tick_hz) 2)) [
      | inl bad ↦ inr (rw (given, bad))
      | inr two ↦ elim (Bool-cases (ltb 0xffffff (core_hz / tick_hz - 1))) [
        | inl bad ↦ inr (rw (given, two, bad))
        | inr fits ↦ inl (record {
          core_given = ground arith;
          tick_given = ground arith;
          two_clocks = ground arith;
          reload_fits = ground arith;
        })
      ]
    ]
  ]

  -- `systickInit` refuses every other request with INVALID_PARAM, and then stores nothing.
  pub systick_init_refused :
      ¬ IsTick core_hz tick_hz
      → systick_init core_hz tick_hz (fresh s t) ≡ (err_invalid_param, fresh s t)
  systick_init_refused h = elim IsTick-cases [
    | inl valid ↦ absurd (h valid)
    | inr refused ↦ refused
  ]

  -- For an accepted request `systickInit` returns OK with a period of LOAD + 1 clocks, the most
  -- that fits the tick: `tick_hz` ticks take at most `core_hz` clocks and one clock more each
  -- would exceed them. VAL is 0, CTRL is 7, and the counter is off in every state that it stores
  -- before the last.
  pub systick_init_period :
      IsTick core_hz tick_hz
      → let r = systick_init core_hz tick_hz (fresh s t) in
        (r.0 ≡ ok)
        × ((r.1.regs.load + 1) * tick_hz ≤ core_hz)
        × (core_hz < (r.1.regs.load + 2) * tick_hz)
        × (r.1.regs.load < 16777216)
        × (r.1.regs.val ≡ 0)
        × (r.1.regs.ctrl ≡ 7)
        × ((earlier : List SysTickRegisters) × (r.1.log ≡ r.1.regs ∷ earlier) × All IsOff earlier)
  unfolding systick_init systick_reload
  systick_init_period h =
      let given : (core_hz == 0 || tick_hz == 0) ≡ false = ground arith in
      let two : ltb (core_hz / tick_hz) 2 ≡ false = ground arith in
      let fits : ltb 0xffffff (core_hz / tick_hz - 1) ≡ false = ground arith in
      let period = div_bounds core_hz tick_hz h.tick_given in
      let load_next : core_hz / tick_hz - 1 + 1 ≡ core_hz / tick_hz = omega arith in
      let load_after : core_hz / tick_hz - 1 + 2 ≡ core_hz / tick_hz + 1 = omega arith in
      rw (given, two, fits)
        (
          refl,
          rw load_next period.0,
          rw load_after (grind (arith, period)),
          omega arith,
          refl,
          refl,
          (_, refl, (refl, (refl, (refl, tt)))),
        )

  -- Where the two rates are not 0 and their quotient is from 2 to 16777216, `systickInit` returns OK
  -- with a period of LOAD + 1 clocks, the most that fits the tick: `tick_hz` ticks take at most
  -- `core_hz` clocks and one clock more each would exceed them. VAL is 0, CTRL is 7, and the
  -- counter is off in every state that it stores before the last. For any other rates it returns
  -- INVALID_PARAM and stores nothing.
  pub systick_init_outcome :
      let r = systick_init core_hz tick_hz (fresh s t) in
      (IsTick core_hz tick_hz
        × (r.0 ≡ ok)
        × ((r.1.regs.load + 1) * tick_hz ≤ core_hz)
        × (core_hz < (r.1.regs.load + 2) * tick_hz)
        × (r.1.regs.load < 16777216)
        × (r.1.regs.val ≡ 0)
        × (r.1.regs.ctrl ≡ 7)
        × ((earlier : List SysTickRegisters) × (r.1.log ≡ r.1.regs ∷ earlier) × All IsOff earlier))
      ⊎ (¬ IsTick core_hz tick_hz) × (r ≡ (err_invalid_param, fresh s t))
  systick_init_outcome = elim IsTick-cases [
    | inl h ↦
        let (done, longest, most, fits, cleared, started, off) = systick_init_period h in
        inl (h, done, longest, most, fits, cleared, started, off)
    | inr refused ↦
        inr (λ h. not_refused _ (systick_init_period h).0 (ap (λ p. p.0) refused), refused)
  ]
