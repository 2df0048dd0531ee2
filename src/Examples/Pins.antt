-- ===== src/Examples/Pins.antt =====
-- Pin 5 of a port, and EXTI line 13.
use stm32_rtos.Base.{
  inl, false, some, ◌==◌, if◌then◌else◌, ◌%◌, ◌*◌, ◌≡◌, ◌⊎◌, refl, All, arith, List, [], ◌∷◌,
}
use stm32_rtos.Bits.{shl32}
use stm32_rtos.Status.{ok, err_invalid_param}
use stm32_rtos.Bus.{fresh}
use stm32_rtos.Gpio.{gpio_init}
use stm32_rtos.Gpio.Port.{Call, IsCall, view, run, replay}
use stm32_rtos.Gpio.Port.Call.{init, set_alternate, deinit}
use stm32_rtos.Gpio.Replay.{run_refines}
use stm32_rtos.Gpio.Init.{IsRequest, IsConfigured, gpio_init_outcome}
use stm32_rtos.Exti.{exti_is_pending, exti_clear_pending, SyscfgRegisters, exti_select_port}
use stm32_rtos.Exti.Pending.{is_pending, is_raised, exti_is_pending-exti_clear_pending}
use stm32_rtos.Exti.Replay.{calls_refine}
use stm32_rtos.Exti.Table
use stm32_rtos.Exti.Table.Call.{configure, enable, trigger, clear}
use stm32_rtos.Exti.Port.{line_field, port_base, exti_select_port_fields}
use stm32_rtos.Gpio.Drive.{act, driven, bit_set, asked, act_drives}
use stm32_rtos.Gpio.Drive.Action.{toggle}
use stm32_rtos.Reg.Gpio.{GpioRegisters, gpiob}
use stm32_rtos.Reg.Exti.{ExtiRegisters}

abbrev port : GpioRegisters
port = record {
  moder = 0xa8000000;
  otyper = 0;
  ospeedr = 0xc000000;
  pupdr = 0x64000000;
  idr = 0;
  odr = 0;
  bsrr = 0;
  lckr = 0;
  afrl = 0;
  afrh = 0;
}

-- LD2 on PA5.
gpio_init_outcome_example :
    let r = gpio_init 5 1 0 0 0 (fresh port 0) in
    (IsRequest 5 1 0 0 0
      × (r.0 ≡ ok)
      × IsConfigured r.1.regs 5 1 0 0 0
      × All (λ s'. (s'.moder ≡ port.moder) ⊎ IsConfigured s' 5 1 0 0 0) r.1.log)
    ⊎ (¬ IsRequest 5 1 0 0 0) × (r ≡ (err_invalid_param, fresh port 0))
gpio_init_outcome_example = gpio_init_outcome 5 1 0 0 0 port 0

abbrev lines : ExtiRegisters
lines = record { imr = 0; emr = 0; rtsr = 0x1; ftsr = 0x2000; swier = 0; pr = 0 }

abbrev syscfg : SyscfgRegisters
syscfg = record { memrmp = 0; pmc = 0; exticr = λ i. 0x1234; cmpcr = 0 }

exti_select_port_fields_example :
    let r = exti_select_port 13 (port_base 2) (fresh syscfg 0) in
    (r.0 ≡ ok)
    × (line_field r.1.regs 13 ≡ shl32 2 (13 % 4 * 4))
    × (line_field r.1.regs 12 ≡ line_field syscfg 12)
exti_select_port_fields_example =
    exti_select_port_fields 13 2 12 syscfg 0 (omega arith) (omega arith)
      (λ e. absurd (omega (arith, e))) (omega arith) (inl (omega arith))

-- The pins of USART2, the LED, a refused pin, and pin 3 back to its reset state.
abbrev setup : List Call
setup =
    init 2 2 0 2 0
    ∷ set_alternate 2 7
    ∷ init 5 1 0 0 0
    ∷ init 16 1 0 0 0
    ∷ set_alternate 10 7
    ∷ deinit gpiob 3
    ∷ []

setup-IsCall : All IsCall setup
setup-IsCall = (tt, (tt, (tt, (tt, (tt, (omega arith, tt))))))

run_refines_example : view (run setup port) 10 ≡ replay setup (view port) 10
run_refines_example = run_refines setup port 10 setup-IsCall (omega arith)

-- Line 13 on both edges, enabled and raised, then line 19, which is refused, and line 13 cleared.
abbrev line_calls : List Table.Call
line_calls = configure 13 3 ∷ enable 13 ∷ trigger 13 ∷ enable 19 ∷ clear 13 ∷ []

line_13 :
    Table.replay line_calls (Table.view lines) 13
    ≡ record { enabled = 1; rising = 1; falling = 1; raised = 0; pending = 0 }
unfolding Table.replay
line_13 = refl

calls_refine_example :
    Table.view (Table.run line_calls lines) 13 ≡ Table.replay line_calls (Table.view lines) 13
calls_refine_example = calls_refine line_calls lines 13 (omega arith)

-- LD2 toggled.
act_drives_example :
    let r = act toggle 5 (fresh port 0) in
    (r.1.log ≡ r.1.regs ∷ [])
    × (r.1.regs ≡ record port { bsrr = r.1.regs.bsrr })
    × (driven r.1.regs.bsrr 5 (bit_set port.odr 5)
        ≡ (if 5 == 5 then asked toggle (bit_set port.odr 5) else bit_set port.odr 5))
act_drives_example = act_drives toggle 5 5 port 0 (omega arith) (omega arith)

-- Lines 5 and 13 are pending.
abbrev pending_lines : ExtiRegisters
pending_lines = record {
  imr = 0x2020;
  emr = 0;
  rtsr = 0x20;
  ftsr = 0x2000;
  swier = 0x2000;
  pr = 0x2020;
}

exti_is_pending-exti_clear_pending_example :
    let r = exti_clear_pending 13 (fresh pending_lines 0) in
    (r.0 ≡ ok)
    × (r.1.log ≡ r.1.regs ∷ [])
    × (r.1.regs ≡ record pending_lines { pr = r.1.regs.pr; swier = r.1.regs.swier })
    × ((exti_is_pending 5 (some false) r.1).0
        ≡ (ok, some (if 5 == 13 then false else is_pending pending_lines 5)))
    × (is_raised r.1.regs 5 ≡ (if 5 == 13 then false else is_raised pending_lines 5))
exti_is_pending-exti_clear_pending_example =
    exti_is_pending-exti_clear_pending 13 5 false pending_lines 0 refl refl
