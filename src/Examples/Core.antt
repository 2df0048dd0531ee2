-- ===== src/Examples/Core.antt =====
-- The timer, the watchdog, the interrupt controller and a fault.
use stm32_rtos.Base.{
  List, true, false, ◌/◌, ◌==◌, if◌then◌else◌, ◌≢◌, ℕ, ◌+◌, ◌*◌, ◌≤◌, ◌<◌, ◌≡◌, ◌⊎◌, refl, [], ◌∷◌,
  All, arith, pos, negsuc, Option, some,
}
use stm32_rtos.Bits.{shl32}
use stm32_rtos.Status.{ok, err_invalid_param, err_timeout, is_ok}
use stm32_rtos.Bus.{Hw, fresh}
use stm32_rtos.Systick.{systick_init}
use stm32_rtos.Systick.Period.{IsTick, IsOff, systick_init_outcome}
use stm32_rtos.Watchdog.Iwdg.{iwdg_start}
use stm32_rtos.Watchdog.Iwdg.Start.{Steady, InOrder, Started, iwdg_start-InOrder}
use stm32_rtos.Nvic.{
  NvicRegisters, nvic_validate_irq, nvic_set_priority, nvic_get_priority,
  nvic_set_system_handler_priority,
}
use stm32_rtos.Nvic.Request.{request, array, with_array, bit_of, request_outcome}
use stm32_rtos.Nvic.Request.Request.{pend}
use stm32_rtos.Nvic.Table.{is_device_irq}
use stm32_rtos.Nvic.Members.{is_member, nvic_validate_irq_members}
use stm32_rtos.Nvic.Handlers.{
  handler_byte, pend_sv, same_but_shpr, nvic_set_system_handler_priority_byte,
}
use stm32_rtos.Nvic.Priority.{nvic_get_priority-nvic_set_priority}
use stm32_rtos.Fault.{FaultRecord, fault_capture}
use stm32_rtos.Fault.Capture.{IsCapture, Stacked, Readable, fault_capture-IsCapture}
use stm32_rtos.Reg.Systick.{SysTickRegisters}
use stm32_rtos.Reg.Wwdg.{WwdgRegisters}
use stm32_rtos.Watchdog.Wwdg.{wwdg_start}
use stm32_rtos.Watchdog.Wwdg.Start.{IsWindow, IsStarted, wwdg_start_outcome}
use stm32_rtos.Reg.Iwdg.{IwdgRegisters}
use stm32_rtos.Reg.Scb.{ScbRegisters}

abbrev timer : SysTickRegisters
timer = record { ctrl = 0; load = 0; val = 0; calib = 0 }

-- 1 kHz from 180 MHz.
systick_init_outcome_example :
    let r = systick_init 180000000 1000 (fresh timer 0) in
    (IsTick 180000000 1000
      × (r.0 ≡ ok)
      × ((r.1.regs.load + 1) * 1000 ≤ 180000000)
      × (180000000 < (r.1.regs.load + 2) * 1000)
      × (r.1.regs.load < 16777216)
      × (r.1.regs.val ≡ 0)
      × (r.1.regs.ctrl ≡ 7)
      × ((earlier : List SysTickRegisters) × (r.1.log ≡ r.1.regs ∷ earlier) × All IsOff earlier))
    ⊎ (¬ IsTick 180000000 1000) × (r ≡ (err_invalid_param, fresh timer 0))
systick_init_outcome_example = systick_init_outcome 180000000 1000 timer 0

abbrev still : Hw IwdgRegisters
still n s = s

abbrev dog : IwdgRegisters
dog = record { kr = 0; pr = 0; rlr = 0xfff; sr = 0 }

still-Steady : Steady still
still-Steady k s = (refl, refl, refl)

iwdg_start-InOrder_example :
    let r = iwdg_start still 4 1000 (fresh dog 0) in
    Started still still-Steady 4 1000 dog 0 r.0 r.1
    × ((r.0 ≡ ok) × (r.1.regs.pr ≡ shl32 4 0) × (r.1.regs.rlr ≡ shl32 1000 0) ⊎ (r.0 ≡ err_timeout))
    × All (InOrder (shl32 4 0) (shl32 1000 0) dog) r.1.log
iwdg_start-InOrder_example =
    iwdg_start-InOrder still still-Steady 4 1000 dog 0 (omega arith) (omega arith)

abbrev controller : NvicRegisters
controller = record {
  iser = λ i. 0;
  icer = λ i. 0;
  ispr = λ i. 0;
  icpr = λ i. 0;
  iabr = λ i. 0;
  ip = λ i. 0;
  stir = 0;
}

nvic_get_priority-nvic_set_priority_example :
    let written = nvic_set_priority (pos 38) 5 (fresh controller 0) in
    (written.0 ≡ ok)
    × ((nvic_get_priority (pos 38) (some 0) written.1).0 ≡ (ok, some 5))
    × (written.1.regs.ip 40 ≡ controller.ip 40)
nvic_get_priority-nvic_set_priority_example =
    nvic_get_priority-nvic_set_priority 38 5 0 40 controller 0 refl (omega arith)
      (λ e. absurd (omega (arith, e)))

-- The frame reads its own index.
abbrev frame : ℕ → Option ℕ
frame i = some i

abbrev bus_fault : ScbRegisters
bus_fault = record {
  cpuid = 0;
  icsr = 5;
  vtor = 0;
  aircr = 0;
  scr = 0;
  ccr = 0;
  shpr1 = 0;
  shpr2 = 0;
  shpr3 = 0;
  shcsr = 0;
  cfsr = 0x8200;
  hfsr = 0;
  dfsr = 0;
  mmfar = 0;
  bfar = 0x60000000;
  afsr = 0;
  cpacr = 0;
}

readable : Stacked bus_fault → Readable frame
readable fine i low = (i, refl)

fault_capture-IsCapture_example :
    (r : FaultRecord) × (fault_capture bus_fault frame 0xfffffff9 ≡ some r)
    × IsCapture bus_fault frame 0xfffffff9 r
fault_capture-IsCapture_example = fault_capture-IsCapture bus_fault frame 0xfffffff9 readable

abbrev window : WwdgRegisters
window = record { cr = 0x7f; cfr = 0x27f; sr = 1 }

wwdg_start_outcome_example :
    let r = wwdg_start 3 80 127 (fresh window 0) in
    (IsWindow 3 80 127 × (r.0 ≡ ok) × IsStarted r.1.regs window 3 80 127)
    ⊎ (¬ IsWindow 3 80 127) × (r ≡ (err_invalid_param, fresh window 0))
wwdg_start_outcome_example = wwdg_start_outcome 3 80 127 window 0

nvic_validate_irq_members_example : is_ok (nvic_validate_irq (pos 61)) ≡ is_member (pos 61)
nvic_validate_irq_members_example = nvic_validate_irq_members (pos 61)

abbrev handlers : ScbRegisters
handlers = record {
  cpuid = 0;
  icsr = 0;
  vtor = 0;
  aircr = 0;
  scr = 0;
  ccr = 0;
  shpr1 = 0x00302010;
  shpr2 = 0x40000000;
  shpr3 = 0x60500000;
  shcsr = 0;
  cfsr = 0;
  hfsr = 0;
  dfsr = 0;
  mmfar = 0;
  bfar = 0;
  afsr = 0;
  cpacr = 0;
}

-- PendSV to the lowest priority; SysTick is kept.
nvic_set_system_handler_priority_byte_example :
    let r = nvic_set_system_handler_priority (negsuc 1) 15 (fresh handlers 0) in
    (r.0 ≡ ok)
    × (handler_byte 10 r.1.regs ≡ 240)
    × (handler_byte 11 r.1.regs ≡ handler_byte 11 handlers)
    × (r.1.regs ≡ same_but_shpr handlers r.1.regs)
    × (r.1.log ≡ r.1.regs ∷ [])
nvic_set_system_handler_priority_byte_example =
    nvic_set_system_handler_priority_byte (negsuc 1) 10 15 11 handlers 0 pend_sv (omega arith)
      (omega arith) (λ e. absurd (omega (arith, e)))

-- Setting USART2 pending: interrupt 38, the seventh bit of the second word.
request_outcome_example :
    let r = request pend (pos 38) (fresh controller 0) in
    (is_device_irq (pos 38) ≡ false) × (r ≡ (err_invalid_param, fresh controller 0))
    ⊎ ((n : ℕ) × (pos 38 ≡ pos n)
        × (is_device_irq (pos 38) ≡ true)
        × (r.0 ≡ ok)
        × (r.1.log ≡ r.1.regs ∷ [])
        × (r.1.regs ≡ with_array pend (array pend r.1.regs) controller)
        × ((40 / 32 ≡ n / 32) × (bit_of 40 (array pend r.1.regs) ≡ (if 40 == n then 1 else 0))
            ⊎ (40 / 32 ≢ n / 32)
              × (array pend r.1.regs (40 / 32) ≡ array pend controller (40 / 32))))
request_outcome_example = request_outcome pend (pos 38) 40 controller 0
