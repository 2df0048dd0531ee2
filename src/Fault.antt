-- ===== src/Fault.antt =====
-- drivers/src/fault.c. The fault registers hold still while the handler runs. `frame` is
-- memory: a read that faults gives `none`, and then so does the capture.
pub mod Capture
use stm32_rtos.Base.{ℕ, bit_and, bit_or, ◌==◌, if◌then◌else◌, Bool, true, false, Option, none, some}
use stm32_rtos.Bits.{shr32}
use stm32_rtos.Bus.{M, ◌>>◌, store}
use stm32_rtos.Reg.Scb.{
  ScbRegisters, scb_shcsr_memfaultena, scb_shcsr_busfaultena, scb_shcsr_usgfaultena,
  scb_ccr_div_0_trp, scb_icsr_vectactive_msk, scb_icsr_vectactive_pos, scb_cfsr_mstkerr,
  scb_cfsr_stkerr,
}

pub record FaultRecord : Type 0 where
  pub exception : ℕ
  pub exc_return : ℕ
  pub cfsr : ℕ
  pub hfsr : ℕ
  pub mmfar : ℕ
  pub bfar : ℕ
  pub frame_valid : Bool
  pub r0 : ℕ
  pub r1 : ℕ
  pub r2 : ℕ
  pub r3 : ℕ
  pub r12 : ℕ
  pub lr : ℕ
  pub pc : ℕ
  pub xpsr : ℕ

pub fault_enable : M ScbRegisters (Unit {0})
fault_enable = do
  store λ s. record s {
    shcsr =
        bit_or s.shcsr
          (bit_or (bit_or scb_shcsr_memfaultena scb_shcsr_busfaultena) scb_shcsr_usgfaultena);
  }
  store (λ s. record s { ccr = bit_or s.ccr scb_ccr_div_0_trp })

infixl 5 ◌>>=◌
abbrev ◌>>=◌ : Option ℕ → (ℕ → Option FaultRecord) → Option FaultRecord
none >>= f = none
some x >>= f = f x

-- `record->frame_valid`.
abbrev pub stacked : ScbRegisters → Bool
stacked scb = bit_and scb.cfsr (bit_or scb_cfsr_mstkerr scb_cfsr_stkerr) == 0

-- The part of the record that comes from the fault registers, with the stacked ones 0.
abbrev pub from_registers : ScbRegisters → ℕ → FaultRecord
from_registers scb exc_return = record {
  exception = shr32 (bit_and scb.icsr scb_icsr_vectactive_msk) scb_icsr_vectactive_pos;
  exc_return = exc_return;
  cfsr = scb.cfsr;
  hfsr = scb.hfsr;
  mmfar = scb.mmfar;
  bfar = scb.bfar;
  frame_valid = stacked scb;
  r0 = 0;
  r1 = 0;
  r2 = 0;
  r3 = 0;
  r12 = 0;
  lr = 0;
  pc = 0;
  xpsr = 0;
}

-- The reads of the stacked frame, `frame[0]` to `frame[7]`.
pub copy_frame : (ℕ → Option ℕ) → FaultRecord → Option FaultRecord
copy_frame frame base = do
  r0 ← frame 0
  r1 ← frame 1
  r2 ← frame 2
  r3 ← frame 3
  r12 ← frame 4
  lr ← frame 5
  pc ← frame 6
  xpsr ← frame 7
  some
      (record base { r0 = r0; r1 = r1; r2 = r2; r3 = r3; r12 = r12; lr = lr; pc = pc; xpsr = xpsr })

-- What `*record` holds afterwards.
pub fault_capture : ScbRegisters → (ℕ → Option ℕ) → ℕ → Option FaultRecord
unfolding copy_frame
fault_capture scb frame exc_return =
    let base = from_registers scb exc_return in
    if stacked scb then copy_frame frame base else some base
