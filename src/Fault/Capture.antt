-- ===== src/Fault/Capture.antt =====
-- `faultCapture`: what it records, and that a failed stacking keeps it off the frame.
use stm32_rtos.Base.{
  ℕ, ◌≤◌, ==→eq, bit_and, Bool-cases, true, false, ◌≡◌, refl, ◌⊎◌, inl, inr, arith, Option, some,
}
use native.Mathlib.Nat.{div-one}
use stm32_rtos.Fault.{FaultRecord, fault_capture, copy_frame, stacked}
use stm32_rtos.Reg.Scb.{ScbRegisters}

-- No stacking error: CFSR.MSTKERR and CFSR.STKERR are clear.
abbrev pub Stacked : ScbRegisters → Type 0
Stacked scb = bit_and scb.cfsr 0x1010 ≡ 0

-- The eight words of the frame can be read.
abbrev pub Readable : (ℕ → Option ℕ) → Type 0
Readable frame = (i : ℕ) → i ≤ 7 → (v : ℕ) × (frame i ≡ some v)

-- A record of the fault: the number of the exception and the fault registers, and the eight words
-- of the frame where it is valid, zeros where it is not.
pub record IsCapture (scb : ScbRegisters) (frame : ℕ → Option ℕ) (exc_return : ℕ) (r : FaultRecord)
    : Type 0 where
  pub exception_number : r.exception ≡ bit_and scb.icsr 0x1ff
  pub return_value : r.exc_return ≡ exc_return
  pub fault_status : (r.cfsr ≡ scb.cfsr) × (r.hfsr ≡ scb.hfsr)
  pub fault_address : (r.mmfar ≡ scb.mmfar) × (r.bfar ≡ scb.bfar)
  pub outcome :
      (Stacked scb
        × (r.frame_valid ≡ true)
        × (frame 0 ≡ some r.r0)
        × (frame 1 ≡ some r.r1)
        × (frame 2 ≡ some r.r2)
        × (frame 3 ≡ some r.r3)
        × (frame 4 ≡ some r.r12)
        × (frame 5 ≡ some r.lr)
        × (frame 6 ≡ some r.pc)
        × (frame 7 ≡ some r.xpsr))
      ⊎ (¬ Stacked scb)
        × (r.frame_valid ≡ false)
        × (r.r0 ≡ 0)
        × (r.r1 ≡ 0)
        × (r.r2 ≡ 0)
        × (r.r3 ≡ 0)
        × (r.r12 ≡ 0)
        × (r.lr ≡ 0)
        × (r.pc ≡ 0)
        × (r.xpsr ≡ 0)

-- Where the frame can be read unless a stacking error is flagged, `faultCapture` completes, and
-- gives such a record; after a stacking error it does so for any frame at all.
pub fault_capture-IsCapture :
    (scb : ScbRegisters) (frame : ℕ → Option ℕ) (exc_return : ℕ)
    → (Stacked scb → Readable frame)
    → (r : FaultRecord) × (fault_capture scb frame exc_return ≡ some r)
      × IsCapture scb frame exc_return r
unfolding fault_capture copy_frame
fault_capture-IsCapture scb frame exc_return readable = elim (Bool-cases (stacked scb)) [
  | inl fine ↦
      let clear : Stacked scb = ==→eq _ _ fine in
      let words = readable clear in
      let (v0, e0) = words 0 (omega arith) in
      let (v1, e1) = words 1 (omega arith) in
      let (v2, e2) = words 2 (omega arith) in
      let (v3, e3) = words 3 (omega arith) in
      let (v4, e4) = words 4 (omega arith) in
      let (v5, e5) = words 5 (omega arith) in
      let (v6, e6) = words 6 (omega arith) in
      let (v7, e7) = words 7 (omega arith) in
      rw (fine, e0, e1, e2, e3, e4, e5, e6, e7)
        (
          _,
          refl,
          record {
            exception_number = div-one (bit_and scb.icsr 0x1ff);
            return_value = refl;
            fault_status = (refl, refl);
            fault_address = (refl, refl);
            outcome = inl (clear, refl, e0, e1, e2, e3, e4, e5, e6, e7);
          },
        )
  | inr failed ↦
      let error : ¬ Stacked scb = ground arith in
      rw failed (
        _,
        refl,
        record {
          exception_number = div-one (bit_and scb.icsr 0x1ff);
          return_value = refl;
          fault_status = (refl, refl);
          fault_address = (refl, refl);
          outcome = inr (error, refl, refl, refl, refl, refl, refl, refl, refl, refl);
        },
      )
]
