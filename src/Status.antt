-- ===== src/Status.antt =====
-- drivers/inc/driver_status.h: the result of a driver function.
use stm32_rtos.Base.{◌⊎◌, inl, inr, ◌≢◌, Bool, true, false, ◌≡◌, refl, arith}

pub data DriverStatus : Type 0 where
  uninitialized ok err_invalid_param err_not_initialized : DriverStatus
  err_timeout err_hw_fault err_busy err_unsupported : DriverStatus

-- `status == DRIVER_STATUS_OK`.
abbrev pub is_ok : DriverStatus → Bool
is_ok ok = true
is_ok _ = false

pub ok_only : (st : DriverStatus) → is_ok st ≡ true → st ≡ ok
ok_only ok h = refl
ok_only _ h = grind arith

-- A call that returned OK has not refused its arguments.
pub not_refused : (st : DriverStatus) → st ≡ ok → st ≡ err_invalid_param → ⊥
not_refused ok done refused = grind arith
not_refused _ done refused = grind arith

pub ok-cases : (st : DriverStatus) → (st ≡ ok) ⊎ (st ≢ ok)
ok-cases ok = inl refl
ok-cases _ = inr (λ e. grind arith)
