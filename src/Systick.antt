-- ===== src/Systick.antt =====
-- drivers/src/systick.c.
pub mod Period
use stm32_rtos.Base.{ℕ, ◌-◌, ◌/◌, bit_or, ltb, ◌==◌, ◌&&◌, ◌||◌, if◌then◌else◌}
use stm32_rtos.Status.{DriverStatus, ok, err_invalid_param, is_ok}
use stm32_rtos.Bus.{M, pure, ◌>>=◌, ◌>>◌, store, if_ok}
use stm32_rtos.Reg.Systick.{
  SysTickRegisters, systick_load_reload_msk, systick_ctrl_clksource, systick_ctrl_tickint,
  systick_ctrl_enable,
}

-- The checks of `systickInit` up to the period: the status, and `reload`.
pub systick_reload : ℕ → ℕ → DriverStatus × ℕ
systick_reload core_hz tick_hz =
    if core_hz == 0 || tick_hz == 0
    then (err_invalid_param, 0)
    else let period_clocks = core_hz / tick_hz in
      if ltb period_clocks 2 then (err_invalid_param, 0) else (ok, period_clocks - 1)

pub systick_init : ℕ → ℕ → M SysTickRegisters DriverStatus
unfolding systick_reload
systick_init core_hz tick_hz =
    let (checked, reload) = systick_reload core_hz tick_hz in
    let status =
      if is_ok checked && ltb systick_load_reload_msk reload then err_invalid_param else checked in
    if_ok status do
      store (λ s. record s { ctrl = 0 })
      store (λ s. record s { load = reload })
      store (λ s. record s { val = 0 })
      store λ s. record s {
        ctrl = bit_or (bit_or systick_ctrl_clksource systick_ctrl_tickint) systick_ctrl_enable;
      }
      pure status

pub systick_deinit : M SysTickRegisters (Unit {0})
systick_deinit = do
  store (λ s. record s { ctrl = 0 })
  store (λ s. record s { load = 0 })
  store (λ s. record s { val = 0 })
