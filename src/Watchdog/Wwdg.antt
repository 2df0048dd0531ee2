-- ===== src/Watchdog/Wwdg.antt =====
-- drivers/src/wwdg.c.
pub mod Start
use stm32_rtos.Base.{ℕ, bit_and, bit_or, ltb, ◌&&◌, ◌||◌, if◌then◌else◌}
use stm32_rtos.Bits.{shl32}
use stm32_rtos.Status.{DriverStatus, ok, err_invalid_param, is_ok}
use stm32_rtos.Bus.{M, pure, ◌>>=◌, ◌>>◌, store, if_ok}
use stm32_rtos.Reg.Dbgmcu.{DbgmcuRegisters, dbgmcu_apb1_fz_dbg_wwdg_stop}
use stm32_rtos.Reg.Wwdg.{
  WwdgRegisters, wwdg_counter_min, wwdg_counter_max, wwdg_cfr_wdgtb_div8, wwdg_cfr_ewi,
  wwdg_cfr_w_pos, wwdg_cfr_wdgtb_pos, wwdg_cr_wdga, wwdg_cr_t_pos,
}

pub wwdg_validate_count : ℕ → DriverStatus
wwdg_validate_count value =
    if ltb value wwdg_counter_min || ltb wwdg_counter_max value then err_invalid_param else ok

pub wwdg_start : ℕ → ℕ → ℕ → M WwdgRegisters DriverStatus
unfolding wwdg_validate_count
wwdg_start prescaler window counter = do
  status ← pure (wwdg_validate_count window)
  status ← if_ok status (pure (wwdg_validate_count counter))
  status ←
      pure (if is_ok status && ltb wwdg_cfr_wdgtb_div8 prescaler then err_invalid_param else status)
  if_ok status do
    store λ s. record s {
      cfr =
          bit_or (bit_or (bit_and s.cfr wwdg_cfr_ewi) (shl32 window wwdg_cfr_w_pos))
            (shl32 prescaler wwdg_cfr_wdgtb_pos);
    }
    store (λ s. record s { cr = bit_or wwdg_cr_wdga (shl32 counter wwdg_cr_t_pos) })
    store (λ s. record s { sr = 0 })
    pure status

pub wwdg_refresh : ℕ → M WwdgRegisters DriverStatus
unfolding wwdg_validate_count
wwdg_refresh counter = if_ok (wwdg_validate_count counter) do
  store (λ s. record s { cr = bit_or wwdg_cr_wdga (shl32 counter wwdg_cr_t_pos) })
  pure (wwdg_validate_count counter)

pub wwdg_enable_early_wakeup : M WwdgRegisters (Unit {0})
wwdg_enable_early_wakeup = store (λ s. record s { cfr = bit_or s.cfr wwdg_cfr_ewi })

pub wwdg_clear_early_wakeup : M WwdgRegisters (Unit {0})
wwdg_clear_early_wakeup = store (λ s. record s { sr = 0 })

pub wwdg_freeze_in_debug : M DbgmcuRegisters (Unit {0})
wwdg_freeze_in_debug =
    store (λ s. record s { apb1_fz = bit_or s.apb1_fz dbgmcu_apb1_fz_dbg_wwdg_stop })
