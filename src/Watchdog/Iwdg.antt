-- ===== src/Watchdog/Iwdg.antt =====
-- drivers/src/iwdg.c.
pub mod Start
use stm32_rtos.Base.{ℕ, bit_and, bit_or, ltb, ◌!=◌, ◌||◌, Bool, if◌then◌else◌}
use stm32_rtos.Bits.{shl32, shr32}
use stm32_rtos.Status.{DriverStatus, ok, err_invalid_param}
use stm32_rtos.Bus.{Hw, M, pure, ◌>>=◌, ◌>>◌, store, wait, if_ok}
use stm32_rtos.Reg.Dbgmcu.{DbgmcuRegisters, dbgmcu_apb1_fz_dbg_iwdg_stop}
use stm32_rtos.Reg.Iwdg.{
  IwdgRegisters, iwdg_sr_pvu, iwdg_sr_rvu, iwdg_pr_div256, iwdg_rlr_rl_msk, iwdg_rlr_rl_pos,
  iwdg_key_start, iwdg_key_enable_access, iwdg_key_reload, iwdg_pr_pr_pos,
}

abbrev pub iwdg_update_timeout_iterations : ℕ
iwdg_update_timeout_iterations = 100000

-- Whether a prescaler or reload update is in progress.
abbrev pub updating : IwdgRegisters → Bool
updating s = bit_and s.sr (bit_or iwdg_sr_pvu iwdg_sr_rvu) != 0

pub iwdg_refresh : M IwdgRegisters (Unit {0})
iwdg_refresh = store (λ s. record s { kr = iwdg_key_reload })

module _ (hw : Hw IwdgRegisters) where
  unfoldable pub iwdg_wait_updates : M IwdgRegisters DriverStatus
  iwdg_wait_updates = wait hw updating iwdg_update_timeout_iterations

  pub iwdg_start : ℕ → ℕ → M IwdgRegisters DriverStatus
  unfolding iwdg_refresh
  iwdg_start prescaler reload = do
    status ← pure (
        if ltb iwdg_pr_div256 prescaler || ltb (shr32 iwdg_rlr_rl_msk iwdg_rlr_rl_pos) reload
        then err_invalid_param
        else ok)
    status ← if_ok status do
      store (λ s. record s { kr = iwdg_key_start })
      store (λ s. record s { kr = iwdg_key_enable_access })
      iwdg_wait_updates
    status ← if_ok status do
      store (λ s. record s { pr = shl32 prescaler iwdg_pr_pr_pos })
      store (λ s. record s { rlr = shl32 reload iwdg_rlr_rl_pos })
      iwdg_wait_updates
    if_ok status do iwdg_refresh; pure status

pub iwdg_freeze_in_debug : M DbgmcuRegisters (Unit {0})
iwdg_freeze_in_debug =
    store (λ s. record s { apb1_fz = bit_or s.apb1_fz dbgmcu_apb1_fz_dbg_iwdg_stop })
