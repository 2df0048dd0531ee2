-- ===== src/Reg/Exti.antt =====
-- device/inc/exti_reg.h, device/inc/syscfg_reg.h and the limits of drivers/inc/exti.h.
use stm32_rtos.Base.{ℕ}

pub record ExtiRegisters : Type 0 where
  pub imr : ℕ
  pub emr : ℕ
  pub rtsr : ℕ
  pub ftsr : ℕ
  pub swier : ℕ
  pub pr : ℕ

abbrev pub syscfg_exticr_pa : ℕ
syscfg_exticr_pa = 0x0

abbrev pub syscfg_exticr_pb : ℕ
syscfg_exticr_pb = 0x1

abbrev pub syscfg_exticr_pc : ℕ
syscfg_exticr_pc = 0x2

abbrev pub syscfg_exticr_pd : ℕ
syscfg_exticr_pd = 0x3

abbrev pub syscfg_exticr_pe : ℕ
syscfg_exticr_pe = 0x4

abbrev pub syscfg_exticr_pf : ℕ
syscfg_exticr_pf = 0x5

abbrev pub syscfg_exticr_pg : ℕ
syscfg_exticr_pg = 0x6

abbrev pub syscfg_exticr_ph : ℕ
syscfg_exticr_ph = 0x7

abbrev pub exti_line_max : ℕ
exti_line_max = 22

abbrev pub exti_gpio_line_max : ℕ
exti_gpio_line_max = 15

abbrev pub exti_line_unused : ℕ
exti_line_unused = 19
