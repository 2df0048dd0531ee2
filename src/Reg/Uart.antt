-- ===== src/Reg/Uart.antt =====
-- device/inc/uart_reg.h.
use stm32_rtos.Base.{ℕ}
use stm32_rtos.Bits.{shl32}

pub record UartRegisters : Type 0 where
  pub sr : ℕ
  pub dr : ℕ
  pub brr : ℕ
  pub cr1 : ℕ
  pub cr2 : ℕ
  pub cr3 : ℕ
  pub gtpr : ℕ

abbrev pub usart_sr_pe_pos : ℕ
usart_sr_pe_pos = 0

abbrev pub usart_sr_pe : ℕ
usart_sr_pe = shl32 1 usart_sr_pe_pos

abbrev pub usart_sr_fe_pos : ℕ
usart_sr_fe_pos = 1

abbrev pub usart_sr_fe : ℕ
usart_sr_fe = shl32 1 usart_sr_fe_pos

abbrev pub usart_sr_ne_pos : ℕ
usart_sr_ne_pos = 2

abbrev pub usart_sr_ne : ℕ
usart_sr_ne = shl32 1 usart_sr_ne_pos

abbrev pub usart_sr_ore_pos : ℕ
usart_sr_ore_pos = 3

abbrev pub usart_sr_ore : ℕ
usart_sr_ore = shl32 1 usart_sr_ore_pos

abbrev pub usart_sr_rxne_pos : ℕ
usart_sr_rxne_pos = 5

abbrev pub usart_sr_rxne : ℕ
usart_sr_rxne = shl32 1 usart_sr_rxne_pos

abbrev pub usart_sr_tc_pos : ℕ
usart_sr_tc_pos = 6

abbrev pub usart_sr_tc : ℕ
usart_sr_tc = shl32 1 usart_sr_tc_pos

abbrev pub usart_sr_txe_pos : ℕ
usart_sr_txe_pos = 7

abbrev pub usart_sr_txe : ℕ
usart_sr_txe = shl32 1 usart_sr_txe_pos

abbrev pub usart_brr_div_fraction_pos : ℕ
usart_brr_div_fraction_pos = 0

abbrev pub usart_brr_div_fraction_msk : ℕ
usart_brr_div_fraction_msk = shl32 0xf usart_brr_div_fraction_pos

abbrev pub usart_brr_div_mantissa_pos : ℕ
usart_brr_div_mantissa_pos = 4

abbrev pub usart_brr_div_mantissa_msk : ℕ
usart_brr_div_mantissa_msk = shl32 0xfff usart_brr_div_mantissa_pos

abbrev pub usart_cr1_re_pos : ℕ
usart_cr1_re_pos = 2

abbrev pub usart_cr1_re : ℕ
usart_cr1_re = shl32 1 usart_cr1_re_pos

abbrev pub usart_cr1_te_pos : ℕ
usart_cr1_te_pos = 3

abbrev pub usart_cr1_te : ℕ
usart_cr1_te = shl32 1 usart_cr1_te_pos

abbrev pub usart_cr1_ps_pos : ℕ
usart_cr1_ps_pos = 9

abbrev pub usart_cr1_ps : ℕ
usart_cr1_ps = shl32 1 usart_cr1_ps_pos

abbrev pub usart_cr1_pce_pos : ℕ
usart_cr1_pce_pos = 10

abbrev pub usart_cr1_pce : ℕ
usart_cr1_pce = shl32 1 usart_cr1_pce_pos

abbrev pub usart_cr1_m_pos : ℕ
usart_cr1_m_pos = 12

abbrev pub usart_cr1_m : ℕ
usart_cr1_m = shl32 1 usart_cr1_m_pos

abbrev pub usart_cr1_ue_pos : ℕ
usart_cr1_ue_pos = 13

abbrev pub usart_cr1_ue : ℕ
usart_cr1_ue = shl32 1 usart_cr1_ue_pos

abbrev pub usart_cr1_over8_pos : ℕ
usart_cr1_over8_pos = 15

abbrev pub usart_cr1_over8 : ℕ
usart_cr1_over8 = shl32 1 usart_cr1_over8_pos

abbrev pub usart_cr2_stop_pos : ℕ
usart_cr2_stop_pos = 12

abbrev pub usart_cr2_stop_msk : ℕ
usart_cr2_stop_msk = shl32 0x3 usart_cr2_stop_pos

abbrev pub usart_cr2_stop_1 : ℕ
usart_cr2_stop_1 = 0x0

abbrev pub usart_cr2_stop_2 : ℕ
usart_cr2_stop_2 = 0x2
