-- ===== src/Nvic/Irqn.antt =====
-- The interrupts and exceptions of `IRQn_e` in core/inc/nvic_reg.h, with their numbers.
use stm32_rtos.Base.{ℤ, pos, negsuc, List, [], ◌∷◌}

pub data Irqn : Type 0 where
  memorymanagement_irqn busfault_irqn usagefault_irqn svcall_irqn pendsv_irqn systick_irqn wwdg_irqn
        pvd_irqn tamp_stamp_irqn rtc_wkup_irqn flash_irqn rcc_irqn exti0_irqn exti1_irqn exti2_irqn
        exti3_irqn exti4_irqn dma1_stream0_irqn dma1_stream1_irqn dma1_stream2_irqn
        dma1_stream3_irqn dma1_stream4_irqn dma1_stream5_irqn dma1_stream6_irqn adc_irqn
        can1_tx_irqn can1_rx0_irqn can1_rx1_irqn can1_sce_irqn exti9_5_irqn tim1_brk_tim9_irqn
        tim1_up_tim10_irqn tim1_trg_com_tim11_irqn tim1_cc_irqn tim2_irqn tim3_irqn tim4_irqn
        i2c1_ev_irqn i2c1_er_irqn i2c2_ev_irqn i2c2_er_irqn spi1_irqn spi2_irqn usart1_irqn
        usart2_irqn usart3_irqn exti15_10_irqn rtc_alarm_irqn otg_fs_wkup_irqn tim8_brk_tim12_irqn
        tim8_up_tim13_irqn tim8_trg_com_tim14_irqn tim8_cc_irqn dma1_stream7_irqn fmc_irqn sdio_irqn
        tim5_irqn spi3_irqn uart4_irqn uart5_irqn tim6_dac_irqn tim7_irqn dma2_stream0_irqn
        dma2_stream1_irqn dma2_stream2_irqn dma2_stream3_irqn dma2_stream4_irqn can2_tx_irqn
        can2_rx0_irqn can2_rx1_irqn can2_sce_irqn otg_fs_irqn dma2_stream5_irqn dma2_stream6_irqn
        dma2_stream7_irqn usart6_irqn i2c3_ev_irqn i2c3_er_irqn otg_hs_ep1_out_irqn
        otg_hs_ep1_in_irqn otg_hs_wkup_irqn otg_hs_irqn dcmi_irqn fpu_irqn spi4_irqn sai1_irqn
        sai2_irqn quadspi_irqn cec_irqn spdif_rx_irqn fmpi2c1_event_irqn fmpi2c1_error_irqn :
      Irqn

-- `(int32_t)irqn`.
abbrev pub irqn_value : Irqn → ℤ
irqn_value memorymanagement_irqn = negsuc 11
irqn_value busfault_irqn = negsuc 10
irqn_value usagefault_irqn = negsuc 9
irqn_value svcall_irqn = negsuc 4
irqn_value pendsv_irqn = negsuc 1
irqn_value systick_irqn = negsuc 0
irqn_value wwdg_irqn = pos 0
irqn_value pvd_irqn = pos 1
irqn_value tamp_stamp_irqn = pos 2
irqn_value rtc_wkup_irqn = pos 3
irqn_value flash_irqn = pos 4
irqn_value rcc_irqn = pos 5
irqn_value exti0_irqn = pos 6
irqn_value exti1_irqn = pos 7
irqn_value exti2_irqn = pos 8
irqn_value exti3_irqn = pos 9
irqn_value exti4_irqn = pos 10
irqn_value dma1_stream0_irqn = pos 11
irqn_value dma1_stream1_irqn = pos 12
irqn_value dma1_stream2_irqn = pos 13
irqn_value dma1_stream3_irqn = pos 14
irqn_value dma1_stream4_irqn = pos 15
irqn_value dma1_stream5_irqn = pos 16
irqn_value dma1_stream6_irqn = pos 17
irqn_value adc_irqn = pos 18
irqn_value can1_tx_irqn = pos 19
irqn_value can1_rx0_irqn = pos 20
irqn_value can1_rx1_irqn = pos 21
irqn_value can1_sce_irqn = pos 22
irqn_value exti9_5_irqn = pos 23
irqn_value tim1_brk_tim9_irqn = pos 24
irqn_value tim1_up_tim10_irqn = pos 25
irqn_value tim1_trg_com_tim11_irqn = pos 26
irqn_value tim1_cc_irqn = pos 27
irqn_value tim2_irqn = pos 28
irqn_value tim3_irqn = pos 29
irqn_value tim4_irqn = pos 30
irqn_value i2c1_ev_irqn = pos 31
irqn_value i2c1_er_irqn = pos 32
irqn_value i2c2_ev_irqn = pos 33
irqn_value i2c2_er_irqn = pos 34
irqn_value spi1_irqn = pos 35
irqn_value spi2_irqn = pos 36
irqn_value usart1_irqn = pos 37
irqn_value usart2_irqn = pos 38
irqn_value usart3_irqn = pos 39
irqn_value exti15_10_irqn = pos 40
irqn_value rtc_alarm_irqn = pos 41
irqn_value otg_fs_wkup_irqn = pos 42
irqn_value tim8_brk_tim12_irqn = pos 43
irqn_value tim8_up_tim13_irqn = pos 44
irqn_value tim8_trg_com_tim14_irqn = pos 45
irqn_value tim8_cc_irqn = pos 46
irqn_value dma1_stream7_irqn = pos 47
irqn_value fmc_irqn = pos 48
irqn_value sdio_irqn = pos 49
irqn_value tim5_irqn = pos 50
irqn_value spi3_irqn = pos 51
irqn_value uart4_irqn = pos 52
irqn_value uart5_irqn = pos 53
irqn_value tim6_dac_irqn = pos 54
irqn_value tim7_irqn = pos 55
irqn_value dma2_stream0_irqn = pos 56
irqn_value dma2_stream1_irqn = pos 57
irqn_value dma2_stream2_irqn = pos 58
irqn_value dma2_stream3_irqn = pos 59
irqn_value dma2_stream4_irqn = pos 60
irqn_value can2_tx_irqn = pos 63
irqn_value can2_rx0_irqn = pos 64
irqn_value can2_rx1_irqn = pos 65
irqn_value can2_sce_irqn = pos 66
irqn_value otg_fs_irqn = pos 67
irqn_value dma2_stream5_irqn = pos 68
irqn_value dma2_stream6_irqn = pos 69
irqn_value dma2_stream7_irqn = pos 70
irqn_value usart6_irqn = pos 71
irqn_value i2c3_ev_irqn = pos 72
irqn_value i2c3_er_irqn = pos 73
irqn_value otg_hs_ep1_out_irqn = pos 74
irqn_value otg_hs_ep1_in_irqn = pos 75
irqn_value otg_hs_wkup_irqn = pos 76
irqn_value otg_hs_irqn = pos 77
irqn_value dcmi_irqn = pos 78
irqn_value fpu_irqn = pos 81
irqn_value spi4_irqn = pos 84
irqn_value sai1_irqn = pos 87
irqn_value sai2_irqn = pos 91
irqn_value quadspi_irqn = pos 92
irqn_value cec_irqn = pos 93
irqn_value spdif_rx_irqn = pos 94
irqn_value fmpi2c1_event_irqn = pos 95
irqn_value fmpi2c1_error_irqn = pos 96

-- The enumerators in order.
abbrev pub all_irqns : List Irqn
all_irqns =
    memorymanagement_irqn ∷ busfault_irqn ∷ usagefault_irqn ∷ svcall_irqn ∷ pendsv_irqn
    ∷ systick_irqn ∷ wwdg_irqn ∷ pvd_irqn ∷ tamp_stamp_irqn ∷ rtc_wkup_irqn ∷ flash_irqn ∷ rcc_irqn
    ∷ exti0_irqn ∷ exti1_irqn ∷ exti2_irqn ∷ exti3_irqn ∷ exti4_irqn ∷ dma1_stream0_irqn
    ∷ dma1_stream1_irqn ∷ dma1_stream2_irqn ∷ dma1_stream3_irqn ∷ dma1_stream4_irqn
    ∷ dma1_stream5_irqn ∷ dma1_stream6_irqn ∷ adc_irqn ∷ can1_tx_irqn ∷ can1_rx0_irqn
    ∷ can1_rx1_irqn ∷ can1_sce_irqn ∷ exti9_5_irqn ∷ tim1_brk_tim9_irqn ∷ tim1_up_tim10_irqn
    ∷ tim1_trg_com_tim11_irqn ∷ tim1_cc_irqn ∷ tim2_irqn ∷ tim3_irqn ∷ tim4_irqn ∷ i2c1_ev_irqn
    ∷ i2c1_er_irqn ∷ i2c2_ev_irqn ∷ i2c2_er_irqn ∷ spi1_irqn ∷ spi2_irqn ∷ usart1_irqn ∷ usart2_irqn
    ∷ usart3_irqn ∷ exti15_10_irqn ∷ rtc_alarm_irqn ∷ otg_fs_wkup_irqn ∷ tim8_brk_tim12_irqn
    ∷ tim8_up_tim13_irqn ∷ tim8_trg_com_tim14_irqn ∷ tim8_cc_irqn ∷ dma1_stream7_irqn ∷ fmc_irqn
    ∷ sdio_irqn ∷ tim5_irqn ∷ spi3_irqn ∷ uart4_irqn ∷ uart5_irqn ∷ tim6_dac_irqn ∷ tim7_irqn
    ∷ dma2_stream0_irqn ∷ dma2_stream1_irqn ∷ dma2_stream2_irqn ∷ dma2_stream3_irqn
    ∷ dma2_stream4_irqn ∷ can2_tx_irqn ∷ can2_rx0_irqn ∷ can2_rx1_irqn ∷ can2_sce_irqn ∷ otg_fs_irqn
    ∷ dma2_stream5_irqn ∷ dma2_stream6_irqn ∷ dma2_stream7_irqn ∷ usart6_irqn ∷ i2c3_ev_irqn
    ∷ i2c3_er_irqn ∷ otg_hs_ep1_out_irqn ∷ otg_hs_ep1_in_irqn ∷ otg_hs_wkup_irqn ∷ otg_hs_irqn
    ∷ dcmi_irqn ∷ fpu_irqn ∷ spi4_irqn ∷ sai1_irqn ∷ sai2_irqn ∷ quadspi_irqn ∷ cec_irqn
    ∷ spdif_rx_irqn ∷ fmpi2c1_event_irqn ∷ fmpi2c1_error_irqn ∷ []
