-- ===== src/Reg/Rcc/Enable.antt =====
-- device/inc/rcc_reg.h: the clock enables and the reset flags; drivers/inc/rcc.h: their mask.
use stm32_rtos.Base.{ℕ, bit_or}
use stm32_rtos.Bits.{shl32}

abbrev pub rcc_ahb1enr_gpioaen_pos : ℕ
rcc_ahb1enr_gpioaen_pos = 0

abbrev pub rcc_ahb1enr_gpioaen : ℕ
rcc_ahb1enr_gpioaen = shl32 1 rcc_ahb1enr_gpioaen_pos

abbrev pub rcc_ahb1enr_gpioben_pos : ℕ
rcc_ahb1enr_gpioben_pos = 1

abbrev pub rcc_ahb1enr_gpioben : ℕ
rcc_ahb1enr_gpioben = shl32 1 rcc_ahb1enr_gpioben_pos

abbrev pub rcc_ahb1enr_gpiocen_pos : ℕ
rcc_ahb1enr_gpiocen_pos = 2

abbrev pub rcc_ahb1enr_gpiocen : ℕ
rcc_ahb1enr_gpiocen = shl32 1 rcc_ahb1enr_gpiocen_pos

abbrev pub rcc_ahb1enr_gpioden_pos : ℕ
rcc_ahb1enr_gpioden_pos = 3

abbrev pub rcc_ahb1enr_gpioden : ℕ
rcc_ahb1enr_gpioden = shl32 1 rcc_ahb1enr_gpioden_pos

abbrev pub rcc_ahb1enr_gpioeen_pos : ℕ
rcc_ahb1enr_gpioeen_pos = 4

abbrev pub rcc_ahb1enr_gpioeen : ℕ
rcc_ahb1enr_gpioeen = shl32 1 rcc_ahb1enr_gpioeen_pos

abbrev pub rcc_ahb1enr_gpiofen_pos : ℕ
rcc_ahb1enr_gpiofen_pos = 5

abbrev pub rcc_ahb1enr_gpiofen : ℕ
rcc_ahb1enr_gpiofen = shl32 1 rcc_ahb1enr_gpiofen_pos

abbrev pub rcc_ahb1enr_gpiogen_pos : ℕ
rcc_ahb1enr_gpiogen_pos = 6

abbrev pub rcc_ahb1enr_gpiogen : ℕ
rcc_ahb1enr_gpiogen = shl32 1 rcc_ahb1enr_gpiogen_pos

abbrev pub rcc_ahb1enr_gpiohen_pos : ℕ
rcc_ahb1enr_gpiohen_pos = 7

abbrev pub rcc_ahb1enr_gpiohen : ℕ
rcc_ahb1enr_gpiohen = shl32 1 rcc_ahb1enr_gpiohen_pos

abbrev pub rcc_apb1enr_wwdgen_pos : ℕ
rcc_apb1enr_wwdgen_pos = 11

abbrev pub rcc_apb1enr_wwdgen : ℕ
rcc_apb1enr_wwdgen = shl32 1 rcc_apb1enr_wwdgen_pos

abbrev pub rcc_apb1enr_usart2en_pos : ℕ
rcc_apb1enr_usart2en_pos = 17

abbrev pub rcc_apb1enr_usart2en : ℕ
rcc_apb1enr_usart2en = shl32 1 rcc_apb1enr_usart2en_pos

abbrev pub rcc_apb1enr_pwren_pos : ℕ
rcc_apb1enr_pwren_pos = 28

abbrev pub rcc_apb1enr_pwren : ℕ
rcc_apb1enr_pwren = shl32 1 rcc_apb1enr_pwren_pos

abbrev pub rcc_apb2enr_syscfgen_pos : ℕ
rcc_apb2enr_syscfgen_pos = 14

abbrev pub rcc_apb2enr_syscfgen : ℕ
rcc_apb2enr_syscfgen = shl32 1 rcc_apb2enr_syscfgen_pos

abbrev pub rcc_csr_rmvf_pos : ℕ
rcc_csr_rmvf_pos = 24

abbrev pub rcc_csr_rmvf : ℕ
rcc_csr_rmvf = shl32 1 rcc_csr_rmvf_pos

abbrev pub rcc_csr_borrstf_pos : ℕ
rcc_csr_borrstf_pos = 25

abbrev pub rcc_csr_borrstf : ℕ
rcc_csr_borrstf = shl32 1 rcc_csr_borrstf_pos

abbrev pub rcc_csr_pinrstf_pos : ℕ
rcc_csr_pinrstf_pos = 26

abbrev pub rcc_csr_pinrstf : ℕ
rcc_csr_pinrstf = shl32 1 rcc_csr_pinrstf_pos

abbrev pub rcc_csr_porrstf_pos : ℕ
rcc_csr_porrstf_pos = 27

abbrev pub rcc_csr_porrstf : ℕ
rcc_csr_porrstf = shl32 1 rcc_csr_porrstf_pos

abbrev pub rcc_csr_sftrstf_pos : ℕ
rcc_csr_sftrstf_pos = 28

abbrev pub rcc_csr_sftrstf : ℕ
rcc_csr_sftrstf = shl32 1 rcc_csr_sftrstf_pos

abbrev pub rcc_csr_iwdgrstf_pos : ℕ
rcc_csr_iwdgrstf_pos = 29

abbrev pub rcc_csr_iwdgrstf : ℕ
rcc_csr_iwdgrstf = shl32 1 rcc_csr_iwdgrstf_pos

abbrev pub rcc_csr_wwdgrstf_pos : ℕ
rcc_csr_wwdgrstf_pos = 30

abbrev pub rcc_csr_wwdgrstf : ℕ
rcc_csr_wwdgrstf = shl32 1 rcc_csr_wwdgrstf_pos

abbrev pub rcc_csr_lpwrrstf_pos : ℕ
rcc_csr_lpwrrstf_pos = 31

abbrev pub rcc_csr_lpwrrstf : ℕ
rcc_csr_lpwrrstf = shl32 1 rcc_csr_lpwrrstf_pos

abbrev pub rcc_reset_flags_msk : ℕ
rcc_reset_flags_msk =
    bit_or
      (bit_or
        (bit_or
          (bit_or (bit_or (bit_or rcc_csr_borrstf rcc_csr_pinrstf) rcc_csr_porrstf) rcc_csr_sftrstf)
          rcc_csr_iwdgrstf)
        rcc_csr_wwdgrstf)
      rcc_csr_lpwrrstf
