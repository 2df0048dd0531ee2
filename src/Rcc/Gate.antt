-- ===== src/Rcc/Gate.antt =====
-- drivers/src/rcc.c: peripheral clock gates and the reset cause.
use stm32_rtos.Base.{ℕ, bit_and, bit_or, ◌==◌, if◌then◌else◌}
use stm32_rtos.Bits.{inv32}
use stm32_rtos.Status.{DriverStatus, ok, err_invalid_param}
use stm32_rtos.Bus.{Hw, M, pure, ◌>>=◌, ◌>>◌, load, modify, if_ok}
use stm32_rtos.Clocks.{Clocks, on_ahb1enr, on_apb1enr, on_apb2enr, on_csr}
use stm32_rtos.Reg.Gpio.{gpioa, gpiob, gpioc, gpiod, gpioe, gpiof, gpiog, gpioh}
use stm32_rtos.Reg.Rcc.Enable.{
  rcc_ahb1enr_gpioaen, rcc_ahb1enr_gpioben, rcc_ahb1enr_gpiocen, rcc_ahb1enr_gpioden,
  rcc_ahb1enr_gpioeen, rcc_ahb1enr_gpiofen, rcc_ahb1enr_gpiogen, rcc_ahb1enr_gpiohen,
  rcc_apb1enr_usart2en, rcc_apb1enr_wwdgen, rcc_apb1enr_pwren, rcc_apb2enr_syscfgen,
  rcc_reset_flags_msk, rcc_csr_rmvf,
}

-- The status, and what `*bit` holds afterwards.
unfoldable pub rcc_gpio_clock_bit : ℕ → ℕ → DriverStatus × ℕ
rcc_gpio_clock_bit port bit =
    if port == gpioa
    then (ok, rcc_ahb1enr_gpioaen)
    else if port == gpiob
    then (ok, rcc_ahb1enr_gpioben)
    else if port == gpioc
    then (ok, rcc_ahb1enr_gpiocen)
    else if port == gpiod
    then (ok, rcc_ahb1enr_gpioden)
    else if port == gpioe
    then (ok, rcc_ahb1enr_gpioeen)
    else if port == gpiof
    then (ok, rcc_ahb1enr_gpiofen)
    else if port == gpiog
    then (ok, rcc_ahb1enr_gpiogen)
    else if port == gpioh
    then (ok, rcc_ahb1enr_gpiohen)
    else (err_invalid_param, bit)

module _ (hw : Hw Clocks) where
  unfoldable pub rcc_gpio_clock_enable : ℕ → M Clocks DriverStatus
  rcc_gpio_clock_enable port =
      let (status, bit) = rcc_gpio_clock_bit port 0 in
      if_ok status do
        modify hw (on_ahb1enr (λ ahb1enr. bit_or ahb1enr bit))
        read_back ← load hw (λ s. s.rcc.ahb1enr)
        pure status

  pub rcc_gpio_clock_disable : ℕ → M Clocks DriverStatus
  rcc_gpio_clock_disable port =
      let (status, bit) = rcc_gpio_clock_bit port 0 in
      if_ok status do modify hw (on_ahb1enr (λ ahb1enr. bit_and ahb1enr (inv32 bit))); pure status

  unfoldable pub rcc_usart2_clock_enable : M Clocks (Unit {0})
  rcc_usart2_clock_enable = do
    modify hw (on_apb1enr (λ apb1enr. bit_or apb1enr rcc_apb1enr_usart2en))
    load hw (λ s. tt)

  pub rcc_usart2_clock_disable : M Clocks (Unit {0})
  rcc_usart2_clock_disable =
      modify hw (on_apb1enr (λ apb1enr. bit_and apb1enr (inv32 rcc_apb1enr_usart2en)))

  pub rcc_wwdg_clock_enable : M Clocks (Unit {0})
  rcc_wwdg_clock_enable = do
    modify hw (on_apb1enr (λ apb1enr. bit_or apb1enr rcc_apb1enr_wwdgen))
    load hw (λ s. tt)

  pub rcc_wwdg_clock_disable : M Clocks (Unit {0})
  rcc_wwdg_clock_disable =
      modify hw (on_apb1enr (λ apb1enr. bit_and apb1enr (inv32 rcc_apb1enr_wwdgen)))

  pub rcc_syscfg_clock_enable : M Clocks (Unit {0})
  rcc_syscfg_clock_enable = do
    modify hw (on_apb2enr (λ apb2enr. bit_or apb2enr rcc_apb2enr_syscfgen))
    load hw (λ s. tt)

  pub rcc_syscfg_clock_disable : M Clocks (Unit {0})
  rcc_syscfg_clock_disable =
      modify hw (on_apb2enr (λ apb2enr. bit_and apb2enr (inv32 rcc_apb2enr_syscfgen)))

  unfoldable pub rcc_pwr_clock_enable : M Clocks (Unit {0})
  rcc_pwr_clock_enable = do
    modify hw (on_apb1enr (λ apb1enr. bit_or apb1enr rcc_apb1enr_pwren))
    load hw (λ s. tt)

  pub rcc_pwr_clock_disable : M Clocks (Unit {0})
  rcc_pwr_clock_disable =
      modify hw (on_apb1enr (λ apb1enr. bit_and apb1enr (inv32 rcc_apb1enr_pwren)))

  pub rcc_reset_flags : M Clocks ℕ
  rcc_reset_flags = load hw (λ s. bit_and s.rcc.csr rcc_reset_flags_msk)

  pub rcc_clear_reset_flags : M Clocks (Unit {0})
  rcc_clear_reset_flags = modify hw (on_csr (λ csr. bit_or csr rcc_csr_rmvf))
