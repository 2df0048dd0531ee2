-- ===== src/Reg/Gpio.antt =====
-- device/inc/gpio_reg.h. A port is known by its address.
use stm32_rtos.Base.{ℕ}

pub record GpioRegisters : Type 0 where
  pub moder : ℕ
  pub otyper : ℕ
  pub ospeedr : ℕ
  pub pupdr : ℕ
  pub idr : ℕ
  pub odr : ℕ
  pub bsrr : ℕ
  pub lckr : ℕ
  pub afrl : ℕ
  pub afrh : ℕ

abbrev pub gpioa_base : ℕ
gpioa_base = 0x40020000

abbrev pub gpiob_base : ℕ
gpiob_base = 0x40020400

abbrev pub gpioc_base : ℕ
gpioc_base = 0x40020800

abbrev pub gpiod_base : ℕ
gpiod_base = 0x40020c00

abbrev pub gpioe_base : ℕ
gpioe_base = 0x40021000

abbrev pub gpiof_base : ℕ
gpiof_base = 0x40021400

abbrev pub gpiog_base : ℕ
gpiog_base = 0x40021800

abbrev pub gpioh_base : ℕ
gpioh_base = 0x40021c00

abbrev pub gpioa : ℕ
gpioa = gpioa_base

abbrev pub gpiob : ℕ
gpiob = gpiob_base

abbrev pub gpioc : ℕ
gpioc = gpioc_base

abbrev pub gpiod : ℕ
gpiod = gpiod_base

abbrev pub gpioe : ℕ
gpioe = gpioe_base

abbrev pub gpiof : ℕ
gpiof = gpiof_base

abbrev pub gpiog : ℕ
gpiog = gpiog_base

abbrev pub gpioh : ℕ
gpioh = gpioh_base

abbrev pub gpio_mode_analog : ℕ
gpio_mode_analog = 0x3

abbrev pub gpio_otype_od : ℕ
gpio_otype_od = 0x1

abbrev pub gpio_ospeed_high : ℕ
gpio_ospeed_high = 0x3

abbrev pub gpio_pupd_down : ℕ
gpio_pupd_down = 0x2

abbrev pub gpioa_moder_reset : ℕ
gpioa_moder_reset = 0xa8000000

abbrev pub gpioa_pupdr_reset : ℕ
gpioa_pupdr_reset = 0x64000000

abbrev pub gpiob_moder_reset : ℕ
gpiob_moder_reset = 0x00000280

abbrev pub gpiob_ospeedr_reset : ℕ
gpiob_ospeedr_reset = 0x000000c0

abbrev pub gpiob_pupdr_reset : ℕ
gpiob_pupdr_reset = 0x00000100

abbrev pub gpio_af_max : ℕ
gpio_af_max = 15
