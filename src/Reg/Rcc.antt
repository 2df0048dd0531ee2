-- ===== src/Reg/Rcc.antt =====
-- device/inc/rcc_reg.h: the RCC registers, and the fields and values that the drivers use.
pub mod Enable
use stm32_rtos.Base.{ℕ}
use stm32_rtos.Bits.{shl32}

pub record RccRegisters : Type 0 where
  pub cr : ℕ
  pub pllcfgr : ℕ
  pub cfgr : ℕ
  pub cir : ℕ
  pub ahb1rstr : ℕ
  pub ahb2rstr : ℕ
  pub ahb3rstr : ℕ
  pub apb1rstr : ℕ
  pub apb2rstr : ℕ
  pub ahb1enr : ℕ
  pub ahb2enr : ℕ
  pub ahb3enr : ℕ
  pub apb1enr : ℕ
  pub apb2enr : ℕ
  pub ahb1lpenr : ℕ
  pub ahb2lpenr : ℕ
  pub ahb3lpenr : ℕ
  pub apb1lpenr : ℕ
  pub apb2lpenr : ℕ
  pub bdcr : ℕ
  pub csr : ℕ
  pub sscgr : ℕ
  pub plli2scfgr : ℕ
  pub pllsaicfgr : ℕ
  pub dckcfgr : ℕ
  pub ckgatenr : ℕ
  pub dckcfgr2 : ℕ

abbrev pub rcc_cr_hsion_pos : ℕ
rcc_cr_hsion_pos = 0

abbrev pub rcc_cr_hsion : ℕ
rcc_cr_hsion = shl32 1 rcc_cr_hsion_pos

abbrev pub rcc_cr_hsirdy_pos : ℕ
rcc_cr_hsirdy_pos = 1

abbrev pub rcc_cr_hsirdy : ℕ
rcc_cr_hsirdy = shl32 1 rcc_cr_hsirdy_pos

abbrev pub rcc_cr_hseon_pos : ℕ
rcc_cr_hseon_pos = 16

abbrev pub rcc_cr_hseon : ℕ
rcc_cr_hseon = shl32 1 rcc_cr_hseon_pos

abbrev pub rcc_cr_hserdy_pos : ℕ
rcc_cr_hserdy_pos = 17

abbrev pub rcc_cr_hserdy : ℕ
rcc_cr_hserdy = shl32 1 rcc_cr_hserdy_pos

abbrev pub rcc_cr_hsebyp_pos : ℕ
rcc_cr_hsebyp_pos = 18

abbrev pub rcc_cr_hsebyp : ℕ
rcc_cr_hsebyp = shl32 1 rcc_cr_hsebyp_pos

abbrev pub rcc_cr_pllon_pos : ℕ
rcc_cr_pllon_pos = 24

abbrev pub rcc_cr_pllon : ℕ
rcc_cr_pllon = shl32 1 rcc_cr_pllon_pos

abbrev pub rcc_cr_pllrdy_pos : ℕ
rcc_cr_pllrdy_pos = 25

abbrev pub rcc_cr_pllrdy : ℕ
rcc_cr_pllrdy = shl32 1 rcc_cr_pllrdy_pos

abbrev pub rcc_pllcfgr_pllm_pos : ℕ
rcc_pllcfgr_pllm_pos = 0

abbrev pub rcc_pllcfgr_pllm_msk : ℕ
rcc_pllcfgr_pllm_msk = shl32 0x3f rcc_pllcfgr_pllm_pos

abbrev pub rcc_pllcfgr_plln_pos : ℕ
rcc_pllcfgr_plln_pos = 6

abbrev pub rcc_pllcfgr_plln_msk : ℕ
rcc_pllcfgr_plln_msk = shl32 0x1ff rcc_pllcfgr_plln_pos

abbrev pub rcc_pllcfgr_pllp_pos : ℕ
rcc_pllcfgr_pllp_pos = 16

abbrev pub rcc_pllcfgr_pllp_msk : ℕ
rcc_pllcfgr_pllp_msk = shl32 0x3 rcc_pllcfgr_pllp_pos

abbrev pub rcc_pllcfgr_pllsrc_pos : ℕ
rcc_pllcfgr_pllsrc_pos = 22

abbrev pub rcc_pllcfgr_pllsrc : ℕ
rcc_pllcfgr_pllsrc = shl32 1 rcc_pllcfgr_pllsrc_pos

abbrev pub rcc_pllcfgr_pllsrc_hsi : ℕ
rcc_pllcfgr_pllsrc_hsi = 0x0

abbrev pub rcc_pllcfgr_pllsrc_hse : ℕ
rcc_pllcfgr_pllsrc_hse = rcc_pllcfgr_pllsrc

abbrev pub rcc_pllcfgr_pllp_div2 : ℕ
rcc_pllcfgr_pllp_div2 = 0x0

abbrev pub rcc_cfgr_sw_pos : ℕ
rcc_cfgr_sw_pos = 0

abbrev pub rcc_cfgr_sw_msk : ℕ
rcc_cfgr_sw_msk = shl32 0x3 rcc_cfgr_sw_pos

abbrev pub rcc_cfgr_sws_pos : ℕ
rcc_cfgr_sws_pos = 2

abbrev pub rcc_cfgr_sws_msk : ℕ
rcc_cfgr_sws_msk = shl32 0x3 rcc_cfgr_sws_pos

abbrev pub rcc_cfgr_hpre_pos : ℕ
rcc_cfgr_hpre_pos = 4

abbrev pub rcc_cfgr_hpre_msk : ℕ
rcc_cfgr_hpre_msk = shl32 0xf rcc_cfgr_hpre_pos

abbrev pub rcc_cfgr_ppre1_pos : ℕ
rcc_cfgr_ppre1_pos = 10

abbrev pub rcc_cfgr_ppre1_msk : ℕ
rcc_cfgr_ppre1_msk = shl32 0x7 rcc_cfgr_ppre1_pos

abbrev pub rcc_cfgr_ppre2_pos : ℕ
rcc_cfgr_ppre2_pos = 13

abbrev pub rcc_cfgr_ppre2_msk : ℕ
rcc_cfgr_ppre2_msk = shl32 0x7 rcc_cfgr_ppre2_pos

abbrev pub rcc_cfgr_sysclk_hsi : ℕ
rcc_cfgr_sysclk_hsi = 0x0

abbrev pub rcc_cfgr_sysclk_hse : ℕ
rcc_cfgr_sysclk_hse = 0x1

abbrev pub rcc_cfgr_sysclk_pll : ℕ
rcc_cfgr_sysclk_pll = 0x2

abbrev pub rcc_cfgr_hpre_div1 : ℕ
rcc_cfgr_hpre_div1 = 0x0

abbrev pub rcc_cfgr_hpre_div2 : ℕ
rcc_cfgr_hpre_div2 = 0x8

abbrev pub rcc_cfgr_hpre_div4 : ℕ
rcc_cfgr_hpre_div4 = 0x9

abbrev pub rcc_cfgr_hpre_div8 : ℕ
rcc_cfgr_hpre_div8 = 0xa

abbrev pub rcc_cfgr_hpre_div16 : ℕ
rcc_cfgr_hpre_div16 = 0xb

abbrev pub rcc_cfgr_hpre_div64 : ℕ
rcc_cfgr_hpre_div64 = 0xc

abbrev pub rcc_cfgr_hpre_div128 : ℕ
rcc_cfgr_hpre_div128 = 0xd

abbrev pub rcc_cfgr_hpre_div256 : ℕ
rcc_cfgr_hpre_div256 = 0xe

abbrev pub rcc_cfgr_hpre_div512 : ℕ
rcc_cfgr_hpre_div512 = 0xf

abbrev pub rcc_cfgr_ppre_div1 : ℕ
rcc_cfgr_ppre_div1 = 0x0

abbrev pub rcc_cfgr_ppre_div2 : ℕ
rcc_cfgr_ppre_div2 = 0x4

abbrev pub rcc_cfgr_ppre_div4 : ℕ
rcc_cfgr_ppre_div4 = 0x5

abbrev pub rcc_cfgr_ppre_div8 : ℕ
rcc_cfgr_ppre_div8 = 0x6

abbrev pub rcc_cfgr_ppre_div16 : ℕ
rcc_cfgr_ppre_div16 = 0x7
