-- ===== src/Clocks.antt =====
-- The three blocks that clock bring-up works on together: RCC, PWR and the flash interface.
-- They are one state because the hardware couples them (VOSRDY follows the PLL, the flash
-- latency bounds SYSCLK). Each setter below is the store of one register.
pub mod Facts
pub mod Keep
use stm32_rtos.Base.{ℕ}
use stm32_rtos.Reg.Rcc.{RccRegisters}
use stm32_rtos.Reg.Pwr.{PwrRegisters}
use stm32_rtos.Reg.Flash.{FlashRegisters}

pub record Clocks : Type 0 where
  pub rcc : RccRegisters
  pub pwr : PwrRegisters
  pub flash : FlashRegisters

abbrev pub on_cr : (ℕ → ℕ) → Clocks → Clocks
on_cr f s = record s { rcc = record s.rcc { cr = f s.rcc.cr } }

abbrev pub on_pllcfgr : (ℕ → ℕ) → Clocks → Clocks
on_pllcfgr f s = record s { rcc = record s.rcc { pllcfgr = f s.rcc.pllcfgr } }

abbrev pub on_cfgr : (ℕ → ℕ) → Clocks → Clocks
on_cfgr f s = record s { rcc = record s.rcc { cfgr = f s.rcc.cfgr } }

abbrev pub on_ahb1enr : (ℕ → ℕ) → Clocks → Clocks
on_ahb1enr f s = record s { rcc = record s.rcc { ahb1enr = f s.rcc.ahb1enr } }

abbrev pub on_apb1enr : (ℕ → ℕ) → Clocks → Clocks
on_apb1enr f s = record s { rcc = record s.rcc { apb1enr = f s.rcc.apb1enr } }

abbrev pub on_apb2enr : (ℕ → ℕ) → Clocks → Clocks
on_apb2enr f s = record s { rcc = record s.rcc { apb2enr = f s.rcc.apb2enr } }

abbrev pub on_csr : (ℕ → ℕ) → Clocks → Clocks
on_csr f s = record s { rcc = record s.rcc { csr = f s.rcc.csr } }

abbrev pub on_pwr_cr : (ℕ → ℕ) → Clocks → Clocks
on_pwr_cr f s = record s { pwr = record s.pwr { cr = f s.pwr.cr } }

abbrev pub on_acr : (ℕ → ℕ) → Clocks → Clocks
on_acr f s = record s { flash = record s.flash { acr = f s.flash.acr } }
