-- ===== src/Reg.antt =====
-- The register headers: blocks as records, fields and values as constants.
pub mod Rcc
pub mod Flash
pub mod Pwr
pub mod Uart
pub mod Gpio
pub mod Exti
pub mod Iwdg
pub mod Wwdg
pub mod Dbgmcu
pub mod Systick
pub mod Scb
