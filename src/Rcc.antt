-- ===== src/Rcc.antt =====
-- drivers/src/rcc.c, in the order of that file: peripheral clock gates and reset flags,
-- oscillators, the main PLL, and the bus prescalers with the SYSCLK switch.
-- Tree is about calls of these in any order.
pub mod Gate
pub mod Oscillator
pub mod Pll
pub mod Rates
pub mod Sysclk
pub mod Tree
