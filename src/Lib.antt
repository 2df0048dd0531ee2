-- ===== src/Lib.antt =====
-- The drivers of the STM32F446 repository and its clock bring-up, as functions on the registers,
-- with the theorems that make them correct.
--
-- Parts. `bspClockInit` (bsp/src/bsp.c) brings SYSCLK to 180 MHz by calls of the RCC, PWR and
-- FLASH drivers, which share the registers of the record `Clocks`. The other drivers of
-- drivers/src each work on one register block that the caller passes, and call nothing of each
-- other; all return a `DriverStatus_e`. EXTI and NVIC are used together by a caller, as are RCC
-- and every driver that needs a clock. The target firmware (tests/target/smoke.c) does that for its
-- console: it reads back from RCC what the bring-up made of the clocks, sets pins and UART up for
-- it, and prints through the UART driver.
--
--   Status     drivers/inc/driver_status.h
--   Reg        device/inc and core/inc: one record for each register block, and the constants
--   Bus        volatile access, and the poll loop that rcc.c, pwr.c, uart.c and iwdg.c repeat
--   Bus/Wait   what a poll loop guarantees; Bus/Waited what it does at each load; Bus/Keeps what every access of a program keeps
--   Clocks     the blocks RCC, PWR and FLASH together; Clocks/Facts and Clocks/Keep say which
--              bits have which value and what keeps them
--   Rcc        drivers/src/rcc.c: Rcc/Gate the peripheral clocks and reset flags,
--              Rcc/Oscillator HSI and HSE, Rcc/Pll the PLL, Rcc/Sysclk prescalers and the switch;
--              Rcc/Tree calls of these in any order, as a step relation
--   Rcc/Rates  what the clock drivers are measured against: the frequencies that the registers set
--              and their limits, by the tables of drivers/inc/rcc.h, drivers/inc/pwr.h and
--              bsp/inc/bsp.h; the flash allows 30 MHz with each wait state
--   Flash, Pwr, Gpio, Uart, Nvic, Exti, Systick, Fault   drivers/src, the file of that name
--   Gpio/Port  what the GPIO driver promises: a table of pin configurations, and each call on it
--   Exti/Table the same for EXTI: a table of line configurations
--   Nvic/Irqn  the enumerators of core/inc/nvic_reg.h
--   Watchdog   drivers/src/iwdg.c and drivers/src/wwdg.c
--   Bsp        bsp/src/bsp.c and bsp/inc/bsp.h
--   Smoke      tests/target/smoke.c, its console: `actualPclk1Hz`, `print`, `printHex`, `printDec`;
--              Smoke/Board `boardIoInit`, on a `Board` of the three parts that it works on
--   Base, Bits shared names, tests of C on numbers, and the laws of 32-bit masks and shifts
--   Examples   runs on concrete registers
--
-- A C function `rccPllConfig` is the definition `rcc_pll_config`, a register is a field, a macro is
-- a constant of the same name in lower case. A definition that stands for a part of a function
-- says so. A null pointer is `none` or `null_buffer`, and what a pointer holds afterwards is part
-- of the result.
--
-- State. `Bus S` holds the registers, the number of loads made and the log of the registers right
-- after each store. The hardware is a function of the number of the load and the registers, run
-- before each load of a block that is polled (RCC, PWR and FLASH, UART, IWDG): it may set a flag
-- at any time or never. A theorem says what it asks of the hardware; `Steady` is that the bits
-- which the manual calls read-write stay as software wrote them. In the blocks that are never
-- polled only software changes what the drivers read, so these are plain memory. What the
-- hardware makes of a write to SWIER or PR of EXTI (drivers/inc/exti.h) is part of the store, in
-- `raise_swier` and `write_pr`; edges on the lines are left out. What it makes of BSRR is written out
-- beside the theorem that needs it, in Gpio/Drive. 32-bit arithmetic
-- is on natural numbers with `shl32` and `inv32` cut to 32 bits. The sum in `uartComputeBrr` has 64
-- bits in the source and is exact. The records of registers leave out the
-- reserved words.
--
-- Loops. A poll loop is recursion on its budget, the counter of the source: 100000 for the clocks,
-- the regulator and IWDG, the argument `timeout` for the UART. The loops over a buffer are recursion
-- on the bytes. The loop of `printDec` is recursion on the 10 places of its array, and `none` where
-- it would write before them; its theorem says that this does not happen for a 32-bit value.
--
-- Not modelled: the start-up code, the vector table and the linker script, which are not C;
-- app/src/main.c, which is an empty loop; the MPU and FPU registers, which no driver uses; the
-- barriers of nvic.c, which order accesses and store nothing; the checks, the interrupt handlers and
-- `main` of tests/target/smoke.c, which wait for interrupts; the unit tests and the tools.
pub mod Base
pub mod Bits
pub mod Smoke
pub mod Status
pub mod Bus
pub mod Reg
pub mod Clocks
pub mod Flash
pub mod Pwr
pub mod Rcc
pub mod Bsp
pub mod Gpio
pub mod Uart
pub mod Nvic
pub mod Exti
pub mod Watchdog
pub mod Systick
pub mod Fault
pub mod Examples
