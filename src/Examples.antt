-- ===== src/Examples.antt =====
-- Runs on concrete registers, and the theorems at concrete arguments.
pub mod Reset
pub mod Board
pub mod Clock
pub mod Serial
pub mod Pins
pub mod Core
pub mod Tree
pub mod Rates
pub mod Console
