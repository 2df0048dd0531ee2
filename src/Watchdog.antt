-- ===== src/Watchdog.antt =====
-- The two watchdogs, drivers/src/iwdg.c and drivers/src/wwdg.c.
pub mod Iwdg
pub mod Wwdg
