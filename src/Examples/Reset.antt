-- ===== src/Examples/Reset.antt =====
-- Clocks as the runs start with them: HSI is on, ready and in use, and all else is off.
use stm32_rtos.Clocks.{Clocks}

abbrev pub after_reset : Clocks
after_reset = record {
  rcc = record {
    cr = 0x83;
    pllcfgr = 0x24003010;
    cfgr = 0;
    cir = 0;
    ahb1rstr = 0;
    ahb2rstr = 0;
    ahb3rstr = 0;
    apb1rstr = 0;
    apb2rstr = 0;
    ahb1enr = 0;
    ahb2enr = 0;
    ahb3enr = 0;
    apb1enr = 0;
    apb2enr = 0;
    ahb1lpenr = 0;
    ahb2lpenr = 0;
    ahb3lpenr = 0;
    apb1lpenr = 0;
    apb2lpenr = 0;
    bdcr = 0;
    csr = 0x0e000000;
    sscgr = 0;
    plli2scfgr = 0;
    pllsaicfgr = 0;
    dckcfgr = 0;
    ckgatenr = 0;
    dckcfgr2 = 0;
  };
  pwr = record { cr = 0xc000; csr = 0 };
  flash = record { acr = 0; keyr = 0; optkeyr = 0; sr = 0; cr = 0; optcr = 0; optcr1 = 0 };
}
