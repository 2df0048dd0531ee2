-- ===== src/Examples/Tree.antt =====
-- The clock tree: from HSI to the PLL on HSE, after which HSI may go and HSE may not.
use stm32_rtos.Base.{
  bit_and, bit_or, ◌==◌, ◌&&◌, split_and, ==→eq, Bool, Bool-cases, ◌≡◌, ◌≢◌, refl, sym, ◌∙◌, inl,
  inr, All, arith, if◌then◌else◌,
}
use stm32_rtos.Bits.{inv32, field_read, or-and_self}
use stm32_rtos.Status.{ok, err_timeout}
use stm32_rtos.Bus.{Bus, Hw, fresh, wait, poll}
use stm32_rtos.Examples.Reset.{after_reset}
use stm32_rtos.Clocks.{Clocks, on_cr, on_cfgr}
use stm32_rtos.Clocks.Facts.{
  ClockReg, read_reg, soft, cr, pllcfgr, cfgr, apb1enr, pwr_cr, acr, Steady, Only-set, Only-field,
}
use stm32_rtos.Flash.{flash_set_latency}
use stm32_rtos.Rcc.Oscillator.{rcc_wait_cr_flag, rcc_hse_enable, rcc_hse_disable, rcc_hsi_disable}
use stm32_rtos.Rcc.Pll.{rcc_pll_config, rcc_pll_enable}
use stm32_rtos.Rcc.Sysclk.{
  rcc_sysclk_switch, raise_latency, check_source_ready, request_source, lower_latency,
}
use stm32_rtos.Rcc.Sysclk.Finish.{RunsAt, rcc_sysclk_switch_finishes}
use stm32_rtos.Rcc.Tree.{
  hsi, pll_hse, IsFed, IsSettled, Follows, hsi_off, hse_on, hse_off, pll_set, pll_on, switch, Reach,
  here, after,
}
use stm32_rtos.Rcc.Tree.Invariant.{reach-IsFed}
use stm32_rtos.Rcc.Tree.Latency.{HasLatency, rcc_sysclk_switch-HasLatency}
use stm32_rtos.Reg.Rcc.{
  rcc_cr_hseon, rcc_cr_hserdy, rcc_cr_pllon, rcc_cr_pllrdy, rcc_pllcfgr_pllsrc,
}

-- The PLL on HSE is requested, and everything on the way is on.
abbrev pll_asked : Clocks → Bool
pll_asked s =
    bit_and s.rcc.cr rcc_cr_pllon == rcc_cr_pllon
    && bit_and s.rcc.pllcfgr rcc_pllcfgr_pllsrc == rcc_pllcfgr_pllsrc
    && bit_and s.rcc.cr rcc_cr_hseon == rcc_cr_hseon
    && bit_and s.rcc.cfgr 3 == 2

abbrev with_flags : Clocks → Clocks
with_flags s = on_cr (λ x. bit_or (bit_or x rcc_cr_pllrdy) rcc_cr_hserdy) s

-- HSE and the PLL are always ready, and SYSCLK goes to the PLL once it may.
abbrev pub tracks : Hw Clocks
tracks n s =
    if pll_asked s
    then on_cfgr (λ x. bit_or (bit_and x (inv32 0xc)) 0x8) (with_flags s)
    else with_flags s

flags_soft : (s : Clocks) → bit_and (with_flags s).rcc.cr 0xfdfdfffd ≡ bit_and s.rcc.cr 0xfdfdfffd
flags_soft s =
    Only-set rcc_cr_hserdy (bit_or s.rcc.cr rcc_cr_pllrdy) _ (omega arith) refl
    ∙ Only-set rcc_cr_pllrdy s.rcc.cr _ (omega arith) refl

moved-Steady :
    (s : Clocks) (r : ClockReg)
    → bit_and
        (read_reg r (on_cfgr (λ x. bit_or (bit_and x (inv32 0xc)) 0x8) (with_flags s)))
        (soft r)
      ≡ bit_and (read_reg r s) (soft r)
moved-Steady s cr = flags_soft s
moved-Steady s cfgr = Only-field 0xc 0x8 (omega arith) refl s.rcc.cfgr _ (omega arith) refl
moved-Steady s pllcfgr = refl
moved-Steady s apb1enr = refl
moved-Steady s pwr_cr = refl
moved-Steady s acr = refl

idle-Steady :
    (s : Clocks) (r : ClockReg)
    → bit_and (read_reg r (with_flags s)) (soft r) ≡ bit_and (read_reg r s) (soft r)
idle-Steady s cr = flags_soft s
idle-Steady s cfgr = refl
idle-Steady s pllcfgr = refl
idle-Steady s apb1enr = refl
idle-Steady s pwr_cr = refl
idle-Steady s acr = refl

pub tracks-Steady : Steady tracks
tracks-Steady n s r = elim (Bool-cases (pll_asked s)) [
  | inl asked ↦ rw asked (moved-Steady s r)
  | inr idle ↦ rw idle (idle-Steady s r)
]

pub tracks-Follows : Follows tracks
tracks-Follows n s = elim (Bool-cases (pll_asked s)) [
  | inr idle ↦ rw idle (inl refl)
  | inl asked ↦
      let now = field_read s.rcc.cfgr 0xc 0x8 (omega arith) refl in
      let (rest', sw) = split_and _ _ asked in
      let (rest, hse_is_on) = split_and _ _ rest' in
      let (on, input) = split_and _ _ rest in
      rw asked (
        inr (
          pll_hse,
          (==→eq _ _ on, (==→eq _ _ input, (==→eq _ _ hse_is_on, tt))),
          ==→eq _ _ sw,
          rw now refl,
        ))
]

reset-IsSettled : IsSettled after_reset
reset-IsSettled = (hsi, record { in_use = refl; on = (refl, tt) }, refl)

abbrev with_hse : Bus Clocks
with_hse = (rcc_hse_enable tracks 0 (fresh after_reset 0)).1

abbrev with_config : Bus Clocks
with_config = (rcc_pll_config tracks rcc_pllcfgr_pllsrc 8 360 0 with_hse).1

abbrev with_pll : Bus Clocks
with_pll = (rcc_pll_enable tracks with_config).1

abbrev on_pll : Bus Clocks
on_pll = (rcc_sysclk_switch tracks 2 5 with_pll).1

abbrev without_hsi : Bus Clocks
without_hsi = (rcc_hsi_disable tracks on_pll).1

abbrev at_last : Bus Clocks
at_last = (rcc_hse_disable tracks without_hsi).1

switch_ok : (rcc_sysclk_switch tracks 2 5 with_pll).0 ≡ ok
unfolding rcc_hse_enable rcc_wait_cr_flag rcc_pll_config rcc_pll_enable rcc_sysclk_switch
    raise_latency check_source_ready request_source lower_latency flash_set_latency wait poll
switch_ok = refl

switch_in_time : (rcc_sysclk_switch tracks 2 5 with_pll).0 ≢ err_timeout
switch_in_time late = ok_apart (sym switch_ok ∙ late)
  where
    ok_apart : ¬ (ok ≡ err_timeout)
    ok_apart h = grind arith

calls : Reach tracks (fresh after_reset 0) at_last
calls = after (hse_on 0 (fresh after_reset 0)) (
    after (pll_set rcc_pllcfgr_pllsrc 8 360 0 with_hse) (
      after (pll_on with_config) (
        after (switch 2 5 with_pll switch_in_time)
          (after (hsi_off on_pll) (after (hse_off without_hsi) (here at_last))))))

reach-IsFed_example : All IsFed at_last.log × IsSettled at_last.regs
reach-IsFed_example =
    reach-IsFed tracks after_reset 0 at_last tracks-Steady tracks-Follows reset-IsSettled calls

rcc_sysclk_switch-HasLatency_example :
    All (HasLatency with_pll.regs 2 5) (rcc_sysclk_switch tracks 2 5 (fresh with_pll.regs 0)).1.log
rcc_sysclk_switch-HasLatency_example =
    rcc_sysclk_switch-HasLatency tracks with_pll.regs 0 2 5 tracks-Steady tracks-Follows

-- HSE is ready, and SYSCLK goes to it.
abbrev hse_comes : Hw Clocks
hse_comes n s =
    on_cfgr (λ x. bit_or (bit_and x (inv32 0xc)) 0x4) (on_cr (λ x. bit_or x rcc_cr_hserdy) s)

hse_comes-Steady : Steady hse_comes
hse_comes-Steady n s cr = Only-set rcc_cr_hserdy s.rcc.cr _ (omega arith) refl
hse_comes-Steady n s cfgr = Only-field 0xc 0x4 (omega arith) refl s.rcc.cfgr _ (omega arith) refl
hse_comes-Steady n s pllcfgr = refl
hse_comes-Steady n s apb1enr = refl
hse_comes-Steady n s pwr_cr = refl
hse_comes-Steady n s acr = refl

-- From the PLL down to HSE, and from latency 5 down to 0.
rcc_sysclk_switch_finishes_example :
    let r = rcc_sysclk_switch hse_comes 1 0 (fresh on_pll.regs 0) in
    (r.0 ≡ ok) × RunsAt 1 0 r.1.regs
rcc_sysclk_switch_finishes_example =
    rcc_sysclk_switch_finishes hse_comes 1 0 on_pll.regs 0 hse_comes-Steady
      (λ n s e. absurd (omega (arith, e, or-and_self s.rcc.cr rcc_cr_hserdy)))
      (λ n s h. rw (field_read s.rcc.cfgr 0xc 0x4 (omega arith) refl) refl) (omega arith)
      (omega arith)
