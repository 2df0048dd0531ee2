-- ===== src/Bsp/Responsive.antt =====
-- Hardware that answers: every flag comes once its cause is set.
use stm32_rtos.Base.{ℕ, bit_and, eq→!=, ne→==, ◌≡◌, ◌≢◌, refl, [], ◌∷◌}
use stm32_rtos.Status.{ok}
use stm32_rtos.Bus.{Bus, Hw}
use stm32_rtos.Bus.Wait.{wait_under}
use stm32_rtos.Clocks.{Clocks}
use stm32_rtos.Clocks.Facts.{cr, pwr_cr, Steady, Fact, IsFact, Holds, Steady-Holds}
use stm32_rtos.Pwr.{pwr_wait_csr_flag}
use stm32_rtos.Rcc.Oscillator.{active_source, rcc_wait_cr_flag}
use stm32_rtos.Reg.Pwr.{pwr_cr_oden, pwr_cr_odswen, pwr_csr_vosrdy, pwr_csr_odrdy, pwr_csr_odswrdy}
use stm32_rtos.Reg.Rcc.{rcc_cr_hseon, rcc_cr_hserdy, rcc_cr_pllon, rcc_cr_pllrdy}
use stm32_rtos.Rcc.Sysclk.Config.{sw_is}

-- A flag is there at the first load after its cause (RM0390: HSERDY after HSEON, PLLRDY and VOSRDY
-- after PLLON, ODRDY after ODEN, ODSWRDY after ODSWEN, SWS after SW).
pub record IsResponsive (hw : Hw Clocks) : Type 0 where
  pub hse_ready :
      (k : ℕ) (s : Clocks)
      → IsFact s (cr, rcc_cr_hseon, rcc_cr_hseon)
      → bit_and (hw k s).rcc.cr rcc_cr_hserdy ≡ rcc_cr_hserdy
  pub pll_ready :
      (k : ℕ) (s : Clocks)
      → IsFact s (cr, rcc_cr_pllon, rcc_cr_pllon)
      → bit_and (hw k s).rcc.cr rcc_cr_pllrdy ≡ rcc_cr_pllrdy
  pub vos_ready :
      (k : ℕ) (s : Clocks)
      → IsFact s (cr, rcc_cr_pllon, rcc_cr_pllon)
      → bit_and (hw k s).pwr.csr pwr_csr_vosrdy ≢ 0
  pub overdrive_ready :
      (k : ℕ) (s : Clocks)
      → IsFact s (pwr_cr, pwr_cr_oden, pwr_cr_oden)
      → bit_and (hw k s).pwr.csr pwr_csr_odrdy ≢ 0
  pub switching_ready :
      (k : ℕ) (s : Clocks)
      → IsFact s (pwr_cr, pwr_cr_odswen, pwr_cr_odswen)
      → bit_and (hw k s).pwr.csr pwr_csr_odswrdy ≢ 0
  pub pll_selected : (k : ℕ) (s : Clocks) → IsFact s (sw_is 2) → active_source (hw k s) ≡ 2

module _ (hw : Hw Clocks) (steady : Steady hw) (responds : IsResponsive hw) where
  pub hse_comes :
      (b : Bus Clocks)
      → IsFact b.regs (cr, rcc_cr_hseon, rcc_cr_hseon)
      → (rcc_wait_cr_flag hw rcc_cr_hserdy rcc_cr_hserdy b).0 ≡ ok
  unfolding rcc_wait_cr_flag
  hse_comes b h =
      wait_under hw _ (Holds ((cr, rcc_cr_hseon, rcc_cr_hseon) ∷ []))
        (Steady-Holds hw steady ((cr, rcc_cr_hseon, rcc_cr_hseon) ∷ []) refl)
        (λ k s h'. eq→!= _ _ (responds.hse_ready k s h'.0)) _ b (h, tt)

  pub pll_comes :
      (b : Bus Clocks)
      → IsFact b.regs (cr, rcc_cr_pllon, rcc_cr_pllon)
      → (rcc_wait_cr_flag hw rcc_cr_pllrdy rcc_cr_pllrdy b).0 ≡ ok
  unfolding rcc_wait_cr_flag
  pll_comes b h =
      wait_under hw _ (Holds ((cr, rcc_cr_pllon, rcc_cr_pllon) ∷ []))
        (Steady-Holds hw steady ((cr, rcc_cr_pllon, rcc_cr_pllon) ∷ []) refl)
        (λ k s h'. eq→!= _ _ (responds.pll_ready k s h'.0)) _ b (h, tt)

  pub csr_comes :
      (flag : ℕ) (f : Fact)
      (kept : (k : ℕ) (s : Clocks) → Holds (f ∷ []) s → Holds (f ∷ []) (hw k s))
      → ((k : ℕ) (s : Clocks) → IsFact s f → bit_and (hw k s).pwr.csr flag ≢ 0)
      → (b : Bus Clocks) → IsFact b.regs f
      → (pwr_wait_csr_flag hw flag b).0 ≡ ok
  unfolding pwr_wait_csr_flag
  csr_comes flag f kept shows b h =
      wait_under hw _ (Holds (f ∷ [])) kept (λ k s h'. ne→== _ _ (shows k s h'.0)) _ b (h, tt)
