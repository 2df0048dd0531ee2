-- ===== src/Uart/Init.antt =====
-- `uartInit`: the fields that it sets, that the line settings change only while the UART is off,
-- and what it refuses.
use stm32_rtos.Base.{
  List, ℕ, suc, Bool-cases, true, false, bit_and, bit_or, ◌≡◌, ◌≢◌, refl, ap, ◌∙◌, ◌⊎◌, inl, inr,
  arith, [], ◌∷◌, All, ◌<◌, ◌^◌,
}
use stm32_rtos.Bits.{inv32, shl32, and-inv32_self, or-and_self, set_frame, field_read, shl32-in}
use stm32_rtos.Status.{DriverStatus, ok, err_invalid_param, is_ok, ok_only}
use stm32_rtos.Bus.{Hw, fresh}
use stm32_rtos.Reg.Uart.{
  UartRegisters, usart_cr1_ue, usart_cr1_pce, usart_cr1_ps, usart_cr1_m, usart_cr1_over8,
  usart_cr2_stop_msk,
}
use stm32_rtos.Uart.{uart_init, uart_apply, uart_compute_brr}
use stm32_rtos.Uart.Baud.{uart_compute_brr_refused}
use stm32_rtos.Uart.Format.{
  IsFormat, IsLine, IsOff, check_cases, check_ok, check_late, line_cr1, line_m, line_over8,
  line_pce, line_ps, line_dir, line_off,
}

-- The hardware leaves CR1, CR2 and BRR as software wrote them.
abbrev pub Steady : Hw UartRegisters → Type 0
Steady hw =
    (k : ℕ) (s : UartRegisters)
    → ((hw k s).cr1 ≡ s.cr1) × ((hw k s).cr2 ≡ s.cr2) × ((hw k s).brr ≡ s.brr)

stop_small : (stop : ℕ) → (stop ≡ 0) ⊎ (stop ≡ 2) → stop < 2 ^ 2
stop_small stop h = grind arith

not_ok : (st : DriverStatus) → st ≡ ok → is_ok st ≡ false → ⊥
not_ok st e bad = let t : is_ok st ≡ true = rw e refl in ground arith

module _ (hw : Hw UartRegisters) (steady : Steady hw) (brr stop pe ps dir : ℕ)
    (f : IsFormat stop pe ps dir) (word : dir < 2 ^ 32) (s : UartRegisters) (t : ℕ) where
  abbrev off1 : UartRegisters
  off1 = record (hw t s) { cr1 = bit_and (hw t s).cr1 (inv32 usart_cr1_ue) }

  abbrev off2 : UartRegisters
  off2 = record off1 { brr = brr }

  abbrev off3 : UartRegisters
  off3 =
      let r = hw (suc t) off2 in
      record r { cr2 = bit_or (bit_and r.cr2 (inv32 usart_cr2_stop_msk)) (shl32 stop 12) }

  abbrev off4 : UartRegisters
  off4 = let r = hw (suc (suc t)) off3 in record r { cr1 = line_cr1 r.cr1 pe ps dir }

  abbrev on5 : UartRegisters
  on5 = let r = hw (suc (suc (suc t))) off4 in record r { cr1 = bit_or r.cr1 usart_cr1_ue }

  apply_log : (uart_apply hw brr stop pe ps dir (fresh s t)).1 ≡ record {
    regs = on5;
    time = suc (suc (suc (suc t)));
    log = on5 ∷ off4 ∷ off3 ∷ off2 ∷ off1 ∷ [];
  }
  unfolding uart_apply
  apply_log = refl

  off1-IsOff : IsOff off1
  off1-IsOff = and-inv32_self (hw t s).cr1 usart_cr1_ue (omega arith)

  off3-IsOff : IsOff off3
  off3-IsOff = rw (steady (suc t) off2).0 off1-IsOff

  off4-IsOff : IsOff off4
  off4-IsOff =
      line_off (hw (suc (suc t)) off3).cr1 stop pe ps dir f word
        (rw (steady (suc (suc t)) off3).0 off3-IsOff)

  on5-IsLine : IsLine on5 brr stop pe ps dir
  on5-IsLine = record {
    divisor =
        (steady (suc (suc (suc t))) off4).2
        ∙ (steady (suc (suc t)) off3).2
        ∙ (steady (suc t) off2).2;
    stop_field =
        ap (λ (x : ℕ). bit_and x usart_cr2_stop_msk)
          ((steady (suc (suc (suc t))) off4).1 ∙ (steady (suc (suc t)) off3).1)
        ∙ field_read (hw (suc t) off2).cr2 usart_cr2_stop_msk (shl32 stop 12) (omega arith)
            (shl32-in 2 12 stop (stop_small stop f.stop_fits) (omega arith));
    length_field = kept usart_cr1_m refl ∙ line_m (hw (suc (suc t)) off3).cr1 stop pe ps dir f word;
    oversampling_field =
        kept usart_cr1_over8 refl ∙ line_over8 (hw (suc (suc t)) off3).cr1 stop pe ps dir f word;
    parity_field =
        kept usart_cr1_pce refl ∙ line_pce (hw (suc (suc t)) off3).cr1 stop pe ps dir f word;
    select_field =
        kept usart_cr1_ps refl ∙ line_ps (hw (suc (suc t)) off3).cr1 stop pe ps dir f word;
    direction_field = kept 0xc refl ∙ line_dir (hw (suc (suc t)) off3).cr1 stop pe ps dir f word;
    enabled = or-and_self (hw (suc (suc (suc t))) off4).cr1 usart_cr1_ue;
  }
    where
      kept : (k : ℕ) → bit_and usart_cr1_ue k ≡ 0 → bit_and on5.cr1 k ≡ bit_and off4.cr1 k
      kept k apart =
          set_frame (hw (suc (suc (suc t))) off4).cr1 usart_cr1_ue k apart
          ∙ ap (λ (x : ℕ). bit_and x k) (steady (suc (suc (suc t))) off4).0

-- For a rate with a divisor and an accepted format in 32 bits, on hardware that leaves CR1, CR2 and
-- BRR alone, `uartInit` returns OK with the UART on at that divisor and format. In every state that
-- it stores before the last the UART is off.
pub uart_init-IsLine :
    (hw : Hw UartRegisters) (pclk_hz baud brr stop pe ps dir : ℕ) (s : UartRegisters) (t : ℕ)
    → Steady hw
    → uart_compute_brr pclk_hz baud 0 ≡ (ok, brr)
    → IsFormat stop pe ps dir
    → dir < 2 ^ 32
    → let r = uart_init hw pclk_hz baud stop pe ps dir (fresh s t) in
      (r.0 ≡ ok)
      × IsLine r.1.regs brr stop pe ps dir
      × ((earlier : List UartRegisters) × (r.1.log ≡ r.1.regs ∷ earlier) × All IsOff earlier)
unfolding uart_init
uart_init-IsLine hw pclk_hz baud brr stop pe ps dir s t steady computed f word =
    let last = on5-IsLine hw steady brr stop pe ps dir f word s t in
    let off1 = off1-IsOff hw steady brr stop pe ps dir f word s t in
    rw (computed, check_ok stop pe ps dir f, apply_log hw steady brr stop pe ps dir f word s t)
      (
        refl,
        last,
        (
          _,
          refl,
          (
            off4-IsOff hw steady brr stop pe ps dir f word s t,
            (off3-IsOff hw steady brr stop pe ps dir f word s t, (off1, (off1, tt))),
          ),
        ),
      )

-- Without a divisor, or for any other format, `uartInit` returns INVALID_PARAM and neither loads
-- nor stores.
pub uart_init_refused :
    (hw : Hw UartRegisters) (pclk_hz baud stop pe ps dir : ℕ) (s : UartRegisters) (t : ℕ)
    → ((uart_compute_brr pclk_hz baud 0).0 ≢ ok) ⊎ ¬ IsFormat stop pe ps dir
    → uart_init hw pclk_hz baud stop pe ps dir (fresh s t) ≡ (err_invalid_param, fresh s t)
unfolding uart_init
uart_init_refused hw pclk_hz baud stop pe ps dir s t (inl no_divisor) =
    rw ((uart_compute_brr_refused pclk_hz baud 0 no_divisor).0, check_late stop pe ps dir) refl
uart_init_refused hw pclk_hz baud stop pe ps dir s t (inr no_format) =
    elim (Bool-cases (is_ok (uart_compute_brr pclk_hz baud 0).0)) [
      | inl fine ↦ rw (ok_only _ fine) elim (check_cases stop pe ps dir) [
        | inl refused ↦ rw refused refl
        | inr (_, f) ↦ absurd (no_format f)
      ]
      | inr bad ↦
          let no_divisor = λ (e : (uart_compute_brr pclk_hz baud 0).0 ≡ ok). not_ok _ e bad in
          rw ((uart_compute_brr_refused pclk_hz baud 0 no_divisor).0, check_late stop pe ps dir)
            refl
    ]
