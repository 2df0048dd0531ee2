-- ===== src/Uart/Format.antt =====
-- The formats of `uartInit`: the check of its arguments, and the value of CR1 that it makes.
use stm32_rtos.Base.{
  ℕ, ◌!=◌, ◌&&◌, Bool-cases, bit_and, bit_or, ◌≡◌, refl, ◌∙◌, ◌⊎◌, inl, inr, arith, if◌then◌else◌,
  ◌<◌, ◌^◌,
}
use stm32_rtos.Bits.{
  inv32, shl32, and-inv32_disjoint, or-and_distrib, clear_within, bit_or-zero, zero-bit_or,
  flag_apart, flag_in, within_of_outside, within_apart,
}
use stm32_rtos.Status.{ok, err_invalid_param}
use stm32_rtos.Reg.Uart.{
  UartRegisters, usart_cr1_ue, usart_cr1_pce, usart_cr1_ps, usart_cr1_m, usart_cr1_over8,
  usart_cr2_stop_msk,
}
use stm32_rtos.Uart.{uart_check_format, cr1_mask}

-- The formats that `uartInit` accepts: one or two stop bits, the values of the two parity
-- arguments, and a direction made of TE and RE.
pub record IsFormat (stop_bits parity_enable parity_select direction : ℕ) : Type 0 where
  pub stop_fits : (stop_bits ≡ 0) ⊎ (stop_bits ≡ 2)
  pub parity_fits : (parity_enable ≡ 0) ⊎ (parity_enable ≡ usart_cr1_pce)
  pub select_fits : (parity_select ≡ 0) ⊎ (parity_select ≡ usart_cr1_ps)
  pub direction_fits : bit_and direction (inv32 0xc) ≡ 0

pub check_cases :
    (stop pe ps dir : ℕ)
    → (uart_check_format stop pe ps dir ok ≡ err_invalid_param)
      ⊎ (uart_check_format stop pe ps dir ok ≡ ok) × IsFormat stop pe ps dir
unfolding uart_check_format
check_cases stop pe ps dir = elim (Bool-cases (stop != 0 && stop != 2)) [
  | inl bad ↦ inl (rw bad refl)
  | inr e1 ↦ elim (Bool-cases (pe != 0 && pe != usart_cr1_pce)) [
    | inl bad ↦ inl (rw (e1, bad) refl)
    | inr e2 ↦ elim (Bool-cases (ps != 0 && ps != usart_cr1_ps)) [
      | inl bad ↦ inl (rw (e1, e2, bad) refl)
      | inr e3 ↦ elim (Bool-cases (bit_and dir (inv32 0xc) != 0)) [
        | inl bad ↦ inl (rw (e1, e2, e3, bad) refl)
        | inr e4 ↦ inr (
            rw (e1, e2, e3, e4)
              (
                refl,
                record {
                  stop_fits = ground arith;
                  parity_fits = ground arith;
                  select_fits = ground arith;
                  direction_fits = ground arith;
                },
              ))
      ]
    ]
  ]
]

pub check_ok :
    (stop pe ps dir : ℕ) → IsFormat stop pe ps dir → uart_check_format stop pe ps dir ok ≡ ok
unfolding uart_check_format
check_ok stop pe ps dir f = ground arith

-- A status that is no longer OK goes through.
pub check_late :
    (stop pe ps dir : ℕ) → uart_check_format stop pe ps dir err_invalid_param ≡ err_invalid_param
unfolding uart_check_format
check_late stop pe ps dir = refl

-- M is set with parity, so that a frame has eight data bits.
abbrev pub frame_length : ℕ → ℕ
frame_length parity_enable = if parity_enable != 0 then usart_cr1_m else 0

-- The UART is on with this divisor and format.
pub record IsLine (s : UartRegisters) (brr stop_bits parity_enable parity_select direction : ℕ)
    : Type 0 where
  pub divisor : s.brr ≡ brr
  pub stop_field : bit_and s.cr2 usart_cr2_stop_msk ≡ shl32 stop_bits 12
  pub length_field : bit_and s.cr1 usart_cr1_m ≡ frame_length parity_enable
  pub oversampling_field : bit_and s.cr1 usart_cr1_over8 ≡ 0
  pub parity_field : bit_and s.cr1 usart_cr1_pce ≡ parity_enable
  pub select_field : bit_and s.cr1 usart_cr1_ps ≡ parity_select
  pub direction_field : bit_and s.cr1 0xc ≡ direction
  pub enabled : bit_and s.cr1 usart_cr1_ue ≡ usart_cr1_ue

abbrev pub IsOff : UartRegisters → Type 0
IsOff s = bit_and s.cr1 usart_cr1_ue ≡ 0

frame_cases : (pe : ℕ) → (frame_length pe ≡ 0) ⊎ (frame_length pe ≡ usart_cr1_m)
frame_cases pe = elim (Bool-cases (pe != 0)) [
  | inl on ↦ rw on (inr refl)
  | inr off ↦ rw off (inl refl)
]

-- The value that is stored in CR1 before the UART is enabled.
abbrev pub line_cr1 : ℕ → ℕ → ℕ → ℕ → ℕ
line_cr1 x pe ps dir =
    bit_or (bit_or (bit_or (bit_or (bit_and x (inv32 cr1_mask)) (frame_length pe)) pe) ps) dir

part :
    (x pe ps dir k a b c d e : ℕ)
    → bit_and (bit_and x (inv32 cr1_mask)) k ≡ a
    → bit_and (frame_length pe) k ≡ b
    → bit_and pe k ≡ c
    → bit_and ps k ≡ d
    → bit_and dir k ≡ e
    → bit_and (line_cr1 x pe ps dir) k ≡ bit_or (bit_or (bit_or (bit_or a b) c) d) e
part x pe ps dir k a b c d e ha hb hc hd he = simp (or-and_distrib, ha, hb, hc, hd, he)

module _ (x stop pe ps dir : ℕ) (f : IsFormat stop pe ps dir) (word : dir < 2 ^ 32) where
  dir_out : (k : ℕ) → bit_and 0xc k ≡ 0 → bit_and dir k ≡ 0
  dir_out k apart = within_apart dir 0xc k dir_in apart
    where
      dir_in : bit_and dir 0xc ≡ dir
      dir_in = within_of_outside dir 0xc word (omega arith) f.direction_fits

  pub line_m : bit_and (line_cr1 x pe ps dir) usart_cr1_m ≡ frame_length pe
  line_m =
      part x pe ps dir usart_cr1_m 0 (frame_length pe) 0 0 0
        (clear_within x cr1_mask usart_cr1_m (omega arith) refl)
        (flag_in (frame_length pe) usart_cr1_m (frame_cases pe) refl)
        (flag_apart pe usart_cr1_pce usart_cr1_m f.parity_fits refl)
        (flag_apart ps usart_cr1_ps usart_cr1_m f.select_fits refl) (dir_out usart_cr1_m refl)
      ∙ simp (zero-bit_or, bit_or-zero)

  pub line_over8 : bit_and (line_cr1 x pe ps dir) usart_cr1_over8 ≡ 0
  line_over8 =
      part x pe ps dir usart_cr1_over8 0 0 0 0 0
        (clear_within x cr1_mask usart_cr1_over8 (omega arith) refl)
        (flag_apart (frame_length pe) usart_cr1_m usart_cr1_over8 (frame_cases pe) refl)
        (flag_apart pe usart_cr1_pce usart_cr1_over8 f.parity_fits refl)
        (flag_apart ps usart_cr1_ps usart_cr1_over8 f.select_fits refl)
        (dir_out usart_cr1_over8 refl)

  pub line_pce : bit_and (line_cr1 x pe ps dir) usart_cr1_pce ≡ pe
  line_pce =
      part x pe ps dir usart_cr1_pce 0 0 pe 0 0
        (clear_within x cr1_mask usart_cr1_pce (omega arith) refl)
        (flag_apart (frame_length pe) usart_cr1_m usart_cr1_pce (frame_cases pe) refl)
        (flag_in pe usart_cr1_pce f.parity_fits refl)
        (flag_apart ps usart_cr1_ps usart_cr1_pce f.select_fits refl) (dir_out usart_cr1_pce refl)
      ∙ simp (zero-bit_or, bit_or-zero)

  pub line_ps : bit_and (line_cr1 x pe ps dir) usart_cr1_ps ≡ ps
  line_ps =
      part x pe ps dir usart_cr1_ps 0 0 0 ps 0
        (clear_within x cr1_mask usart_cr1_ps (omega arith) refl)
        (flag_apart (frame_length pe) usart_cr1_m usart_cr1_ps (frame_cases pe) refl)
        (flag_apart pe usart_cr1_pce usart_cr1_ps f.parity_fits refl)
        (flag_in ps usart_cr1_ps f.select_fits refl) (dir_out usart_cr1_ps refl)
      ∙ simp (zero-bit_or, bit_or-zero)

  pub line_dir : bit_and (line_cr1 x pe ps dir) 0xc ≡ dir
  line_dir =
      part x pe ps dir 0xc 0 0 0 0 dir (clear_within x cr1_mask 0xc (omega arith) refl)
        (flag_apart (frame_length pe) usart_cr1_m 0xc (frame_cases pe) refl)
        (flag_apart pe usart_cr1_pce 0xc f.parity_fits refl)
        (flag_apart ps usart_cr1_ps 0xc f.select_fits refl)
        (within_of_outside dir 0xc word (omega arith) f.direction_fits)
      ∙ simp zero-bit_or

  pub line_off : bit_and x usart_cr1_ue ≡ 0 → bit_and (line_cr1 x pe ps dir) usart_cr1_ue ≡ 0
  line_off off =
      part x pe ps dir usart_cr1_ue 0 0 0 0 0
        (and-inv32_disjoint x cr1_mask usart_cr1_ue (omega arith) (omega arith) refl ∙ off)
        (flag_apart (frame_length pe) usart_cr1_m usart_cr1_ue (frame_cases pe) refl)
        (flag_apart pe usart_cr1_pce usart_cr1_ue f.parity_fits refl)
        (flag_apart ps usart_cr1_ps usart_cr1_ue f.select_fits refl) (dir_out usart_cr1_ue refl)
