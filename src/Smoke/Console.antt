-- ===== src/Smoke/Console.antt =====
-- `print`, `printHex` and `printDec`: what reaches the data register of the UART.
use stm32_rtos.Smoke.Hex.{
  IsHexDigit, hex_loop-IsHexDigit, hex_value, hex_loop_value, length-hex_loop, hex_loop-apart,
}
use stm32_rtos.Base.{
  ℕ, ◌^◌, ◌<◌, ◌!=◌, Bool, true, ◌≡◌, ◌≢◌, refl, ap, ◌⊎◌, inl, inr, List, [], ◌∷◌, ◌++◌, All, some,
  arith, ne→!=, length,
}
use stm32_rtos.Bus.{Bus, Hw, M, fresh}
use stm32_rtos.Reg.Uart.{UartRegisters}
use stm32_rtos.Uart.Transmit.{sent, Guarded, uart_transmit_sends}
use stm32_rtos.Smoke.{c_string, print, print_dec, smoke_uart_timeout, hex_loop, hex_text, print_hex}
use stm32_rtos.Smoke.Decimal.{IsDecimal, IsDigit, dec_text-IsDecimal}

-- A text without a 0 is read up to the 0 behind it.
c_string-end : (ds : List ℕ) → All (λ c. c ≢ 0) ds → c_string (ds ++ (0 ∷ [])) ≡ ds
unfolding c_string
c_string-end [] h = refl
c_string-end (c ∷ ds) h =
    let more : (c != 0) ≡ true = ne→!= _ _ h.0 in
    rw more (ap (λ (r : List ℕ). c ∷ r) (c_string-end ds h.1))

digits_apart : (ds : List ℕ) → All IsDigit ds → All (λ c. c ≢ 0) ds
digits_apart [] h = tt
digits_apart (c ∷ ds) h = (λ e. absurd (omega (arith, h.0.0)), digits_apart ds h.1)

-- A call that sent these bytes, or, with `console_failed` set, the first part of them; each was
-- stored with TXE set.
abbrev pub Printed : List ℕ → Bool → Bool → Bus UartRegisters → Type 0
Printed bytes before after b =
    All Guarded b.log
    × ((after ≡ before) × (sent b.log [] ≡ bytes)
        ⊎ (after ≡ true) × ((rest : List ℕ) × (sent b.log rest ≡ bytes)))

module _ (hw : Hw UartRegisters) (s : UartRegisters) (t : ℕ) (failed : Bool) where
  print-Printed :
      (text bytes : List ℕ)
      → c_string text ≡ bytes
      → let r = print hw text failed (fresh s t) in Printed bytes failed r.0 r.1
  unfolding print
  print-Printed text bytes e =
      let (guarded, outcome) = uart_transmit_sends hw smoke_uart_timeout s t bytes in
      rw e (
        guarded,
        elim outcome [
          | inl (done, all_sent, _) ↦ inl (rw done refl, all_sent)
          | inr (late, some_sent) ↦ inr (rw late refl, some_sent)
        ],
      )

  -- For a 32-bit value `printDec` writes inside its array, and the bytes that it stores in DR are the
  -- decimal digits of the value without a 0 in front, in order, with `console_failed` as it was; or
  -- the transmission timed out, they are the first part of these digits, and `console_failed` is
  -- set. Each byte is stored with TXE set.
  pub print_dec-Printed :
      (value : ℕ)
      → value < 2 ^ 32
      → (ds : List ℕ) × IsDecimal value ds
        × ((m : M UartRegisters Bool) × (print_dec hw value failed ≡ some m)
            × Printed ds failed (m (fresh s t)).0 (m (fresh s t)).1)
  unfolding print_dec
  print_dec-Printed value h =
      let (ds, text, decimal, _) = dec_text-IsDecimal value h in
      (
        ds,
        decimal,
        (
          print hw (ds ++ (0 ∷ [])) failed,
          rw text refl,
          print-Printed (ds ++ (0 ∷ [])) ds (c_string-end ds (digits_apart ds decimal.all_digits)),
        ),
      )

  -- For a 32-bit value the bytes that `printHex` stores in DR are `0x` and 8 of `0` to `9` and `a` to
  -- `f` that read as the value, in order, and `console_failed` stays as it was; or the
  -- transmission timed out, they are the first part of these, and `console_failed` is set. Each byte
  -- is stored with TXE set.
  pub print_hex-Printed :
      (value : ℕ)
      → value < 2 ^ 32
      → (ds : List ℕ) × (length ds ≡ 8)
        × All IsHexDigit ds
        × (hex_value ds 0 ≡ value)
        × (let r = print_hex hw value failed (fresh s t) in Printed (48 ∷ 120 ∷ ds) failed r.0 r.1)
  unfolding print_hex hex_text
  print_hex-Printed value h =
      let ds = hex_loop value 0 8 in
      (
        ds,
        length-hex_loop value 0 8,
        hex_loop-IsHexDigit value 0 8,
        hex_loop_value value h,
        print-Printed (48 ∷ 120 ∷ ds ++ (0 ∷ [])) (48 ∷ 120 ∷ ds) (
            c_string-end (48 ∷ 120 ∷ ds) (
              λ e. absurd (omega (arith, e)),
              (λ e. absurd (omega (arith, e)), hex_loop-apart value 0 8),
            )),
      )
