-- ===== src/Smoke/Hex.antt =====
-- The text of `printHex`, read back.
use stm32_rtos.Base.{
  ◌≤◌, ◌⊎◌, ℕ, zero, suc, ◌+◌, ◌-◌, ◌*◌, ◌/◌, ◌%◌, ◌^◌, ◌<◌, ltb, bit_and, Bool, ◌≡◌, refl, ap, ◌∙◌,
  List, [], ◌∷◌, length, arith, if◌then◌else◌, ◌==◌, ==→eq, all_below, at_of_below, ◌≢◌, All,
}
use stm32_rtos.Bits.{bit_and-fifteen, shr32}
use stm32_rtos.Smoke.{hex_digit, hex_loop}

-- The number that hexadecimal digits stand for, after `seen`.
unfoldable pub hex_value : List ℕ → ℕ → ℕ
hex_value [] seen = seen
hex_value (c ∷ text) seen = hex_value text (seen * 16 + (if ltb c 97 then c - 48 else c - 87))

abbrev reads_back : ℕ → Bool
reads_back d = (if ltb (hex_digit d) 97 then hex_digit d - 48 else hex_digit d - 87) == d

digit_reads :
    (d : ℕ) → d < 16 → (if ltb (hex_digit d) 97 then hex_digit d - 48 else hex_digit d - 87) ≡ d
unfolding all_below
digit_reads d h = ==→eq _ _ (at_of_below reads_back 16 d refl h)

hex_step :
    (value i left seen : ℕ)
    → hex_value (hex_loop value i (suc left)) seen
      ≡ hex_value (hex_loop value (suc i) left) (seen * 16 + value / 2 ^ (28 - 4 * i) % 16)
unfolding hex_value hex_loop
hex_step value i left seen =
    let part = value / 2 ^ (28 - 4 * i) in
    ap (λ (d : ℕ). hex_value (hex_loop value (suc i) left) (seen * 16 + d))
      (digit_reads (bit_and part 15) (omega (arith, bit_and-fifteen part)) ∙ bit_and-fifteen part)

pub length-hex_loop : (value i left : ℕ) → length (hex_loop value i left) ≡ left
unfolding hex_loop
length-hex_loop value i zero = refl
length-hex_loop value i (suc left) = ap suc (length-hex_loop value (suc i) left)

abbrev nibble : ℕ → ℕ → ℕ
nibble value i = value / 2 ^ (28 - 4 * i) % 16

places :
    (value : ℕ)
    → value < 2 ^ 32
    → hex_value (hex_loop value 8 0) (
        (((((((0 * 16 + nibble value 0) * 16 + nibble value 1) * 16 + nibble value 2) * 16
                        + nibble value 3)
                      * 16
                    + nibble value 4)
                  * 16
                + nibble value 5)
              * 16
            + nibble value 6)
          * 16
        + nibble value 7)
      ≡ value
unfolding hex_value hex_loop
places value h = omega arith

pub hex_loop_value : (value : ℕ) → value < 2 ^ 32 → hex_value (hex_loop value 0 8) 0 ≡ value
hex_loop_value value h =
    hex_step value 0 7 0
    ∙ (hex_step value 1 6 _
        ∙ (hex_step value 2 5 _
            ∙ (hex_step value 3 4 _
                ∙ (hex_step value 4 3 _
                    ∙ (hex_step value 5 2 _
                        ∙ (hex_step value 6 1 _ ∙ (hex_step value 7 0 _ ∙ places value h)))))))

-- `0` to `9` or `a` to `f`.
abbrev pub IsHexDigit : ℕ → Type 0
IsHexDigit c = ((48 ≤ c) × (c ≤ 57)) ⊎ ((97 ≤ c) × (c ≤ 102))

hex_digit-IsHexDigit : (d : ℕ) → d < 16 → IsHexDigit (hex_digit d)
hex_digit-IsHexDigit d h = ground arith

pub hex_loop-IsHexDigit : (value i left : ℕ) → All IsHexDigit (hex_loop value i left)
unfolding hex_loop
hex_loop-IsHexDigit value i zero = tt
hex_loop-IsHexDigit value i (suc left) =
    let part = shr32 value (28 - 4 * i) in
    (
      hex_digit-IsHexDigit (bit_and part 15) (omega (arith, bit_and-fifteen part)),
      hex_loop-IsHexDigit value (suc i) left,
    )

digit_apart : (d : ℕ) → hex_digit d ≢ 0
digit_apart d e = ground arith

-- No digit ends the text.
pub hex_loop-apart : (value i left : ℕ) → All (λ c. c ≢ 0) (hex_loop value i left)
unfolding hex_loop
hex_loop-apart value i zero = tt
hex_loop-apart value i (suc left) =
    (digit_apart (bit_and (shr32 value (28 - 4 * i)) 15), hex_loop-apart value (suc i) left)
