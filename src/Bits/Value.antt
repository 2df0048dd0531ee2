-- ===== src/Bits/Value.antt =====
-- The value of the field of `w` bits at position `k`, after the writes of the drivers: set to a
-- value, taken back to its bits of another word, and cleared.
use native.Mathlib.Nat.{zero-div}
use stm32_rtos.Base.{ℕ, ◌+◌, ◌-◌, ◌≤◌, ◌<◌, ◌^◌, ◌≡◌, ◌⊎◌, ap, ◌∙◌, bit_and, bit_or, arith}
use stm32_rtos.Bits.Digit.{digit-bit_and}
use stm32_rtos.Bits.Ops.{inv32, shl32, shr32}
use stm32_rtos.Bits.Laws.{digit_ext, bit_and_assoc, and-inv32_self, and-inv32_disjoint}
use stm32_rtos.Bits.Shift.{shl32-IsWord, shr32-shl32}
use stm32_rtos.Bits.Field.{field_read, field_frame}
use stm32_rtos.Bits.Mask.{mask_read, mask_frame, masks_apart}

pub bit_and_self : (a : ℕ) → bit_and a a ≡ a
bit_and_self a = digit_ext _ _ (λ i. omega (arith, digit-bit_and a a i))

abbrev pub ones : ℕ → ℕ → ℕ
ones w k = shl32 (2 ^ w - 1) k

abbrev pub field_of : ℕ → ℕ → ℕ → ℕ
field_of w k r = shr32 (bit_and r (ones w k)) k

module _ (w k r : ℕ) (fits : k + w ≤ 32) where
  pub field_of-set :
      (v : ℕ) → v < 2 ^ w → field_of w k (bit_or (bit_and r (inv32 (ones w k))) (shl32 v k)) ≡ v
  field_of-set v h = ap (λ (x : ℕ). shr32 x k) (mask_read w k v r h fits) ∙ shr32-shl32 w k v h fits

  within : (reset : ℕ) → bit_and (bit_and reset (ones w k)) (ones w k) ≡ bit_and reset (ones w k)
  within reset =
      bit_and_assoc reset (ones w k) (ones w k) ∙ ap (bit_and reset) (bit_and_self (ones w k))

  pub field_of-restore :
      (reset : ℕ)
      → field_of w k (bit_or (bit_and r (inv32 (ones w k))) (bit_and reset (ones w k)))
        ≡ field_of w k reset
  field_of-restore reset =
      ap (λ (x : ℕ). shr32 x k)
        (field_read r (ones w k) (bit_and reset (ones w k)) (shl32-IsWord (2 ^ w - 1) k)
          (within reset))

  pub field_of-clear : field_of w k (bit_and r (inv32 (ones w k))) ≡ 0
  field_of-clear =
      ap (λ (x : ℕ). shr32 x k) (and-inv32_self r (ones w k) (shl32-IsWord (2 ^ w - 1) k))
      ∙ zero-div (2 ^ k)

  -- Another field of the same width.
  module _ (l : ℕ) (fits' : l + w ≤ 32) (apart : (k + w ≤ l) ⊎ (l + w ≤ k)) where
    pub field_of-set_other :
        (v : ℕ)
        → v < 2 ^ w
        → field_of w l (bit_or (bit_and r (inv32 (ones w k))) (shl32 v k)) ≡ field_of w l r
    field_of-set_other v h = ap (λ (x : ℕ). shr32 x l) (mask_frame w k v r l h fits fits' apart)

    pub field_of-restore_other :
        (reset : ℕ)
        → field_of w l (bit_or (bit_and r (inv32 (ones w k))) (bit_and reset (ones w k)))
          ≡ field_of w l r
    field_of-restore_other reset =
        ap (λ (x : ℕ). shr32 x l)
          (field_frame r (ones w k) (bit_and reset (ones w k)) (ones w l)
            (shl32-IsWord (2 ^ w - 1) k) (shl32-IsWord (2 ^ w - 1) l) (within reset)
            (masks_apart w k l apart fits fits'))

    pub field_of-clear_other : field_of w l (bit_and r (inv32 (ones w k))) ≡ field_of w l r
    field_of-clear_other =
        ap (λ (x : ℕ). shr32 x l)
          (and-inv32_disjoint r (ones w k) (ones w l) (shl32-IsWord (2 ^ w - 1) k)
            (shl32-IsWord (2 ^ w - 1) l) (masks_apart w k l apart fits fits'))
