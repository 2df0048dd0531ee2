-- ===== src/Bits/Mask.antt =====
-- The field of `w` bits at position `k`, written by `(r & ~(ones << k)) | (v << k)`.
use native.Mathlib.Nat.{one-le-pow}
use stm32_rtos.Base.{ℕ, ◌+◌, ◌-◌, ◌≤◌, ◌<◌, ◌^◌, ◌≡◌, ◌⊎◌, inl, inr, bit_and, bit_or, arith, ◌∙◌}
use stm32_rtos.Bits.Ops.{inv32, shl32}
use stm32_rtos.Bits.Laws.{bit_and_comm}
use stm32_rtos.Bits.Shift.{shl32-IsWord, shl32-in, shl32_apart}
use stm32_rtos.Bits.Field.{field_read, field_frame}

pub mask_read :
    (w k v r : ℕ)
    → v < 2 ^ w
    → k + w ≤ 32
    → bit_and (bit_or (bit_and r (inv32 (shl32 (2 ^ w - 1) k))) (shl32 v k)) (shl32 (2 ^ w - 1) k)
      ≡ shl32 v k
mask_read w k v r h fits =
    field_read r (shl32 (2 ^ w - 1) k) (shl32 v k) (shl32-IsWord (2 ^ w - 1) k)
      (shl32-in w k v h fits)

ones_fit : (w : ℕ) → 2 ^ w - 1 < 2 ^ w
ones_fit w = omega (arith, one-le-pow w 2)

pub masks_apart :
    (w k l : ℕ)
    → (k + w ≤ l) ⊎ (l + w ≤ k)
    → k + w ≤ 32
    → l + w ≤ 32
    → bit_and (shl32 (2 ^ w - 1) k) (shl32 (2 ^ w - 1) l) ≡ 0
masks_apart w k l (inl below) fk fl =
    shl32_apart w k (2 ^ w - 1) w l (2 ^ w - 1) (ones_fit w) (ones_fit w) below fl
masks_apart w k l (inr above) fk fl =
    bit_and_comm _ _
    ∙ shl32_apart w l (2 ^ w - 1) w k (2 ^ w - 1) (ones_fit w) (ones_fit w) above fk

pub mask_frame :
    (w k v r l : ℕ)
    → v < 2 ^ w
    → k + w ≤ 32
    → l + w ≤ 32
    → (k + w ≤ l) ⊎ (l + w ≤ k)
    → bit_and (bit_or (bit_and r (inv32 (shl32 (2 ^ w - 1) k))) (shl32 v k)) (shl32 (2 ^ w - 1) l)
      ≡ bit_and r (shl32 (2 ^ w - 1) l)
mask_frame w k v r l h fk fl apart =
    field_frame r (shl32 (2 ^ w - 1) k) (shl32 v k) (shl32 (2 ^ w - 1) l)
      (shl32-IsWord (2 ^ w - 1) k) (shl32-IsWord (2 ^ w - 1) l) (shl32-in w k v h fk)
      (masks_apart w k l apart fk fl)
