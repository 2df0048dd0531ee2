-- ===== src/Nvic/Handlers.antt =====
-- `nvicSetSystemHandlerPriority`: one byte of SHPR1 to SHPR3, the one of the handler.
use stm32_rtos.Base.{
  bit_and, bit_or, ◌^◌, ℕ, ◌+◌, ◌*◌, ◌-◌, ◌≤◌, ◌<◌, ltb, if◌then◌else◌, false, ◌≡◌, ◌≢◌, refl, ◌∙◌,
  ◌⊎◌, inl, inr, ℤ, negsuc, [], ◌∷◌, arith, Bool-cases,
}
use stm32_rtos.Bits.{shl32, inv32, field_of, field_of-set, field_of-set_other}
use stm32_rtos.Status.{DriverStatus, ok}
use stm32_rtos.Bus.{Bus, fresh}
use stm32_rtos.Nvic.{
  ShprWord, shpr1, shpr2, shpr3, on_shpr, select_shpr, write_shpr, nvic_set_system_handler_priority,
}
use stm32_rtos.Reg.Scb.{ScbRegisters}

-- Byte `j` of the twelve in SHPR1 to SHPR3.
abbrev pub handler_byte : ℕ → ScbRegisters → ℕ
handler_byte j s =
    if ltb j 4
    then field_of 8 (j * 8) s.shpr1
    else if ltb j 8
    then field_of 8 ((j - 4) * 8) s.shpr2
    else field_of 8 ((j - 8) * 8) s.shpr3

-- The configurable system handlers and their bytes: exception number -12 + j has byte j, of 0, 1,
-- 2, 7, 10 and 11.
pub data HandlerByte : ℤ → ℕ → Type 0 where
  memory_management : HandlerByte (negsuc 11) 0
  bus_fault : HandlerByte (negsuc 10) 1
  usage_fault : HandlerByte (negsuc 9) 2
  sv_call : HandlerByte (negsuc 4) 7
  pend_sv : HandlerByte (negsuc 1) 10
  sys_tick : HandlerByte (negsuc 0) 11

-- The other registers of the block are as before.
abbrev pub same_but_shpr : ScbRegisters → ScbRegisters → ScbRegisters
same_but_shpr s s' = record s { shpr1 = s'.shpr1; shpr2 = s'.shpr2; shpr3 = s'.shpr3 }

-- A byte of a word replaced by `v`.
abbrev set_byte : ℕ → ℕ → ℕ → ℕ
set_byte k v x = bit_or (bit_and x (inv32 (shl32 0xff (k * 8)))) (shl32 v (k * 8))

set_here : (k v x : ℕ) → k ≤ 3 → v < 2 ^ 8 → field_of 8 (k * 8) (set_byte k v x) ≡ v
set_here k v x fits small = field_of-set 8 (k * 8) x (omega arith) v small

set_there :
    (k v x l : ℕ)
    → k ≤ 3
    → l ≤ 3
    → l ≢ k
    → v < 2 ^ 8
    → field_of 8 (l * 8) (set_byte k v x) ≡ field_of 8 (l * 8) x
set_there k v x l fits fits' ne small =
    let apart : (k * 8 + 8 ≤ l * 8) ⊎ (l * 8 + 8 ≤ k * 8) = grind arith in
    field_of-set_other 8 (k * 8) x (omega arith) (l * 8) (omega arith) apart v small

-- The number of byte `k` of a word.
abbrev byte_at : ShprWord → ℕ → ℕ
byte_at shpr1 k = k
byte_at shpr2 k = k + 4
byte_at shpr3 k = k + 8

-- The other bytes, by the word that changes.
module _ (k v j : ℕ) (s : ScbRegisters) (fits : k ≤ 3) (small : v < 2 ^ 8) (inside : j < 12) where
  kept :
      (w : ShprWord)
      → j ≢ byte_at w k
      → handler_byte j (on_shpr w (set_byte k v) s) ≡ handler_byte j s
  kept shpr1 ne = elim (Bool-cases (ltb j 4)) [
    | inl low ↦ rw low (set_there k v s.shpr1 j fits (ground arith) ne small)
    | inr high ↦ rw high refl
  ]
  kept shpr2 ne = elim (Bool-cases (ltb j 4)) [
    | inl low ↦ rw low refl
    | inr high ↦ elim (Bool-cases (ltb j 8)) [
      | inl low ↦
          rw (high, low) (set_there k v s.shpr2 (j - 4) fits (ground arith) (grind arith) small)
      | inr higher ↦ rw (high, higher) refl
    ]
  ]
  kept shpr3 ne = elim (Bool-cases (ltb j 4)) [
    | inl low ↦ rw low refl
    | inr high ↦ elim (Bool-cases (ltb j 8)) [
      | inl low ↦ rw (high, low) refl
      | inr higher ↦
          rw (high, higher) (set_there k v s.shpr3 (j - 8) fits (ground arith) (grind arith) small)
    ]
  ]

-- What one call does: the byte of the handler, another byte, the other registers and the stores.
abbrev IsHandlerSet : ℕ → ℕ → ℕ → ScbRegisters → DriverStatus × Bus ScbRegisters → Type 0
IsHandlerSet b priority j s r =
    (r.0 ≡ ok)
    × (handler_byte b r.1.regs ≡ priority * 16)
    × (handler_byte j r.1.regs ≡ handler_byte j s)
    × (r.1.regs ≡ same_but_shpr s r.1.regs)
    × (r.1.log ≡ r.1.regs ∷ [])

-- `nvicSetSystemHandlerPriority` on a configurable system handler with a priority of 0 to 15
-- returns OK and writes the priority to the upper half of the handler's byte and 0 to the lower,
-- in one store. Every other byte of SHPR1 to SHPR3 and every other register of the block is kept.
pub nvic_set_system_handler_priority_byte :
    (irqn : ℤ) (b priority j : ℕ) (s : ScbRegisters) (t : ℕ)
    → HandlerByte irqn b
    → priority ≤ 15
    → j < 12
    → j ≢ b
    → let r = nvic_set_system_handler_priority irqn priority (fresh s t) in
      (r.0 ≡ ok)
      × (handler_byte b r.1.regs ≡ priority * 16)
      × (handler_byte j r.1.regs ≡ handler_byte j s)
      × (r.1.regs ≡ same_but_shpr s r.1.regs)
      × (r.1.log ≡ r.1.regs ∷ [])
unfolding nvic_set_system_handler_priority select_shpr write_shpr
nvic_set_system_handler_priority_byte irqn b priority j s t h fits inside ne = go irqn b h ne
  where
    v : ℕ
    v = shl32 priority 4

    in_range : ltb 15 priority ≡ false
    in_range = ground arith

    value : v ≡ priority * 16
    value = omega arith

    small : v < 2 ^ 8
    small = omega arith

    go :
        (irqn : ℤ) (b : ℕ)
        → HandlerByte irqn b
        → j ≢ b
        → IsHandlerSet b priority j s (nvic_set_system_handler_priority irqn priority (fresh s t))
    go _ _ memory_management ne = rw in_range (
      refl,
      set_here 0 v s.shpr1 (omega arith) small ∙ value,
      kept 0 v j s (omega arith) small inside shpr1 ne,
      refl,
      refl,
    )
    go _ _ bus_fault ne = rw in_range (
      refl,
      set_here 1 v s.shpr1 (omega arith) small ∙ value,
      kept 1 v j s (omega arith) small inside shpr1 ne,
      refl,
      refl,
    )
    go _ _ usage_fault ne = rw in_range (
      refl,
      set_here 2 v s.shpr1 (omega arith) small ∙ value,
      kept 2 v j s (omega arith) small inside shpr1 ne,
      refl,
      refl,
    )
    go _ _ sv_call ne = rw in_range (
      refl,
      set_here 3 v s.shpr2 (omega arith) small ∙ value,
      kept 3 v j s (omega arith) small inside shpr2 ne,
      refl,
      refl,
    )
    go _ _ pend_sv ne = rw in_range (
      refl,
      set_here 2 v s.shpr3 (omega arith) small ∙ value,
      kept 2 v j s (omega arith) small inside shpr3 ne,
      refl,
      refl,
    )
    go _ _ sys_tick ne = rw in_range (
      refl,
      set_here 3 v s.shpr3 (omega arith) small ∙ value,
      kept 3 v j s (omega arith) small inside shpr3 ne,
      refl,
      refl,
    )
