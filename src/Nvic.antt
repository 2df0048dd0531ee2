-- ===== src/Nvic.antt =====
-- drivers/src/nvic.c, with the NVIC of core/inc/nvic_reg.h. An interrupt is the number behind
-- `IRQn_e`. A register array is a function of its index. The barriers of the source order
-- accesses on the processor and store nothing.
pub mod Handlers
pub mod Irqn
pub mod Members
pub mod Priority
pub mod Request
pub mod Table
use stm32_rtos.Base.{
  ℕ, zero, suc, ◌-◌, ◌%◌, ◌^◌, bit_and, bit_or, ltb, ◌==◌, ◌!=◌, ◌&&◌, if◌then◌else◌, ℤ, pos,
  negsuc, Bool, Option, none, some,
}
use stm32_rtos.Bits.{inv32, shl32, shr32}
use stm32_rtos.Status.{DriverStatus, ok, err_invalid_param, is_ok}
use stm32_rtos.Bus.{M, pure, ◌>>=◌, ◌>>◌, peek, store, if_ok}
use stm32_rtos.Reg.Scb.{
  ScbRegisters, scb_shpr1_pri_4_pos, scb_shpr1_pri_4_msk, scb_shpr1_pri_5_pos, scb_shpr1_pri_5_msk,
  scb_shpr1_pri_6_pos, scb_shpr1_pri_6_msk, scb_shpr2_pri_11_pos, scb_shpr2_pri_11_msk,
  scb_shpr3_pri_14_pos, scb_shpr3_pri_14_msk, scb_shpr3_pri_15_pos, scb_shpr3_pri_15_msk,
}

pub record NvicRegisters : Type 0 where
  pub iser : ℕ → ℕ
  pub icer : ℕ → ℕ
  pub ispr : ℕ → ℕ
  pub icpr : ℕ → ℕ
  pub iabr : ℕ → ℕ
  pub ip : ℕ → ℕ
  pub stir : ℕ

abbrev pub nvic_prio_bits : ℕ
nvic_prio_bits = 4

abbrev pub nvic_prio_pos : ℕ
nvic_prio_pos = 8 - nvic_prio_bits

abbrev pub nvic_priority_max : ℕ
nvic_priority_max = shl32 1 nvic_prio_bits - 1

-- `array[i] = v`.
abbrev pub write_at : ℕ → ℕ → (ℕ → ℕ) → ℕ → ℕ
write_at i v array j = if j == i then v else array j

-- `FMPI2C1_Error_IRQn`.
abbrev pub fmpi2c1_error_irqn : ℕ
fmpi2c1_error_irqn = 96

-- `reserved_mask[word]`, 0 past its end.
abbrev pub reserved_mask : ℕ → ℕ
reserved_mask word = if word == 1 then 0x60000000 else if word == 2 then 0x076d8000 else 0x00000000

-- Word and bit of an interrupt in the ISER, ICER, ISPR and ICPR arrays.
abbrev pub nvic_irq_word : ℕ → ℕ
nvic_irq_word irqn = shr32 irqn 5

abbrev pub nvic_irq_bit : ℕ → ℕ
nvic_irq_bit irqn = shl32 1 (bit_and irqn 0x1f)

pub nvic_validate_irq : ℤ → DriverStatus
nvic_validate_irq (negsuc n) = err_invalid_param
nvic_validate_irq (pos irqn) =
    if ltb fmpi2c1_error_irqn irqn
    then err_invalid_param
    else if bit_and (reserved_mask (shr32 irqn 5)) (shl32 1 (bit_and irqn 0x1f)) != 0
    then err_invalid_param
    else ok

-- `(uint32_t)irqn`.
abbrev pub irq_number : ℤ → ℕ
irq_number (pos n) = n
irq_number (negsuc n) = 2 ^ 32 - 1 - n % 2 ^ 32

pub nvic_enable_irq : ℤ → M NvicRegisters DriverStatus
unfolding nvic_validate_irq
nvic_enable_irq irqn =
    let n = irq_number irqn in
    if_ok (nvic_validate_irq irqn) do
      store (λ s. record s { iser = write_at (nvic_irq_word n) (nvic_irq_bit n) s.iser })
      pure (nvic_validate_irq irqn)

pub nvic_disable_irq : ℤ → M NvicRegisters DriverStatus
unfolding nvic_validate_irq
nvic_disable_irq irqn =
    let n = irq_number irqn in
    if_ok (nvic_validate_irq irqn) do
      store (λ s. record s { icer = write_at (nvic_irq_word n) (nvic_irq_bit n) s.icer })
      pure (nvic_validate_irq irqn)

pub nvic_set_pending : ℤ → M NvicRegisters DriverStatus
unfolding nvic_validate_irq
nvic_set_pending irqn =
    let n = irq_number irqn in
    if_ok (nvic_validate_irq irqn) do
      store (λ s. record s { ispr = write_at (nvic_irq_word n) (nvic_irq_bit n) s.ispr })
      pure (nvic_validate_irq irqn)

pub nvic_clear_pending : ℤ → M NvicRegisters DriverStatus
unfolding nvic_validate_irq
nvic_clear_pending irqn =
    let n = irq_number irqn in
    if_ok (nvic_validate_irq irqn) do
      store (λ s. record s { icpr = write_at (nvic_irq_word n) (nvic_irq_bit n) s.icpr })
      pure (nvic_validate_irq irqn)

pub nvic_set_priority : ℤ → ℕ → M NvicRegisters DriverStatus
unfolding nvic_validate_irq
nvic_set_priority irqn priority = do
  status ← pure (nvic_validate_irq irqn)
  status ←
      pure (if is_ok status && ltb nvic_priority_max priority then err_invalid_param else status)
  if_ok status do
    store λ s. record s {
      ip = write_at (irq_number irqn) (shl32 priority nvic_prio_pos % 2 ^ 8) s.ip;
    }
    pure status

-- What `priority` points to goes in, `none` for the null pointer, and comes out.
pub nvic_get_priority : ℤ → Option ℕ → M NvicRegisters (DriverStatus × Option ℕ)
unfolding nvic_validate_irq
nvic_get_priority irqn none =
    let status = nvic_validate_irq irqn in
    pure (if is_ok status then err_invalid_param else status, none)
nvic_get_priority irqn (some old) = do
  ip ← peek (λ s. s.ip (irq_number irqn))
  let status = nvic_validate_irq irqn
  pure (status, if is_ok status then some (shr32 ip nvic_prio_pos) else some old)

-- The words that the `switch` of `nvicSetSystemHandlerPriority` picks from.
pub data ShprWord : Type 0 where
  shpr1 shpr2 shpr3 : ShprWord

-- The `switch`: the word, and the position and mask of the byte in it. The exceptions are
-- MemManage -12, BusFault -11, UsageFault -10, SVCall -5, PendSV -2 and SysTick -1.
pub select_shpr : ℤ → Option (ShprWord × ℕ × ℕ)
select_shpr (pos n) = none
select_shpr (negsuc n) =
    if n == 11
    then some (shpr1, scb_shpr1_pri_4_pos, scb_shpr1_pri_4_msk)
    else if n == 10
    then some (shpr1, scb_shpr1_pri_5_pos, scb_shpr1_pri_5_msk)
    else if n == 9
    then some (shpr1, scb_shpr1_pri_6_pos, scb_shpr1_pri_6_msk)
    else if n == 4
    then some (shpr2, scb_shpr2_pri_11_pos, scb_shpr2_pri_11_msk)
    else if n == 1
    then some (shpr3, scb_shpr3_pri_14_pos, scb_shpr3_pri_14_msk)
    else if n == 0
    then some (shpr3, scb_shpr3_pri_15_pos, scb_shpr3_pri_15_msk)
    else none

-- `*shpr = f(*shpr)`.
abbrev pub on_shpr : ShprWord → (ℕ → ℕ) → ScbRegisters → ScbRegisters
on_shpr shpr1 f s = record s { shpr1 = f s.shpr1 }
on_shpr shpr2 f s = record s { shpr2 = f s.shpr2 }
on_shpr shpr3 f s = record s { shpr3 = f s.shpr3 }

-- The rest of `nvicSetSystemHandlerPriority`, after the `switch`.
pub write_shpr : Option (ShprWord × ℕ × ℕ) → ℕ → M ScbRegisters DriverStatus
write_shpr none priority = pure err_invalid_param
write_shpr (some (word, place, msk)) priority =
    if ltb nvic_priority_max priority then pure err_invalid_param else do
      store (
          on_shpr word (λ shpr.
            bit_or (bit_and shpr (inv32 msk)) (shl32 (shl32 priority nvic_prio_pos) place)))
      pure ok

pub nvic_set_system_handler_priority : ℤ → ℕ → M ScbRegisters DriverStatus
unfolding select_shpr write_shpr
nvic_set_system_handler_priority irqn priority = write_shpr (select_shpr irqn) priority
