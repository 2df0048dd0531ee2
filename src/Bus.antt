-- ===== src/Bus.antt =====
-- Volatile access to register blocks. `S` is what a driver's pointers reach.
-- The hardware may change the registers in any way before each load, so it is a function of
-- the number of the load; a store changes them at once and is logged.
pub mod Keeps
pub mod Wait
pub mod Waited
use stm32_rtos.Base.{ℕ, zero, suc, List, [], ◌∷◌, Bool, true, false, if◌then◌else◌}
use stm32_rtos.Status.{DriverStatus, ok, err_timeout, is_ok}

-- `log` holds the registers as they stood right after each store, the latest first.
pub record Bus (S : Type 0) : Type 0 where
  pub regs : S
  pub time : ℕ
  pub log : List S

-- What the hardware does before load number `n`.
abbrev pub Hw : Type 0 → Type 0
Hw S = ℕ → S → S

abbrev pub M : Type 0 → Type 0 → Type 0
M S A = Bus S → A × Bus S

abbrev pub pure : {S A : Type 0} → A → M S A
pure a b = (a, b)

infixl 5 ◌>>=◌ ◌>>◌
abbrev pub ◌>>=◌ : {S A B : Type 0} → M S A → (A → M S B) → M S B
◌>>=◌ m f b = let (a, b') = m b in f a b'

abbrev pub ◌>>◌ : {S B : Type 0} → M S (Unit {0}) → M S B → M S B
◌>>◌ m k b = let (_, b') = m b in k b'

-- The registers at some time, with nothing stored yet.
abbrev pub fresh : {S : Type 0} → S → ℕ → Bus S
fresh s t = record { regs = s; time = t; log = [] }

module _ {S : Type 0} where
  -- The registers after one step of the hardware, with the load counted.
  abbrev pub after_step : Hw S → Bus S → Bus S
  after_step hw b = record b { regs = hw b.time b.regs; time = suc b.time }

  -- A read of a register, or of a value computed from one.
  abbrev pub load : {A : Type 0} → Hw S → (S → A) → M S A
  load hw f b = let b' = after_step hw b in (f b'.regs, b')

  -- A read of a register that only software writes.
  abbrev pub peek : {A : Type 0} → (S → A) → M S A
  peek f b = (f b.regs, b)

  -- `reg = value`, given as the change of the block.
  abbrev pub store : (S → S) → M S (Unit {0})
  store f b = let s = f b.regs in (tt, record b { regs = s; log = s ∷ b.log })

  -- `reg op= value`: a read of the register, then a store.
  abbrev pub modify : Hw S → (S → S) → M S (Unit {0})
  modify hw f b = store f (after_step hw b)

  -- `if (status == DRIVER_STATUS_OK) { status = … }` after a step that gave `status`.
  abbrev pub if_ok : DriverStatus → M S DriverStatus → M S DriverStatus
  if_ok st k = if is_ok st then k else pure st

  -- `while (pending && (remaining > 0U)) { remaining--; }`: each test is a load.
  unfoldable pub poll : Hw S → (S → Bool) → ℕ → Bus S → Bus S
  poll hw pending zero b = after_step hw b
  poll hw pending (suc remaining) b =
      let b' = after_step hw b in
      let rest = poll hw pending remaining b' in if pending b'.regs then rest else b'

  -- The loop, then one more load that decides.
  unfoldable pub wait : Hw S → (S → Bool) → ℕ → M S DriverStatus
  wait hw pending timeout b =
      let b' = after_step hw (poll hw pending timeout b) in
      (if pending b'.regs then err_timeout else ok, b')
