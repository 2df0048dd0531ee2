-- ===== src/Clocks/Keep.antt =====
-- The steps that the clock drivers are made of, run on hardware that leaves the configuration
-- alone: what each step keeps, what it adds, and the invariant that holds after every store.
use stm32_rtos.Base.{ℕ, bit_and, Bool, true, ◌≡◌, List, ◌∷◌, All, ap, ◌∙◌}
use stm32_rtos.Status.{
  DriverStatus, uninitialized, ok, err_invalid_param, err_not_initialized, err_timeout,
  err_hw_fault, err_busy, err_unsupported,
}
use stm32_rtos.Bus.{Bus, Hw, M, after_step, modify, wait, if_ok}
use stm32_rtos.Bus.Wait.{wait_keeps, wait-log}
use stm32_rtos.Clocks.{Clocks}
use stm32_rtos.Clocks.Facts.{
  ClockReg, update_reg, Steady, Fact, IsFact, Holds, is_soft, is_apart, all_facts, Only,
  Steady-Holds, update_reg-Holds, read-update_self,
}

-- What holds if the status is OK.
abbrev pub IfOk : DriverStatus → Type 0 → Type 0
IfOk ok T = T
IfOk _ T = Unit

-- `I` held after every store and holds now, and the facts hold if the status is OK.
pub record Ends (I : Clocks → Type 0) (fs : List Fact) (st : DriverStatus) (b : Bus Clocks)
    : Type 0 where
  pub logged : All I b.log
  pub now : I b.regs
  pub facts : IfOk st (Holds fs b.regs)

-- The facts hold, and the invariant held after every store and holds now.
pub record Stands (I : Clocks → Type 0) (fs : List Fact) (b : Bus Clocks) : Type 0 where
  pub logged : All I b.log
  pub now : I b.regs
  pub facts : Holds fs b.regs

module _ {I : Clocks → Type 0} where
  pub Ends-ok : {fs : List Fact} {b : Bus Clocks} → Stands I fs b → Ends I fs ok b
  Ends-ok s = record { logged = s.logged; now = s.now; facts = s.facts }

  pub Ends-any :
      (fs : List Fact) (st : DriverStatus) {b : Bus Clocks} → Stands I fs b → Ends I fs st b
  Ends-any fs uninitialized s = record { logged = s.logged; now = s.now; facts = tt }
  Ends-any fs ok s = Ends-ok s
  Ends-any fs err_invalid_param s = record { logged = s.logged; now = s.now; facts = tt }
  Ends-any fs err_not_initialized s = record { logged = s.logged; now = s.now; facts = tt }
  Ends-any fs err_timeout s = record { logged = s.logged; now = s.now; facts = tt }
  Ends-any fs err_hw_fault s = record { logged = s.logged; now = s.now; facts = tt }
  Ends-any fs err_busy s = record { logged = s.logged; now = s.now; facts = tt }
  Ends-any fs err_unsupported s = record { logged = s.logged; now = s.now; facts = tt }

  -- `if (status == DRIVER_STATUS_OK)`: the next step is run on the facts of the last.
  pub if_ok-Ends :
      {fs gs : List Fact} (st : DriverStatus) (b : Bus Clocks) (k : M Clocks DriverStatus)
      → Ends I fs st b
      → (Stands I fs b → Ends I gs (k b).0 (k b).1)
      → Ends I gs (if_ok st k b).0 (if_ok st k b).1
  if_ok-Ends uninitialized b k e step = record { logged = e.logged; now = e.now; facts = tt }
  if_ok-Ends ok b k e step = step (record { logged = e.logged; now = e.now; facts = e.facts })
  if_ok-Ends err_invalid_param b k e step = record { logged = e.logged; now = e.now; facts = tt }
  if_ok-Ends err_not_initialized b k e step = record { logged = e.logged; now = e.now; facts = tt }
  if_ok-Ends err_timeout b k e step = record { logged = e.logged; now = e.now; facts = tt }
  if_ok-Ends err_hw_fault b k e step = record { logged = e.logged; now = e.now; facts = tt }
  if_ok-Ends err_busy b k e step = record { logged = e.logged; now = e.now; facts = tt }
  if_ok-Ends err_unsupported b k e step = record { logged = e.logged; now = e.now; facts = tt }

module _ (hw : Hw Clocks) (steady : Steady hw) (I : Clocks → Type 0) (fs : List Fact)
    (holding : (s : Clocks) → Holds fs s → I s) (are_soft : all_facts is_soft fs ≡ true) where
  -- A load.
  pub step-Stands : (b : Bus Clocks) → Stands I fs b → Stands I fs (after_step hw b)
  step-Stands b s =
      let kept = Steady-Holds hw steady fs are_soft b.time b.regs s.facts in
      record { logged = s.logged; now = holding _ kept; facts = kept }

  -- A poll loop.
  pub wait-Ends :
      (pending : Clocks → Bool) (n : ℕ) (b : Bus Clocks)
      → Stands I fs b
      → Stands I fs (wait hw pending n b).1
  wait-Ends pending n b s =
      let kept =
        wait_keeps hw pending (Holds fs) (λ k r h. Steady-Holds hw steady fs are_soft k r h) n b
          s.facts in
      record { logged = rw (wait-log hw pending n b) s.logged; now = holding _ kept; facts = kept }

-- A read-modify-write that keeps the facts and adds one, with which the invariant holds.
module _ (hw : Hw Clocks) (steady : Steady hw) (I : Clocks → Type 0) (fs : List Fact)
    (are_soft : all_facts is_soft fs ≡ true) where
  pub modify-Stands :
      (r : ClockReg) (mask m v : ℕ) (g : ℕ → ℕ)
      → ((s : Clocks) → Holds ((r, m, v) ∷ fs) s → I s)
      → Only mask g
      → all_facts (is_apart r mask) fs ≡ true
      → ((x : ℕ) → bit_and (g x) m ≡ v)
      → (b : Bus Clocks) → Stands I fs b
      → Stands I ((r, m, v) ∷ fs) (modify hw (update_reg r g) b).1
  modify-Stands r mask m v g holding only apart gives b s =
      let before = Steady-Holds hw steady fs are_soft b.time b.regs s.facts in
      let kept = update_reg-Holds r mask g fs only apart (hw b.time b.regs) before in
      let gained : IsFact (update_reg r g (hw b.time b.regs)) (r, m, v) =
        ap (λ (t : ℕ). bit_and t m) (read-update_self r g (hw b.time b.regs)) ∙ gives _ in
      record {
        logged = (holding _ (gained, kept), s.logged);
        now = holding _ (gained, kept);
        facts = (gained, kept);
      }
