-- ===== src/Bus/Waited.antt =====
-- What a poll loop and the re-read after it do at each load, as a relation between the accesses
-- before and after.
use stm32_rtos.Base.{ℕ, zero, suc, Bool, true, false, ◌≡◌, Bool-cases, inl, inr}
use stm32_rtos.Status.{DriverStatus, ok, err_timeout}
use stm32_rtos.Bus.{Bus, Hw, after_step, poll, wait}

module _ {S : Type 0} (hw : Hw S) (pending : S → Bool) where
  -- At most `n + 1` loads, the last of which is the first that shows the flag, or the last that the
  -- budget allows.
  pub data Polled : ℕ → Bus S → Bus S → Type 0 where
    seen : (n : ℕ) (b : Bus S) → pending (hw b.time b.regs) ≡ false → Polled n b (after_step hw b)
    further :
        (n : ℕ) (b end : Bus S)
        → pending (hw b.time b.regs) ≡ true
        → Polled n (after_step hw b) end
        → Polled (suc n) b end
    spent : (b : Bus S) → pending (hw b.time b.regs) ≡ true → Polled zero b (after_step hw b)

  -- One more load decides.
  pub data Waited (n : ℕ) (b : Bus S) : DriverStatus → Bus S → Type 0 where
    ready :
        (end : Bus S)
        → Polled n b end
        → pending (hw end.time end.regs) ≡ false
        → Waited n b ok (after_step hw end)
    late :
        (end : Bus S)
        → Polled n b end
        → pending (hw end.time end.regs) ≡ true
        → Waited n b err_timeout (after_step hw end)

  poll-Polled : (n : ℕ) (b : Bus S) → Polled n b (poll hw pending n b)
  unfolding poll
  poll-Polled zero b = elim (Bool-cases (pending (hw b.time b.regs))) [
    | inl more ↦ spent b more
    | inr done ↦ seen zero b done
  ]
  poll-Polled (suc n) b = elim (Bool-cases (pending (hw b.time b.regs))) [
    | inl more ↦
        rw more
          (further n b (poll hw pending n (after_step hw b)) more (poll-Polled n (after_step hw b)))
    | inr done ↦ rw done (seen (suc n) b done)
  ]

  pub wait-Waited : (n : ℕ) (b : Bus S) → Waited n b (wait hw pending n b).0 (wait hw pending n b).1
  unfolding wait
  wait-Waited n b =
      let end = poll hw pending n b in
      elim (Bool-cases (pending (hw end.time end.regs))) [
        | inl more ↦ rw more (late end (poll-Polled n b) more)
        | inr done ↦ rw done (ready end (poll-Polled n b) done)
      ]
