-- ===== src/Bus/Wait.antt =====
-- What the poll loops of the drivers guarantee, whatever the hardware does.
use stm32_rtos.Base.{
  ℕ, zero, suc, ◌+◌, ◌≤◌, Bool, true, false, ◌≡◌, ◌≢◌, refl, sym, ◌∙◌, if◌then◌else◌, Bool-cases,
  ◌⊎◌, inl, inr, arith,
}
use native.Mathlib.Decide.{dec_le}
use stm32_rtos.Status.{ok, err_timeout, err_busy}
use stm32_rtos.Bus.{Bus, Hw, after_step, poll, wait}

timeout_apart : ¬ (err_timeout ≡ err_busy)
timeout_apart h = grind arith

ok_apart : ¬ (ok ≡ err_busy)
ok_apart h = grind arith

module _ {S : Type 0} (hw : Hw S) (pending : S → Bool) where
  poll-log : (n : ℕ) (b : Bus S) → (poll hw pending n b).log ≡ b.log
  unfolding poll
  poll-log zero b = refl
  poll-log (suc n) b = elim (Bool-cases (pending (hw b.time b.regs))) [
    | inl more ↦ rw more (poll-log n (after_step hw b))
    | inr done ↦ rw done
  ]

  -- Waiting stores nothing.
  pub wait-log : (n : ℕ) (b : Bus S) → (wait hw pending n b).1.log ≡ b.log
  unfolding wait
  wait-log n b = poll-log n b

  -- The result is decided by the flag as it stands at the end.
  pub wait_decides :
      (n : ℕ) (b : Bus S)
      → (wait hw pending n b).0 ≡ (if pending (wait hw pending n b).1.regs then err_timeout else ok)
  unfolding wait
  wait_decides n b = refl

  pub wait_not_busy : (n : ℕ) (b : Bus S) → (wait hw pending n b).0 ≢ err_busy
  wait_not_busy n b busy = elim (Bool-cases (pending (wait hw pending n b).1.regs)) [
    | inl more ↦ timeout_apart (sym (wait_decides n b ∙ rw more refl) ∙ busy)
    | inr done ↦ ok_apart (sym (wait_decides n b ∙ rw done refl) ∙ busy)
  ]

  poll_keeps :
      (P : S → Type 0)
      → ((k : ℕ) (s : S) → P s → P (hw k s))
      → (n : ℕ) (b : Bus S) → P b.regs
      → P (poll hw pending n b).regs
  unfolding poll
  poll_keeps P keep zero b h = keep b.time b.regs h
  poll_keeps P keep (suc n) b h = elim (Bool-cases (pending (hw b.time b.regs))) [
    | inl more ↦ rw more (poll_keeps P keep n (after_step hw b) (keep b.time b.regs h))
    | inr done ↦ rw done (keep b.time b.regs h)
  ]

  -- What each step of the hardware keeps, waiting keeps.
  pub wait_keeps :
      (P : S → Type 0)
      → ((k : ℕ) (s : S) → P s → P (hw k s))
      → (n : ℕ) (b : Bus S) → P b.regs
      → P (wait hw pending n b).1.regs
  unfolding wait
  wait_keeps P keep n b h = keep _ _ (poll_keeps P keep n b h)

  -- A flag that the hardware shows whenever `P` holds makes the wait succeed.
  pub wait_under :
      (P : S → Type 0)
      → ((k : ℕ) (s : S) → P s → P (hw k s))
      → ((k : ℕ) (s : S) → P s → pending (hw k s) ≡ false)
      → (n : ℕ) (b : Bus S) → P b.regs
      → (wait hw pending n b).0 ≡ ok
  unfolding wait
  wait_under P keep shows n b h = rw (shows _ _ (poll_keeps P keep n b h)) refl

  module _ (latched : (k : ℕ) (s : S) → pending s ≡ false → pending (hw k s) ≡ false) where
    -- The flag clears by load `d` of the wait, and stays clear.
    poll_settles :
        (n d : ℕ) (b : Bus S)
        → d ≤ n
        → ((s : S) → pending (hw (b.time + d) s) ≡ false)
        → pending (poll hw pending n b).regs ≡ false
    unfolding poll
    poll_settles zero d b le by = let e : b.time ≡ b.time + d = omega arith in rw e (by b.regs)
    poll_settles (suc n) zero b le by =
        let e : b.time ≡ b.time + 0 = omega arith in
        let now : pending (hw b.time b.regs) ≡ false = rw e (by b.regs) in rw now now
    poll_settles (suc n) (suc d) b le by = elim (Bool-cases (pending (hw b.time b.regs))) [
      | inl more ↦ rw more (
          poll_settles n d (after_step hw b) (omega arith)
            (λ s. let e : suc b.time + d ≡ b.time + suc d = omega arith in rw e (by s)))
      | inr done ↦ rw done done
    ]

    -- A loop that ends early has seen the flag; otherwise all of its loads were made.
    poll_outcome :
        (n : ℕ) (b : Bus S)
        → (pending (poll hw pending n b).regs ≡ false)
          ⊎ ((poll hw pending n b).time ≡ b.time + n + 1)
    unfolding poll
    poll_outcome zero b = inr (omega arith)
    poll_outcome (suc n) b = elim (Bool-cases (pending (hw b.time b.regs))) [
      | inl more ↦ rw more (later (poll_outcome n (after_step hw b)))
      | inr done ↦ rw done (inl done)
    ]
      where
        later :
            (pending (poll hw pending n (after_step hw b)).regs ≡ false)
              ⊎ ((poll hw pending n (after_step hw b)).time ≡ suc b.time + n + 1)
            → (pending (poll hw pending n (after_step hw b)).regs ≡ false)
              ⊎ ((poll hw pending n (after_step hw b)).time ≡ b.time + suc n + 1)
        later (inl seen) = inl seen
        later (inr full) = inr (omega arith)

    -- A flag that settles by the load after the last poll, and stays so, makes the wait succeed.
    pub wait_settles :
        (n d : ℕ) (b : Bus S)
        → d ≤ n + 1
        → ((s : S) → pending (hw (b.time + d) s) ≡ false)
        → (wait hw pending n b).0 ≡ ok
    unfolding wait
    wait_settles n d b le by = elim (dec_le d n) [
      | yes early ↦ rw (latched _ _ (poll_settles n d b early by))
      | no late ↦ last (poll_outcome n b) (omega arith)
    ]
      where
        last :
            (pending (poll hw pending n b).regs ≡ false)
              ⊎ ((poll hw pending n b).time ≡ b.time + n + 1)
            → d ≡ n + 1
            → (wait hw pending n b).0 ≡ ok
        last (inl seen) e = rw (latched _ _ seen)
        last (inr full) e =
            let at : (poll hw pending n b).time ≡ b.time + d = omega arith in
            rw (at, by (poll hw pending n b).regs)

  module _ (stuck : (k : ℕ) (s : S) → pending (hw k s) ≡ true) where
    poll_stuck : (n : ℕ) (b : Bus S) → (poll hw pending n b).time ≡ b.time + n + 1
    unfolding poll
    poll_stuck zero b = omega arith
    poll_stuck (suc n) b = rw (stuck b.time b.regs) (omega (arith, poll_stuck n (after_step hw b)))

    -- A flag that never comes is a timeout, after all of the polls and no sooner.
    pub wait_stuck :
        (n : ℕ) (b : Bus S)
        → ((wait hw pending n b).0 ≡ err_timeout) × ((wait hw pending n b).1.time ≡ b.time + n + 2)
    unfolding wait
    wait_stuck n b = (rw (stuck _ _), omega (arith, poll_stuck n b))
