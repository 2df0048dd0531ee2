-- ===== src/Rcc/Tree/Kept.antt =====
-- The steps of the clock calls while the source in use stays the same.
use stm32_rtos.Base.{
  ℕ, bit_and, bit_or, Bool, true, ◌≡◌, refl, sym, ap, ◌∙◌, ◌⊎◌, inl, inr, List, [], ◌∷◌, All,
  Bool-cases,
}
use stm32_rtos.Bits.{shr32, bit_and-ones, bit_and_comm, zero-bit_and}
use stm32_rtos.Status.{DriverStatus, is_ok}
use stm32_rtos.Bus.{Bus, Hw, M, after_step, modify, wait, if_ok}
use stm32_rtos.Bus.Wait.{wait_keeps, wait-log}
use stm32_rtos.Clocks.{Clocks}
use stm32_rtos.Clocks.Facts.{
  ClockReg, cfgr, update_reg, Steady, Fact, IsFact, Holds, is_soft, is_apart, is_set, all_facts,
  Only, Only-set, Steady-Holds, update_reg-Holds, set-Holds,
}
use stm32_rtos.Rcc.Oscillator.{active_source}
use stm32_rtos.Rcc.Tree.{
  Feed, hsi, hse, pll_hsi, pll_hse, source_of, feed_facts, requested, IsFed, Follows,
}
use stm32_rtos.Reg.Rcc.{rcc_cfgr_sws_msk}

-- The source in use, and that no other is asked for.
abbrev pub tree_facts : Feed → List Fact
tree_facts f = requested (source_of f) ∷ feed_facts f

tree_soft : (f : Feed) → all_facts is_soft (tree_facts f) ≡ true
tree_soft hsi = refl
tree_soft hse = refl
tree_soft pll_hsi = refl
tree_soft pll_hse = refl

pub feed_soft : (f : Feed) → all_facts is_soft (feed_facts f) ≡ true
feed_soft hsi = refl
feed_soft hse = refl
feed_soft pll_hsi = refl
feed_soft pll_hse = refl

-- Every stored state was fed, and SYSCLK is settled on this source.
pub record Kept (f : Feed) (b : Bus Clocks) : Type 0 where
  pub logged : All IsFed b.log
  pub in_use : active_source b.regs ≡ source_of f
  pub facts : Holds (tree_facts f) b.regs

pub IsFed-now :
    (f : Feed) (s : Clocks) → active_source s ≡ source_of f → Holds (tree_facts f) s → IsFed s
IsFed-now f s e h = (f, record { in_use = e; on = h.1 })

-- CFGR.SWS after a store that does not write it.
pub kept_source :
    (r : ClockReg) (mask : ℕ) (g : ℕ → ℕ)
    → Only mask g
    → all_facts (is_apart r mask) ((cfgr, rcc_cfgr_sws_msk, 0) ∷ []) ≡ true
    → (s : Clocks) → active_source (update_reg r g s) ≡ active_source s
kept_source r mask g only apart s =
    ap (λ (x : ℕ). shr32 x 2)
      (update_reg-Holds r mask g
        ((cfgr, rcc_cfgr_sws_msk, bit_and s.rcc.cfgr rcc_cfgr_sws_msk) ∷ []) only apart s
        (refl, tt)).0

pub if_ok-Kept :
    (f : Feed) (st : DriverStatus) (b : Bus Clocks) (k : M Clocks DriverStatus)
    → Kept f b
    → (Kept f b → Kept f (k b).1)
    → Kept f (if_ok st k b).1
if_ok-Kept f st b k h step = elim (Bool-cases (is_ok st)) [
  | inl good ↦ rw good (step h)
  | inr bad ↦ rw bad h
]

pub rewritten : (g : ℕ → ℕ) → Only 0xffffffff g
rewritten g x n word apart =
    let none : n ≡ 0 = sym (bit_and-ones 32 n word) ∙ (bit_and_comm n 0xffffffff ∙ apart) in
    rw none (bit_and_comm (g x) 0 ∙ (zero-bit_and (g x) ∙ sym (bit_and_comm x 0 ∙ zero-bit_and x)))

module _ (hw : Hw Clocks) (steady : Steady hw) (follows : Follows hw) (f : Feed) where
  stays :
      (n : ℕ) (s : Clocks)
      → (active_source s ≡ source_of f) × Holds (tree_facts f) s
      → (active_source (hw n s) ≡ source_of f) × Holds (tree_facts f) (hw n s)
  stays n s h = (moved (follows n s), Steady-Holds hw steady (tree_facts f) (tree_soft f) n s h.1)
    where
      moved :
          (active_source (hw n s) ≡ active_source s)
            ⊎ (g : Feed) × Holds (feed_facts g) s
              × IsFact s (requested (source_of g))
              × (active_source (hw n s) ≡ source_of g)
          → active_source (hw n s) ≡ source_of f
      moved (inl same) = same ∙ h.0
      moved (inr (g, _, asked, now)) = now ∙ sym asked ∙ h.1.0

  pub after_step-Kept : (b : Bus Clocks) → Kept f b → Kept f (after_step hw b)
  after_step-Kept b k =
      let h = stays b.time b.regs (k.in_use, k.facts) in
      record { logged = k.logged; in_use = h.0; facts = h.1 }

  pub wait-Kept :
      (pending : Clocks → Bool) (n : ℕ) (b : Bus Clocks) → Kept f b → Kept f (wait hw pending n b).1
  wait-Kept pending n b k =
      let h =
        wait_keeps hw pending (λ s. (active_source s ≡ source_of f) × Holds (tree_facts f) s) stays
          n b (k.in_use, k.facts) in
      record { logged = rw (wait-log hw pending n b) k.logged; in_use = h.0; facts = h.1 }

  pub modify-Kept :
      (r : ClockReg) (mask : ℕ) (g : ℕ → ℕ)
      → Only mask g
      → all_facts (is_apart r mask) ((cfgr, rcc_cfgr_sws_msk, 0) ∷ []) ≡ true
      → all_facts (is_apart r mask) (tree_facts f) ≡ true
      → (b : Bus Clocks) → Kept f b
      → Kept f (modify hw (update_reg r g) b).1
  modify-Kept r mask g only apart apart' b k =
      let h = stays b.time b.regs (k.in_use, k.facts) in
      let e = kept_source r mask g only apart (hw b.time b.regs) ∙ h.0 in
      let kept = update_reg-Holds r mask g (tree_facts f) only apart' (hw b.time b.regs) h.1 in
      record { logged = (IsFed-now f _ e kept, k.logged); in_use = e; facts = kept }

  -- Bits that are set already, or that do not matter, are set.
  pub set-Kept :
      (r : ClockReg) (bits : ℕ)
      → all_facts (is_apart r bits) ((cfgr, rcc_cfgr_sws_msk, 0) ∷ []) ≡ true
      → all_facts (is_set r bits) (tree_facts f) ≡ true
      → (b : Bus Clocks) → Kept f b
      → Kept f (modify hw (update_reg r (λ x. bit_or x bits)) b).1
  set-Kept r bits apart apart' b k =
      let h = stays b.time b.regs (k.in_use, k.facts) in
      let e = kept_source r bits _ (Only-set bits) apart (hw b.time b.regs) ∙ h.0 in
      let kept = set-Holds r bits (tree_facts f) apart' (hw b.time b.regs) h.1 in
      record { logged = (IsFed-now f _ e kept, k.logged); in_use = e; facts = kept }

  -- A register that the source does not need is written.
  pub rewrite-Kept :
      (r : ClockReg) (g : ℕ → ℕ)
      → all_facts (is_apart r 0xffffffff) ((cfgr, rcc_cfgr_sws_msk, 0) ∷ []) ≡ true
      → all_facts (is_apart r 0xffffffff) (tree_facts f) ≡ true
      → (b : Bus Clocks) → Kept f b
      → Kept f (modify hw (update_reg r g) b).1
  rewrite-Kept r g apart apart' b k = modify-Kept r 0xffffffff g (rewritten g) apart apart' b k
