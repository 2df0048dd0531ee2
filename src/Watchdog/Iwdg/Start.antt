-- ===== src/Watchdog/Iwdg/Start.antt =====
-- `iwdgStart`: the order of the key sequence, and what it refuses.
use stm32_rtos.Base.{
  ℕ, ◌≤◌, ltb, ◌||◌, Bool-cases, false, ◌≡◌, refl, ◌∙◌, ◌⊎◌, inl, inr, arith, [], ◌∷◌, All, List,
}
use stm32_rtos.Bits.{shl32}
use stm32_rtos.Status.{DriverStatus, ok, err_timeout}
use stm32_rtos.Bus.{Bus, Hw, fresh, wait}
use stm32_rtos.Bus.Waited.{Waited, wait-Waited}
use stm32_rtos.Bus.Wait.{wait-log, wait_decides, wait_keeps}
use stm32_rtos.Reg.Iwdg.{IwdgRegisters, iwdg_key_start, iwdg_key_enable_access}
use stm32_rtos.Watchdog.Iwdg.{
  iwdg_start, iwdg_wait_updates, iwdg_refresh, updating, iwdg_update_timeout_iterations,
}

-- The hardware changes SR alone.
abbrev pub Steady : Hw IwdgRegisters → Type 0
Steady hw =
    (k : ℕ) (s : IwdgRegisters)
    → ((hw k s).kr ≡ s.kr) × ((hw k s).pr ≡ s.pr) × ((hw k s).rlr ≡ s.rlr)

-- PR and RLR are as they were, or access to them is unlocked, or they hold the request and the
-- counter was reloaded last.
abbrev pub InOrder : ℕ → ℕ → IwdgRegisters → IwdgRegisters → Type 0
InOrder prescaler reload before s =
    ((s.pr ≡ before.pr) × (s.rlr ≡ before.rlr))
    ⊎ (s.kr ≡ 0x5555)
    ⊎ (s.kr ≡ 0xaaaa) × (s.pr ≡ prescaler) × (s.rlr ≡ reload)

module _ (hw : Hw IwdgRegisters) (steady : Steady hw) where
  waited :
      (b : Bus IwdgRegisters)
      → ((iwdg_wait_updates hw b).1.log ≡ b.log)
        × ((iwdg_wait_updates hw b).1.regs.kr ≡ b.regs.kr)
        × ((iwdg_wait_updates hw b).1.regs.pr ≡ b.regs.pr)
        × ((iwdg_wait_updates hw b).1.regs.rlr ≡ b.regs.rlr)
  unfolding iwdg_wait_updates
  waited b =
      let n = iwdg_update_timeout_iterations in
      (
        wait-log hw updating n b,
        wait_keeps hw updating (λ s. s.kr ≡ b.regs.kr) (λ k s h. (steady k s).0 ∙ h) n b refl,
        wait_keeps hw updating (λ s. s.pr ≡ b.regs.pr) (λ k s h. (steady k s).1 ∙ h) n b refl,
        wait_keeps hw updating (λ s. s.rlr ≡ b.regs.rlr) (λ k s h. (steady k s).2 ∙ h) n b refl,
      )

  wait_cases :
      (b : Bus IwdgRegisters)
      → ((iwdg_wait_updates hw b).0 ≡ ok) ⊎ ((iwdg_wait_updates hw b).0 ≡ err_timeout)
  unfolding iwdg_wait_updates
  wait_cases b =
      let n = iwdg_update_timeout_iterations in
      elim (Bool-cases (updating (wait hw updating n b).1.regs)) [
        | inl more ↦ inr (wait_decides hw updating n b ∙ rw more refl)
        | inr done ↦ inl (wait_decides hw updating n b ∙ rw done refl)
      ]

  module _ (prescaler reload : ℕ) (s : IwdgRegisters) (t : ℕ) where
    -- After the stores of the first two keys.
    abbrev pub unlocked : Bus IwdgRegisters
    unlocked =
        let started = record s { kr = iwdg_key_start } in
        let open_now = record started { kr = iwdg_key_enable_access } in
        record { regs = open_now; time = t; log = open_now ∷ started ∷ [] }

    -- The stores of PR and RLR after a wait, and of the last key.
    abbrev pub written : Bus IwdgRegisters → Bus IwdgRegisters
    written b =
        let scaled = record b.regs { pr = shl32 prescaler 0 } in
        let loaded = record scaled { rlr = shl32 reload 0 } in
        record { regs = loaded; time = b.time; log = loaded ∷ scaled ∷ b.log }

    abbrev pub refreshed : Bus IwdgRegisters → Bus IwdgRegisters
    refreshed b =
        let done = record b.regs { kr = 0xaaaa } in
        record { regs = done; time = b.time; log = done ∷ b.log }

    -- The status and the accesses of a start: both waits end without an update, or the second or
    -- the first does not.
    pub data Started : DriverStatus → Bus IwdgRegisters → Type 0 where
      complete :
          (b1 b2 : Bus IwdgRegisters)
          → Waited hw updating 100000 unlocked ok b1
          → Waited hw updating 100000 (written b1) ok b2
          → Started ok (refreshed b2)
      late_second :
          (b1 b2 : Bus IwdgRegisters)
          → Waited hw updating 100000 unlocked ok b1
          → Waited hw updating 100000 (written b1) err_timeout b2
          → Started err_timeout b2
      late_first :
          (b1 : Bus IwdgRegisters)
          → Waited hw updating 100000 unlocked err_timeout b1
          → Started err_timeout b1

    abbrev configured : Bus IwdgRegisters
    configured = written (iwdg_wait_updates hw unlocked).1

    abbrev reloaded : Bus IwdgRegisters
    reloaded = refreshed (iwdg_wait_updates hw configured).1

    module _ (small : prescaler ≤ 6) (fits : reload ≤ 4095) where
      valid : (ltb 6 prescaler || ltb 4095 reload) ≡ false
      valid = ground arith

      start_done :
          (iwdg_wait_updates hw unlocked).0 ≡ ok
          → (iwdg_wait_updates hw configured).0 ≡ ok
          → iwdg_start hw prescaler reload (fresh s t) ≡ (ok, reloaded)
      unfolding iwdg_start iwdg_refresh
      start_done ready done = rw (valid, ready, done) refl

      start_late :
          (iwdg_wait_updates hw unlocked).0 ≡ ok
          → (iwdg_wait_updates hw configured).0 ≡ err_timeout
          → iwdg_start hw prescaler reload (fresh s t)
            ≡ (err_timeout, (iwdg_wait_updates hw configured).1)
      unfolding iwdg_start iwdg_refresh
      start_late ready late = rw (valid, ready, late) refl

      start_stuck :
          (iwdg_wait_updates hw unlocked).0 ≡ err_timeout
          → iwdg_start hw prescaler reload (fresh s t)
            ≡ (err_timeout, (iwdg_wait_updates hw unlocked).1)
      unfolding iwdg_start iwdg_refresh
      start_stuck late = rw (valid, late) refl

    -- What the two waits leave in the log.
    Ordered : List IwdgRegisters → Type 0
    Ordered = All (InOrder (shl32 prescaler 0) (shl32 reload 0) s)

    first_log : Ordered (iwdg_wait_updates hw unlocked).1.log
    unfolding Ordered
    first_log =
        let (log1, kr1, pr1, rlr1) = waited unlocked in
        rw log1 (inl (refl, refl), (inl (refl, refl), tt))

    second_log : Ordered (iwdg_wait_updates hw configured).1.log
    unfolding Ordered
    second_log =
        let (log1, kr1, pr1, rlr1) = waited unlocked in
        let (log2, kr2, pr2, rlr2) = waited configured in
        rw log2 (inr (inl kr1), (inr (inl kr1), first_log))

    first_wait :
        Waited hw updating iwdg_update_timeout_iterations unlocked
          (iwdg_wait_updates hw unlocked).0
          (iwdg_wait_updates hw unlocked).1
    unfolding iwdg_wait_updates
    first_wait = wait-Waited hw updating iwdg_update_timeout_iterations unlocked

    second_wait :
        Waited hw updating iwdg_update_timeout_iterations
          (written (iwdg_wait_updates hw unlocked).1)
          (iwdg_wait_updates hw configured).0
          (iwdg_wait_updates hw configured).1
    unfolding iwdg_wait_updates
    second_wait = wait-Waited hw updating iwdg_update_timeout_iterations configured

    -- For a prescaler up to 6 and a reload value up to 4095, on hardware that changes SR alone,
    -- `iwdgStart` stores the keys 0xCCCC and 0x5555 and waits until SR shows no update, for at most
    -- 100002 loads; stores PR and RLR and waits again; and stores the key 0xAAAA and returns OK, with
    -- the request in PR and RLR. After the first wait that ends with an update still shown it makes
    -- no further store and returns TIMEOUT. In every state that it stores, PR and RLR differ from
    -- what they were only while access is unlocked or once all is done.
    pub iwdg_start-InOrder :
        prescaler ≤ 6
        → reload ≤ 4095
        → let r = iwdg_start hw prescaler reload (fresh s t) in
          Started r.0 r.1
          × ((r.0 ≡ ok) × (r.1.regs.pr ≡ shl32 prescaler 0) × (r.1.regs.rlr ≡ shl32 reload 0)
              ⊎ (r.0 ≡ err_timeout))
          × All (InOrder (shl32 prescaler 0) (shl32 reload 0) s) r.1.log
    unfolding Ordered
    iwdg_start-InOrder small fits =
        let (log2, kr2, pr2, rlr2) = waited configured in
        elim (wait_cases unlocked) [
          | inl first ↦
              let w1 : Waited hw updating iwdg_update_timeout_iterations unlocked ok
                  (iwdg_wait_updates hw unlocked).1 =
                rw (← first) first_wait in
              elim (wait_cases configured) [
                | inl done ↦
                    let w2 : Waited hw updating iwdg_update_timeout_iterations configured ok
                        (iwdg_wait_updates hw configured).1 =
                      rw (← done) second_wait in
                    rw (start_done small fits first done) (
                      complete _ _ w1 w2,
                      inl (refl, pr2, rlr2),
                      (inr (inr (refl, pr2, rlr2)), second_log),
                    )
                | inr late ↦
                    let w2 : Waited hw updating iwdg_update_timeout_iterations configured
                        err_timeout (iwdg_wait_updates hw configured).1 =
                      rw (← late) second_wait in
                    rw (start_late small fits first late)
                      (late_second _ _ w1 w2, inr refl, second_log)
              ]
          | inr late ↦
              let w1 : Waited hw updating iwdg_update_timeout_iterations unlocked err_timeout
                  (iwdg_wait_updates hw unlocked).1 =
                rw (← late) first_wait in
              rw (start_stuck small fits late) (late_first _ w1, inr refl, first_log)
        ]
