-- ===== src/Flash/Config.antt =====
-- `flashSetLatency` on hardware that leaves the configuration alone.
use stm32_rtos.Base.{ℕ, ◌≤◌, ltb, true, false, ◌≡◌, List, ◌∷◌, arith, eq→!=}
use stm32_rtos.Bits.{shl32, shr32, shl32-in, field_read}
use stm32_rtos.Status.{ok}
use stm32_rtos.Bus.{Bus, Hw}
use stm32_rtos.Clocks.{Clocks}
use stm32_rtos.Clocks.Facts.{acr, Steady, Fact, Holds, is_soft, is_apart, all_facts, Only-field}
use stm32_rtos.Clocks.Keep.{Stands, step-Stands, modify-Stands}
use stm32_rtos.Flash.{flash_set_latency}
use stm32_rtos.Reg.Flash.{flash_acr_latency_msk, flash_acr_latency_pos}

module _ (hw : Hw Clocks) (steady : Steady hw) (I : Clocks → Type 0) (fs : List Fact)
    (are_soft : all_facts is_soft fs ≡ true)
    (apart : all_facts (is_apart acr flash_acr_latency_msk) fs ≡ true) where
  -- A latency of 0 to 15 is written, reads back, and the call succeeds.
  pub flash_set_latency-Stands :
      (latency : ℕ)
      → latency ≤ 15
      → ((s : Clocks)
          → Holds ((acr, flash_acr_latency_msk, shl32 latency flash_acr_latency_pos) ∷ fs) s
          → I s)
      → (b : Bus Clocks) → Stands I fs b
      → (Stands I
          ((acr, flash_acr_latency_msk, shl32 latency flash_acr_latency_pos) ∷ fs)
          (flash_set_latency hw latency b).1)
        × ((flash_set_latency hw latency b).0 ≡ ok)
  unfolding flash_set_latency
  flash_set_latency-Stands latency small holding b s =
      let within = shl32-in 4 0 latency (omega arith) (omega arith) in
      let in_range : ltb (shr32 flash_acr_latency_msk flash_acr_latency_pos) latency ≡ false =
        ground arith in
      let written =
        modify-Stands hw steady I fs are_soft acr flash_acr_latency_msk flash_acr_latency_msk
          (shl32 latency flash_acr_latency_pos) _ holding
          (Only-field flash_acr_latency_msk (shl32 latency flash_acr_latency_pos) (omega arith)
            within)
          apart
          (λ x.
            field_read x flash_acr_latency_msk (shl32 latency flash_acr_latency_pos) (omega arith)
              within)
          b s in
      let read =
        step-Stands hw steady I
          ((acr, flash_acr_latency_msk, shl32 latency flash_acr_latency_pos) ∷ fs) holding are_soft
          _ written in
      rw in_range (read, rw (eq→!= _ _ read.facts.0))
