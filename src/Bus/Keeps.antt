-- ===== src/Bus/Keeps.antt =====
-- What a driver call keeps, from its loads and stores: a property of the registers that the
-- hardware keeps and every store keeps holds after every store of the call and at its end.
use stm32_rtos.Base.{ℕ, Bool, All, Bool-cases, inl, inr, if◌then◌else◌}
use stm32_rtos.Status.{DriverStatus, is_ok}
use stm32_rtos.Bus.{Bus, Hw, M, ◌>>=◌, ◌>>◌, load, modify, store, pure, wait, if_ok, after_step}
use stm32_rtos.Bus.Wait.{wait_keeps, wait-log}

module _ {S : Type 0} (J : S → Type 0) where
  -- It held after every store, and it holds now.
  pub record Held (b : Bus S) : Type 0 where
    pub logged : All J b.log
    pub now : J b.regs

  abbrev pub Keeps : {A : Type 0} → M S A → Type 0
  Keeps m = (b : Bus S) → Held b → Held (m b).1

module _ {S : Type 0} {J : S → Type 0} where
  pub pure-Keeps : {A : Type 0} (a : A) → Keeps J (pure a)
  pure-Keeps a b h = h

  pub store-Keeps : (f : S → S) → ((s : S) → J s → J (f s)) → Keeps J (store f)
  store-Keeps f step b h = record {
    logged = (step b.regs h.now, h.logged);
    now = step b.regs h.now;
  }

  pub bind-Keeps :
      {A B : Type 0} (m : M S A) (f : A → M S B)
      → Keeps J m
      → ((a : A) → Keeps J (f a))
      → Keeps J (m >>= f)
  bind-Keeps m f first rest b h = rest (m b).0 (m b).1 (first b h)

  pub then-Keeps :
      {B : Type 0} (m : M S (Unit {0})) (k : M S B) → Keeps J m → Keeps J k → Keeps J (m >> k)
  then-Keeps m k first rest b h = rest (m b).1 (first b h)

  pub if_ok-Keeps : (st : DriverStatus) (k : M S DriverStatus) → Keeps J k → Keeps J (if_ok st k)
  if_ok-Keeps st k keeps b h = elim (Bool-cases (is_ok st)) [
    | inl good ↦ rw good (keeps b h)
    | inr bad ↦ rw bad h
  ]

  pub if-Keeps :
      {A : Type 0} (c : Bool) (m k : M S A) → Keeps J m → Keeps J k → Keeps J (if c then m else k)
  if-Keeps c m k first second b h = elim (Bool-cases c) [
    | inl holds ↦ rw holds (first b h)
    | inr fails ↦ rw fails (second b h)
  ]

  module _ (hw : Hw S) (stays : (n : ℕ) (s : S) → J s → J (hw n s)) where
    pub step-Keeps : (b : Bus S) → Held J b → Held J (after_step hw b)
    step-Keeps b h = record { logged = h.logged; now = stays b.time b.regs h.now }

    pub load-Keeps : {A : Type 0} (f : S → A) → Keeps J (load hw f)
    load-Keeps f b h = step-Keeps b h

    pub modify-Keeps : (f : S → S) → ((s : S) → J s → J (f s)) → Keeps J (modify hw f)
    modify-Keeps f step b h = store-Keeps f step (after_step hw b) (step-Keeps b h)

    pub wait-Keeps : (pending : S → Bool) (n : ℕ) → Keeps J (wait hw pending n)
    wait-Keeps pending n b h = record {
      logged = rw (wait-log hw pending n b) h.logged;
      now = wait_keeps hw pending J stays n b h.now;
    }
