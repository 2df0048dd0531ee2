-- ===== src/Nvic/Request.antt =====
-- The four functions of drivers/src/nvic.c that write one bit: which interrupt a store names.
use stm32_rtos.Base.{
  leb, not, ==→eq, split_and, ℕ, ◌/◌, ◌%◌, ◌^◌, ◌<◌, all_below, at_of_below, ◌==◌, ne→==, eq→==,
  true, false, Bool-cases, if◌then◌else◌, ℤ, pos, negsuc, [], ◌∷◌, ◌≡◌, ◌≢◌, ◌⊎◌, inl, inr, refl,
  ap, arith, Bool, ◌∙◌,
}
use stm32_rtos.Bits.{shr32}
use stm32_rtos.Status.{DriverStatus, ok, err_invalid_param, is_ok, ok_only}
use stm32_rtos.Bus.{M, fresh}
use stm32_rtos.Nvic.{
  write_at, NvicRegisters, nvic_validate_irq, nvic_irq_word, nvic_irq_bit, nvic_enable_irq,
  nvic_disable_irq, nvic_set_pending, nvic_clear_pending,
}
use stm32_rtos.Nvic.Table.{has, reserved, is_device_irq, nvic_validate_irq_exact}

pub data Request : Type 0 where
  enable disable pend unpend : Request

abbrev pub request : Request → ℤ → M NvicRegisters DriverStatus
request enable = nvic_enable_irq
request disable = nvic_disable_irq
request pend = nvic_set_pending
request unpend = nvic_clear_pending

-- The register array of the request.
abbrev pub array : Request → NvicRegisters → ℕ → ℕ
array enable s = s.iser
array disable s = s.icer
array pend s = s.ispr
array unpend s = s.icpr

abbrev pub with_array : Request → (ℕ → ℕ) → NvicRegisters → NvicRegisters
with_array enable a s = record s { iser = a }
with_array disable a s = record s { icer = a }
with_array pend a s = record s { ispr = a }
with_array unpend a s = record s { icpr = a }

-- The bit of an interrupt in such an array: 32 interrupts to a word.
abbrev pub bit_of : ℕ → (ℕ → ℕ) → ℕ
bit_of m words = words (m / 32) / 2 ^ (m % 32) % 2

place_test : ℕ → Bool
place_test n = shr32 n 5 == n / 32

bit_test : ℕ → ℕ → Bool
bit_test n j = nvic_irq_bit n / 2 ^ j % 2 == (if j == n % 32 then 1 else 0)

bits_test : ℕ → Bool
bits_test n = all_below (bit_test n) 32

places_97 : all_below place_test 97 ≡ true
unfolding all_below place_test
places_97 = refl

bits_97 : all_below bits_test 97 ≡ true
unfolding all_below bits_test bit_test
bits_97 = refl

word_at : (n : ℕ) → n < 97 → nvic_irq_word n ≡ n / 32
unfolding place_test
word_at n lt = ==→eq _ _ (at_of_below place_test 97 n places_97 lt)

bit_at : (n j : ℕ) → n < 97 → j < 32 → nvic_irq_bit n / 2 ^ j % 2 ≡ (if j == n % 32 then 1 else 0)
unfolding bits_test bit_test
bit_at n j lt fits =
    ==→eq _ _ (at_of_below (bit_test n) 32 j (at_of_below bits_test 97 n bits_97 lt) fits)

device_small : (n : ℕ) → is_device_irq (pos n) ≡ true → n < 97
device_small n h = let low = (split_and (leb n 96) (not (has reserved n)) h).0 in ground arith

same_place : (m n : ℕ) → m / 32 ≡ n / 32 → (m % 32 == n % 32) ≡ (m == n)
same_place m n h = elim (Bool-cases (m == n)) [
  | inl same ↦ let e : m ≡ n = ==→eq _ _ same in rw (same, e) (eq→== (n % 32) (n % 32) refl)
  | inr apart ↦
      rw apart (ne→== (m % 32) (n % 32) (λ e. let eq : m ≡ n = omega arith in absurd (grind arith)))
]

-- What a store of the word and bit of interrupt `n` leaves at interrupt `m`.
written :
    (words : ℕ → ℕ) (n m : ℕ)
    → n < 97
    → (m / 32 ≡ n / 32)
        × (bit_of m (write_at (nvic_irq_word n) (nvic_irq_bit n) words) ≡ (if m == n then 1 else 0))
      ⊎ (m / 32 ≢ n / 32)
        × (write_at (nvic_irq_word n) (nvic_irq_bit n) words (m / 32) ≡ words (m / 32))
written words n m lt = rw (word_at n lt) elim (Bool-cases (m / 32 == n / 32)) [
  | inr apart ↦ inr (λ e. absurd (grind arith), rw apart refl)
  | inl here ↦ inl (
    ==→eq _ _ here,
    rw here (
        bit_at n (m % 32) lt (omega arith)
        ∙ ap (λ (b : Bool). if b then 1 else 0) (same_place m n (==→eq _ _ here))),
  )
]

not_ok :
    (irqn : ℤ) → is_ok (nvic_validate_irq irqn) ≡ false → nvic_validate_irq irqn ≡ err_invalid_param
unfolding nvic_validate_irq
not_ok (negsuc n) h = refl
not_ok (pos n) h = ground arith

request_refused :
    (q : Request) (irqn : ℤ) (s : NvicRegisters) (t : ℕ)
    → nvic_validate_irq irqn ≡ err_invalid_param
    → request q irqn (fresh s t) ≡ (err_invalid_param, fresh s t)
unfolding nvic_enable_irq nvic_disable_irq nvic_set_pending nvic_clear_pending
request_refused enable irqn s t h = rw h refl
request_refused disable irqn s t h = rw h refl
request_refused pend irqn s t h = rw h refl
request_refused unpend irqn s t h = rw h refl

-- One store in the array of the request, of the word and bit of the interrupt.
request_runs :
    (q : Request) (n : ℕ) (s : NvicRegisters) (t : ℕ)
    → nvic_validate_irq (pos n) ≡ ok
    → let r = request q (pos n) (fresh s t) in
      (r.0 ≡ ok)
      × (r.1.log ≡ r.1.regs ∷ [])
      × (r.1.regs ≡ with_array q (array q r.1.regs) s)
      × (array q r.1.regs ≡ write_at (nvic_irq_word n) (nvic_irq_bit n) (array q s))
unfolding nvic_enable_irq nvic_disable_irq nvic_set_pending nvic_clear_pending
request_runs enable n s t h = rw h (refl, refl, refl, refl)
request_runs disable n s t h = rw h (refl, refl, refl, refl)
request_runs pend n s t h = rw h (refl, refl, refl, refl)
request_runs unpend n s t h = rw h (refl, refl, refl, refl)

-- `nvicEnableIrq`, `nvicDisableIrq`, `nvicSetPending` and `nvicClearPending`, for every integer: an
-- interrupt of the part gives OK and one store, to one word of ISER, ICER, ISPR or ICPR in that
-- order, in which its bit is 1 and the bits of the other interrupts are 0; every other word and
-- register is kept. Any other number gives INVALID_PARAM without a store.
pub request_outcome :
    (q : Request) (irqn : ℤ) (m : ℕ) (s : NvicRegisters) (t : ℕ)
    → let r = request q irqn (fresh s t) in
      (is_device_irq irqn ≡ false) × (r ≡ (err_invalid_param, fresh s t))
      ⊎ ((n : ℕ) × (irqn ≡ pos n)
          × (is_device_irq irqn ≡ true)
          × (r.0 ≡ ok)
          × (r.1.log ≡ r.1.regs ∷ [])
          × (r.1.regs ≡ with_array q (array q r.1.regs) s)
          × ((m / 32 ≡ n / 32) × (bit_of m (array q r.1.regs) ≡ (if m == n then 1 else 0))
              ⊎ (m / 32 ≢ n / 32) × (array q r.1.regs (m / 32) ≡ array q s (m / 32))))
request_outcome q (negsuc k) m s t = inl (
  refl,
  request_refused q (negsuc k) s t (not_ok (negsuc k) (nvic_validate_irq_exact (negsuc k))),
)
request_outcome q (pos n) m s t = elim (Bool-cases (is_device_irq (pos n))) [
  | inl device ↦
      let valid = ok_only _ (nvic_validate_irq_exact (pos n) ∙ device) in
      let (done, once, alone, array_is) = request_runs q n s t valid in
      inr (
        n,
        refl,
        device,
        done,
        once,
        alone,
        rw array_is (written (array q s) n m (device_small n device)),
      )
  | inr refused ↦
      let out = not_ok (pos n) (nvic_validate_irq_exact (pos n) ∙ refused) in
      inl (refused, request_refused q (pos n) s t out)
]
