-- ===== src/Clocks/Facts.antt =====
-- Facts of the form "the bits of a register under a mask have this value", and what keeps
-- them: a store that changes other bits, and hardware that changes only ready flags.
use stm32_rtos.Base.{
  ℕ, split_and, ◌^◌, bit_and, bit_or, ltb, ◌==◌, ◌&&◌, Bool, true, false, ◌≡◌, refl, sym, ap, ◌∙◌,
  List, [], ◌∷◌, All, if◌then◌else◌, arith, ◌⊎◌, inl, inr, ◌||◌, Bool-cases,
}
use stm32_rtos.Bits.{
  IsWord, inv32, bit_and_assoc, field_frame, set_frame, and-inv32_disjoint, or-and_self,
}
use stm32_rtos.Bus.{Hw}
use stm32_rtos.Clocks.{Clocks, on_cr, on_pllcfgr, on_cfgr, on_apb1enr, on_pwr_cr, on_acr}
use stm32_rtos.Reg.Rcc.{rcc_cr_hsirdy, rcc_cr_hserdy, rcc_cr_pllrdy, rcc_cfgr_sws_msk}

-- The registers that hold the clock configuration.
pub data ClockReg : Type 0 where
  cr pllcfgr cfgr apb1enr pwr_cr acr : ClockReg

abbrev pub read_reg : ClockReg → Clocks → ℕ
read_reg cr s = s.rcc.cr
read_reg pllcfgr s = s.rcc.pllcfgr
read_reg cfgr s = s.rcc.cfgr
read_reg apb1enr s = s.rcc.apb1enr
read_reg pwr_cr s = s.pwr.cr
read_reg acr s = s.flash.acr

abbrev pub update_reg : ClockReg → (ℕ → ℕ) → Clocks → Clocks
update_reg cr = on_cr
update_reg pllcfgr = on_pllcfgr
update_reg cfgr = on_cfgr
update_reg apb1enr = on_apb1enr
update_reg pwr_cr = on_pwr_cr
update_reg acr = on_acr

-- The bits that only software changes: all but the ready flags of CR and CFGR.SWS.
abbrev pub soft : ClockReg → ℕ
soft cr = inv32 (bit_or (bit_or rcc_cr_hsirdy rcc_cr_hserdy) rcc_cr_pllrdy)
soft cfgr = inv32 rcc_cfgr_sws_msk
soft _ = 0xffffffff

-- The hardware leaves the configuration as software wrote it (RM0390: the other bits are `rw`,
-- and no clock fails).
abbrev pub Steady : Hw Clocks → Type 0
Steady hw =
    (n : ℕ) (s : Clocks) (r : ClockReg)
    → bit_and (read_reg r (hw n s)) (soft r) ≡ bit_and (read_reg r s) (soft r)

abbrev pub Fact : Type 0
Fact = ClockReg × ℕ × ℕ

abbrev pub IsFact : Clocks → Fact → Type 0
IsFact s f = bit_and (read_reg f.0 s) f.1 ≡ f.2

abbrev pub Holds : List Fact → Clocks → Type 0
Holds fs s = All (IsFact s) fs

abbrev same_reg : ClockReg → ClockReg → Bool
same_reg cr cr = true
same_reg pllcfgr pllcfgr = true
same_reg cfgr cfgr = true
same_reg apb1enr apb1enr = true
same_reg pwr_cr pwr_cr = true
same_reg acr acr = true
same_reg _ _ = false

-- A fact that the hardware keeps, and that a change under `mask` of register `r` keeps.
abbrev pub is_soft : Fact → Bool
is_soft f = bit_and (soft f.0) f.1 == f.1

abbrev pub is_apart : ClockReg → ℕ → Fact → Bool
is_apart r mask f = ltb f.1 (2 ^ 32) && (if same_reg r f.0 then bit_and mask f.1 == 0 else true)

abbrev pub all_facts : (Fact → Bool) → List Fact → Bool
all_facts p [] = true
all_facts p (f ∷ fs) = p f && all_facts p fs

-- A change of a register that touches no bit outside `mask`.
abbrev pub Only : ℕ → (ℕ → ℕ) → Type 0
Only mask g = (x n : ℕ) → IsWord n → bit_and mask n ≡ 0 → bit_and (g x) n ≡ bit_and x n

pub Only-field :
    (mask v : ℕ)
    → IsWord mask
    → bit_and v mask ≡ v
    → Only mask (λ x. bit_or (bit_and x (inv32 mask)) v)
Only-field mask v word within x n word' apart = field_frame x mask v n word word' within apart

pub Only-set : (bits : ℕ) → Only bits (λ x. bit_or x bits)
Only-set bits x n word apart = set_frame x bits n apart

pub Only-clear : (bits : ℕ) → IsWord bits → Only bits (λ x. bit_and x (inv32 bits))
Only-clear bits word x n word' apart = and-inv32_disjoint x bits n word word' apart

==_true : (a b : ℕ) → (a == b) ≡ true → a ≡ b
==_true a b h = ground arith

soft_keeps :
    (hw : Hw Clocks) (steady : Steady hw) (n : ℕ) (s : Clocks) (f : Fact)
    → is_soft f ≡ true
    → IsFact s f
    → IsFact (hw n s) f
soft_keeps hw steady n s f ok h =
    let r = f.0 in
    let part : bit_and (soft r) f.1 ≡ f.1 = ==_true _ _ ok in
    ap (bit_and (read_reg r (hw n s))) (sym part)
    ∙ sym (bit_and_assoc (read_reg r (hw n s)) (soft r) f.1)
    ∙ ap (λ (t : ℕ). bit_and t f.1) (steady n s r)
    ∙ bit_and_assoc (read_reg r s) (soft r) f.1
    ∙ ap (bit_and (read_reg r s)) part
    ∙ h

pub Steady-Holds :
    (hw : Hw Clocks) (steady : Steady hw) (fs : List Fact)
    → all_facts is_soft fs ≡ true
    → (n : ℕ) (s : Clocks) → Holds fs s
    → Holds fs (hw n s)
Steady-Holds hw steady [] ok n s h = tt
Steady-Holds hw steady (f ∷ fs) ok n s h =
    let (first, rest) = split_and (is_soft f) (all_facts is_soft fs) ok in
    (soft_keeps hw steady n s f first h.0, Steady-Holds hw steady fs rest n s h.1)

read-update :
    (r r' : ClockReg) (g : ℕ → ℕ) (s : Clocks)
    → ((same_reg r r' ≡ true) × (read_reg r' (update_reg r g s) ≡ g (read_reg r' s)))
      ⊎ ((same_reg r r' ≡ false) × (read_reg r' (update_reg r g s) ≡ read_reg r' s))
read-update cr cr g s = inl (refl, refl)
read-update pllcfgr pllcfgr g s = inl (refl, refl)
read-update cfgr cfgr g s = inl (refl, refl)
read-update apb1enr apb1enr g s = inl (refl, refl)
read-update pwr_cr pwr_cr g s = inl (refl, refl)
read-update acr acr g s = inl (refl, refl)
read-update _ _ g s = inr (refl, refl)

is_word : (m : ℕ) → ltb m (2 ^ 32) ≡ true → IsWord m
is_word m h = ground arith

apart_keeps :
    (r r' : ClockReg) (mask m v : ℕ) (g : ℕ → ℕ) (s : Clocks)
    → Only mask g
    → is_apart r mask (r', m, v) ≡ true
    → IsFact s (r', m, v)
    → IsFact (update_reg r g s) (r', m, v)
apart_keeps r r' mask m v g s only ok h = elim (read-update r r' g s) [
  | inl (same, now) ↦
      let tests = split_and _ _ ok in
      let clear : bit_and mask m ≡ 0 = ==_true _ _ (rw same at tests.1) in
      rw now (only (read_reg r' s) m (is_word m tests.0) clear ∙ h)
  | inr (other, now) ↦ rw now h
]

pub update_reg-Holds :
    (r : ClockReg) (mask : ℕ) (g : ℕ → ℕ) (fs : List Fact)
    → Only mask g
    → all_facts (is_apart r mask) fs ≡ true
    → (s : Clocks) → Holds fs s
    → Holds fs (update_reg r g s)
update_reg-Holds r mask g [] only ok s h = tt
update_reg-Holds r mask g (f ∷ fs) only ok s h =
    let (first, rest) = split_and (is_apart r mask f) (all_facts (is_apart r mask) fs) ok in
    (
      apart_keeps r f.0 mask f.1 f.2 g s only first h.0,
      update_reg-Holds r mask g fs only rest s h.1,
    )

-- A fact that setting bits keeps: it is apart from them, or says that they are set.
abbrev pub is_set : ClockReg → ℕ → Fact → Bool
is_set r bits f = is_apart r bits f || (f.1 == bits && f.2 == bits)

set_keeps :
    (r r' : ClockReg) (bits m v : ℕ) (s : Clocks)
    → is_set r bits (r', m, v) ≡ true
    → IsFact s (r', m, v)
    → IsFact (update_reg r (λ x. bit_or x bits) s) (r', m, v)
set_keeps r r' bits m v s ok h = elim (Bool-cases (is_apart r bits (r', m, v))) [
  | inl apart ↦ apart_keeps r r' bits m v _ s (Only-set bits) apart h
  | inr over ↦
      let tests = split_and (m == bits) (v == bits) (rw over at ok) in
      let same = ==_true m bits tests.0 in
      let set = ==_true v bits tests.1 in
      elim (read-update r r' (λ x. bit_or x bits) s) [
        | inl (_, now) ↦ rw (now, same, set) (or-and_self (read_reg r' s) bits)
        | inr (_, now) ↦ rw now h
      ]
]

pub set-Holds :
    (r : ClockReg) (bits : ℕ) (fs : List Fact)
    → all_facts (is_set r bits) fs ≡ true
    → (s : Clocks) → Holds fs s
    → Holds fs (update_reg r (λ x. bit_or x bits) s)
set-Holds r bits [] ok s h = tt
set-Holds r bits (f ∷ fs) ok s h =
    let (first, rest) = split_and (is_set r bits f) (all_facts (is_set r bits) fs) ok in
    (set_keeps r f.0 bits f.1 f.2 s first h.0, set-Holds r bits fs rest s h.1)

-- The written register afterwards.
pub read-update_self :
    (r : ClockReg) (g : ℕ → ℕ) (s : Clocks) → read_reg r (update_reg r g s) ≡ g (read_reg r s)
read-update_self cr g s = refl
read-update_self pllcfgr g s = refl
read-update_self cfgr g s = refl
read-update_self apb1enr g s = refl
read-update_self pwr_cr g s = refl
read-update_self acr g s = refl
