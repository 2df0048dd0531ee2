-- ===== src/Gpio/Places.antt =====
-- Where the fields of the pins lie in the registers of a port.
use stm32_rtos.Base.{
  ℕ, ◌+◌, ◌*◌, ◌%◌, ◌/◌, ◌≤◌, ltb, ◌==◌, ==→eq, Bool-cases, true, false, ◌≡◌, ◌≢◌, refl, ◌∙◌, ◌⊎◌,
  inl, inr, arith, all_below, at_of_below,
}
use stm32_rtos.Gpio.{afr_shift}
use stm32_rtos.Gpio.Port.{PinConfig}

-- Where the alternate functions lie.
places_checked : all_below (λ p. afr_shift p == p % 8 * 4) 16 ≡ true
unfolding all_below
places_checked = refl

pub afr_place : (p : ℕ) → p ≤ 15 → afr_shift p ≡ p % 8 * 4
afr_place p h =
    ==→eq _ _ (at_of_below (λ p. afr_shift p == p % 8 * 4) 16 p places_checked (omega arith))

pub pairs_apart : (p q : ℕ) → q ≢ p → (p * 2 + 2 ≤ q * 2) ⊎ (q * 2 + 2 ≤ p * 2)
pairs_apart p q ne = grind arith

pub singles_apart : (p q : ℕ) → q ≢ p → (p + 1 ≤ q) ⊎ (q + 1 ≤ p)
singles_apart p q ne = grind arith

same_half : (p q : ℕ) → p ≤ 15 → q ≤ 15 → ltb q 8 ≡ ltb p 8 → p / 8 ≡ q / 8
same_half p q hp hq same = elim (Bool-cases (ltb p 8)) [
  | inl low ↦ let low' : ltb q 8 ≡ true = same ∙ low in ground arith
  | inr high ↦ let high' : ltb q 8 ≡ false = same ∙ high in ground arith
]

-- Two pins of one AFR register.
pub quads_apart :
    (p q : ℕ)
    → p ≤ 15
    → q ≤ 15
    → q ≢ p
    → ltb q 8 ≡ ltb p 8
    → (afr_shift p + 4 ≤ afr_shift q) ⊎ (afr_shift q + 4 ≤ afr_shift p)
quads_apart p q hp hq ne same =
    let e = same_half p q hp hq same in
    let apart : (p % 8 * 4 + 4 ≤ q % 8 * 4) ⊎ (q % 8 * 4 + 4 ≤ p % 8 * 4) = grind arith in
    rw (afr_place p hp, afr_place q hq) apart

pub afr_fits : (p : ℕ) → p ≤ 15 → afr_shift p + 4 ≤ 32
afr_fits p h = rw (afr_place p h) (omega arith)

pub config_eq :
    (c d : PinConfig)
    → c.mode ≡ d.mode
    → c.otype ≡ d.otype
    → c.ospeed ≡ d.ospeed
    → c.pupd ≡ d.pupd
    → c.alternate ≡ d.alternate
    → c ≡ d
config_eq c d a1 a2 a3 a4 a5 =
    λ i. record { mode = a1 i; otype = a2 i; ospeed = a3 i; pupd = a4 i; alternate = a5 i }
