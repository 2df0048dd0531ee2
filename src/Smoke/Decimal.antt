-- ===== src/Smoke/Decimal.antt =====
-- The text of `printDec`, read back.
use stm32_rtos.Base.{
  ℕ, zero, suc, ◌+◌, ◌-◌, ◌*◌, ◌/◌, ◌%◌, ◌^◌, ◌≤◌, ◌<◌, ◌!=◌, false, ◌≡◌, ◌≢◌, refl, ap, ◌∙◌, inl,
  inr, List, [], ◌∷◌, ◌++◌, All, length, some, arith, Bool-cases,
}
use native.Mathlib.Nat.{pow-suc}
use stm32_rtos.Smoke.{dec_loop, dec_text}

-- The number that decimal digits stand for, after `seen`.
unfoldable pub dec_value : List ℕ → ℕ → ℕ
dec_value [] seen = seen
dec_value (c ∷ text) seen = dec_value text (seen * 10 + (c - 48))

dec_value-snoc :
    (ds : List ℕ) (c seen : ℕ) → dec_value (ds ++ (c ∷ [])) seen ≡ dec_value ds seen * 10 + (c - 48)
unfolding dec_value
dec_value-snoc [] c seen = refl
dec_value-snoc (d ∷ ds) c seen = dec_value-snoc ds c (seen * 10 + (d - 48))

abbrev pub IsDigit : ℕ → Type 0
IsDigit c = (48 ≤ c) × (c ≤ 57)

snoc-All : (ds : List ℕ) (c : ℕ) → All IsDigit ds → IsDigit c → All IsDigit (ds ++ (c ∷ []))
snoc-All [] c h d = (d, tt)
snoc-All (x ∷ ds) c h d = (h.0, snoc-All ds c h.1 d)

snoc-append : (ds text : List ℕ) (c : ℕ) → ds ++ (c ∷ text) ≡ (ds ++ (c ∷ [])) ++ text
snoc-append [] text c = refl
snoc-append (d ∷ ds) text c = ap (λ (r : List ℕ). d ∷ r) (snoc-append ds text c)

length-snoc : (ds : List ℕ) (c : ℕ) → length (ds ++ (c ∷ [])) ≡ suc (length ds)
length-snoc [] c = refl
length-snoc (d ∷ ds) c = ap suc (length-snoc ds c)

-- Decimal digits of a number: without a 0 in front, except for 0 itself.
pub data Leads : ℕ → List ℕ → Type 0 where
  nought : Leads 0 (48 ∷ [])
  digits : {n : ℕ} (c : ℕ) (ds : List ℕ) → 49 ≤ c → Leads n (c ∷ ds)

pub record IsDecimal (n : ℕ) (ds : List ℕ) : Type 0 where
  pub value : dec_value ds 0 ≡ n
  pub all_digits : All IsDigit ds
  pub leading : Leads n ds

Leads-snoc : (n m : ℕ) (ds : List ℕ) (c : ℕ) → n ≢ 0 → Leads n ds → Leads m (ds ++ (c ∷ []))
Leads-snoc n m ds c ne (digits d rest high) = digits d (rest ++ (c ∷ [])) high
Leads-snoc n m ds c ne nought = absurd (ne refl)

one_digit : (n : ℕ) → n < 10 → IsDecimal n ((48 + n) ∷ [])
unfolding dec_value
one_digit zero h = record {
  value = refl;
  all_digits = ((omega arith, omega arith), tt);
  leading = nought;
}
one_digit (suc n) h = record {
  value = omega arith;
  all_digits = ((omega arith, omega arith), tt);
  leading = digits _ [] (omega arith);
}

-- One more digit behind.
longer :
    (rest : ℕ) (ds : List ℕ)
    → rest / 10 ≢ 0
    → IsDecimal (rest / 10) ds
    → IsDecimal rest (ds ++ ((48 + rest % 10) ∷ []))
longer rest ds ne d = record {
  value = omega (arith, dec_value-snoc ds (48 + rest % 10) 0, d.value);
  all_digits = snoc-All ds (48 + rest % 10) d.all_digits (omega arith, omega arith);
  leading = Leads-snoc (rest / 10) rest ds (48 + rest % 10) ne d.leading;
}

module _ (text : List ℕ) (rest : ℕ) where
  -- The last turn.
  last_digit :
      (i : ℕ)
      → rest / 10 ≡ 0
      → (ds : List ℕ) × (dec_loop (suc i) rest text ≡ some (ds ++ text))
        × IsDecimal rest ds
        × (length ds ≤ suc i)
  unfolding dec_loop
  last_digit i last =
      let done : (rest / 10 != 0) ≡ false = ground arith in
      let digit : rest % 10 ≡ rest = omega arith in
      rw (done, digit) ((48 + rest) ∷ [], refl, one_digit rest (omega arith), omega arith)

loop_digits :
    (i rest : ℕ) (text : List ℕ)
    → rest < 10 ^ suc i
    → (ds : List ℕ) × (dec_loop (suc i) rest text ≡ some (ds ++ text))
      × IsDecimal rest ds
      × (length ds ≤ suc i)
unfolding dec_loop
loop_digits zero rest text small = last_digit text rest zero (omega (arith, pow-suc 10 0))
loop_digits (suc i) rest text small = elim (Bool-cases (rest / 10 != 0)) [
  | inr last ↦ last_digit text rest (suc i) (ground arith)
  | inl more ↦
      let c = 48 + rest % 10 in
      let (ds, same, decimal, short) =
        loop_digits i (rest / 10) (c ∷ text) (omega (arith, pow-suc 10 (suc i))) in
      rw more (
        ds ++ (c ∷ []),
        same ∙ ap some (snoc-append ds text c),
        longer rest ds (ground arith) decimal,
        omega (arith, length-snoc ds c),
      )
]

-- For a 32-bit value the loop of `printDec` stays inside its array: it writes at most 10 digits,
-- which are the decimal digits of the value without a 0 in front, before the final 0.
pub dec_text-IsDecimal :
    (value : ℕ)
    → value < 2 ^ 32
    → (ds : List ℕ) × (dec_text value ≡ some (ds ++ (0 ∷ [])))
      × IsDecimal value ds
      × (length ds ≤ 10)
unfolding dec_text
dec_text-IsDecimal value h = loop_digits 9 value (0 ∷ []) (omega arith)
