-- ===== src/Bits/Field.antt =====
-- The read-modify-writes of the drivers: `(r & ~mask) | v`, `r | b` and `r & ~b`, each read
-- back under a mask.
use stm32_rtos.Base.{ℕ, ◌⊎◌, inl, inr, bit_and, bit_or, ◌≡◌, sym, ap, ◌∙◌}
use stm32_rtos.Bits.Ops.{IsWord, inv32}
use stm32_rtos.Bits.Laws.{
  bit_and_assoc, bit_and_comm, or-and_distrib, bit_or-zero, zero-bit_or, zero-bit_and,
  and-inv32_self, and-inv32_disjoint,
}

-- What lies within `mask` shares no bit with what lies apart from `mask`.
pub within_apart : (v mask n : ℕ) → bit_and v mask ≡ v → bit_and mask n ≡ 0 → bit_and v n ≡ 0
within_apart v mask n within apart =
    ap (λ (t : ℕ). bit_and t n) (sym within)
    ∙ bit_and_assoc v mask n
    ∙ ap (bit_and v) apart
    ∙ bit_and_comm v 0
    ∙ zero-bit_and v

-- What a mask shows, a part of the mask shows.
pub part_read :
    (r mask v part : ℕ)
    → bit_and r mask ≡ v
    → bit_and mask part ≡ part
    → bit_and r part ≡ bit_and v part
part_read r mask v part whole inside =
    ap (bit_and r) (sym inside)
    ∙ (sym (bit_and_assoc r mask part) ∙ ap (λ (t : ℕ). bit_and t part) whole)

-- Bits that lie in a mask lie in a larger one.
pub within_within :
    (v part mask : ℕ) → bit_and v part ≡ v → bit_and part mask ≡ part → bit_and v mask ≡ v
within_within v part mask within inside =
    ap (λ (t : ℕ). bit_and t mask) (sym within)
    ∙ (bit_and_assoc v part mask ∙ (ap (bit_and v) inside ∙ within))

-- A field that was written reads back.
pub field_read :
    (r mask v : ℕ)
    → IsWord mask
    → bit_and v mask ≡ v
    → bit_and (bit_or (bit_and r (inv32 mask)) v) mask ≡ v
field_read r mask v word within =
    or-and_distrib (bit_and r (inv32 mask)) v mask
    ∙ ap (λ (t : ℕ). bit_or t (bit_and v mask)) (and-inv32_self r mask word)
    ∙ zero-bit_or (bit_and v mask)
    ∙ within

-- A field elsewhere is kept.
pub field_frame :
    (r mask v n : ℕ)
    → IsWord mask
    → IsWord n
    → bit_and v mask ≡ v
    → bit_and mask n ≡ 0
    → bit_and (bit_or (bit_and r (inv32 mask)) v) n ≡ bit_and r n
field_frame r mask v n word word' within apart =
    or-and_distrib (bit_and r (inv32 mask)) v n
    ∙ ap (bit_or (bit_and (bit_and r (inv32 mask)) n)) (within_apart v mask n within apart)
    ∙ bit_or-zero (bit_and (bit_and r (inv32 mask)) n)
    ∙ and-inv32_disjoint r mask n word word' apart

-- Setting bits elsewhere keeps a field.
pub set_frame : (r b n : ℕ) → bit_and b n ≡ 0 → bit_and (bit_or r b) n ≡ bit_and r n
set_frame r b n apart =
    or-and_distrib r b n ∙ ap (bit_or (bit_and r n)) apart ∙ bit_or-zero (bit_and r n)

-- Clearing a mask clears what lies within it.
pub clear_within :
    (r mask n : ℕ) → IsWord mask → bit_and mask n ≡ n → bit_and (bit_and r (inv32 mask)) n ≡ 0
clear_within r mask n word within =
    ap (bit_and (bit_and r (inv32 mask))) (sym within)
    ∙ sym (bit_and_assoc (bit_and r (inv32 mask)) mask n)
    ∙ ap (λ (t : ℕ). bit_and t n) (and-inv32_self r mask word)
    ∙ zero-bit_and n

-- A value that is 0 or the whole of a mask.
pub flag_apart : (v bits n : ℕ) → (v ≡ 0) ⊎ (v ≡ bits) → bit_and bits n ≡ 0 → bit_and v n ≡ 0
flag_apart v bits n (inl e) apart = rw e (zero-bit_and n)
flag_apart v bits n (inr e) apart = rw e apart

pub flag_in : (v bits : ℕ) → (v ≡ 0) ⊎ (v ≡ bits) → bit_and bits bits ≡ bits → bit_and v bits ≡ v
flag_in v bits (inl e) self = rw e (zero-bit_and bits)
flag_in v bits (inr e) self = rw e self
