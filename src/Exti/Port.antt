-- ===== src/Exti/Port.antt =====
-- `extiSelectPort`: the field of the line, the fields of other lines, and what it refuses.
use stm32_rtos.Base.{
  all_below, at_of_below, split_and, ◌&&◌, Bool, ap₂, ℕ, ◌+◌, ◌*◌, ◌/◌, ◌%◌, ◌≤◌, ltb, ◌==◌, true,
  false, bit_and, ◌≡◌, ◌≢◌, refl, ◌⊎◌, inl, inr, arith, eq→==, ==→eq, Bool-cases,
}
use stm32_rtos.Bits.{shl32, mask_read, mask_frame}
use stm32_rtos.Status.{DriverStatus, ok, ok_only, is_ok}
use stm32_rtos.Bus.{fresh}
use stm32_rtos.Exti.{SyscfgRegisters, exti_port_selector, exti_select_port}

-- The field of a line in EXTICR.
abbrev pub line_field : SyscfgRegisters → ℕ → ℕ
line_field s line = bit_and (s.exticr (line / 4)) (shl32 15 (line % 4 * 4))

places :
    (line other : ℕ)
    → other ≢ line
    → other / 4 ≡ line / 4
    → (line % 4 * 4 + 4 ≤ other % 4 * 4) ⊎ (other % 4 * 4 + 4 ≤ line % 4 * 4)
places line other ne e = grind arith

-- The base address of the port with this number, 0 for A to 7 for H.
abbrev pub port_base : ℕ → ℕ
port_base k = 0x40020000 + 0x400 * k

selector_test : ℕ → Bool
selector_test k =
    is_ok (exti_port_selector (port_base k) 0).0 && (exti_port_selector (port_base k) 0).1 == k

selectors_8 : all_below selector_test 8 ≡ true
unfolding all_below selector_test exti_port_selector
selectors_8 = refl

selector_at : (k : ℕ) → k ≤ 7 → exti_port_selector (port_base k) 0 ≡ (ok, k)
unfolding selector_test
selector_at k small =
    let both = split_and _ _ (at_of_below selector_test 8 k selectors_8 (omega arith)) in
    ap₂ (λ (st : DriverStatus) (n : ℕ). (st, n)) (ok_only _ both.0) (==→eq _ _ both.1)

-- For lines 0 to 15 and the base address of port A to G, or of H with line 0 or 1, `extiSelectPort`
-- returns OK, the field of the line holds the number of the port, 0 for A to 7 for H, and the
-- field of any other line is as it was.
pub exti_select_port_fields :
    (line k other : ℕ) (s : SyscfgRegisters) (t : ℕ)
    → line ≤ 15
    → other ≤ 15
    → other ≢ line
    → k ≤ 7
    → (k ≤ 6) ⊎ (line ≤ 1)
    → let r = exti_select_port line (port_base k) (fresh s t) in
      (r.0 ≡ ok)
      × (line_field r.1.regs line ≡ shl32 k (line % 4 * 4))
      × (line_field r.1.regs other ≡ line_field s other)
unfolding exti_select_port
exti_select_port_fields line k other s t fits low ne small routed =
    let in_range : ltb 15 line ≡ false = ground arith in
    let routable : ((k == 7) && ltb 1 line) ≡ false = ground arith in
    let here : (line / 4 == line / 4) ≡ true = eq→== _ _ refl in
    rw (in_range, selector_at k small, routable, here)
      (
        refl,
        mask_read 4 (line % 4 * 4) k (s.exticr (line / 4)) (omega arith) (omega arith),
        elim (Bool-cases (other / 4 == line / 4)) [
          | inl same ↦
              let e : other / 4 ≡ line / 4 = ==→eq _ _ same in
              let apart : (line % 4 * 4 + 4 ≤ other % 4 * 4) ⊎ (other % 4 * 4 + 4 ≤ line % 4 * 4) =
                places line other ne e in
              rw (same, e)
                (mask_frame 4 (line % 4 * 4) k (s.exticr (line / 4)) (other % 4 * 4) (omega arith)
                  (omega arith) (omega arith) apart)
          | inr differs ↦ rw differs refl
        ],
      )
