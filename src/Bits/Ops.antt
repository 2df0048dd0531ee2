-- ===== src/Bits/Ops.antt =====
-- `~`, `<<` and `>>` of C on `uint32_t`, and one bit of a word.
use stm32_rtos.Base.{ℕ, ◌-◌, ◌*◌, ◌/◌, ◌%◌, ◌^◌, ◌<◌}

-- The values of `uint32_t`.
abbrev pub IsWord : ℕ → Type 0
IsWord a = a < 2 ^ 32

-- `~a` on `uint32_t`.
abbrev pub inv32 : ℕ → ℕ
inv32 a = 2 ^ 32 - 1 - a

-- `a << k` on `uint32_t`: what leaves the word is lost.
abbrev pub shl32 : ℕ → ℕ → ℕ
shl32 a k = a * 2 ^ k % 2 ^ 32

-- `a >> k`.
abbrev pub shr32 : ℕ → ℕ → ℕ
shr32 a k = a / 2 ^ k
