-- ===== src/Uart/Baud.antt =====
-- `uartComputeBrr` against rounding to the nearest.
use stm32_rtos.Base.{div_bounds, inl, inr, ap, ℕ, ◌+◌, ◌*◌, ◌/◌, ◌≤◌, ◌<◌, ◌≡◌, ◌≢◌, ◌⊎◌, arith}
use stm32_rtos.Status.{ok-cases, ok, err_invalid_param}
use stm32_rtos.Uart.{uart_compute_brr}

quotient_below : (a d k : ℕ) → d ≢ 0 → a / d < k → a < k * d
quotient_below a d k h lt = grind (arith, div_bounds a d h)

quotient_from : (a d k : ℕ) → d ≢ 0 → k ≤ a / d → k * d ≤ a
quotient_from a d k h le = grind (arith, div_bounds a d h)

-- On OK the value is from 16 to 65535, and its product with the baud rate misses the clock by at
-- most half the baud rate.
pub uart_compute_brr_nearest :
    (pclk_hz baud brr q : ℕ)
    → uart_compute_brr pclk_hz baud brr ≡ (ok, q)
    → (16 ≤ q)
      × (q ≤ 65535)
      × (2 * (q * baud) ≤ 2 * pclk_hz + baud)
      × (2 * pclk_hz ≤ 2 * (q * baud) + baud)
unfolding uart_compute_brr
uart_compute_brr_nearest pclk_hz baud brr q h = ground (arith, div_bounds (pclk_hz + baud / 2) baud)

-- Any other result is INVALID_PARAM with the value untouched, and only where an input is 0 or the
-- rounded quotient is below 16 or above 65535.
pub uart_compute_brr_refused :
    (pclk_hz baud brr : ℕ)
    → (uart_compute_brr pclk_hz baud brr).0 ≢ ok
    → (uart_compute_brr pclk_hz baud brr ≡ (err_invalid_param, brr))
      × ((pclk_hz ≡ 0)
          ⊎ (baud ≡ 0)
          ⊎ (pclk_hz + baud / 2 < 16 * baud)
          ⊎ (65536 * baud ≤ pclk_hz + baud / 2))
unfolding uart_compute_brr
uart_compute_brr_refused pclk_hz baud brr h = ground (
  arith,
  quotient_below (pclk_hz + baud / 2) baud 16,
  quotient_from (pclk_hz + baud / 2) baud 65536,
)

-- `uartComputeBrr` returns OK with a value from 16 to 65535 whose product with the baud rate misses
-- the clock by at most half the baud rate; or it returns INVALID_PARAM with the value untouched,
-- and then an input is 0 or the rounded quotient is below 16 or above 65535.
pub uart_compute_brr_outcome :
    (pclk_hz baud brr : ℕ)
    → let r = uart_compute_brr pclk_hz baud brr in
      ((r.0 ≡ ok)
        × (16 ≤ r.1)
        × (r.1 ≤ 65535)
        × (2 * (r.1 * baud) ≤ 2 * pclk_hz + baud)
        × (2 * pclk_hz ≤ 2 * (r.1 * baud) + baud))
      ⊎ (r ≡ (err_invalid_param, brr))
        × ((pclk_hz ≡ 0)
            ⊎ (baud ≡ 0)
            ⊎ (pclk_hz + baud / 2 < 16 * baud)
            ⊎ (65536 * baud ≤ pclk_hz + baud / 2))
uart_compute_brr_outcome pclk_hz baud brr =
    let r = uart_compute_brr pclk_hz baud brr in
    elim (ok-cases r.0) [
      | inl done ↦
          let (above, below, near, far) =
            uart_compute_brr_nearest pclk_hz baud brr r.1 (ap (λ st. (st, r.1)) done) in
          inl (done, above, below, near, far)
      | inr refused ↦ inr (uart_compute_brr_refused pclk_hz baud brr refused)
    ]
