-- ===== src/Core/Backoff.antt =====
-- internal/core/backoff.go: the delay before the next attempt.
--
-- Durations are int64 nanoseconds. Their conversion to float64 rounds to 53 binary digits, and the
-- doubling is exact. The jitter is in parts per million, `rand.Float64()` is a number of 2^53rds, and
-- the product with the jitter's factor is taken exactly, and rounded down at the conversion back to a
-- duration. What that conversion gives for a value past int64 is left to Go's implementation, so it
-- is a parameter.
pub mod Bounds
use go_outbox.Base.{
  ℕ, zero, suc, ◌+◌, ◌-◌, ◌*◌, ◌/◌, ◌^◌, ◌%◌, ◌&&◌, ◌||◌, ◌==◌, ltb, if◌then◌else◌, min,
}
use go_outbox.Base.Int.{ℤ, pos, negsuc, leb_ℤ, ltb_ℤ, pos_part, i64_half}

pub record BackoffPolicy : Type 0 where
  pub base : ℤ
  pub max : ℤ
  -- parts per million
  pub jitter : ℕ

abbrev pub second : ℕ
second = 1000000000

abbrev pub ppm : ℕ
ppm = 1000000

-- `rand.Float64()` is one of the 2^53 multiples of 2^-53 below 1.
abbrev pub draws : ℕ
draws = 0x20000000000000

-- The unit in the last of 53 binary digits, for a number below 2^63.
abbrev unit_from : ℕ → ℕ → ℕ
unit_from zero n = 1
unit_from (suc k) n = if ltb n (2 ^ (53 + k)) then unit_from k n else 2 ^ suc k

-- `float64(n)`: to the nearest multiple of the unit, and to the even one of two.
abbrev rounded : ℕ → ℕ → ℕ
rounded unit n =
    let low = n / unit in
    if ltb (2 * (n % unit)) unit || (2 * (n % unit) == unit && low % 2 == 0)
    then low * unit
    else suc low * unit

unfoldable pub to_float : ℕ → ℕ
to_float n = if ltb n draws then n else rounded (unit_from 10 n) n

-- The exponent, between 0 and 62.
unfoldable pub exponent : ℤ → ℕ
exponent (pos zero) = 0
exponent (pos (suc n)) = min n 62
exponent (negsuc n) = 0

-- The delay before jitter: doubled for each attempt after the first, and capped.
unfoldable pub nominal : BackoffPolicy → ℤ → ℕ
unfolding exponent to_float
nominal p attempts =
    let base = if leb_ℤ p.base (pos 0) then second else pos_part p.base in
    let delay = to_float base * 2 ^ exponent attempts in
    let ceiling = to_float (pos_part p.max) in
    if ltb_ℤ (pos 0) p.max && ltb ceiling delay then ceiling else delay

-- `delay *= 1 + p.Jitter*(2*rand.Float64()-1)`; a negative product is returned as 0.
unfoldable pub spread : ℕ → ℕ → ℕ → ℕ
spread jitter draw delay =
    delay * (ppm * draws + 2 * (jitter * draw) - jitter * draws) / (ppm * draws)

module _ (out_of_range : ℕ → ℤ) where
  -- `time.Duration(delay)`.
  unfoldable pub to_duration : ℕ → ℤ
  to_duration n = if ltb n i64_half then pos n else out_of_range n

  unfoldable pub next : BackoffPolicy → ℤ → ℕ → ℤ
  unfolding nominal spread to_duration
  next p attempts draw =
      let delay = nominal p attempts in
      to_duration (if ltb 0 p.jitter then spread p.jitter draw delay else delay)
