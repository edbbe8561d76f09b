-- ===== src/Core/Backoff/Bounds.antt =====
-- The delay stays within the ceiling and its jitter.
use go_outbox.Base.{ℕ, ◌+◌, ◌-◌, ◌*◌, ◌/◌, ◌≤◌, ◌<◌, ◌≡◌, arith, ltb, if◌then◌else◌, ◌&&◌}
use native.Mathlib.Nat.{le-div_iff_mul-le, div-mul-le_self, mul-le-mul, mul-le-mul_left, mul_assoc}
use go_outbox.Base.Int.{ℤ, pos, ltb_ℤ, i64_half}
use go_outbox.Core.Backoff.{BackoffPolicy, ppm, draws, to_float, nominal, spread, to_duration, next}

-- A number of nanoseconds below 2^53, which is 104 days, is a float64.
to_float-exact : (m : ℕ) → m < draws → to_float m ≡ m
unfolding to_float
to_float-exact m h = ground arith

capped-le : (m delay : ℕ) → 0 < m → (if ltb_ℤ (pos 0) (pos m) && ltb m delay then m else delay) ≤ m
capped-le m delay h = ground arith

nominal-le :
    (p : BackoffPolicy) (attempts : ℤ) (m : ℕ)
    → p.max ≡ pos m
    → 0 < m
    → m < draws
    → nominal p attempts ≤ m
unfolding nominal
nominal-le p attempts m e h small =
    let exact : to_float m ≡ m = to_float-exact m small in rw (e, exact) (capped-le m _ h)

-- The jitter's factor, in parts of ppm * draws.
factor-le :
    (jitter draw : ℕ)
    → draw < draws
    → ppm * draws + 2 * (jitter * draw) - jitter * draws ≤ (ppm + jitter) * draws
factor-le jitter draw d =
    let scaled : jitter * draw ≤ jitter * draws = mul-le-mul_left jitter (omega arith) in
    omega (arith, scaled)

spread-le :
    (jitter draw delay m : ℕ)
    → draw < draws
    → delay ≤ m
    → spread jitter draw delay ≤ m * (ppm + jitter) / ppm
unfolding spread
spread-le jitter draw delay m d h =
    let factor = ppm * draws + 2 * (jitter * draw) - jitter * draws in
    let q = delay * factor / (ppm * draws) in
    let low : q * (ppm * draws) ≤ delay * factor = div-mul-le_self (delay * factor) (ppm * draws) in
    let high : delay * factor ≤ m * ((ppm + jitter) * draws) =
      mul-le-mul h (factor-le jitter draw d) in
    let regroup : m * (ppm + jitter) * draws ≡ m * ((ppm + jitter) * draws) =
      mul_assoc m (ppm + jitter) draws in
    (le-div_iff_mul-le {k = ppm} {x = q} {y = m * (ppm + jitter)} (omega arith)).1
      (omega (arith, low, high, regroup))

le-spread : (jitter m : ℕ) → m ≤ m * (ppm + jitter) / ppm
le-spread jitter m =
    (le-div_iff_mul-le {k = ppm} {x = m} {y = m * (ppm + jitter)} (omega arith)).1
      (mul-le-mul_left m (omega arith))

-- With a positive ceiling below 2^53 nanoseconds, which is 104 days and a float64 exactly, and that
-- leaves room for its jitter in an int64, the delay before the next attempt is a number of
-- nanoseconds, whatever the attempt and the random draw, and exceeds the ceiling by at most the
-- jitter's fraction of it, the product with the jitter's factor being taken exactly.
pub next-bounded :
    (out_of_range : ℕ → ℤ) (p : BackoffPolicy) (attempts : ℤ) (draw m : ℕ)
    → p.max ≡ pos m
    → 0 < m
    → m < draws
    → m * (ppm + p.jitter) / ppm < i64_half
    → draw < draws
    → (n : ℕ) × (next out_of_range p attempts draw ≡ pos n) × (n ≤ m * (ppm + p.jitter) / ppm)
unfolding next to_duration
next-bounded out_of_range p attempts draw m e h small room d =
    let within : nominal p attempts ≤ m = nominal-le p attempts m e h small in
    let delay =
      if ltb 0 p.jitter then spread p.jitter draw (nominal p attempts) else nominal p attempts in
    let bound : delay ≤ m * (ppm + p.jitter) / ppm = ground (
      arith,
      spread-le p.jitter draw (nominal p attempts) m d within,
      le-spread p.jitter m,
      within,
    ) in
    (delay, ground (arith, bound), bound)
