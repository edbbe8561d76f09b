-- ===== src/Dispatch/Chunks.antt =====
-- internal/dispatch/publish.go: `chunk`, which divides a batch among the workers.
use go_outbox.Base.{
  ℕ, zero, suc, ◌+◌, ◌-◌, ◌*◌, ◌/◌, ◌%◌, ◌≤◌, ◌<◌, ◌≡◌, refl, subst, List, [], ◌∷◌, arith,
  if◌then◌else◌, ltb, All, length,
}
use native.Mathlib.Nat.{div-add-mod, mod-lt, le-div_iff_mul-le}
use go_outbox.Base.Int.{ℤ, pos, ltb_ℤ, pos_part}

-- A half-open range of the batch.
pub record Span : Type 0 where
  pub start : ℕ
  pub end : ℕ

-- The loop over the workers that are left, the `i`th next.
unfoldable pub spans : ℕ → ℕ → ℕ → ℕ → ℕ → List Span
spans zero i start size remainder = []
spans (suc k) i start size remainder =
    let end = start + size + (if ltb i remainder then 1 else 0) in
    record { start = start; end = end } ∷ spans k (suc i) end size remainder

-- The number of workers that get a chunk.
unfoldable pub crew : ℕ → ℤ → ℕ
crew n workers =
    let w = if ltb_ℤ workers (pos 1) then 1 else pos_part workers in if ltb n w then n else w

unfoldable pub chunk : ℕ → ℤ → List Span
chunk zero workers = []
chunk (suc m) workers = let w = crew (suc m) workers in spans w 0 0 (suc m / w) (suc m % w)

-- The spans follow one another without a gap from `a` to `b`.
abbrev pub Cover : ℕ → ℕ → List Span → Type 0
Cover a b [] = a ≡ b
Cover a b (s ∷ ss) = (s.start ≡ a) × (s.start < s.end) × Cover s.end b ss

abbrev pub Even : ℕ → List Span → Type 0
Even size ss = All (λ s. (size ≤ s.end - s.start) × (s.end - s.start ≤ size + 1)) ss

crew-range : (m : ℕ) (workers : ℤ) → (0 < crew (suc m) workers) × (crew (suc m) workers ≤ suc m)
unfolding crew
crew-range m workers = ground arith

length-spans : (k i start size remainder : ℕ) → length (spans k i start size remainder) ≡ k
unfolding spans
length-spans zero i start size remainder = refl
length-spans (suc k) i start size remainder = omega (
  arith,
  length-spans k (suc i) (start + size + (if ltb i remainder then 1 else 0)) size remainder,
)

spans-Even : (k i start size remainder : ℕ) → Even size (spans k i start size remainder)
unfolding spans
spans-Even zero i start size remainder = tt
spans-Even (suc k) i start size remainder =
    let rest =
      spans-Even k (suc i) (start + size + (if ltb i remainder then 1 else 0)) size remainder in
    (ground arith, rest)

spans-Cover :
    (k i start size remainder : ℕ)
    → 0 < size
    → remainder ≤ i + k
    → Cover start (start + k * size + (remainder - i)) (spans k i start size remainder)
unfolding spans
spans-Cover zero i start size remainder p h = omega arith
spans-Cover (suc k) i start size remainder p h =
    let end : ℕ = start + size + (if ltb i remainder then 1 else 0) in
    (
      refl,
      ground arith,
      subst (λ b. Cover end b (spans k (suc i) end size remainder)) (ground arith)
          (spans-Cover k (suc i) end size remainder p (omega arith)),
    )

none_left : (workers : ℤ) → crew 0 workers ≡ 0
unfolding crew
none_left workers = ground arith

-- A batch of `n` messages is divided into spans that cover it in order, with no gap, no overlap and
-- none empty; their number is the number of workers, at least one and at most `n`, and their sizes
-- are within one of each other.
pub chunk-Cover :
    (n : ℕ) (workers : ℤ)
    → Cover 0 n (chunk n workers)
      × Even (n / crew n workers) (chunk n workers)
      × (length (chunk n workers) ≡ crew n workers)
unfolding chunk
chunk-Cover zero workers = (refl, tt, ground (arith, none_left workers))
chunk-Cover (suc m) workers =
    let w : ℕ = crew (suc m) workers in
    let (some_one, enough) = crew-range m workers in
    (
      subst (λ b. Cover 0 b (spans w 0 0 (suc m / w) (suc m % w)))
          (omega (arith, div-add-mod (suc m) w))
          (spans-Cover w 0 0 (suc m / w) (suc m % w)
            ((le-div_iff_mul-le {x = 1} some_one).1 (omega arith))
            (omega (arith, mod-lt (suc m) {m = w}))),
      spans-Even w 0 0 (suc m / w) (suc m % w),
      length-spans w 0 0 (suc m / w) (suc m % w),
    )
