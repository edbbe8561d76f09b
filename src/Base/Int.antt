-- ===== src/Base/Int.antt =====
-- Signed integers over the native numbers, and Go's int64, whose arithmetic wraps.
use Prim.Native.Nat.{ℕ, suc, ◌+◌, ◌-◌, ◌%◌, ◌≤◌, ◌<◌}
use mathlib.Core.Path.{◌≡◌}
use mathlib.Core.Bool.{Bool}
use native.Mathlib.Omega.{arith}
use go_outbox.Base.Tests.{ltb, leb, if◌then◌else◌}

-- `negsuc n` is -(n + 1).
pub data ℤ : Type 0 where
  pos : ℕ → ℤ
  negsuc : ℕ → ℤ

abbrev pub pos_part : ℤ → ℕ
pos_part (pos n) = n
pos_part (negsuc n) = 0

abbrev pub neg_part : ℤ → ℕ
neg_part (pos n) = 0
neg_part (negsuc n) = suc n

-- a - b, as an integer.
abbrev pub sub_ℕ : ℕ → ℕ → ℤ
sub_ℕ a b = if leb b a then pos (a - b) else negsuc (b - a - 1)

infixl 65 ◌+ℤ◌ ◌-ℤ◌
infix 50 ◌≤ℤ◌ ◌<ℤ◌
unfoldable pub ◌+ℤ◌ : ℤ → ℤ → ℤ
a +ℤ b = sub_ℕ (pos_part a + pos_part b) (neg_part a + neg_part b)

unfoldable pub ◌-ℤ◌ : ℤ → ℤ → ℤ
a -ℤ b = sub_ℕ (pos_part a + neg_part b) (neg_part a + pos_part b)

abbrev pub ◌≤ℤ◌ : ℤ → ℤ → Type 0
a ≤ℤ b = pos_part a + neg_part b ≤ pos_part b + neg_part a

abbrev pub ◌<ℤ◌ : ℤ → ℤ → Type 0
a <ℤ b = pos_part a + neg_part b < pos_part b + neg_part a

abbrev pub leb_ℤ : ℤ → ℤ → Bool
leb_ℤ a b = leb (pos_part a + neg_part b) (pos_part b + neg_part a)

abbrev pub ltb_ℤ : ℤ → ℤ → Bool
ltb_ℤ a b = ltb (pos_part a + neg_part b) (pos_part b + neg_part a)

-- 2^63, one past the greatest int64.
abbrev pub i64_half : ℕ
i64_half = 0x8000000000000000

abbrev pub i64_mod : ℕ
i64_mod = 0x10000000000000000

-- The int64 that a residue below 2^64 stands for.
abbrev pub i64_of_bits : ℕ → ℤ
i64_of_bits u = if ltb u i64_half then pos u else negsuc (i64_mod - 1 - u)

-- The value of an int64 expression whose exact value is `a`.
abbrev pub wrap_i64 : ℤ → ℤ
wrap_i64 (pos n) = i64_of_bits (n % i64_mod)
wrap_i64 (negsuc n) = i64_of_bits (i64_mod - 1 - n % i64_mod)

-- The library's range of int64.
abbrev pub InI64 : ℤ → Type 0
InI64 a = (pos_part a < i64_half) × (neg_part a ≤ i64_half)

pub wrap_i64-InI64 : (a : ℤ) → InI64 (wrap_i64 a)
wrap_i64-InI64 a = ground arith

pub wrap_i64-id : (a : ℤ) → InI64 a → wrap_i64 a ≡ a
wrap_i64-id a h = ground arith
