-- ===== src/Dispatch/Breaker.antt =====
-- internal/dispatch/breaker.go: holding claims back while a broker is out of reach.
--
-- Durations are int64 nanoseconds, and doubling one wraps as Go's does. The zero `until` is `none`;
-- instants do not wrap.
pub mod Pauses
use go_outbox.Base.{
  ℕ, Bool, true, false, ◌&&◌, not, Option, none, some, if◌then◌else◌, ltb, ◌==◌, is_some,
}
use go_outbox.Base.Int.{ℤ, pos, negsuc, leb_ℤ, ltb_ℤ, ◌+ℤ◌, wrap_i64}

-- `Result` of pipeline.go: what one cycle did.
pub record Result : Type 0 where
  pub claimed : ℕ
  pub delivered : ℕ
  pub deferred : ℕ

unfoldable pub unreachable : Result → Bool
unreachable r = ltb 0 r.deferred && (r.delivered == 0)

pub record Breaker : Type 0 where
  pub first : ℤ
  pub ceiling : ℤ
  pub until : Option ℤ
  pub pause : ℤ

-- `newBreaker`: a first pause that is not positive becomes one second.
unfoldable pub new_breaker : ℤ → ℤ → Breaker
new_breaker first ceiling = record {
  first = if leb_ℤ first (pos 0) then pos 1000000000 else first;
  ceiling = ceiling;
  until = none;
  pause = pos 0;
}

-- `open`
unfoldable pub is_open : Breaker → Bool
is_open b = is_some b.until

abbrev pub before_until : ℤ → Option ℤ → Bool
before_until now none = false
before_until now (some u) = ltb_ℤ now u

unfoldable pub blocks : Breaker → ℤ → Bool
blocks b now = is_open b && before_until now b.until

unfoldable pub double : ℤ → ℤ
double d = wrap_i64 (d +ℤ d)

-- The pause after one more cycle that found the broker out of reach.
unfoldable pub next_pause : Breaker → ℤ
next_pause b =
    if leb_ℤ b.pause (pos 0)
    then b.first
    else if leb_ℤ (double b.pause) b.ceiling
    then double b.pause
    else b.ceiling

-- `observe`: the new state, and whether it changed whether claims are held back.
unfoldable pub observe : Breaker → ℤ → Result → Breaker × Bool
observe b now res =
    if leb_ℤ b.ceiling (pos 0)
    then (b, false)
    else (let b' =
          if unreachable res
          then record b { pause = next_pause b; until = some (now +ℤ next_pause b) }
          else record b { until = none; pause = pos 0 } in
        (b', if is_open b then not (is_open b') else is_open b'))
